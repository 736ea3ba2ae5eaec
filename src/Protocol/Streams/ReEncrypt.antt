-- ===== src/Protocol/Streams/ReEncrypt.antt =====
-- Re-keys over the streams: PreClient and PreServer of node/protocol/pre.go, with the bytes of
-- node/protocol/pb/msg.pb.go between them.
use proxyot.Prelude.{
  All, List, Option, ap, inl, inr, map, none, refl, some, ℕ, ◌<◌, ◌^◌, ◌∙◌, ◌≡◌, ◌⊎◌,
}
use proxyot.Prelude.Result.{ok}
use proxyot.Bn256.{Bn256, IsPairing}
use proxyot.Crypto.{Bytes}
use proxyot.Curve.{g1, g2, marshal}
use proxyot.Protocol.{unknown_error, PError, CidLib, IsCidLib, Response, pre_re_encrypt}
use proxyot.Protocol.Pre.{
  PreArgs, PreReEncryptRequest, on_re_encrypt_request, re_encrypt_request, send_re_encrypt,
}
use proxyot.Protocol.Transparency.{parse_re_encrypt-re_encrypt_request}
use proxyot.Protocol.Responses.{
  Push, IsPushed, waited, on_re_encrypt_response, pre_re_encrypt_response,
}
use proxyot.Protocol.Pool.{
  Received, message, timeout, returned, idle, Pool, register, Steps, Reachable,
}
use proxyot.Pb.Messages.{
  CodeResponse, marshal_pre_re_encrypt_request, marshal_code_response,
  unmarshal_pre_re_encrypt_request, unmarshal_code_response,
}
use proxyot.Pb.Lengths.{Short}
use proxyot.Pb.Requests.{pre_re_encrypt_request_returns}
use proxyot.Pb.Responses.{code_response_returns}
use proxyot.Protocol.Streams.{marshal_response, Network, IsNetwork, IsUp}
use proxyot.Protocol.Streams.Delivery.{
  carried, carried_returns, Makes, CanReturn, Makes-CanReturn, Makes-outcome, codes,
}

-- What the client's handler makes of the response, where the server sends one.
abbrev pub answer : Network → Option Response → Option Push
answer net none = none
answer net (some r) =
    on_re_encrypt_response
      (codes (carried net net.response unmarshal_code_response (marshal_response r)))

module _ ⦃bn : Bn256⦄ (lib : CidLib) (net : Network) {S : Type 0}
    (callback : PreArgs lib → S → PError × S) where
  -- The server's side of a request for a re-encryption: its response, and its state.
  abbrev pub served : PreReEncryptRequest → S → Option Response × S
  served req s =
      on_re_encrypt_request lib callback
        (carried net net.request unmarshal_pre_re_encrypt_request
          (marshal_pre_re_encrypt_request req))
        s

  -- What the client's handler pushes once the request is answered.
  abbrev pub reply : PreArgs lib → S → Option Push
  reply args s = answer net (served (re_encrypt_request lib args) s).0

module _ ⦃bn : Bn256⦄ (laws : IsPairing bn) (lib : CidLib) (decodes : IsCidLib lib) where
  bytes_reach_proxy :
      (net : Network) (net_laws : IsNetwork net) (up : IsUp net.request) {S : Type 0}
      (callback : PreArgs lib → S → PError × S) (s : S) (id tx : lib.Cid) (l : bn.G1)
      (ks : List bn.G2)
      → let args : PreArgs lib = record {
        cid = id;
        l_prime = g1 l;
        re_keys = map g2 ks;
        tx_id = tx;
      } in
        Short (lib.to_string id)
        → Short (marshal (g1 l))
        → All Short (map marshal (map g2 ks))
        → Short (lib.to_string tx)
        → served lib net callback (re_encrypt_request lib args) s ≡ (
          some (pre_re_encrypt (callback args s).0.code (callback args s).0.msg),
          (callback args s).1,
        )
  unfolding on_re_encrypt_request re_encrypt_request
  bytes_reach_proxy net net_laws up callback s id tx l ks h1 h2 h3 h4 =
      let args : PreArgs lib = record {
        cid = id;
        l_prime = g1 l;
        re_keys = map g2 ks;
        tx_id = tx;
      } in
      let read =
        carried_returns net net_laws net.request up unmarshal_pre_re_encrypt_request
          (marshal_pre_re_encrypt_request (re_encrypt_request lib args))
          (re_encrypt_request lib args)
          (pre_re_encrypt_request_returns (re_encrypt_request lib args) h1 h2 h3 h4).0 in
      rw (
        read,
        on_re_encrypt_request,
        parse_re_encrypt-re_encrypt_request laws lib decodes id tx l ks,
      )

  -- Over a network that carries both streams, with the messages as the bytes of their fields, let
  -- the identifiers, the points and the text of the answer be shorter than 2^63 and its code a
  -- uint32. Let the client's pool be reachable, with no Push under way and no Wait for this
  -- response, and let SendReEncrypt call Wait before the handler of the response pushes. Then the
  -- proxy's node gets the client's re-keys, points of G2, with LPrime in G1, and its state becomes
  -- what its OnReEncryptRequest makes of them; the Wait can register and the handler's Push run to
  -- its end, so that the Wait returns and SendReEncrypt returns the node's answer, code and text;
  -- and in whatever order the goroutines run, and if they push nothing but this, what SendReEncrypt
  -- returns once its Wait does is the same, or, where the context ended, an unknown error with the
  -- text of Wait's.
  pub re_encrypt_over_streams :
      (net : Network) (net_laws : IsNetwork net) (up : IsUp net.request) (back : IsUp net.response)
      {S : Type 0} (callback : PreArgs lib → S → PError × S) (s : S) (text : Bytes)
      (pool run : Pool Response) (k : ℕ) (r : Received Response) (id tx : lib.Cid) (l : bn.G1)
      (ks : List bn.G2)
      → let args : PreArgs lib = record {
        cid = id;
        l_prime = g1 l;
        re_keys = map g2 ks;
        tx_id = tx;
      } in
        Short (lib.to_string id)
        → Short (marshal (g1 l))
        → All Short (map marshal (map g2 ks))
        → Short (lib.to_string tx)
        → (callback args s).0.code < 2 ^ 32
        → Short (callback args s).0.msg
        → Reachable IsPushed pool
        → pool.readers ≡ 0
        → pool.pushers k ≡ idle
        → pool.m pre_re_encrypt_response ≡ none
        → Steps (Makes (reply lib net callback args s)) (register pre_re_encrypt_response pool) run
        → run.waiters pool.next ≡ returned r
        → ((served lib net callback (re_encrypt_request lib args) s).1 ≡ (callback args s).1)
          × ((x : Response) × CanReturn
                (reply lib net callback args s)
                pre_re_encrypt_response
                pool
                k
                x
              × (send_re_encrypt lib (λ req. waited text (message x)) args
                  ≡ ok (callback args s).0))
          × ((send_re_encrypt lib (λ req. waited text r) args ≡ ok (callback args s).0)
              ⊎ ((r ≡ timeout)
                  × (send_re_encrypt lib (λ req. waited text r) args ≡ ok (unknown_error text))))
  unfolding send_re_encrypt on_re_encrypt_response marshal_response
  re_encrypt_over_streams net net_laws up back callback s text pool run k r id tx l ks h1 h2 h3 h4
        code_fits short reachable quiet free none_yet steps w =
      let args : PreArgs lib = record {
        cid = id;
        l_prime = g1 l;
        re_keys = map g2 ks;
        tx_id = tx;
      } in
      let sent : CodeResponse = record {
        error_code = (callback args s).0.code;
        error_msg = (callback args s).0.msg;
      } in
      let read =
        carried_returns net net_laws net.response back unmarshal_code_response
          (marshal_code_response sent) sent (code_response_returns sent code_fits short).0 in
      let at_server = bytes_reach_proxy net net_laws up callback s id tx l ks h1 h2 h3 h4 in
      let x : Response = pre_re_encrypt (callback args s).0.code (callback args s).0.msg in
      let made : reply lib net callback args s ≡ some (pre_re_encrypt_response, x) =
        rw (at_server, read) in
      let answered : send_re_encrypt lib (λ req. waited text (message x)) args
          ≡ ok (callback args s).0 =
        refl in
      (
        rw at_server,
        (
          x,
          Makes-CanReturn (reply lib net callback args s) pre_re_encrypt_response x made pool k
              reachable quiet free none_yet,
          answered,
        ),
        elim (Makes-outcome (reply lib net callback args s) pre_re_encrypt_response x made pool run
            r reachable steps w) [
              | inl e ↦ inl (
                  ap (λ (a : Received Response). send_re_encrypt lib (λ req. waited text a) args) e
                  ∙ answered)
              | inr e ↦ inr (
                e,
                ap (λ (a : Received Response). send_re_encrypt lib (λ req. waited text a) args) e,
              )
            ],
      )
