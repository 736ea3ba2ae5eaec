-- ===== src/Protocol/Streams/Choice.antt =====
-- A choice over the streams: OtClient and OtServer of node/protocol/ot.go, with the bytes of
-- node/protocol/pb/msg.pb.go between them.
use proxyot.Prelude.{refl, ℕ, ◌⊎◌, inl, inr, ap, ◌∙◌, ◌^◌, ◌<◌, ◌≡◌, Option, some, none}
use proxyot.Prelude.Result.{ok}
use proxyot.Bn256.{Bn256, IsPairing}
use proxyot.Crypto.{Bytes}
use proxyot.Curve.{g1, marshal}
use proxyot.Protocol.{unknown_error, PError, CidLib, IsCidLib, Response, ot_choice}
use proxyot.Protocol.Ot.{OtChoice, OtChoiceRequest, on_choice_request, choice_request, send_choice}
use proxyot.Protocol.Transparency.{parse_choice-choice_request}
use proxyot.Protocol.Responses.{Push, IsPushed, waited, on_choice_response, ot_choice_response}
use proxyot.Protocol.Pool.{
  Received, message, timeout, returned, idle, Pool, register, Steps, Reachable,
}
use proxyot.Pb.Messages.{
  CodeResponse, marshal_ot_choice_request, marshal_code_response, unmarshal_ot_choice_request,
  unmarshal_code_response,
}
use proxyot.Pb.Lengths.{Short}
use proxyot.Pb.Requests.{ot_choice_request_returns}
use proxyot.Pb.Responses.{code_response_returns}
use proxyot.Protocol.Streams.{marshal_response, Network, IsNetwork, IsUp}
use proxyot.Protocol.Streams.Delivery.{
  carried, carried_returns, Makes, CanReturn, Makes-CanReturn, Makes-outcome, codes,
}

-- What the client's handler makes of the response, where the server sends one.
abbrev pub answer : Network → Option Response → Option Push
answer net none = none
answer net (some r) =
    on_choice_response
      (codes (carried net net.response unmarshal_code_response (marshal_response r)))

module _ ⦃bn : Bn256⦄ (lib : CidLib) (net : Network) {S : Type 0}
    (callback : OtChoice lib → S → PError × S) where
  -- The server's side of a request for a choice: its response, and its state.
  abbrev pub served : OtChoiceRequest → S → Option Response × S
  served req s =
      on_choice_request lib callback
        (carried net net.request unmarshal_ot_choice_request (marshal_ot_choice_request req)) s

  -- What the client's handler pushes once the request is answered.
  abbrev pub reply : OtChoice lib → S → Option Push
  reply choice s = answer net (served (choice_request lib choice) s).0

module _ ⦃bn : Bn256⦄ (laws : IsPairing bn) (lib : CidLib) (decodes : IsCidLib lib) where
  bytes_reach_owner :
      (net : Network) (net_laws : IsNetwork net) (up : IsUp net.request) {S : Type 0}
      (callback : OtChoice lib → S → PError × S) (s : S) (id : lib.Cid) (o y l : bn.G1)
      → let choice : OtChoice lib = record { cid = id; owner = g1 o; y = g1 y; l = g1 l } in
        Short (lib.to_string id)
        → Short (marshal (g1 o))
        → Short (marshal (g1 y))
        → Short (marshal (g1 l))
        → served lib net callback (choice_request lib choice) s ≡ (
          some (ot_choice (callback choice s).0.code (callback choice s).0.msg),
          (callback choice s).1,
        )
  unfolding on_choice_request choice_request
  bytes_reach_owner net net_laws up callback s id o y l h1 h2 h3 h4 =
      let choice : OtChoice lib = record { cid = id; owner = g1 o; y = g1 y; l = g1 l } in
      let read =
        carried_returns net net_laws net.request up unmarshal_ot_choice_request
          (marshal_ot_choice_request (choice_request lib choice)) (choice_request lib choice)
          (ot_choice_request_returns (choice_request lib choice) h1 h2 h3 h4).0 in
      rw (read, on_choice_request, parse_choice-choice_request laws lib decodes id o y l)

  -- Over a network that carries both streams, with the messages as the bytes of their fields, let
  -- the identifier, the points and the text of the answer be shorter than 2^63 and its code a
  -- uint32. Let the client's pool be reachable, with no Push under way and no Wait for this
  -- response, and let SendChoice call Wait before the handler of the response pushes. Then the
  -- owner's node gets the client's choice, with points of G1, and its state becomes what its
  -- OnChoiceRequest makes of it; the Wait can register and the handler's Push run to its end, so
  -- that the Wait returns and SendChoice returns the node's answer, code and text; and in whatever
  -- order the goroutines run, and if they push nothing but this, what SendChoice returns once its
  -- Wait does is the same, or, where the context ended, an unknown error with the text of Wait's.
  pub choice_over_streams :
      (net : Network) (net_laws : IsNetwork net) (up : IsUp net.request) (back : IsUp net.response)
      {S : Type 0} (callback : OtChoice lib → S → PError × S) (s : S) (text : Bytes)
      (pool run : Pool Response) (k : ℕ) (r : Received Response) (id : lib.Cid) (o y l : bn.G1)
      → let choice : OtChoice lib = record { cid = id; owner = g1 o; y = g1 y; l = g1 l } in
        Short (lib.to_string id)
        → Short (marshal (g1 o))
        → Short (marshal (g1 y))
        → Short (marshal (g1 l))
        → (callback choice s).0.code < 2 ^ 32
        → Short (callback choice s).0.msg
        → Reachable IsPushed pool
        → pool.readers ≡ 0
        → pool.pushers k ≡ idle
        → pool.m ot_choice_response ≡ none
        → Steps (Makes (reply lib net callback choice s)) (register ot_choice_response pool) run
        → run.waiters pool.next ≡ returned r
        → ((served lib net callback (choice_request lib choice) s).1 ≡ (callback choice s).1)
          × ((x : Response) × CanReturn
                (reply lib net callback choice s)
                ot_choice_response
                pool
                k
                x
              × (send_choice lib (λ req. waited text (message x)) choice
                  ≡ ok (callback choice s).0))
          × ((send_choice lib (λ req. waited text r) choice ≡ ok (callback choice s).0)
              ⊎ ((r ≡ timeout)
                  × (send_choice lib (λ req. waited text r) choice ≡ ok (unknown_error text))))
  unfolding send_choice on_choice_response marshal_response
  choice_over_streams net net_laws up back callback s text pool run k r id o y l h1 h2 h3 h4
        code_fits short reachable quiet free none_yet steps w =
      let choice : OtChoice lib = record { cid = id; owner = g1 o; y = g1 y; l = g1 l } in
      let sent : CodeResponse = record {
        error_code = (callback choice s).0.code;
        error_msg = (callback choice s).0.msg;
      } in
      let read =
        carried_returns net net_laws net.response back unmarshal_code_response
          (marshal_code_response sent) sent (code_response_returns sent code_fits short).0 in
      let at_server = bytes_reach_owner net net_laws up callback s id o y l h1 h2 h3 h4 in
      let x : Response = ot_choice (callback choice s).0.code (callback choice s).0.msg in
      let made : reply lib net callback choice s ≡ some (ot_choice_response, x) =
        rw (at_server, read) in
      let answered : send_choice lib (λ req. waited text (message x)) choice
          ≡ ok (callback choice s).0 =
        refl in
      (
        rw at_server,
        (
          x,
          Makes-CanReturn (reply lib net callback choice s) ot_choice_response x made pool k
              reachable quiet free none_yet,
          answered,
        ),
        elim (Makes-outcome (reply lib net callback choice s) ot_choice_response x made pool run r
            reachable steps w) [
              | inl e ↦ inl (
                  ap (λ (a : Received Response). send_choice lib (λ req. waited text a) choice) e
                  ∙ answered)
              | inr e ↦ inr (
                e,
                ap (λ (a : Received Response). send_choice lib (λ req. waited text a) choice) e,
              )
            ],
      )
