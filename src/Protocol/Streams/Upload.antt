-- ===== src/Protocol/Streams/Upload.antt =====
-- Uploads over the streams: StorClient and StorServer of node/protocol/storage.go, with the bytes of
-- node/protocol/pb/msg.pb.go between them.
use proxyot.Prelude.{Option, [], ap, arith, inl, inr, none, refl, some, ℕ, ◌<◌, ◌^◌, ◌∙◌, ◌≡◌, ◌⊎◌}
use proxyot.Prelude.Result.{ok}
use proxyot.Bn256.{Bn256, IsPairing}
use proxyot.Crypto.{Bytes}
use proxyot.Curve.{g1, marshal}
use proxyot.Protocol.{PError, CidLib, IsCidLib, Response, stor_upload}
use proxyot.Protocol.Storage.{
  UploadTicket, StorUploadRequest, on_upload_request, upload_request, send_upload_request,
  pool_error,
}
use proxyot.Protocol.Transparency.{parse_upload-upload_request, client_error}
use proxyot.Protocol.Responses.{Push, IsPushed, waited, on_upload_response, stor_upload_response}
use proxyot.Protocol.Pool.{
  Received, message, timeout, returned, idle, Pool, register, Steps, Reachable,
}
use proxyot.Pb.Messages.{
  PeerResponse, marshal_stor_upload_request, marshal_peer_response, unmarshal_stor_upload_request,
  unmarshal_peer_response,
}
use proxyot.Pb.Lengths.{Short}
use proxyot.Pb.Requests.{stor_upload_request_returns}
use proxyot.Pb.Responses.{peer_response_returns}
use proxyot.Protocol.Streams.{marshal_response, Network, IsNetwork, IsUp}
use proxyot.Protocol.Streams.Delivery.{
  carried, carried_returns, Makes, CanReturn, Makes-CanReturn, Makes-outcome, peers,
}

-- What the client's handler makes of the response, where the server sends one.
abbrev pub answer : Network → Option Response → Option Push
answer net none = none
answer net (some r) =
    on_upload_response
      (peers (carried net net.response unmarshal_peer_response (marshal_response r)))

module _ ⦃bn : Bn256⦄ (lib : CidLib) (net : Network) {S : Type 0}
    (callback : UploadTicket lib → S → (Bytes × PError) × S) where
  -- The server's side of a request for an upload: its response, and its state.
  abbrev pub served : StorUploadRequest → S → Option Response × S
  served req s =
      on_upload_request lib callback
        (carried net net.request unmarshal_stor_upload_request (marshal_stor_upload_request req)) s

  -- What the client's handler pushes once the request is answered.
  abbrev pub reply : UploadTicket lib → S → Option Push
  reply ticket s = answer net (served (upload_request lib ticket) s).0

module _ ⦃bn : Bn256⦄ (laws : IsPairing bn) (lib : CidLib) (decodes : IsCidLib lib) where
  bytes_reach_proxy :
      (net : Network) (net_laws : IsNetwork net) (up : IsUp net.request) {S : Type 0}
      (callback : UploadTicket lib → S → (Bytes × PError) × S) (s : S) (o : bn.G1) (n size : ℕ)
      (id : lib.Cid)
      → let ticket : UploadTicket lib = record { owner = g1 o; set = n; cid = id; size = size } in
        Short (marshal (g1 o))
        → n < 2 ^ 32
        → Short (lib.to_string id)
        → size < 2 ^ 64
        → served lib net callback (upload_request lib ticket) s ≡ (
          some (
              stor_upload
                (callback ticket s).0.1.code
                (callback ticket s).0.1.msg
                (callback ticket s).0.0),
          (callback ticket s).1,
        )
  unfolding on_upload_request upload_request
  bytes_reach_proxy net net_laws up callback s o n size id h1 h2 h3 h4 =
      let ticket : UploadTicket lib = record { owner = g1 o; set = n; cid = id; size = size } in
      let read =
        carried_returns net net_laws net.request up unmarshal_stor_upload_request
          (marshal_stor_upload_request (upload_request lib ticket)) (upload_request lib ticket)
          (stor_upload_request_returns (upload_request lib ticket) h1 (omega arith) h2 h3 h4).0 in
      rw (read, on_upload_request, parse_upload-upload_request laws lib decodes o n size id)

  -- Over a network that carries both streams, with the messages as the bytes of their fields, let
  -- the identifier, the point and the two texts of the answer be shorter than 2^63, the set and the
  -- code uint32 and the size a uint64. Let the client's pool be reachable, with no Push under way
  -- and no Wait for this response, and let SendUploadRequest call Wait before the handler of the
  -- response pushes. Then the proxy's node gets the client's ticket, with an owner in G1, and its
  -- state becomes what its OnUploadRequest makes of it; the Wait can register and the handler's Push
  -- run to its end, so that the Wait returns and SendUploadRequest returns the node's uploader, and
  -- its error unless the code is 0; and in whatever order the goroutines run, and if they push
  -- nothing but this, what SendUploadRequest returns once its Wait does is the same, or, where the
  -- context ended, no uploader and the error of Wait.
  pub upload_over_streams :
      (net : Network) (net_laws : IsNetwork net) (up : IsUp net.request) (back : IsUp net.response)
      {S : Type 0} (callback : UploadTicket lib → S → (Bytes × PError) × S) (s : S) (text : Bytes)
      (pool run : Pool Response) (k : ℕ) (r : Received Response) (o : bn.G1) (n size : ℕ)
      (id : lib.Cid)
      → let ticket : UploadTicket lib = record { owner = g1 o; set = n; cid = id; size = size } in
        Short (marshal (g1 o))
        → n < 2 ^ 32
        → Short (lib.to_string id)
        → size < 2 ^ 64
        → (callback ticket s).0.1.code < 2 ^ 32
        → Short (callback ticket s).0.1.msg
        → Short (callback ticket s).0.0
        → Reachable IsPushed pool
        → pool.readers ≡ 0
        → pool.pushers k ≡ idle
        → pool.m stor_upload_response ≡ none
        → Steps (Makes (reply lib net callback ticket s)) (register stor_upload_response pool) run
        → run.waiters pool.next ≡ returned r
        → ((served lib net callback (upload_request lib ticket) s).1 ≡ (callback ticket s).1)
          × ((x : Response) × CanReturn
                (reply lib net callback ticket s)
                stor_upload_response
                pool
                k
                x
              × (send_upload_request lib (λ req. waited text (message x)) ticket
                  ≡ ok (
                    (callback ticket s).0.0,
                    client_error laws lib decodes (callback ticket s).0.1,
                  )))
          × ((send_upload_request lib (λ req. waited text r) ticket
                ≡ ok (
                  (callback ticket s).0.0,
                  client_error laws lib decodes (callback ticket s).0.1,
                ))
              ⊎ ((r ≡ timeout)
                  × (send_upload_request lib (λ req. waited text r) ticket
                      ≡ ok (([], pool_error text)))))
  unfolding send_upload_request on_upload_response marshal_response
  upload_over_streams net net_laws up back callback s text pool run k r o n size id h1 h2 h3 h4
        code_fits short short_peer reachable quiet free none_yet steps w =
      let ticket : UploadTicket lib = record { owner = g1 o; set = n; cid = id; size = size } in
      let sent : PeerResponse = record {
        error_code = (callback ticket s).0.1.code;
        error_msg = (callback ticket s).0.1.msg;
        peer = (callback ticket s).0.0;
      } in
      let read =
        carried_returns net net_laws net.response back unmarshal_peer_response
          (marshal_peer_response sent) sent
          (peer_response_returns sent code_fits short short_peer).0 in
      let at_server = bytes_reach_proxy net net_laws up callback s o n size id h1 h2 h3 h4 in
      let x : Response =
        stor_upload (callback ticket s).0.1.code (callback ticket s).0.1.msg
          (callback ticket s).0.0 in
      let made : reply lib net callback ticket s ≡ some (stor_upload_response, x) =
        rw (at_server, read) in
      let answered : send_upload_request lib (λ req. waited text (message x)) ticket
          ≡ ok ((callback ticket s).0.0, client_error laws lib decodes (callback ticket s).0.1) =
        refl in
      (
        rw at_server,
        (
          x,
          Makes-CanReturn (reply lib net callback ticket s) stor_upload_response x made pool k
              reachable quiet free none_yet,
          answered,
        ),
        elim (Makes-outcome (reply lib net callback ticket s) stor_upload_response x made pool run r
            reachable steps w) [
              | inl e ↦ inl (
                  ap
                    (λ (a : Received Response).
                      send_upload_request lib (λ req. waited text a) ticket)
                    e
                  ∙ answered)
              | inr e ↦ inr (
                e,
                ap
                    (λ (a : Received Response).
                      send_upload_request lib (λ req. waited text a) ticket)
                    e,
              )
            ],
      )
