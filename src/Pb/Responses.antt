-- ===== src/Pb/Responses.antt =====
-- The responses of node/protocol/pb/msg.pb.go: Unmarshal, Marshal and Size of each.
use proxyot.Prelude.{suc, ◌^◌, ◌<◌, ◌≡◌, refl, arith, some, [], ◌++◌, length, length-append}
use proxyot.Pb.{put_bytes, put_number, unmarshal}
use proxyot.Pb.Fields.{Decodes, Decodes-nothing, Decodes-bytes, Decodes-number}
use proxyot.Pb.Messages.{
  CodeResponse, PeerResponse, marshal_code_response, size_code_response, code_response_kinds,
  empty_code_response, unmarshal_code_response, marshal_peer_response, size_peer_response,
  peer_response_kinds, empty_peer_response, unmarshal_peer_response,
}
use proxyot.Pb.Lengths.{Short, length-put_bytes, length-put_number}

pub code_response_returns :
    (m : CodeResponse)
    → m.error_code < 2 ^ 32
    → Short m.error_msg
    → (unmarshal_code_response (marshal_code_response m) ≡ some m)
      × (length (marshal_code_response m) ≡ size_code_response m)
unfolding marshal_code_response size_code_response unmarshal_code_response unmarshal
code_response_returns m h1 h2 = (
  decoded (suc (length (marshal_code_response m))) (omega arith),
  omega (
    arith,
    length-append (put_number 8 m.error_code) (put_bytes 18 m.error_msg ++ ([])),
    length-append (put_bytes 18 m.error_msg) ([]),
    length-put_bytes 18 m.error_msg,
    length-put_number 8 m.error_code,
  ),
)
  where
    decoded : Decodes code_response_kinds empty_code_response (marshal_code_response m) m
    decoded =
        Decodes-number code_response_kinds 1 (2 ^ 32) _ _ m m.error_code _ (omega arith)
          (omega arith) refl h1 (omega (arith, h1)) refl
          (Decodes-bytes code_response_kinds 2 _ _ m m.error_msg _ (omega arith) (omega arith) refl
            h2 refl (Decodes-nothing code_response_kinds m))

pub peer_response_returns :
    (m : PeerResponse)
    → m.error_code < 2 ^ 32
    → Short m.error_msg
    → Short m.peer
    → (unmarshal_peer_response (marshal_peer_response m) ≡ some m)
      × (length (marshal_peer_response m) ≡ size_peer_response m)
unfolding marshal_peer_response size_peer_response unmarshal_peer_response unmarshal
peer_response_returns m h1 h2 h3 = (
  decoded (suc (length (marshal_peer_response m))) (omega arith),
  omega (
    arith,
    length-append (put_number 8 m.error_code)
        (put_bytes 18 m.error_msg ++ (put_bytes 26 m.peer ++ ([]))),
    length-append (put_bytes 18 m.error_msg) (put_bytes 26 m.peer ++ ([])),
    length-append (put_bytes 26 m.peer) ([]),
    length-put_bytes 26 m.peer,
    length-put_bytes 18 m.error_msg,
    length-put_number 8 m.error_code,
  ),
)
  where
    decoded : Decodes peer_response_kinds empty_peer_response (marshal_peer_response m) m
    decoded =
        Decodes-number peer_response_kinds 1 (2 ^ 32) _ _ m m.error_code _ (omega arith)
          (omega arith) refl h1 (omega (arith, h1)) refl
          (Decodes-bytes peer_response_kinds 2 _ _ m m.error_msg _ (omega arith) (omega arith) refl
            h2 refl
            (Decodes-bytes peer_response_kinds 3 _ _ m m.peer _ (omega arith) (omega arith) refl h3
              refl (Decodes-nothing peer_response_kinds m)))
