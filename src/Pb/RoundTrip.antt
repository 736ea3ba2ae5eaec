-- ===== src/Pb/RoundTrip.antt =====
-- What Marshal of node/protocol/pb/msg.pb.go writes, Unmarshal reads back, and Size is its length.
use proxyot.Prelude.{◌^◌, ◌<◌, ◌≡◌, some, length, All}
use proxyot.Protocol.Ot.{OtChoiceRequest}
use proxyot.Protocol.Pre.{PreReEncryptRequest}
use proxyot.Protocol.Storage.{StorUploadRequest, StorDownloadRequest}
use proxyot.Pb.Messages.{
  CodeResponse, PeerResponse, marshal_ot_choice_request, size_ot_choice_request,
  unmarshal_ot_choice_request, marshal_pre_re_encrypt_request, size_pre_re_encrypt_request,
  unmarshal_pre_re_encrypt_request, marshal_stor_upload_request, size_stor_upload_request,
  unmarshal_stor_upload_request, marshal_stor_download_request, size_stor_download_request,
  unmarshal_stor_download_request, marshal_code_response, size_code_response,
  unmarshal_code_response, marshal_peer_response, size_peer_response, unmarshal_peer_response,
}
use proxyot.Pb.Lengths.{Short}
use proxyot.Pb.Requests.{
  ot_choice_request_returns, pre_re_encrypt_request_returns, stor_upload_request_returns,
  stor_download_request_returns,
}
use proxyot.Pb.Responses.{code_response_returns, peer_response_returns}

-- Bytes of lengths that an int64 holds, and numbers of their types.
abbrev IsUpload : StorUploadRequest → Type 0
IsUpload m = Short m.owner × Short m.sig × (m.set < 2 ^ 32) × Short m.cid × (m.file_size < 2 ^ 64)

-- For fields whose lengths an int64 holds, and numbers of the fields' types, Unmarshal returns the
-- message that was marshalled, for each of the requests and the responses, and Size is the number of
-- the bytes that are written, so that Marshal fills its buffer and does not write behind it.
pub wire_round_trip :
    (c : OtChoiceRequest) (p : PreReEncryptRequest) (u : StorUploadRequest)
    (d : StorDownloadRequest) (a : CodeResponse) (b : PeerResponse)
    → Short c.cid × Short c.owner × Short c.yp × Short c.lp
    → Short p.cid × Short p.lpp × All Short p.re_keys × Short p.txid
    → IsUpload u
    → Short d.owner × Short d.cid × Short d.txid
    → (a.error_code < 2 ^ 32) × Short a.error_msg
    → (b.error_code < 2 ^ 32) × Short b.error_msg × Short b.peer
    → ((unmarshal_ot_choice_request (marshal_ot_choice_request c) ≡ some c)
        × (length (marshal_ot_choice_request c) ≡ size_ot_choice_request c))
      × ((unmarshal_pre_re_encrypt_request (marshal_pre_re_encrypt_request p) ≡ some p)
          × (length (marshal_pre_re_encrypt_request p) ≡ size_pre_re_encrypt_request p))
      × ((unmarshal_stor_upload_request (marshal_stor_upload_request u) ≡ some u)
          × (length (marshal_stor_upload_request u) ≡ size_stor_upload_request u))
      × ((unmarshal_stor_download_request (marshal_stor_download_request d) ≡ some d)
          × (length (marshal_stor_download_request d) ≡ size_stor_download_request d))
      × ((unmarshal_code_response (marshal_code_response a) ≡ some a)
          × (length (marshal_code_response a) ≡ size_code_response a))
      × ((unmarshal_peer_response (marshal_peer_response b) ≡ some b)
          × (length (marshal_peer_response b) ≡ size_peer_response b))
wire_round_trip c p u d a b (c1, c2, c3, c4) (p1, p2, p3, p4) (u1, u2, u3, u4, u5) (d1, d2, d3)
      (a1, a2) (b1, b2, b3) =
    (
      ot_choice_request_returns c c1 c2 c3 c4,
      pre_re_encrypt_request_returns p p1 p2 p3 p4,
      stor_upload_request_returns u u1 u2 u3 u4 u5,
      stor_download_request_returns d d1 d2 d3,
      code_response_returns a a1 a2,
      peer_response_returns b b1 b2 b3,
    )
