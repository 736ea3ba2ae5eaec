-- ===== src/Pb/Messages.antt =====
-- node/protocol/pb/msg.pb.go: Marshal, Size and Unmarshal of the messages, field by field.
use proxyot.Prelude.{ℕ, ◌+◌, ◌^◌, Option, [], ◌∷◌, ◌++◌}
use proxyot.Crypto.{Bytes}
use proxyot.Protocol.Ot.{OtChoiceRequest}
use proxyot.Protocol.Pre.{PreReEncryptRequest}
use proxyot.Protocol.Storage.{StorUploadRequest, StorDownloadRequest}
use proxyot.Pb.{
  put_bytes, put_number, put_list, size_bytes, size_number, size_list, Kind, bytes_field,
  number_field, field_at, unmarshal,
}

-- OtChoiceResponse and PreReEncryptResponse
pub record CodeResponse : Type 0 where
  pub error_code : ℕ
  pub error_msg : Bytes

-- StorUploadResponse, whose peer is the uploader, and StorDownloadResponse, where it is the downloader
pub record PeerResponse : Type 0 where
  pub error_code : ℕ
  pub error_msg : Bytes
  pub peer : Bytes

-- OtChoiceRequest
unfoldable pub marshal_ot_choice_request : OtChoiceRequest → Bytes
marshal_ot_choice_request m =
    put_bytes 10 m.cid ++ (put_bytes 18 m.owner ++ (put_bytes 26 m.yp ++ (put_bytes 34 m.lp ++ [])))

unfoldable pub size_ot_choice_request : OtChoiceRequest → ℕ
size_ot_choice_request m = size_bytes m.cid + size_bytes m.owner + size_bytes m.yp + size_bytes m.lp

abbrev pub ot_choice_request_kinds : ℕ → Kind OtChoiceRequest
ot_choice_request_kinds = field_at (
    bytes_field (λ b m. record m { cid = b })
    ∷ bytes_field (λ b m. record m { owner = b })
    ∷ bytes_field (λ b m. record m { yp = b })
    ∷ bytes_field (λ b m. record m { lp = b })
    ∷ [])

abbrev pub empty_ot_choice_request : OtChoiceRequest
empty_ot_choice_request = record { cid = []; owner = []; yp = []; lp = [] }

unfoldable pub unmarshal_ot_choice_request : Bytes → Option OtChoiceRequest
unmarshal_ot_choice_request = unmarshal ot_choice_request_kinds empty_ot_choice_request

-- PreReEncryptRequest
unfoldable pub marshal_pre_re_encrypt_request : PreReEncryptRequest → Bytes
marshal_pre_re_encrypt_request m =
    put_bytes 10 m.cid
    ++ (put_bytes 18 m.lpp ++ (put_list 26 m.re_keys ++ (put_bytes 34 m.txid ++ [])))

unfoldable pub size_pre_re_encrypt_request : PreReEncryptRequest → ℕ
size_pre_re_encrypt_request m =
    size_bytes m.cid + size_bytes m.lpp + size_list m.re_keys + size_bytes m.txid

abbrev pub pre_re_encrypt_request_kinds : ℕ → Kind PreReEncryptRequest
pre_re_encrypt_request_kinds = field_at (
    bytes_field (λ b m. record m { cid = b })
    ∷ bytes_field (λ b m. record m { lpp = b })
    ∷ bytes_field (λ b m. record m { re_keys = m.re_keys ++ b ∷ [] })
    ∷ bytes_field (λ b m. record m { txid = b })
    ∷ [])

abbrev pub empty_pre_re_encrypt_request : PreReEncryptRequest
empty_pre_re_encrypt_request = record { cid = []; lpp = []; re_keys = []; txid = [] }

unfoldable pub unmarshal_pre_re_encrypt_request : Bytes → Option PreReEncryptRequest
unmarshal_pre_re_encrypt_request =
    unmarshal pre_re_encrypt_request_kinds empty_pre_re_encrypt_request

-- StorUploadRequest
unfoldable pub marshal_stor_upload_request : StorUploadRequest → Bytes
marshal_stor_upload_request m =
    put_bytes 10 m.owner
    ++ (put_bytes 18 m.sig
        ++ (put_number 24 m.set ++ (put_bytes 34 m.cid ++ (put_number 40 m.file_size ++ []))))

unfoldable pub size_stor_upload_request : StorUploadRequest → ℕ
size_stor_upload_request m =
    size_bytes m.owner
    + size_bytes m.sig
    + size_number m.set
    + size_bytes m.cid
    + size_number m.file_size

abbrev pub stor_upload_request_kinds : ℕ → Kind StorUploadRequest
stor_upload_request_kinds = field_at (
    bytes_field (λ b m. record m { owner = b })
    ∷ bytes_field (λ b m. record m { sig = b })
    ∷ number_field (2 ^ 32) (λ v m. record m { set = v })
    ∷ bytes_field (λ b m. record m { cid = b })
    ∷ number_field (2 ^ 64) (λ v m. record m { file_size = v })
    ∷ [])

abbrev pub empty_stor_upload_request : StorUploadRequest
empty_stor_upload_request = record { owner = []; sig = []; set = 0; cid = []; file_size = 0 }

unfoldable pub unmarshal_stor_upload_request : Bytes → Option StorUploadRequest
unmarshal_stor_upload_request = unmarshal stor_upload_request_kinds empty_stor_upload_request

-- StorDownloadRequest
unfoldable pub marshal_stor_download_request : StorDownloadRequest → Bytes
marshal_stor_download_request m =
    put_bytes 10 m.owner ++ (put_bytes 18 m.cid ++ (put_bytes 26 m.txid ++ []))

unfoldable pub size_stor_download_request : StorDownloadRequest → ℕ
size_stor_download_request m = size_bytes m.owner + size_bytes m.cid + size_bytes m.txid

abbrev pub stor_download_request_kinds : ℕ → Kind StorDownloadRequest
stor_download_request_kinds = field_at (
    bytes_field (λ b m. record m { owner = b })
    ∷ bytes_field (λ b m. record m { cid = b })
    ∷ bytes_field (λ b m. record m { txid = b })
    ∷ [])

abbrev pub empty_stor_download_request : StorDownloadRequest
empty_stor_download_request = record { owner = []; cid = []; txid = [] }

unfoldable pub unmarshal_stor_download_request : Bytes → Option StorDownloadRequest
unmarshal_stor_download_request = unmarshal stor_download_request_kinds empty_stor_download_request

-- CodeResponse
unfoldable pub marshal_code_response : CodeResponse → Bytes
marshal_code_response m = put_number 8 m.error_code ++ (put_bytes 18 m.error_msg ++ [])

unfoldable pub size_code_response : CodeResponse → ℕ
size_code_response m = size_number m.error_code + size_bytes m.error_msg

abbrev pub code_response_kinds : ℕ → Kind CodeResponse
code_response_kinds = field_at (
    number_field (2 ^ 32) (λ v m. record m { error_code = v })
    ∷ bytes_field (λ b m. record m { error_msg = b })
    ∷ [])

abbrev pub empty_code_response : CodeResponse
empty_code_response = record { error_code = 0; error_msg = [] }

unfoldable pub unmarshal_code_response : Bytes → Option CodeResponse
unmarshal_code_response = unmarshal code_response_kinds empty_code_response

-- PeerResponse
unfoldable pub marshal_peer_response : PeerResponse → Bytes
marshal_peer_response m =
    put_number 8 m.error_code ++ (put_bytes 18 m.error_msg ++ (put_bytes 26 m.peer ++ []))

unfoldable pub size_peer_response : PeerResponse → ℕ
size_peer_response m = size_number m.error_code + size_bytes m.error_msg + size_bytes m.peer

abbrev pub peer_response_kinds : ℕ → Kind PeerResponse
peer_response_kinds = field_at (
    number_field (2 ^ 32) (λ v m. record m { error_code = v })
    ∷ bytes_field (λ b m. record m { error_msg = b })
    ∷ bytes_field (λ b m. record m { peer = b })
    ∷ [])

abbrev pub empty_peer_response : PeerResponse
empty_peer_response = record { error_code = 0; error_msg = []; peer = [] }

unfoldable pub unmarshal_peer_response : Bytes → Option PeerResponse
unmarshal_peer_response = unmarshal peer_response_kinds empty_peer_response
