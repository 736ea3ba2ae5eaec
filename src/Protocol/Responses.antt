-- ===== src/Protocol/Responses.antt =====
-- The handlers of the responses, in node/protocol/ot.go, pre.go and storage.go: each pushes what it
-- reads to the pool of its client, under the protocol that the client waits for. A stream that cannot
-- be read is dropped.
pub mod Assertions
use mathlib.Core.Path.{subst}
use proxyot.Prelude.{
  ◌==◌, false, get_elem?, ==-false_iff, ℕ, ◌≡◌, ◌≢◌, refl, sym, ap, ◌∙◌, Option, some, none, List,
  [], ◌∷◌,
}
use proxyot.Prelude.Result.{Result, ok, panic, bad_assertion}
use proxyot.Bn256.{Bn256}
use proxyot.Crypto.{Bytes}
use proxyot.Protocol.{
  CidLib, Response, ot_choice, pre_re_encrypt, stor_upload, stor_download, Waited, arrived,
  nil_arrived, failed,
}
use proxyot.Protocol.Ot.{OtChoice, OtChoiceRequest, send_choice}
use proxyot.Protocol.Pre.{PreArgs, send_re_encrypt}
use proxyot.Protocol.Storage.{
  UploadTicket, DownloadTicket, send_upload_request, send_download_request,
}
use proxyot.Protocol.Pool.{Received, message, nil_message, timeout, returned, Pool, Reachable}
use proxyot.Protocol.Pool.Invariant.{IsFor}
use proxyot.Protocol.Pool.Delivery.{wait_outcome}

-- "/proxyot/ot/choiceresp/0.0.1"
abbrev pub ot_choice_response : Bytes
ot_choice_response =
    47 ∷ 112 ∷ 114 ∷ 111 ∷ 120 ∷ 121 ∷ 111 ∷ 116 ∷ 47 ∷ 111 ∷ 116 ∷ 47 ∷ 99 ∷ 104 ∷ 111 ∷ 105 ∷ 99
    ∷ 101 ∷ 114 ∷ 101 ∷ 115 ∷ 112 ∷ 47 ∷ 48 ∷ 46 ∷ 48 ∷ 46 ∷ 49 ∷ []

-- "/proxyot/pre/reencryptresp/0.0.1"
abbrev pub pre_re_encrypt_response : Bytes
pre_re_encrypt_response =
    47 ∷ 112 ∷ 114 ∷ 111 ∷ 120 ∷ 121 ∷ 111 ∷ 116 ∷ 47 ∷ 112 ∷ 114 ∷ 101 ∷ 47 ∷ 114 ∷ 101 ∷ 101 ∷ 110
    ∷ 99 ∷ 114 ∷ 121 ∷ 112 ∷ 116 ∷ 114 ∷ 101 ∷ 115 ∷ 112 ∷ 47 ∷ 48 ∷ 46 ∷ 48 ∷ 46 ∷ 49 ∷ []

-- "/proxyot/stor/uploadresp/0.0.1"
abbrev pub stor_upload_response : Bytes
stor_upload_response =
    47 ∷ 112 ∷ 114 ∷ 111 ∷ 120 ∷ 121 ∷ 111 ∷ 116 ∷ 47 ∷ 115 ∷ 116 ∷ 111 ∷ 114 ∷ 47 ∷ 117 ∷ 112 ∷ 108
    ∷ 111 ∷ 97 ∷ 100 ∷ 114 ∷ 101 ∷ 115 ∷ 112 ∷ 47 ∷ 48 ∷ 46 ∷ 48 ∷ 46 ∷ 49 ∷ []

-- "/proxyot/stor/downloadresp/0.0.1"
abbrev pub stor_download_response : Bytes
stor_download_response =
    47 ∷ 112 ∷ 114 ∷ 111 ∷ 120 ∷ 121 ∷ 111 ∷ 116 ∷ 47 ∷ 115 ∷ 116 ∷ 111 ∷ 114 ∷ 47 ∷ 100 ∷ 111 ∷ 119
    ∷ 110 ∷ 108 ∷ 111 ∷ 97 ∷ 100 ∷ 114 ∷ 101 ∷ 115 ∷ 112 ∷ 47 ∷ 48 ∷ 46 ∷ 48 ∷ 46 ∷ 49 ∷ []

-- A call of Push.
abbrev pub Push : Type 0
Push = Bytes × Response

-- onChoiceResponse(s)
unfoldable pub on_choice_response : Option (ℕ × Bytes) → Option Push
on_choice_response none = none
on_choice_response (some (code, msg)) = some (ot_choice_response, ot_choice code msg)

-- onReEncryptResponse(s)
unfoldable pub on_re_encrypt_response : Option (ℕ × Bytes) → Option Push
on_re_encrypt_response none = none
on_re_encrypt_response (some (code, msg)) = some (pre_re_encrypt_response, pre_re_encrypt code msg)

-- onUploadResponse(s)
unfoldable pub on_upload_response : Option (ℕ × Bytes × Bytes) → Option Push
on_upload_response none = none
on_upload_response (some (code, msg, uploader)) =
    some (stor_upload_response, stor_upload code msg uploader)

-- onDownloadResponse(s)
unfoldable pub on_download_response : Option (ℕ × Bytes × Bytes) → Option Push
on_download_response none = none
on_download_response (some (code, msg, downloader)) =
    some (stor_download_response, stor_download code msg downloader)

-- A Push that some handler makes.
pub data IsPushed (p : Bytes) (r : Response) : Type 0 where
  choice : (m : Option (ℕ × Bytes)) → on_choice_response m ≡ some (p, r) → IsPushed p r
  re_encryption : (m : Option (ℕ × Bytes)) → on_re_encrypt_response m ≡ some (p, r) → IsPushed p r
  upload : (m : Option (ℕ × Bytes × Bytes)) → on_upload_response m ≡ some (p, r) → IsPushed p r
  download : (m : Option (ℕ × Bytes × Bytes)) → on_download_response m ≡ some (p, r) → IsPushed p r

-- What Wait returns, with the text of its error.
abbrev pub waited : Bytes → Received Response → Waited
waited text (message r) = arrived r
waited text nil_message = nil_arrived
waited text timeout = failed text
