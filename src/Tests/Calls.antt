-- ===== src/Tests/Calls.antt =====
-- Calls over the network at concrete values: identifiers are their texts, and a node counts its calls.
use proxyot.Prelude.{◌⊎◌, ℕ, suc, ◌≡◌, refl, arith, true, Option, none, some, List, [], ◌∷◌}
use proxyot.Prelude.Result.{Result, ok}
use proxyot.Crypto.{Bytes}
use proxyot.Curve.{g1, g2, marshal}
use proxyot.Protocol.{Response, Waited, unknown_error, PError, CidLib, IsCidLib}
use proxyot.Protocol.Ot.{OtChoice, choice_request, send_choice}
use proxyot.Protocol.Pre.{PreArgs, re_encrypt_request, send_re_encrypt}
use proxyot.Protocol.Storage.{
  UploadTicket, DownloadTicket, peer_error, pool_error, upload_request, download_request,
  send_upload_request, send_download_request,
}
use proxyot.Protocol.Streams.{Link, StreamCall, write_msg, full_close, Network, IsNetwork, IsUp}
use proxyot.Protocol.Streams.Choice
use proxyot.Protocol.Streams.Choice.{choice_over_streams}
use proxyot.Protocol.Streams.ReEncrypt
use proxyot.Protocol.Streams.ReEncrypt.{re_encrypt_over_streams}
use proxyot.Protocol.Streams.Upload
use proxyot.Protocol.Streams.Upload.{upload_over_streams}
use proxyot.Protocol.Streams.Download
use proxyot.Protocol.Streams.Download.{download_over_streams}
use proxyot.Protocol.Streams.Delivery.{Makes, CanReturn}
use proxyot.Protocol.Pool.{
  Received, message, timeout, returned, idle, Pool, new_message_pool, register, leave, unregister,
  wait_ends, wait_returns, Steps, stays, and_then, start,
}
use proxyot.Protocol.Responses.{
  Push, waited, ot_choice_response, pre_re_encrypt_response, stor_upload_response,
  stor_download_response,
}
use proxyot.Pb.Lengths.{Short}
use proxyot.Tests.Toy.{toy, toy-IsPairing, z7}

abbrev texts : CidLib
texts = record { Cid = Bytes; decode = some; to_string = λ c. c }

texts-IsCidLib : IsCidLib texts
texts-IsCidLib = record { decode-to_string = λ c. refl }

abbrev busy : PError
busy = record { code = 3; msg = 98 ∷ 117 ∷ [] }

abbrev choice : OtChoice ⦃bn = toy⦄ texts
choice = record { cid = 1 ∷ []; owner = g1 (z7 3); y = g1 (z7 4); l = g1 (z7 5) }

abbrev refuse : OtChoice ⦃bn = toy⦄ texts → ℕ → PError × ℕ
refuse c n = (busy, suc n)

abbrev up : Link
up = record { opens = true; writes = true; closes = true }

up-IsUp : IsUp up
up-IsUp = record { opened = refl; written = refl; closed = refl }

-- A message is read where its stream was closed and not reset.
abbrev read_written : List StreamCall → Option Bytes
read_written (write_msg b ∷ full_close ∷ []) = some b
read_written calls = none

abbrev wire : Network
wire = record { request = up; response = up; read_all = read_written }

wire-IsNetwork : IsNetwork wire
wire-IsNetwork = record { read_closed = λ b. refl }

Short-marshal_g1 : (k : ℕ) → Short (marshal ⦃bn = toy⦄ (g1 (z7 k)))
unfolding marshal
Short-marshal_g1 k = omega arith

Short-marshal_g2 : (k : ℕ) → Short (marshal ⦃bn = toy⦄ (g2 (z7 k)))
unfolding marshal
Short-marshal_g2 k = omega arith

-- A new client with a Wait for the protocol, whose context ends.
abbrev timed_out : Bytes → Pool Response
timed_out id = unregister 0 timeout (leave 0 timeout (register id new_message_pool))

timed_out-Steps :
    (a : Option Push) (id : Bytes) → Steps (Makes a) (register id new_message_pool) (timed_out id)
unfolding unregister leave register new_message_pool
timed_out-Steps a id =
    and_then (and_then stays (wait_ends 0 refl)) (wait_returns 0 timeout refl refl)

timed_out-returned :
    (id : Bytes) → (timed_out id).waiters (new_message_pool {M = Response}).next ≡ returned timeout
unfolding unregister leave register new_message_pool
timed_out-returned id = refl

new_quiet : (new_message_pool {M = Response}).readers ≡ 0
unfolding new_message_pool
new_quiet = refl

new_idle : (new_message_pool {M = Response}).pushers 0 ≡ idle
unfolding new_message_pool
new_idle = refl

new_free : (id : Bytes) → (new_message_pool {M = Response}).m id ≡ none
unfolding new_message_pool
new_free id = refl

-- The response can arrive at the first Wait of a new client, and is the answer.
abbrev Arrives : {A : Type 0} → Option Push → Bytes → (Waited → Result A) → Result A → Type 0
Arrives a id client answer =
    (x : Response) × CanReturn a id new_message_pool 0 x × (client (waited [] (message x)) ≡ answer)

-- With what the Wait returns, the client returns the answer, or the error of a timeout.
abbrev Settles :
    {A : Type 0} → (Waited → Result A) → Result A → Result A → Received Response → Type 0
Settles client answer unanswered r =
    (client (waited [] r) ≡ answer) ⊎ ((r ≡ timeout) × (client (waited [] r) ≡ unanswered))

abbrev choice_reply : Option Push
choice_reply = Choice.reply ⦃bn = toy⦄ texts wire refuse choice 0

abbrev ChoiceCalled : Received Response → Type 0
ChoiceCalled r =
    ((Choice.served ⦃bn = toy⦄ texts wire refuse (choice_request ⦃bn = toy⦄ texts choice) 0).1 ≡ 1)
    × Arrives choice_reply ot_choice_response (λ w. send_choice ⦃bn = toy⦄ texts (λ req. w) choice)
        (ok busy)
    × Settles (λ w. send_choice ⦃bn = toy⦄ texts (λ req. w) choice) (ok busy)
        (ok (unknown_error [])) r

choice_timeout : ChoiceCalled timeout
choice_timeout =
    choice_over_streams ⦃bn = toy⦄ toy-IsPairing texts texts-IsCidLib wire wire-IsNetwork up-IsUp
      up-IsUp refuse 0 [] new_message_pool (timed_out ot_choice_response) 0 timeout (1 ∷ []) (z7 3)
      (z7 4) (z7 5) (omega arith) (Short-marshal_g1 3) (Short-marshal_g1 4) (Short-marshal_g1 5)
      (omega arith) (omega arith) start new_quiet new_idle (new_free ot_choice_response)
      (timed_out-Steps choice_reply ot_choice_response) (timed_out-returned ot_choice_response)

-- The run in which the response arrives.
choice_over_streams_example : ChoiceCalled (message choice_timeout.1.0)
choice_over_streams_example =
    choice_over_streams ⦃bn = toy⦄ toy-IsPairing texts texts-IsCidLib wire wire-IsNetwork up-IsUp
      up-IsUp refuse 0 [] new_message_pool choice_timeout.1.1.1.0 0 (message choice_timeout.1.0)
      (1 ∷ []) (z7 3) (z7 4) (z7 5) (omega arith) (Short-marshal_g1 3) (Short-marshal_g1 4)
      (Short-marshal_g1 5) (omega arith) (omega arith) start new_quiet new_idle
      (new_free ot_choice_response) choice_timeout.1.1.1.1 choice_timeout.1.1.1.3

abbrev args : PreArgs ⦃bn = toy⦄ texts
args = record {
  cid = 1 ∷ [];
  l_prime = g1 (z7 3);
  re_keys = g2 (z7 4) ∷ g2 (z7 5) ∷ [];
  tx_id = 2 ∷ [];
}

abbrev refuse_keys : PreArgs ⦃bn = toy⦄ texts → ℕ → PError × ℕ
refuse_keys c n = (busy, suc n)

abbrev re_encrypt_reply : Option Push
re_encrypt_reply = ReEncrypt.reply ⦃bn = toy⦄ texts wire refuse_keys args 0

abbrev ReEncryptCalled : Received Response → Type 0
ReEncryptCalled r =
    ((ReEncrypt.served ⦃bn = toy⦄ texts wire refuse_keys (re_encrypt_request ⦃bn = toy⦄ texts args)
        0).1
      ≡ 1)
    × Arrives re_encrypt_reply pre_re_encrypt_response
        (λ w. send_re_encrypt ⦃bn = toy⦄ texts (λ req. w) args) (ok busy)
    × Settles (λ w. send_re_encrypt ⦃bn = toy⦄ texts (λ req. w) args) (ok busy)
        (ok (unknown_error [])) r

re_encrypt_timeout : ReEncryptCalled timeout
re_encrypt_timeout =
    re_encrypt_over_streams ⦃bn = toy⦄ toy-IsPairing texts texts-IsCidLib wire wire-IsNetwork
      up-IsUp up-IsUp refuse_keys 0 [] new_message_pool (timed_out pre_re_encrypt_response) 0
      timeout (1 ∷ []) (2 ∷ []) (z7 3) (z7 4 ∷ z7 5 ∷ []) (omega arith) (Short-marshal_g1 3)
      (Short-marshal_g2 4, (Short-marshal_g2 5, tt)) (omega arith) (omega arith) (omega arith) start
      new_quiet new_idle (new_free pre_re_encrypt_response)
      (timed_out-Steps re_encrypt_reply pre_re_encrypt_response)
      (timed_out-returned pre_re_encrypt_response)

-- The run in which the response arrives.
re_encrypt_over_streams_example : ReEncryptCalled (message re_encrypt_timeout.1.0)
re_encrypt_over_streams_example =
    re_encrypt_over_streams ⦃bn = toy⦄ toy-IsPairing texts texts-IsCidLib wire wire-IsNetwork
      up-IsUp up-IsUp refuse_keys 0 [] new_message_pool re_encrypt_timeout.1.1.1.0 0
      (message re_encrypt_timeout.1.0) (1 ∷ []) (2 ∷ []) (z7 3) (z7 4 ∷ z7 5 ∷ []) (omega arith)
      (Short-marshal_g1 3) (Short-marshal_g2 4, (Short-marshal_g2 5, tt)) (omega arith)
      (omega arith) (omega arith) start new_quiet new_idle (new_free pre_re_encrypt_response)
      re_encrypt_timeout.1.1.1.1 re_encrypt_timeout.1.1.1.3

abbrev upload : UploadTicket ⦃bn = toy⦄ texts
upload = record { owner = g1 (z7 3); set = 1; cid = 1 ∷ []; size = 100 }

abbrev refuse_upload : UploadTicket ⦃bn = toy⦄ texts → ℕ → (Bytes × PError) × ℕ
refuse_upload c n = ((4 ∷ [], busy), suc n)

abbrev upload_reply : Option Push
upload_reply = Upload.reply ⦃bn = toy⦄ texts wire refuse_upload upload 0

abbrev UploadCalled : Received Response → Type 0
UploadCalled r =
    ((Upload.served ⦃bn = toy⦄ texts wire refuse_upload (upload_request ⦃bn = toy⦄ texts upload)
        0).1
      ≡ 1)
    × Arrives upload_reply stor_upload_response
        (λ w. send_upload_request ⦃bn = toy⦄ texts (λ req. w) upload) (ok (4 ∷ [], peer_error busy))
    × Settles (λ w. send_upload_request ⦃bn = toy⦄ texts (λ req. w) upload)
        (ok (4 ∷ [], peer_error busy)) (ok ([], pool_error [])) r

upload_timeout : UploadCalled timeout
upload_timeout =
    upload_over_streams ⦃bn = toy⦄ toy-IsPairing texts texts-IsCidLib wire wire-IsNetwork up-IsUp
      up-IsUp refuse_upload 0 [] new_message_pool (timed_out stor_upload_response) 0 timeout (z7 3)
      1 100 (1 ∷ []) (Short-marshal_g1 3) (omega arith) (omega arith) (omega arith) (omega arith)
      (omega arith) (omega arith) start new_quiet new_idle (new_free stor_upload_response)
      (timed_out-Steps upload_reply stor_upload_response) (timed_out-returned stor_upload_response)

-- The run in which the response arrives.
upload_over_streams_example : UploadCalled (message upload_timeout.1.0)
upload_over_streams_example =
    upload_over_streams ⦃bn = toy⦄ toy-IsPairing texts texts-IsCidLib wire wire-IsNetwork up-IsUp
      up-IsUp refuse_upload 0 [] new_message_pool upload_timeout.1.1.1.0 0
      (message upload_timeout.1.0) (z7 3) 1 100 (1 ∷ []) (Short-marshal_g1 3) (omega arith)
      (omega arith) (omega arith) (omega arith) (omega arith) (omega arith) start new_quiet new_idle
      (new_free stor_upload_response) upload_timeout.1.1.1.1 upload_timeout.1.1.1.3

abbrev download : DownloadTicket ⦃bn = toy⦄ texts
download = record { owner = g1 (z7 3); cid = 1 ∷ []; tx_id = 2 ∷ [] }

abbrev refuse_download : DownloadTicket ⦃bn = toy⦄ texts → ℕ → (Bytes × PError) × ℕ
refuse_download c n = ((4 ∷ [], busy), suc n)

abbrev download_reply : Option Push
download_reply = Download.reply ⦃bn = toy⦄ texts wire refuse_download download 0

abbrev DownloadCalled : Received Response → Type 0
DownloadCalled r =
    ((Download.served ⦃bn = toy⦄ texts wire refuse_download
        (download_request ⦃bn = toy⦄ texts download) 0).1
      ≡ 1)
    × Arrives download_reply stor_download_response
        (λ w. send_download_request ⦃bn = toy⦄ texts (λ req. w) download)
        (ok (4 ∷ [], peer_error busy))
    × Settles (λ w. send_download_request ⦃bn = toy⦄ texts (λ req. w) download)
        (ok (4 ∷ [], peer_error busy)) (ok ([], pool_error [])) r

download_timeout : DownloadCalled timeout
download_timeout =
    download_over_streams ⦃bn = toy⦄ toy-IsPairing texts texts-IsCidLib wire wire-IsNetwork up-IsUp
      up-IsUp refuse_download 0 [] new_message_pool (timed_out stor_download_response) 0 timeout
      (z7 3) (1 ∷ []) (2 ∷ []) (Short-marshal_g1 3) (omega arith) (omega arith) (omega arith)
      (omega arith) (omega arith) start new_quiet new_idle (new_free stor_download_response)
      (timed_out-Steps download_reply stor_download_response)
      (timed_out-returned stor_download_response)

-- The run in which the response arrives.
download_over_streams_example : DownloadCalled (message download_timeout.1.0)
download_over_streams_example =
    download_over_streams ⦃bn = toy⦄ toy-IsPairing texts texts-IsCidLib wire wire-IsNetwork up-IsUp
      up-IsUp refuse_download 0 [] new_message_pool download_timeout.1.1.1.0 0
      (message download_timeout.1.0) (z7 3) (1 ∷ []) (2 ∷ []) (Short-marshal_g1 3) (omega arith)
      (omega arith) (omega arith) (omega arith) (omega arith) start new_quiet new_idle
      (new_free stor_download_response) download_timeout.1.1.1.1 download_timeout.1.1.1.3
