-- ===== src/Protocol/Responses/Assertions.antt =====
-- The assertions of the clients on what the pool gives them.
use mathlib.Core.Path.{subst}
use proxyot.Prelude.{
  ◌==◌, false, get_elem?, ==-false_iff, ℕ, ◌≡◌, ◌≢◌, refl, sym, ap, ◌∙◌, Option, some, none,
}
use proxyot.Prelude.Result.{panic, bad_assertion}
use proxyot.Bn256.{Bn256}
use proxyot.Crypto.{Bytes}
use proxyot.Protocol.{CidLib, Response, ot_choice, pre_re_encrypt, stor_upload, stor_download}
use proxyot.Protocol.Ot.{OtChoice, send_choice}
use proxyot.Protocol.Pre.{PreArgs, send_re_encrypt}
use proxyot.Protocol.Storage.{
  UploadTicket, DownloadTicket, send_upload_request, send_download_request,
}
use proxyot.Protocol.Pool.{Received, message, nil_message, timeout, returned, Pool, Reachable}
use proxyot.Protocol.Pool.Invariant.{IsFor}
use proxyot.Protocol.Pool.Delivery.{wait_outcome}
use proxyot.Protocol.Responses.{
  ot_choice_response, pre_re_encrypt_response, stor_upload_response, stor_download_response, Push,
  on_choice_response, on_re_encrypt_response, on_upload_response, on_download_response, IsPushed,
  choice, re_encryption, upload, download, waited,
}

-- The protocol under which a response is pushed.
abbrev home : Response → Bytes
home (ot_choice code msg) = ot_choice_response
home (pre_re_encrypt code msg) = pre_re_encrypt_response
home (stor_upload code msg uploader) = stor_upload_response
home (stor_download code msg downloader) = stor_download_response

some_injective {ℓ} : {A : Type ℓ} {x y : A} → some x ≡ some y → x ≡ y
some_injective e = cc

home_of :
    (p p' : Bytes) (r r' : Response)
    → ◌≡◌ {A = Option Push} (some (p', r')) (some (p, r))
    → p' ≡ home r'
    → p ≡ home r
home_of p p' r r' e h = sym (ap (λ (x : Push). x.0) same) ∙ h ∙ ap (λ (x : Push). home x.1) same
  where
    same : ◌≡◌ {A = Push} (p', r') (p, r)
    same = some_injective e

pushed-home : (p : Bytes) (r : Response) → IsPushed p r → p ≡ home r
unfolding on_choice_response on_re_encrypt_response on_upload_response on_download_response
pushed-home p r (choice none h) = absurd cc
pushed-home p r (choice (some (code, msg)) h) = home_of p _ r _ h refl
pushed-home p r (re_encryption none h) = absurd cc
pushed-home p r (re_encryption (some (code, msg)) h) = home_of p _ r _ h refl
pushed-home p r (upload none h) = absurd cc
pushed-home p r (upload (some (code, msg, text)) h) = home_of p _ r _ h refl
pushed-home p r (download none h) = absurd cc
pushed-home p r (download (some (code, msg, text)) h) = home_of p _ r _ h refl

-- The letter at 14 tells the protocols apart.
by_letter :
    (p q : Bytes) (m n : ℕ)
    → get_elem? p 14 ≡ some m
    → get_elem? q 14 ≡ some n
    → (m == n) ≡ false
    → p ≢ q
by_letter p q m n at_p at_q ne e =
    (==-false_iff m n).0 ne
      (some_injective (sym at_p ∙ ap (λ (x : Bytes). get_elem? x 14) e ∙ at_q))

-- What a Wait under the given protocol may return.
abbrev Fits : Bytes → Received Response → Type 0
Fits id r = IsFor (λ p x. p ≡ home x) id r

fits :
    (s : Pool Response) (n : ℕ) (id : Bytes) (r : Received Response)
    → Reachable IsPushed s
    → s.waiters n ≡ returned r
    → s.protocol n ≡ id
    → Fits id r
fits s n id r reachable w e =
    go r (subst (λ p. IsFor IsPushed p r) e (wait_outcome IsPushed s n r reachable w))
  where
    go : (r : Received Response) → IsFor IsPushed id r → Fits id r
    go (message x) h = pushed-home id x h
    go nil_message h = h
    go timeout h = tt

module _ ⦃bn : Bn256⦄ (lib : CidLib) where
  send_choice-Fits :
      (text : Bytes) (r : Received Response) (c : OtChoice lib)
      → Fits ot_choice_response r
      → send_choice lib (λ req. waited text r) c ≢ panic bad_assertion
  unfolding send_choice
  send_choice-Fits text (message (ot_choice code msg)) c h e = cc
  send_choice-Fits text (message (pre_re_encrypt code msg)) c h e =
      by_letter _ _ 111 101 refl refl refl h
  send_choice-Fits text (message (stor_upload code msg t)) c h e =
      by_letter _ _ 111 117 refl refl refl h
  send_choice-Fits text (message (stor_download code msg t)) c h e =
      by_letter _ _ 111 100 refl refl refl h
  send_choice-Fits text nil_message c h e = absurd h
  send_choice-Fits text timeout c h e = cc

  send_re_encrypt-Fits :
      (text : Bytes) (r : Received Response) (c : PreArgs lib)
      → Fits pre_re_encrypt_response r
      → send_re_encrypt lib (λ req. waited text r) c ≢ panic bad_assertion
  unfolding send_re_encrypt
  send_re_encrypt-Fits text (message (ot_choice code msg)) c h e =
      by_letter _ _ 101 111 refl refl refl h
  send_re_encrypt-Fits text (message (pre_re_encrypt code msg)) c h e = cc
  send_re_encrypt-Fits text (message (stor_upload code msg t)) c h e =
      by_letter _ _ 101 117 refl refl refl h
  send_re_encrypt-Fits text (message (stor_download code msg t)) c h e =
      by_letter _ _ 101 100 refl refl refl h
  send_re_encrypt-Fits text nil_message c h e = absurd h
  send_re_encrypt-Fits text timeout c h e = cc

  send_upload_request-Fits :
      (text : Bytes) (r : Received Response) (c : UploadTicket lib)
      → Fits stor_upload_response r
      → send_upload_request lib (λ req. waited text r) c ≢ panic bad_assertion
  unfolding send_upload_request
  send_upload_request-Fits text (message (ot_choice code msg)) c h e =
      by_letter _ _ 117 111 refl refl refl h
  send_upload_request-Fits text (message (pre_re_encrypt code msg)) c h e =
      by_letter _ _ 117 101 refl refl refl h
  send_upload_request-Fits text (message (stor_upload code msg t)) c h e = cc
  send_upload_request-Fits text (message (stor_download code msg t)) c h e =
      by_letter _ _ 117 100 refl refl refl h
  send_upload_request-Fits text nil_message c h e = absurd h
  send_upload_request-Fits text timeout c h e = cc

  send_download_request-Fits :
      (text : Bytes) (r : Received Response) (c : DownloadTicket lib)
      → Fits stor_download_response r
      → send_download_request lib (λ req. waited text r) c ≢ panic bad_assertion
  unfolding send_download_request
  send_download_request-Fits text (message (ot_choice code msg)) c h e =
      by_letter _ _ 100 111 refl refl refl h
  send_download_request-Fits text (message (pre_re_encrypt code msg)) c h e =
      by_letter _ _ 100 101 refl refl refl h
  send_download_request-Fits text (message (stor_upload code msg t)) c h e =
      by_letter _ _ 100 117 refl refl refl h
  send_download_request-Fits text (message (stor_download code msg t)) c h e = cc
  send_download_request-Fits text nil_message c h e = absurd h
  send_download_request-Fits text timeout c h e = cc

  -- Whatever a Wait of SendChoice returns, in a pool to which only the response handlers push and in
  -- whatever order the goroutines run, the assertion on the value's type holds.
  pub choice_assertion :
      (s : Pool Response) (n : ℕ) (text : Bytes) (r : Received Response) (c : OtChoice lib)
      → Reachable IsPushed s
      → s.waiters n ≡ returned r
      → s.protocol n ≡ ot_choice_response
      → send_choice lib (λ req. waited text r) c ≢ panic bad_assertion
  choice_assertion s n text r c reachable w e =
      send_choice-Fits text r c (fits s n ot_choice_response r reachable w e)

  -- Whatever a Wait of SendReEncrypt returns, in a pool to which only the response handlers push and in
  -- whatever order the goroutines run, the assertion on the value's type holds.
  pub re_encrypt_assertion :
      (s : Pool Response) (n : ℕ) (text : Bytes) (r : Received Response) (c : PreArgs lib)
      → Reachable IsPushed s
      → s.waiters n ≡ returned r
      → s.protocol n ≡ pre_re_encrypt_response
      → send_re_encrypt lib (λ req. waited text r) c ≢ panic bad_assertion
  re_encrypt_assertion s n text r c reachable w e =
      send_re_encrypt-Fits text r c (fits s n pre_re_encrypt_response r reachable w e)

  -- Whatever a Wait of SendUploadRequest returns, in a pool to which only the response handlers push and in
  -- whatever order the goroutines run, the assertion on the value's type holds.
  pub upload_assertion :
      (s : Pool Response) (n : ℕ) (text : Bytes) (r : Received Response) (c : UploadTicket lib)
      → Reachable IsPushed s
      → s.waiters n ≡ returned r
      → s.protocol n ≡ stor_upload_response
      → send_upload_request lib (λ req. waited text r) c ≢ panic bad_assertion
  upload_assertion s n text r c reachable w e =
      send_upload_request-Fits text r c (fits s n stor_upload_response r reachable w e)

  -- Whatever a Wait of SendDownloadRequest returns, in a pool to which only the response handlers push and in
  -- whatever order the goroutines run, the assertion on the value's type holds.
  pub download_assertion :
      (s : Pool Response) (n : ℕ) (text : Bytes) (r : Received Response) (c : DownloadTicket lib)
      → Reachable IsPushed s
      → s.waiters n ≡ returned r
      → s.protocol n ≡ stor_download_response
      → send_download_request lib (λ req. waited text r) c ≢ panic bad_assertion
  download_assertion s n text r c reachable w e =
      send_download_request-Fits text r c (fits s n stor_download_response r reachable w e)
