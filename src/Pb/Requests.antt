-- ===== src/Pb/Requests.antt =====
-- The requests of node/protocol/pb/msg.pb.go: Unmarshal, Marshal and Size of each.
use mathlib.Core.Path.{subst}
use proxyot.Prelude.{
  suc, ◌^◌, ◌<◌, ◌≡◌, refl, sym, ap, ◌∙◌, arith, some, List, [], ◌∷◌, ◌++◌, length, All, foldl,
  length-append, append-nil, append_assoc,
}
use proxyot.Crypto.{Bytes}
use proxyot.Protocol.Ot.{OtChoiceRequest}
use proxyot.Protocol.Pre.{PreReEncryptRequest}
use proxyot.Protocol.Storage.{StorUploadRequest, StorDownloadRequest}
use proxyot.Pb.{put_bytes, put_number, put_list, unmarshal}
use proxyot.Pb.Fields.{Decodes, Decodes-nothing, Decodes-bytes, Decodes-number, Decodes-list}
use proxyot.Pb.Messages.{
  marshal_ot_choice_request, size_ot_choice_request, ot_choice_request_kinds,
  empty_ot_choice_request, unmarshal_ot_choice_request, marshal_pre_re_encrypt_request,
  size_pre_re_encrypt_request, pre_re_encrypt_request_kinds, empty_pre_re_encrypt_request,
  unmarshal_pre_re_encrypt_request, marshal_stor_upload_request, size_stor_upload_request,
  stor_upload_request_kinds, empty_stor_upload_request, unmarshal_stor_upload_request,
  marshal_stor_download_request, size_stor_download_request, stor_download_request_kinds,
  empty_stor_download_request, unmarshal_stor_download_request,
}
use proxyot.Pb.Lengths.{Short, length-put_bytes, length-put_number, length-put_list}

-- The keys that are read one after the other.
read_keys :
    (m : PreReEncryptRequest) (bs : List Bytes)
    → foldl
        (λ (x : PreReEncryptRequest) (b : Bytes). record x { re_keys = x.re_keys ++ b ∷ [] })
        m
        bs
      ≡ record m { re_keys = m.re_keys ++ bs }
read_keys m [] = ap (λ (ks : List Bytes). record m { re_keys = ks }) (sym (append-nil m.re_keys))
read_keys m (b ∷ bs) =
    read_keys (record m { re_keys = m.re_keys ++ b ∷ [] }) bs
    ∙ ap (λ (ks : List Bytes). record m { re_keys = ks }) (append_assoc m.re_keys (b ∷ []) bs)

pub ot_choice_request_returns :
    (m : OtChoiceRequest)
    → Short m.cid
    → Short m.owner
    → Short m.yp
    → Short m.lp
    → (unmarshal_ot_choice_request (marshal_ot_choice_request m) ≡ some m)
      × (length (marshal_ot_choice_request m) ≡ size_ot_choice_request m)
unfolding marshal_ot_choice_request size_ot_choice_request unmarshal_ot_choice_request unmarshal
ot_choice_request_returns m h1 h2 h3 h4 = (
  decoded (suc (length (marshal_ot_choice_request m))) (omega arith),
  omega (
    arith,
    length-append (put_bytes 10 m.cid)
        (put_bytes 18 m.owner ++ (put_bytes 26 m.yp ++ (put_bytes 34 m.lp ++ ([])))),
    length-append (put_bytes 18 m.owner) (put_bytes 26 m.yp ++ (put_bytes 34 m.lp ++ ([]))),
    length-append (put_bytes 26 m.yp) (put_bytes 34 m.lp ++ ([])),
    length-append (put_bytes 34 m.lp) ([]),
    length-put_bytes 34 m.lp,
    length-put_bytes 26 m.yp,
    length-put_bytes 18 m.owner,
    length-put_bytes 10 m.cid,
  ),
)
  where
    decoded :
        Decodes ot_choice_request_kinds empty_ot_choice_request (marshal_ot_choice_request m) m
    decoded =
        Decodes-bytes ot_choice_request_kinds 1 _ _ m m.cid _ (omega arith) (omega arith) refl h1
          refl
          (Decodes-bytes ot_choice_request_kinds 2 _ _ m m.owner _ (omega arith) (omega arith) refl
            h2 refl
            (Decodes-bytes ot_choice_request_kinds 3 _ _ m m.yp _ (omega arith) (omega arith) refl
              h3 refl
              (Decodes-bytes ot_choice_request_kinds 4 _ _ m m.lp _ (omega arith) (omega arith) refl
                h4 refl (Decodes-nothing ot_choice_request_kinds m))))

pub pre_re_encrypt_request_returns :
    (m : PreReEncryptRequest)
    → Short m.cid
    → Short m.lpp
    → All Short m.re_keys
    → Short m.txid
    → (unmarshal_pre_re_encrypt_request (marshal_pre_re_encrypt_request m) ≡ some m)
      × (length (marshal_pre_re_encrypt_request m) ≡ size_pre_re_encrypt_request m)
unfolding marshal_pre_re_encrypt_request size_pre_re_encrypt_request
    unmarshal_pre_re_encrypt_request unmarshal
pre_re_encrypt_request_returns m h1 h2 h3 h4 = (
  decoded (suc (length (marshal_pre_re_encrypt_request m))) (omega arith),
  omega (
    arith,
    length-append (put_bytes 10 m.cid)
        (put_bytes 18 m.lpp ++ (put_list 26 m.re_keys ++ (put_bytes 34 m.txid ++ ([])))),
    length-append (put_bytes 18 m.lpp) (put_list 26 m.re_keys ++ (put_bytes 34 m.txid ++ ([]))),
    length-append (put_list 26 m.re_keys) (put_bytes 34 m.txid ++ ([])),
    length-append (put_bytes 34 m.txid) ([]),
    length-put_bytes 34 m.txid,
    length-put_list 26 m.re_keys,
    length-put_bytes 18 m.lpp,
    length-put_bytes 10 m.cid,
  ),
)
  where
    before : PreReEncryptRequest
    before = record { cid = m.cid; lpp = m.lpp; re_keys = []; txid = [] }

    decoded :
        Decodes pre_re_encrypt_request_kinds empty_pre_re_encrypt_request
          (marshal_pre_re_encrypt_request m)
          m
    decoded =
        Decodes-bytes pre_re_encrypt_request_kinds 1 _ _ m m.cid _ (omega arith) (omega arith) refl
          h1 refl
          (Decodes-bytes pre_re_encrypt_request_kinds 2 _ _ m m.lpp _ (omega arith) (omega arith)
            refl h2 refl
            (Decodes-list pre_re_encrypt_request_kinds 3 _ m m.re_keys _ (omega arith) (omega arith)
              refl h3 before
              (subst
                (λ (x : PreReEncryptRequest).
                  Decodes pre_re_encrypt_request_kinds x (put_bytes 34 m.txid ++ []) m)
                (sym (read_keys before m.re_keys))
                (Decodes-bytes pre_re_encrypt_request_kinds 4 _ _ m m.txid _ (omega arith)
                  (omega arith) refl h4 refl (Decodes-nothing pre_re_encrypt_request_kinds m)))))

pub stor_upload_request_returns :
    (m : StorUploadRequest)
    → Short m.owner
    → Short m.sig
    → m.set < 2 ^ 32
    → Short m.cid
    → m.file_size < 2 ^ 64
    → (unmarshal_stor_upload_request (marshal_stor_upload_request m) ≡ some m)
      × (length (marshal_stor_upload_request m) ≡ size_stor_upload_request m)
unfolding marshal_stor_upload_request size_stor_upload_request unmarshal_stor_upload_request
    unmarshal
stor_upload_request_returns m h1 h2 h3 h4 h5 = (
  decoded (suc (length (marshal_stor_upload_request m))) (omega arith),
  omega (
    arith,
    length-append (put_bytes 10 m.owner) (
        put_bytes 18 m.sig
        ++ (put_number 24 m.set ++ (put_bytes 34 m.cid ++ (put_number 40 m.file_size ++ ([]))))),
    length-append (put_bytes 18 m.sig)
        (put_number 24 m.set ++ (put_bytes 34 m.cid ++ (put_number 40 m.file_size ++ ([])))),
    length-append (put_number 24 m.set) (put_bytes 34 m.cid ++ (put_number 40 m.file_size ++ ([]))),
    length-append (put_bytes 34 m.cid) (put_number 40 m.file_size ++ ([])),
    length-append (put_number 40 m.file_size) ([]),
    length-put_number 40 m.file_size,
    length-put_bytes 34 m.cid,
    length-put_number 24 m.set,
    length-put_bytes 18 m.sig,
    length-put_bytes 10 m.owner,
  ),
)
  where
    decoded :
        Decodes stor_upload_request_kinds empty_stor_upload_request
          (marshal_stor_upload_request m)
          m
    decoded =
        Decodes-bytes stor_upload_request_kinds 1 _ _ m m.owner _ (omega arith) (omega arith) refl
          h1 refl
          (Decodes-bytes stor_upload_request_kinds 2 _ _ m m.sig _ (omega arith) (omega arith) refl
            h2 refl
            (Decodes-number stor_upload_request_kinds 3 (2 ^ 32) _ _ m m.set _ (omega arith)
              (omega arith) refl h3 (omega (arith, h3)) refl
              (Decodes-bytes stor_upload_request_kinds 4 _ _ m m.cid _ (omega arith) (omega arith)
                refl h4 refl
                (Decodes-number stor_upload_request_kinds 5 (2 ^ 64) _ _ m m.file_size _
                  (omega arith) (omega arith) refl h5 (omega (arith, h5)) refl
                  (Decodes-nothing stor_upload_request_kinds m)))))

pub stor_download_request_returns :
    (m : StorDownloadRequest)
    → Short m.owner
    → Short m.cid
    → Short m.txid
    → (unmarshal_stor_download_request (marshal_stor_download_request m) ≡ some m)
      × (length (marshal_stor_download_request m) ≡ size_stor_download_request m)
unfolding marshal_stor_download_request size_stor_download_request unmarshal_stor_download_request
    unmarshal
stor_download_request_returns m h1 h2 h3 = (
  decoded (suc (length (marshal_stor_download_request m))) (omega arith),
  omega (
    arith,
    length-append (put_bytes 10 m.owner) (put_bytes 18 m.cid ++ (put_bytes 26 m.txid ++ ([]))),
    length-append (put_bytes 18 m.cid) (put_bytes 26 m.txid ++ ([])),
    length-append (put_bytes 26 m.txid) ([]),
    length-put_bytes 26 m.txid,
    length-put_bytes 18 m.cid,
    length-put_bytes 10 m.owner,
  ),
)
  where
    decoded :
        Decodes stor_download_request_kinds empty_stor_download_request
          (marshal_stor_download_request m)
          m
    decoded =
        Decodes-bytes stor_download_request_kinds 1 _ _ m m.owner _ (omega arith) (omega arith) refl
          h1 refl
          (Decodes-bytes stor_download_request_kinds 2 _ _ m m.cid _ (omega arith) (omega arith)
            refl h2 refl
            (Decodes-bytes stor_download_request_kinds 3 _ _ m m.txid _ (omega arith) (omega arith)
              refl h3 refl (Decodes-nothing stor_download_request_kinds m)))
