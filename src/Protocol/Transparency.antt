-- ===== src/Protocol/Transparency.antt =====
-- The requests of node/protocol/ot.go, pre.go and storage.go: the server parses what the client made.
use proxyot.Prelude.{
  ℕ, ◌≡◌, refl, sym, ap, ◌∙◌, some, List, [], ◌∷◌, map, append-nil, ◌==◌, if◌then◌else◌,
}
use proxyot.Bn256.{Bn256, IsPairing}
use proxyot.Curve.{g1, g2, type_g1, type_g2, marshal, unmarshal}
use proxyot.Protocol.{PError, CidLib, IsCidLib}
use proxyot.Protocol.Ot.{OtChoice, read_point, parse_choice, choice_request}
use proxyot.Protocol.Pre.{PreArgs, read_re_keys, parse_re_encrypt, re_encrypt_request}
use proxyot.Protocol.Storage.{
  UploadTicket, DownloadTicket, parse_upload, parse_download, upload_request, download_request,
  ClientError, no_error, peer_error,
}

module _ ⦃bn : Bn256⦄ (laws : IsPairing bn) where
  read_point_g1 : (a : bn.G1) → read_point type_g1 (marshal (g1 a)) ≡ some (g1 a)
  unfolding read_point marshal unmarshal
  read_point_g1 a = rw (
      ap bn.g1.unmarshal (sym (append-nil (bn.g1.marshal a))) ∙ laws.cyclic1.unmarshal-marshal a [])

  read_point_g2 : (a : bn.G2) → read_point type_g2 (marshal (g2 a)) ≡ some (g2 a)
  unfolding read_point marshal unmarshal
  read_point_g2 a = rw (
      ap bn.g2.unmarshal (sym (append-nil (bn.g2.marshal a))) ∙ laws.cyclic2.unmarshal-marshal a [])

  read_re_keys_g2 : (ks : List bn.G2) → read_re_keys (map marshal (map g2 ks)) ≡ some (map g2 ks)
  unfolding read_re_keys
  read_re_keys_g2 [] = refl
  read_re_keys_g2 (k ∷ ks) = rw (read_point_g2 k, read_re_keys_g2 ks)

  module _ (lib : CidLib) (decodes : IsCidLib lib) where
    -- The request for a choice is parsed as this choice.
    pub parse_choice-choice_request :
        (id : lib.Cid) (o y l : bn.G1)
        → let choice : OtChoice lib = record { cid = id; owner = g1 o; y = g1 y; l = g1 l } in
          parse_choice lib (choice_request lib choice) ≡ some choice
    unfolding parse_choice choice_request
    parse_choice-choice_request id o y l =
        rw (decodes.decode-to_string id, read_point_g1 o, read_point_g1 y, read_point_g1 l)

    pub parse_re_encrypt-re_encrypt_request :
        (id tx : lib.Cid) (l : bn.G1) (ks : List bn.G2)
        → let args : PreArgs lib = record {
          cid = id;
          l_prime = g1 l;
          re_keys = map g2 ks;
          tx_id = tx;
        } in
          parse_re_encrypt lib (re_encrypt_request lib args) ≡ some args
    unfolding parse_re_encrypt re_encrypt_request
    parse_re_encrypt-re_encrypt_request id tx l ks = rw (
      decodes.decode-to_string id,
      decodes.decode-to_string tx,
      read_point_g1 l,
      read_re_keys_g2 ks,
    )

    pub parse_upload-upload_request :
        (o : bn.G1) (n size : ℕ) (id : lib.Cid)
        → let ticket : UploadTicket lib = record { owner = g1 o; set = n; cid = id; size = size } in
          parse_upload lib (upload_request lib ticket) ≡ some ticket
    unfolding parse_upload upload_request
    parse_upload-upload_request o n size id = rw (decodes.decode-to_string id, read_point_g1 o)

    pub parse_download-download_request :
        (o : bn.G1) (id tx : lib.Cid)
        → let ticket : DownloadTicket lib = record { owner = g1 o; cid = id; tx_id = tx } in
          parse_download lib (download_request lib ticket) ≡ some ticket
    unfolding parse_download download_request
    parse_download-download_request o id tx =
        rw (decodes.decode-to_string id, decodes.decode-to_string tx, read_point_g1 o)

    -- The error of a client, of the node's answer.
    abbrev pub client_error : PError → ClientError
    client_error e = if e.code == 0 then no_error else peer_error e
