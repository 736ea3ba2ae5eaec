-- ===== src/Protocol/Storage.antt =====
-- node/protocol/storage.go: the upload and the download of a file set at the proxy.
use proxyot.Prelude.{ℕ, ◌==◌, Option, some, none, [], if◌then◌else◌}
use proxyot.Prelude.Options.{◌>>=◌}
use proxyot.Prelude.Result.{Result, ok, panic, bad_assertion}
use proxyot.Bn256.{Bn256}
use proxyot.Crypto.{Bytes}
use proxyot.Curve.{Point, type_g1, marshal}
use proxyot.Protocol.{
  PError, new_error, CidLib, Response, stor_upload, stor_download, Waited, arrived, nil_arrived,
  failed,
}
use proxyot.Protocol.Ot.{read_point}

-- type msg.StorUploadRequest
pub record StorUploadRequest : Type 0 where
  pub owner : Bytes
  pub sig : Bytes
  pub set : ℕ
  pub cid : Bytes
  pub file_size : ℕ

-- type msg.StorDownloadRequest
pub record StorDownloadRequest : Type 0 where
  pub owner : Bytes
  pub cid : Bytes
  pub txid : Bytes

-- The `error` that a client returns: nil, the pool's by its text, or the peer's.
pub data ClientError : Type 0 where
  no_error : ClientError
  pool_error : Bytes → ClientError
  peer_error : PError → ClientError

-- `if resp.ErrorCode != 0 { err = NewError(...) }`
unfoldable pub peer_result : ℕ → Bytes → ClientError
unfolding new_error
peer_result code msg = if code == 0 then no_error else peer_error (new_error code msg)

module _ ⦃bn : Bn256⦄ (lib : CidLib) where
  -- type UploadTicket
  pub record UploadTicket : Type 0 where
    pub owner : Point
    pub set : ℕ
    pub cid : lib.Cid
    pub size : ℕ

  -- type DownloadTicket
  pub record DownloadTicket : Type 0 where
    pub owner : Point
    pub cid : lib.Cid
    pub tx_id : lib.Cid

  unfoldable pub parse_upload : StorUploadRequest → Option UploadTicket
  unfolding read_point
  parse_upload req = do
    owner ← read_point type_g1 req.owner
    id ← lib.decode req.cid
    some (record { owner = owner; set = req.set; cid = id; size = req.file_size })

  unfoldable pub parse_download : StorDownloadRequest → Option DownloadTicket
  unfolding read_point
  parse_download req = do
    owner ← read_point type_g1 req.owner
    id ← lib.decode req.cid
    txid ← lib.decode req.txid
    some (record { owner = owner; cid = id; tx_id = txid })

  -- onUploadRequest(s)
  unfoldable pub on_upload_request :
      {S : Type 0}
      → (UploadTicket → S → (Bytes × PError) × S)
      → Option StorUploadRequest
      → S
      → Option Response × S
  unfolding parse_upload
  on_upload_request callback none s = (none, s)
  on_upload_request callback (some req) s = elim (parse_upload req) [
    | none ↦ (none, s)
    | some ticket ↦
        let ((uploader, p_err), s') = callback ticket s in
        (some (stor_upload p_err.code p_err.msg uploader), s')
  ]

  -- onDownloadRequest(s)
  unfoldable pub on_download_request :
      {S : Type 0}
      → (DownloadTicket → S → (Bytes × PError) × S)
      → Option StorDownloadRequest
      → S
      → Option Response × S
  unfolding parse_download
  on_download_request callback none s = (none, s)
  on_download_request callback (some req) s = elim (parse_download req) [
    | none ↦ (none, s)
    | some ticket ↦
        let ((downloader, p_err), s') = callback ticket s in
        (some (stor_download p_err.code p_err.msg downloader), s')
  ]

  -- The request that SendUploadRequest sends; it has no signature.
  unfoldable pub upload_request : UploadTicket → StorUploadRequest
  unfolding marshal
  upload_request ticket = record {
    owner = marshal ticket.owner;
    sig = [];
    set = ticket.set;
    cid = lib.to_string ticket.cid;
    file_size = ticket.size;
  }

  unfoldable pub download_request : DownloadTicket → StorDownloadRequest
  unfolding marshal
  download_request ticket = record {
    owner = marshal ticket.owner;
    cid = lib.to_string ticket.cid;
    txid = lib.to_string ticket.tx_id;
  }

  -- SendUploadRequest(ctx, peerID, ticket)
  unfoldable pub send_upload_request :
      (StorUploadRequest → Waited) → UploadTicket → Result (Bytes × ClientError)
  unfolding upload_request peer_result
  send_upload_request exchange ticket = elim (exchange (upload_request ticket)) [
    | failed text ↦ ok ([], pool_error text)
    | arrived (stor_upload code msg uploader) ↦ ok (uploader, peer_result code msg)
    | arrived _ ↦ panic bad_assertion
    | nil_arrived ↦ panic bad_assertion
  ]

  -- SendDownloadRequest(ctx, peerID, ticket)
  unfoldable pub send_download_request :
      (StorDownloadRequest → Waited) → DownloadTicket → Result (Bytes × ClientError)
  unfolding download_request peer_result
  send_download_request exchange ticket = elim (exchange (download_request ticket)) [
    | failed text ↦ ok ([], pool_error text)
    | arrived (stor_download code msg downloader) ↦ ok (downloader, peer_result code msg)
    | arrived _ ↦ panic bad_assertion
    | nil_arrived ↦ panic bad_assertion
  ]
