-- ===== src/Protocol/Pre.antt =====
-- node/protocol/pre.go: the re-keys of the owner, sent to the proxy.
use proxyot.Prelude.{Option, some, none, List, [], ◌∷◌, map}
use proxyot.Prelude.Options.{◌>>=◌}
use proxyot.Prelude.Result.{Result, ok, panic, bad_assertion}
use proxyot.Bn256.{Bn256}
use proxyot.Crypto.{Bytes}
use proxyot.Curve.{Point, type_g1, type_g2, marshal}
use proxyot.Protocol.{
  PError, new_error, unknown_error, CidLib, Response, pre_re_encrypt, Waited, arrived, nil_arrived,
  failed,
}
use proxyot.Protocol.Ot.{read_point}

-- type msg.PreReEncryptRequest
pub record PreReEncryptRequest : Type 0 where
  pub cid : Bytes
  pub lpp : Bytes
  pub re_keys : List Bytes
  pub txid : Bytes

module _ ⦃bn : Bn256⦄ where
  -- The loop over the re-keys, which the first bad one ends.
  unfoldable pub read_re_keys : List Bytes → Option (List Point)
  read_re_keys [] = some []
  read_re_keys (m ∷ ms) = do
    re_key ← read_point type_g2 m
    rest ← read_re_keys ms
    some (re_key ∷ rest)

  module _ (lib : CidLib) where
    -- type PreArgs
    pub record PreArgs : Type 0 where
      pub cid : lib.Cid
      pub l_prime : Point
      pub re_keys : List Point
      pub tx_id : lib.Cid

    -- The checks of the request.
    unfoldable pub parse_re_encrypt : PreReEncryptRequest → Option PreArgs
    unfolding read_point read_re_keys
    parse_re_encrypt req = do
      id ← lib.decode req.cid
      lpp ← read_point type_g1 req.lpp
      re_keys ← read_re_keys req.re_keys
      txid ← lib.decode req.txid
      some (record { cid = id; l_prime = lpp; re_keys = re_keys; tx_id = txid })

    -- onReEncryptRequest(s)
    unfoldable pub on_re_encrypt_request :
        {S : Type 0}
        → (PreArgs → S → PError × S)
        → Option PreReEncryptRequest
        → S
        → Option Response × S
    unfolding parse_re_encrypt
    on_re_encrypt_request callback none s = (none, s)
    on_re_encrypt_request callback (some req) s = elim (parse_re_encrypt req) [
      | none ↦ (none, s)
      | some args ↦
          let (p_err, s') = callback args s in (some (pre_re_encrypt p_err.code p_err.msg), s')
    ]

    -- The request that SendReEncrypt sends.
    unfoldable pub re_encrypt_request : PreArgs → PreReEncryptRequest
    unfolding marshal
    re_encrypt_request args = record {
      cid = lib.to_string args.cid;
      lpp = marshal args.l_prime;
      re_keys = map marshal args.re_keys;
      txid = lib.to_string args.tx_id;
    }

    -- SendReEncrypt(ctx, peerID, args)
    unfoldable pub send_re_encrypt : (PreReEncryptRequest → Waited) → PreArgs → Result PError
    unfolding re_encrypt_request new_error unknown_error
    send_re_encrypt exchange args = elim (exchange (re_encrypt_request args)) [
      | failed text ↦ ok (unknown_error text)
      | arrived (pre_re_encrypt code msg) ↦ ok (new_error code msg)
      | arrived _ ↦ panic bad_assertion
      | nil_arrived ↦ panic bad_assertion
    ]
