-- ===== src/Protocol/Ot.antt =====
-- node/protocol/ot.go: the choice of the receiver, sent to the owner.
use proxyot.Prelude.{ℕ, Option, some, none}
use proxyot.Prelude.Options.{◌>>=◌}
use proxyot.Prelude.Result.{Result, ok, panic, bad_assertion}
use proxyot.Bn256.{Bn256}
use proxyot.Crypto.{Bytes}
use proxyot.Curve.{Point, type_g1, new_point, marshal, unmarshal}
use proxyot.Protocol.{
  PError, new_error, unknown_error, CidLib, Response, ot_choice, Waited, arrived, nil_arrived,
  failed,
}

-- type msg.OtChoiceRequest
pub record OtChoiceRequest : Type 0 where
  pub cid : Bytes
  pub owner : Bytes
  pub yp : Bytes
  pub lp : Bytes

module _ ⦃bn : Bn256⦄ where
  -- A point that a request holds: `curve.NewPoint(c)` and its Unmarshal. Bytes behind it are
  -- ignored.
  unfoldable pub read_point : ℕ → Bytes → Option Point
  unfolding new_point
  read_point c m = do e ← new_point c; (p, rest) ← unmarshal e m; some p

  module _ (lib : CidLib) where
    -- type OtChoice
    pub record OtChoice : Type 0 where
      pub cid : lib.Cid
      pub owner : Point
      pub y : Point
      pub l : Point

    -- The checks of the request.
    unfoldable pub parse_choice : OtChoiceRequest → Option OtChoice
    unfolding read_point
    parse_choice req = do
      id ← lib.decode req.cid
      owner ← read_point type_g1 req.owner
      yp ← read_point type_g1 req.yp
      lp ← read_point type_g1 req.lp
      some (record { cid = id; owner = owner; y = yp; l = lp })

    -- onChoiceRequest(s), on a node with a state that its OnChoiceRequest changes: the response that
    -- is sent, if any. A stream that cannot be read and a request that fails a check are dropped.
    unfoldable pub on_choice_request :
        {S : Type 0}
        → (OtChoice → S → PError × S)
        → Option OtChoiceRequest
        → S
        → Option Response × S
    unfolding parse_choice
    on_choice_request callback none s = (none, s)
    on_choice_request callback (some req) s = elim (parse_choice req) [
      | none ↦ (none, s)
      | some choice ↦
          let (p_err, s') = callback choice s in (some (ot_choice p_err.code p_err.msg), s')
    ]

    -- The request that SendChoice sends.
    unfoldable pub choice_request : OtChoice → OtChoiceRequest
    unfolding marshal
    choice_request choice = record {
      cid = lib.to_string choice.cid;
      owner = marshal choice.owner;
      yp = marshal choice.y;
      lp = marshal choice.l;
    }

    -- SendChoice(ctx, peerID, choice), where the network and the pool turn a request into what Wait
    -- returns
    unfoldable pub send_choice : (OtChoiceRequest → Waited) → OtChoice → Result PError
    unfolding choice_request new_error unknown_error
    send_choice exchange choice = elim (exchange (choice_request choice)) [
      | failed text ↦ ok (unknown_error text)
      | arrived (ot_choice code msg) ↦ ok (new_error code msg)
      | arrived _ ↦ panic bad_assertion
      | nil_arrived ↦ panic bad_assertion
    ]
