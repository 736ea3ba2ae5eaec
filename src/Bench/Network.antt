-- ===== src/Bench/Network.antt =====
-- bench/network.go: how many bytes Alice receives and sends for a number of messages. The content
-- identifier's text and the two points are drawn when the program starts; they are arguments.
pub mod Costs
use proxyot.Prelude.{ℕ, List, [], ◌∷◌, ◌++◌, length, replicate}
use proxyot.Prelude.Result.{Result, ok, panic, bad_argument, ◌>>=◌}
use proxyot.BigInt.{ℤ, pos, negsuc, ◌+ℤ◌}
use proxyot.Bn256.{Bn256}
use proxyot.Crypto.{Bytes}
use proxyot.Curve.{Point, marshal}
use proxyot.Fileobj.{to_int64}
use proxyot.Protocol.Ot.{OtChoiceRequest}
use proxyot.Protocol.Pre.{PreReEncryptRequest}
use proxyot.Pb.Messages.{marshal_ot_choice_request, marshal_pre_re_encrypt_request}
use proxyot.Bench.Sweeps.{times, plus, for_loop, values}

module _ ⦃bn : Bn256⦄ (mocked_cid : Bytes) (mocked_g1 mocked_g2 : Point) where
  -- mockOtChoiceRequest()
  unfoldable pub mock_ot_choice_request : OtChoiceRequest
  mock_ot_choice_request = record {
    cid = mocked_cid;
    owner = marshal mocked_g1;
    yp = marshal mocked_g1;
    lp = marshal mocked_g1;
  }

  -- mockReEncryptRequest(number): `make` is a fault at a number below 0.
  unfoldable pub mock_re_encrypt_request : ℤ → Result PreReEncryptRequest
  mock_re_encrypt_request (pos number) = ok (record {
    cid = mocked_cid;
    lpp = marshal mocked_g1;
    re_keys = replicate number (marshal mocked_g2);
    txid = mocked_cid;
  })
  mock_re_encrypt_request (negsuc n) = panic bad_argument

  -- aliceCommunicationCost(messageNumber); Marshal returns no error.
  unfoldable pub alice_communication_cost : ℤ → Result ℤ
  alice_communication_cost message_number = do
    let recv_bytes = marshal_ot_choice_request mock_ot_choice_request
    sent ← mock_re_encrypt_request message_number
    let send_bytes = marshal_pre_re_encrypt_request sent
    ok (to_int64 (pos (length recv_bytes) +ℤ pos (length send_bytes)))

  -- AliceCommunicationCostResults(sizeMin, sizeMax, sizeRatio, countMin, countMax, countStep)
  unfoldable pub alice_communication_cost_results :
      ℕ → ℤ → ℤ → ℤ → ℤ → ℤ → ℤ → Result (List ℤ × List ℤ × List ℤ)
  alice_communication_cost_results fuel size_min size_max size_ratio count_min count_max
        count_step =
      do
        sizes ← values (times size_ratio) size_max fuel size_min
        counts ← values (plus count_step) count_max fuel count_min
        results ←
            for_loop (times size_ratio) size_max
              (λ size.
                for_loop (plus count_step) count_max
                  (λ count results.
                    alice_communication_cost count >>= λ cost. ok (results ++ cost ∷ []))
                  fuel count_min)
              fuel size_min []
        ok (results, sizes, counts)
