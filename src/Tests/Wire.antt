-- ===== src/Tests/Wire.antt =====
-- Messages on the wire at concrete values.
use proxyot.Prelude.{◌+◌, ◌*◌, ◌^◌, ◌≡◌, refl, arith, some, List, [], ◌∷◌, map, length, get_elem?}
use proxyot.Prelude.Result.{ok}
use proxyot.BigInt.{ℤ, pos}
use proxyot.Crypto.{Bytes}
use proxyot.Curve.{Point, marshal}
use proxyot.Curve.Calculus.{mult1, mult2}
use proxyot.Protocol.Ot.{OtChoiceRequest}
use proxyot.Protocol.Pre.{PreReEncryptRequest}
use proxyot.Protocol.Storage.{StorUploadRequest, StorDownloadRequest}
use proxyot.Pb.{
  sov_msg, sov_loop, size_bytes, put_bytes, put_number, encode_varint_msg, encode_loop,
}
use proxyot.Pb.Messages.{
  CodeResponse, PeerResponse, marshal_ot_choice_request, size_ot_choice_request,
  unmarshal_ot_choice_request, marshal_pre_re_encrypt_request, size_pre_re_encrypt_request,
  unmarshal_pre_re_encrypt_request, marshal_stor_upload_request, size_stor_upload_request,
  unmarshal_stor_upload_request, marshal_stor_download_request, size_stor_download_request,
  unmarshal_stor_download_request, marshal_code_response, size_code_response,
  unmarshal_code_response, marshal_peer_response, size_peer_response, unmarshal_peer_response,
}
use proxyot.Pb.RoundTrip.{wire_round_trip}
use proxyot.Bench.Sweeps.Values.{concat_map}
use proxyot.Bench.Sweeps.Nested.{up_to, IsSweep}
use proxyot.Bench.Network.{alice_communication_cost_results}
use proxyot.Bench.Network.Costs.{cost_at, base_cost, re_key_cost, alice_communication_costs}
use proxyot.Tests.Toy.{toy}

abbrev word : Bytes
word = 104 ∷ 105 ∷ []

abbrev choice : OtChoiceRequest
choice = record { cid = word; owner = 3 ∷ []; yp = []; lp = 200 ∷ [] }

abbrev keys : PreReEncryptRequest
keys = record { cid = word; lpp = 3 ∷ []; re_keys = word ∷ [] ∷ word ∷ []; txid = [] }

abbrev upload : StorUploadRequest
upload = record { owner = word; sig = []; set = 300; cid = word; file_size = 2 ^ 63 }

abbrev download : StorDownloadRequest
download = record { owner = []; cid = word; txid = word }

abbrev refusal : CodeResponse
refusal = record { error_code = 2; error_msg = word }

abbrev accepted : PeerResponse
accepted = record { error_code = 0; error_msg = []; peer = word }

-- The bytes of a small message, with a number of two bytes.
upload_bytes :
    marshal_stor_upload_request (record upload { file_size = 0 })
    ≡ 10 ∷ 2 ∷ 104 ∷ 105 ∷ 24 ∷ 172 ∷ 2 ∷ 34 ∷ 2 ∷ 104 ∷ 105 ∷ []
unfolding marshal_stor_upload_request put_bytes put_number encode_varint_msg encode_loop
upload_bytes = refl

wire_round_trip_example :
    ((unmarshal_ot_choice_request (marshal_ot_choice_request choice) ≡ some choice)
      × (length (marshal_ot_choice_request choice) ≡ size_ot_choice_request choice))
    × ((unmarshal_pre_re_encrypt_request (marshal_pre_re_encrypt_request keys) ≡ some keys)
        × (length (marshal_pre_re_encrypt_request keys) ≡ size_pre_re_encrypt_request keys))
    × ((unmarshal_stor_upload_request (marshal_stor_upload_request upload) ≡ some upload)
        × (length (marshal_stor_upload_request upload) ≡ size_stor_upload_request upload))
    × ((unmarshal_stor_download_request (marshal_stor_download_request download) ≡ some download)
        × (length (marshal_stor_download_request download) ≡ size_stor_download_request download))
    × ((unmarshal_code_response (marshal_code_response refusal) ≡ some refusal)
        × (length (marshal_code_response refusal) ≡ size_code_response refusal))
    × ((unmarshal_peer_response (marshal_peer_response accepted) ≡ some accepted)
        × (length (marshal_peer_response accepted) ≡ size_peer_response accepted))
wire_round_trip_example =
    wire_round_trip choice keys upload download refusal accepted
      (omega arith, omega arith, omega arith, omega arith)
      (omega arith, omega arith, (omega arith, (omega arith, (omega arith, tt))), omega arith)
      (omega arith, omega arith, omega arith, omega arith, omega arith)
      (omega arith, omega arith, omega arith) (omega arith, omega arith)
      (omega arith, omega arith, omega arith)

two_sizes : IsSweep 10 100 10 20 5 101
two_sizes = record {
  some_size = omega arith;
  grows = omega arith;
  some_step = omega arith;
  size_fits = omega arith;
  count_fits = omega arith;
  size_fuel = omega arith;
  count_fuel = omega arith;
}

abbrev g1 : Point ⦃bn = toy⦄
g1 = mult1 ⦃bn = toy⦄ 3

abbrev g2 : Point ⦃bn = toy⦄
g2 = mult2 ⦃bn = toy⦄ 5

last_cost : base_cost ⦃bn = toy⦄ word g1 g2 + 20 * re_key_cost ⦃bn = toy⦄ word g1 g2 ≡ 84
unfolding size_bytes sov_msg sov_loop marshal
last_cost = refl

alice_communication_costs_example :
    (results sizes counts : List ℤ) × (alice_communication_cost_results ⦃bn = toy⦄ word g1 g2 101
        (pos 10)
        (pos 100)
        (pos 10)
        (pos 5)
        (pos 20)
        (pos 5)
      ≡ ok (results, sizes, counts))
    × (get_elem? counts 3 ≡ up_to 20 (5 + 5 * 3))
    × (results ≡ concat_map (λ size. map (cost_at ⦃bn = toy⦄ word g1 g2) counts) sizes)
alice_communication_costs_example =
    alice_communication_costs ⦃bn = toy⦄ word g1 g2 10 100 10 5 20 5 101 3 two_sizes
      (omega (arith, last_cost))
