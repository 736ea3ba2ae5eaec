-- ===== src/Bench/Network/Costs.antt =====
-- The costs of bench/network.go: linear in the number of messages, and the same for every size.
use native.Mathlib.Nat
use proxyot.Prelude.{
  ℕ, zero, suc, ◌+◌, ◌*◌, ◌^◌, ◌<◌, ◌≤◌, ◌≡◌, refl, ap, ◌∙◌, arith, List, [], ◌∷◌, ◌++◌, map,
  length, replicate, length-append, get_elem?,
}
use proxyot.Prelude.Result.{ok, ◌>>=◌}
use proxyot.BigInt.{ℤ, pos, negsuc, ◌+ℤ◌}
use proxyot.Bn256.{Bn256}
use proxyot.Crypto.{Bytes}
use proxyot.Curve.{Point, marshal}
use proxyot.Pb.{sov_msg, size_bytes, size_list, put_bytes, put_list}
use proxyot.Pb.Messages.{marshal_ot_choice_request, marshal_pre_re_encrypt_request}
use proxyot.Pb.Lengths.{length-put_bytes, length-put_list}
use proxyot.Fileobj.{to_int64}
use proxyot.Bench.Updates.Costs.{to_int64_small}
use proxyot.Bench.Sweeps.Values.{concat_map}
use proxyot.Bench.Sweeps.Nested.{up_to, IsSweep, nested_returns}
use proxyot.Bench.Network.{
  mock_ot_choice_request, mock_re_encrypt_request, alice_communication_cost,
  alice_communication_cost_results,
}

size_list-replicate :
    (b : Bytes) (n : ℕ) → size_list (replicate n b) ≡ n * (1 + length b + sov_msg (length b))
unfolding size_list
size_list-replicate b zero = omega arith
size_list-replicate b (suc n) = omega (arith, size_list-replicate b n)

module _ ⦃bn : Bn256⦄ (cid : Bytes) (g1 g2 : Point) where
  -- What a request costs without re-keys, and a re-key: its bytes, their length and a tag.
  abbrev pub base_cost : ℕ
  base_cost = 3 * size_bytes cid + 4 * size_bytes (marshal g1)

  abbrev pub re_key_cost : ℕ
  re_key_cost = 1 + length (marshal g2) + sov_msg (length (marshal g2))

  received_length :
      length (marshal_ot_choice_request (mock_ot_choice_request cid g1 g2))
      ≡ size_bytes cid + 3 * size_bytes (marshal g1)
  unfolding marshal_ot_choice_request mock_ot_choice_request
  received_length =
      let p = put_bytes 34 (marshal g1) ++ [] in
      let q = put_bytes 26 (marshal g1) ++ p in
      let r = put_bytes 18 (marshal g1) ++ q in
      omega (
        arith,
        length-append (put_bytes 10 cid) r,
        length-append (put_bytes 18 (marshal g1)) q,
        length-append (put_bytes 26 (marshal g1)) p,
        length-append (put_bytes 34 (marshal g1)) [],
        length-put_bytes 10 cid,
        length-put_bytes 18 (marshal g1),
        length-put_bytes 26 (marshal g1),
        length-put_bytes 34 (marshal g1),
      )

  sent_length :
      (n : ℕ)
      → length (
          marshal_pre_re_encrypt_request (record {
            cid = cid;
            lpp = marshal g1;
            re_keys = replicate n (marshal g2);
            txid = cid;
          }))
        ≡ 2 * size_bytes cid + size_bytes (marshal g1) + n * re_key_cost
  unfolding marshal_pre_re_encrypt_request
  sent_length n =
      let keys = replicate n (marshal g2) in
      let p = put_bytes 34 cid ++ [] in
      let q = put_list 26 keys ++ p in
      let r = put_bytes 18 (marshal g1) ++ q in
      omega (
        arith,
        length-append (put_bytes 10 cid) r,
        length-append (put_bytes 18 (marshal g1)) q,
        length-append (put_list 26 keys) p,
        length-append (put_bytes 34 cid) [],
        length-put_bytes 10 cid,
        length-put_bytes 18 (marshal g1),
        length-put_list 26 keys,
        size_list-replicate (marshal g2) n,
        length-put_bytes 34 cid,
      )

  cost_of :
      (n : ℕ)
      → base_cost + n * re_key_cost < 2 ^ 63
      → alice_communication_cost cid g1 g2 (pos n) ≡ ok (pos (base_cost + n * re_key_cost))
  unfolding alice_communication_cost mock_re_encrypt_request ◌+ℤ◌
  cost_of n small =
      ap (λ (x : ℕ). ok (to_int64 (pos x))) (omega (arith, received_length, sent_length n))
      ∙ ap (λ (x : ℤ). ok x) (to_int64_small (base_cost + n * re_key_cost) small)

  -- The cost of a count, which is never below 0 here.
  abbrev pub cost_at : ℤ → ℤ
  cost_at (pos n) = pos (base_cost + n * re_key_cost)
  cost_at (negsuc n) = pos 0

  -- For sizes from size_min above 0 by a ratio above 1, and counts by a step above 0, where the last
  -- products, sums and costs are below 2^63, fuel above size_max and above count_max + 1 is enough:
  -- AliceCommunicationCostResults returns the counts, of which that at the index j is
  -- count_min + step * j if that is at most count_max, and, for every size in turn, the cost of each
  -- count: that of the requests without re-keys, and for each message that of a re-key with its tag
  -- and its length. The cost does not depend on the size.
  pub alice_communication_costs :
      (size_min size_max ratio count_min count_max step fuel j : ℕ)
      → IsSweep size_min size_max ratio count_max step fuel
      → base_cost + count_max * re_key_cost < 2 ^ 63
      → (results sizes counts : List ℤ) × (alice_communication_cost_results cid g1 g2 fuel
            (pos size_min)
            (pos size_max)
            (pos ratio)
            (pos count_min)
            (pos count_max)
            (pos step)
          ≡ ok (results, sizes, counts))
        × (get_elem? counts j ≡ up_to count_max (count_min + step * j))
        × (results ≡ concat_map (λ size. map cost_at counts) sizes)
  unfolding alice_communication_cost_results
  alice_communication_costs size_min size_max ratio count_min count_max step fuel j sweep
        cost_fits =
      let (sizes, counts, sized, counted, run, _, count_at) =
        nested_returns size_min size_max ratio count_min count_max step fuel 0 j
          (λ size count. cost_at count)
          (λ size count results.
            alice_communication_cost cid g1 g2 count >>= λ cost. ok (results ++ cost ∷ []))
          sweep (λ size count acc below. appended count acc below) in
      (
        concat_map (λ size. map cost_at counts) sizes,
        sizes,
        counts,
        rw (sized, counted, run),
        count_at,
        refl,
      )
    where
      appended :
          (count : ℕ) (acc : List ℤ)
          → count ≤ count_max
          → (alice_communication_cost cid g1 g2 (pos count) >>= λ cost. ok (acc ++ cost ∷ []))
            ≡ ok (acc ++ cost_at (pos count) ∷ [])
      appended count acc below =
          rw (cost_of count (omega (arith, cost_fits, Nat.mul-le-mul_right re_key_cost below)))
