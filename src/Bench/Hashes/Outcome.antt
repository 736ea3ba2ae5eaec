-- ===== src/Bench/Hashes/Outcome.antt =====
-- runCSFigure1 of bench/bench_cs.go returns: every block is read and hashed, and the collision is one.
use native.Mathlib.Nat.{mod-eq_of_lt, mul_comm}
use proxyot.Prelude.{
  ℕ, zero, suc, ◌+◌, ◌*◌, ◌%◌, ◌^◌, ◌<◌, ◌≡◌, ◌≢◌, refl, sym, ap, ◌∙◌, arith, true, Option, none,
  some, List, [], ◌∷◌, length, get_elem?, All, ==_iff, ==-false_iff, inl, inr,
}
use proxyot.Prelude.Result.{ok, ok-injective}
use proxyot.BigInt.{ℤ, pos, set_bytes}
use proxyot.Rand.{Reader}
use proxyot.Bn256.{Bn256, IsPairing}
use proxyot.Crypto.{Bytes, Crypto}
use proxyot.Curve.{Point, random_field_element}
use proxyot.Curve.Field.{random_field_element-IsFieldElement}
use proxyot.Curve.Calculus.{mult1, mult2}
use proxyot.MathRand.{MathRand, IsMathRand}
use proxyot.MathRand.Laws.{int63n_returns}
use proxyot.Chash.{ChameleonHash, equals, compute_hash}
use proxyot.Chash.Collision.{collision, compute_hash_mult}
use proxyot.Merkle.{Tree, new_tree}
use proxyot.Merkle.Layer.{new_tree-Reduces}
use proxyot.Fileobj.{to_int64}
use proxyot.Fileobj.Count.{count_blocks_lem, count_unique}
use proxyot.Fileobj.Mem.{MemFileObj, new, get_block}
use proxyot.Fileobj.Mem.Blocks.{block_of}
use proxyot.Fileobj.Mem.Store.{IsFile, get_block_in}
use proxyot.Bench.Updates.{block_scalar}
use proxyot.Bench.Updates.Costs.{
  to_int64_small, equals_refl, block_scalar_mult, new_point1, new_point2,
}
use proxyot.Bench.Hashes.{
  read_bytes, new_mem_file_obj, random_points, Target, no_target, hash_loop, update_target,
  run_cs_figure1,
}

pub read_bytes_returns :
    (mr : MathRand) (laws : IsMathRand mr) (n : ℕ) (s : mr.Source)
    → (bytes : Bytes) × (s' : mr.Source) × (read_bytes mr (pos n) s ≡ ok (bytes, s'))
      × (length bytes ≡ n)
unfolding read_bytes
read_bytes_returns mr laws n s =
    let (bytes, s', run, len) = laws.read_returns n s in (bytes, s', rw (read_bytes, run), len)

-- The file of the benchmark has as many blocks as are asked for.
new_mem_file_obj_returns :
    (mr : MathRand) (laws : IsMathRand mr) (count b : ℕ) (s : mr.Source)
    → 0 < b
    → count * b < 2 ^ 63
    → (obj : MemFileObj) × (s' : mr.Source) × (new_mem_file_obj mr (to_int64 (pos (count * b))) b s
        ≡ ok (obj, s'))
      × IsFile obj
      × (obj.block_count ≡ count)
unfolding new_mem_file_obj new
new_mem_file_obj_returns mr laws count b s positive fits =
    let (bytes, s', drawn, len) = read_bytes_returns mr laws (count * b) s in
    let (c, counted, covers, tight) = count_blocks_lem (length bytes) b positive in
    let commuted = mul_comm b count in
    (
      record { content = bytes; file_size = length bytes; block_size = b; block_count = c },
      s',
      rw (to_int64_small (count * b) fits, drawn, counted),
      record {
        positive = positive;
        sized = refl;
        fits = omega (arith, len, fits);
        covers = covers;
        tight = tight;
      },
      count_unique (count * b) b c count (omega (arith, covers, len)) (omega (arith, tight, len))
          (omega (arith, commuted)) (omega (arith, commuted, positive)),
    )

module _ ⦃bn : Bn256⦄ where
  -- Scalars that are drawn one after the other.
  abbrev pub Gives : ℕ → Reader → Reader → Type 0
  Gives zero r r' = r' ≡ r
  Gives (suc n) r r' =
      (k : ℕ) × (rest : Reader) × (random_field_element r ≡ ok (pos k, rest)) × Gives n rest r'

  -- A scalar with its multiple of the generator of G2.
  abbrev IsKey : ℤ × Point → Type 0
  IsKey p = (k : ℕ) × (p ≡ (pos k, mult2 k))

  module _ (laws : IsPairing bn) (cr : Crypto) where
    random_points_returns :
        (n : ℕ) (r r' : Reader)
        → Gives n r r'
        → (ps : List (ℤ × Point)) × (random_points n r ≡ ok (ps, r'))
          × (length ps ≡ n)
          × All IsKey ps
    unfolding random_points
    random_points_returns zero r r' e = ([], ap (λ (x : Reader). ok ([], x)) (sym e), refl, tt)
    random_points_returns (suc n) r r' (k, rest, drawn, gives) =
        let (ps, run, len, keys) = random_points_returns n rest r' gives in
        (
          (pos k, mult2 k) ∷ ps,
          rw (new_point2 laws cr k r rest drawn, run),
          ap suc len,
          ((k, refl), keys),
        )

    module _ (x : ℕ) (obj : MemFileObj) (file : IsFile obj) (target : ℕ) where
      -- The hash of a block with a key of G2.
      hashed :
          (k i : ℕ)
          → i < obj.block_count
          → (bytes : Bytes) × (m : ℕ) × (ch : ChameleonHash) × (get_block obj (pos i) ≡ ok bytes)
            × (block_scalar cr bytes ≡ ok (pos m))
            × (compute_hash cr (mult1 x) (mult2 k) (pos m) ≡ ok ch)
      hashed k i below =
          let bytes = block_of obj.content obj.block_size i in
          let m = set_bytes (cr.sha256 bytes) % bn.order in
          (
            bytes,
            m,
            _,
            get_block_in obj file i below,
            block_scalar_mult laws cr bytes,
            compute_hash_mult laws cr x k m,
          )

      hash_loop_after :
          (ps : List (ℤ × Point)) (i : ℕ) (found : Target)
          → All IsKey ps
          → i + length ps ≡ obj.block_count
          → target < i
          → (hashes : List ChameleonHash) × (hash_loop cr obj (mult1 x) target ps i found
              ≡ ok (hashes, found))
      unfolding hash_loop
      hash_loop_after [] i found keys whole after = ([], refl)
      hash_loop_after (p ∷ ps) i found ((k, key), keys) whole after =
          let (bytes, m, ch, read, reduced, made) = hashed k i (omega arith) in
          let (hashes, run) = hash_loop_after ps (suc i) found keys (omega arith) (omega arith) in
          (
            ch ∷ hashes,
            rw (
              read,
              reduced,
              ap (λ (q : ℤ × Point). compute_hash cr (mult1 x) q.1 (pos m)) key ∙ made,
              (==-false_iff i target).1 (λ e. omega arith),
              run,
            ),
          )

      -- What the loop leaves at the target.
      pub hash_loop_returns :
          (j : ℕ) (ps : List (ℤ × Point)) (i : ℕ) (found : Target)
          → All IsKey ps
          → i + length ps ≡ obj.block_count
          → i + j ≡ target
          → j < length ps
          → (hashes : List ChameleonHash) × (k m : ℕ) × (ch : ChameleonHash) × (hash_loop cr obj
                (mult1 x)
                target
                ps
                i
                found
              ≡ ok (hashes, (some (pos m), ch)))
            × (get_elem? ps j ≡ some (pos k, mult2 k))
            × (compute_hash cr (mult1 x) (mult2 k) (pos m) ≡ ok ch)
      unfolding hash_loop
      hash_loop_returns j [] i found keys whole at below = absurd (omega arith)
      hash_loop_returns zero (p ∷ ps) i found ((k, key), keys) whole at below =
          let (bytes, m, ch, read, reduced, made) = hashed k i (omega arith) in
          let (hashes, run) =
            hash_loop_after ps (suc i) (some (pos m), ch) keys (omega arith) (omega arith) in
          (
            ch ∷ hashes,
            k,
            m,
            ch,
            rw (
              read,
              reduced,
              ap (λ (q : ℤ × Point). compute_hash cr (mult1 x) q.1 (pos m)) key ∙ made,
              (==_iff i target).1 (omega arith),
              run,
            ),
            ap some key,
            made,
          )
      hash_loop_returns (suc j) (p ∷ ps) i found ((k, key), keys) whole at below =
          let (bytes, m, ch, read, reduced, made) = hashed k i (omega arith) in
          let (hashes, k', m', ch', run, here, made') =
            hash_loop_returns j ps (suc i) found keys (omega arith) (omega arith) (omega arith) in
          (
            ch ∷ hashes,
            k',
            m',
            ch',
            rw (
              read,
              reduced,
              ap (λ (q : ℤ × Point). compute_hash cr (mult1 x) q.1 (pos m)) key ∙ made,
              (==-false_iff i target).1 (λ e. omega arith),
              run,
            ),
            here,
            made',
          )

    new_tree_returns :
        (hashes : List ChameleonHash) → (t : Option Tree) × (new_tree cr hashes ≡ ok t)
    new_tree_returns hashes = elim (new_tree-Reduces cr hashes) [
      | inl (_, run) ↦ (none, run)
      | inr (top, run, _) ↦ (_, run)
    ]

    update_target_returns :
        (x k m target : ℕ) (ps : List (ℤ × Point)) (ch : ChameleonHash) (new_block : Bytes)
        → x % bn.order ≢ 0
        → get_elem? ps target ≡ some (pos k, mult2 k)
        → compute_hash cr (mult1 x) (mult2 k) (pos m) ≡ ok ch
        → update_target cr (mult1 x) (pos x) ps target (some (pos m), ch) new_block ≡ ok tt
    unfolding update_target
    update_target_returns x k m target ps ch new_block nx here hashed =
        let (ch', n, run, same, _) =
          collision laws cr x k m (set_bytes (cr.sha256 new_block) % bn.order) nx in
        let kept : equals ch' ch ≡ true =
          ap (equals ch') (ok-injective (sym hashed ∙ same)) ∙ equals_refl ch' in
        rw (block_scalar_mult laws cr new_block, here, run, kept)

    -- If a scalar and one more for each block are drawn, and the size of the file is an int64, then for
    -- a count and a block size above 0 runCSFigure1 returns without an error, whatever math/rand
    -- gives: the file has as many blocks as are asked for, all of them are read and hashed, the hash
    -- tree is built, and the replaced block keeps its chameleon hash.
    pub run_cs_figure1_returns :
        (mr : MathRand) (rand_laws : IsMathRand mr) (count b : ℕ) (r r' : Reader) (s : mr.Source)
        → 0 < count
        → 0 < b
        → count * b < 2 ^ 63
        → Gives (suc count) r r'
        → (s' : mr.Source) × (run_cs_figure1 cr mr count b (r, s) ≡ ok (r', s'))
    unfolding run_cs_figure1
    run_cs_figure1_returns mr rand_laws count b r r' s some_blocks positive fits
          (x, r1, drawn, gives) =
        let (obj, s1, created, file, whole) =
          new_mem_file_obj_returns mr rand_laws count b s positive fits in
        let (new_block, s2, read, _) = read_bytes_returns mr rand_laws b s1 in
        let (target, s3, chosen, below) = int63n_returns mr rand_laws count s2 some_blocks in
        let (above, under) = random_field_element-IsFieldElement r (pos x) r1 drawn in
        let nx : x % bn.order ≢ 0 = λ e. absurd (omega (arith, e, above, mod-eq_of_lt under)) in
        let (ps, pairs, len, keys) = random_points_returns count r1 r' gives in
        let (hashes, k, m, ch, hashed_all, here, made) =
          hash_loop_returns x obj file target target ps 0 no_target keys (omega (arith, len, whole))
            (omega arith) (omega (arith, len, below)) in
        let (tree, built) = new_tree_returns hashes in
        (
          s3,
          rw (
            created,
            read,
            chosen,
            new_point1 laws cr x r r1 drawn,
            pairs,
            hashed_all,
            built,
            update_target_returns x k m target ps ch new_block nx here made,
          ),
        )
