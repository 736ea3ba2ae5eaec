-- ===== src/Merkle/Layer.antt =====
-- computeLayer pairs neighbours, and NewTree repeats it until one node is left.
use proxyot.Prelude.{
  ℕ, zero, suc, ◌+◌, ◌*◌, ◌/◌, ◌%◌, ◌<◌, ◌≡◌, ◌⊎◌, refl, sym, ap, ◌∙◌, arith, ◌==◌, none, some,
  List, [], ◌∷◌, ◌++◌, length, get_elem?, replicate, append_assoc, length-append, length-replicate,
  ==_iff, ==-false_iff, ltb_iff, Bool-cases, inl, inr,
}
use proxyot.Prelude.Equal.{copy, copy_at, copy_at-copy}
use proxyot.Prelude.Result.{ok}
use proxyot.Crypto.{Crypto, hash_size}
use proxyot.Merkle.{Hash, node_at, compute_pair, pairs_loop, compute_layer, layers_loop, new_tree}

get_elem?-append {ℓ} :
    {A : Type ℓ} (xs ys : List A) (k : ℕ) → get_elem? (xs ++ ys) (length xs + k) ≡ get_elem? ys k
get_elem?-append [] ys k = ap (get_elem? ys) (omega arith)
get_elem?-append (x ∷ xs) ys k =
    ap (get_elem? (x ∷ xs ++ ys))
      (let e : suc (length xs) + k ≡ suc (length xs + k) = omega arith in e)
    ∙ get_elem?-append xs ys k

module _ (cr : Crypto) where
  -- The layer above: neighbours are joined in pairs, and a last odd node is hashed alone.
  abbrev pub pair_layer : List Hash → List Hash
  pair_layer [] = []
  pair_layer (a ∷ []) = cr.sha256 a ∷ []
  pair_layer (a ∷ b ∷ rest) = compute_pair cr a b ∷ pair_layer rest

  abbrev whole_pairs : List Hash → List Hash
  whole_pairs [] = []
  whole_pairs (a ∷ []) = []
  whole_pairs (a ∷ b ∷ rest) = compute_pair cr a b ∷ whole_pairs rest

  pub compute_pair-append :
      (a b : Hash)
      → length a ≡ hash_size
      → length b ≡ hash_size
      → compute_pair cr a b ≡ cr.sha256 (a ++ b)
  unfolding compute_pair
  compute_pair-append a b ha hb =
      ap (λ (n : ℕ). cr.sha256 (copy_at n (copy (replicate (hash_size * 2) 0) a) b)) (sym ha)
      ∙ ap cr.sha256 (
          copy_at-copy (replicate (hash_size * 2) 0) a b
            (length-replicate {A = ℕ} (hash_size * 2) 0 ∙ omega arith))

  pairs_loop_lem :
      (front rest : List Hash) (i : ℕ)
      → length front ≡ i * 2
      → pairs_loop cr (front ++ rest) i (length rest / 2) ≡ ok (whole_pairs rest)
  unfolding pairs_loop
  pairs_loop_lem front [] i h = refl
  pairs_loop_lem front (a ∷ []) i h = refl
  pairs_loop_lem front (a ∷ b ∷ rest) i h =
      ap (pairs_loop cr nodes i)
        (let e : length (a ∷ b ∷ rest) / 2 ≡ suc (length rest / 2) = omega arith in e)
      ∙ rw (
        pairs_loop,
        node_at,
        found (i * 2) 0 (omega arith),
        found (i * 2 + 1) 1 (omega arith),
        ap (λ (l : List Hash). pairs_loop cr l (suc i) (length rest / 2))
              (sym (append_assoc front (a ∷ b ∷ []) rest))
            ∙ pairs_loop_lem (front ++ a ∷ b ∷ []) rest (suc i)
                (omega (arith, length-append front (a ∷ b ∷ []))),
      )
    where
      nodes : List Hash
      nodes = front ++ a ∷ b ∷ rest

      found : (j k : ℕ) → j ≡ length front + k → get_elem? nodes j ≡ get_elem? (a ∷ b ∷ rest) k
      found j k e = ap (get_elem? nodes) e ∙ get_elem?-append front (a ∷ b ∷ rest) k

  whole_pairs-even :
      (nodes : List Hash) → length nodes % 2 ≡ 0 → whole_pairs nodes ≡ pair_layer nodes
  whole_pairs-even [] h = refl
  whole_pairs-even (a ∷ []) h = absurd (omega arith)
  whole_pairs-even (a ∷ b ∷ rest) h =
      ap (λ (l : List Hash). compute_pair cr a b ∷ l) (whole_pairs-even rest (omega arith))

  whole_pairs-odd :
      (nodes : List Hash)
      → length nodes % 2 ≡ 1
      → (h : Hash) × (get_elem? nodes (length nodes / 2 * 2) ≡ some h)
        × (whole_pairs nodes ++ cr.sha256 h ∷ [] ≡ pair_layer nodes)
  whole_pairs-odd [] h = absurd (omega arith)
  whole_pairs-odd (a ∷ []) h = (a, refl, refl)
  whole_pairs-odd (a ∷ b ∷ rest) h =
      let (last, found, e) = whole_pairs-odd rest (omega arith) in
      (
        last,
        ap (get_elem? (a ∷ b ∷ rest)) (
              let e : suc (suc (length rest)) / 2 * 2 ≡ suc (suc (length rest / 2 * 2)) =
                omega arith in
              e)
            ∙ found,
        ap (λ (l : List Hash). compute_pair cr a b ∷ l) e,
      )

  -- computeLayer never indexes out of range, and returns the layer above.
  pub compute_layer_lem : (nodes : List Hash) → compute_layer cr nodes ≡ ok (pair_layer nodes)
  unfolding compute_layer
  compute_layer_lem nodes = elim (Bool-cases (length nodes % 2 == 1)) [
    | inl odd ↦
        let (last, found, e) = whole_pairs-odd nodes ((==_iff _ 1).0 odd) in
        rw (pairs_loop_lem [] nodes 0 refl, odd, node_at, found) (ap (λ (l : List Hash). ok l) e)
    | inr even ↦
        rw (pairs_loop_lem [] nodes 0 refl, even)
          (ap (λ (l : List Hash). ok l)
            (whole_pairs-even nodes (omega (arith, (==-false_iff (length nodes % 2) 1).0 even))))
  ]

  pub length-pair_layer : (nodes : List Hash) → length (pair_layer nodes) ≡ (length nodes + 1) / 2
  length-pair_layer [] = refl
  length-pair_layer (a ∷ []) = refl
  length-pair_layer (a ∷ b ∷ rest) = omega (arith, length-pair_layer rest)

  -- The root over some nodes: that of the layer above, down to a single node.
  pub data Reduces (top : Hash) : List Hash → Type 0 where
    one : Reduces top (top ∷ [])
    layer :
        (a b : Hash) (rest : List Hash)
        → Reduces top (pair_layer (a ∷ b ∷ rest))
        → Reduces top (a ∷ b ∷ rest)

  layers_loop-Reduces :
      (f : ℕ) (a : Hash) (rest : List Hash)
      → length rest < f
      → (top : Hash) × (layers_loop cr f (a ∷ rest) ≡ ok (top ∷ [])) × Reduces top (a ∷ rest)
  unfolding layers_loop
  layers_loop-Reduces zero a rest h = absurd (omega arith)
  layers_loop-Reduces (suc f) a [] h = (a, refl, one)
  layers_loop-Reduces (suc f) a (b ∷ rest) h =
      let (top, run, reduces) =
        layers_loop-Reduces f (compute_pair cr a b) (pair_layer rest)
          (omega (arith, length-pair_layer rest)) in
      (
        top,
        rw ((ltb_iff 1 (suc (suc (length rest)))).1 (omega arith), compute_layer_lem (a ∷ b ∷ rest))
            run,
        layer a b rest reduces,
      )

  -- NewTree returns nil for no leaves. For any other list it returns a tree that holds the leaves
  -- and the digest of the node to which computing layer after layer reduces them; no index leaves
  -- its range and the loop ends.
  pub new_tree-Reduces :
      (leaves : List Hash)
      → ((leaves ≡ []) × (new_tree cr leaves ≡ ok none))
        ⊎ ((top : Hash) × (new_tree cr leaves
              ≡ ok (some (record { root = cr.sha256 top; leaves = leaves })))
            × Reduces top leaves)
  unfolding new_tree
  new_tree-Reduces [] = inl (refl, refl)
  new_tree-Reduces (a ∷ rest) =
      let (top, run, reduces) = layers_loop-Reduces (suc (length rest)) a rest (omega arith) in
      inr (top, rw ((==-false_iff (suc (length rest)) 0).1 (omega arith), run), reduces)
