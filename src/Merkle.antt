-- ===== src/Merkle.antt =====
-- merkle/merkle.go: the root of a hash tree over a list of leaves. A Hash is its array; a pointer
-- to one is never nil and never written through, so it is the array too.
pub mod Layer
pub mod Binding
use proxyot.Prelude.{
  ℕ, zero, suc, ◌+◌, ◌*◌, ◌/◌, ◌%◌, ◌==◌, ltb, Option, none, some, List, [], ◌∷◌, ◌++◌,
  if◌then◌else◌, length, get_elem?, replicate,
}
use proxyot.Prelude.Equal.{copy, copy_at}
use proxyot.Prelude.Result.{Result, ok, panic, diverged, index_out_of_range, ◌>>=◌}
use proxyot.Crypto.{Bytes, Crypto, hash_size}

abbrev pub Hash : Type 0
Hash = Bytes

pub record Tree : Type 0 where
  pub root : Hash
  pub leaves : List Hash

-- nodes[i]
abbrev pub node_at : List Hash → ℕ → Result Hash
node_at nodes i = elim (get_elem? nodes i) [ none ↦ panic index_out_of_range | some h ↦ ok h ]

module _ (cr : Crypto) where
  -- computePair(left, right): the digest of 64 zero bytes into which both are copied
  unfoldable pub compute_pair : Hash → Hash → Hash
  compute_pair left right =
      let blank = replicate (hash_size * 2) 0 in
      cr.sha256 (copy_at hash_size (copy blank left) right)

  -- The loop of computeLayer at i, with `left` rounds to go.
  unfoldable pub pairs_loop : List Hash → ℕ → ℕ → Result (List Hash)
  pairs_loop nodes i zero = ok []
  pairs_loop nodes i (suc left) = do
    a ← node_at nodes (i * 2)
    b ← node_at nodes (i * 2 + 1)
    rest ← pairs_loop nodes (suc i) left
    ok (compute_pair a b ∷ rest)

  -- computeLayer(nodes): the pairs, and an odd last node hashed alone
  unfoldable pub compute_layer : List Hash → Result (List Hash)
  compute_layer nodes = pairs_loop nodes 0 (length nodes / 2) >>= λ results.
      if length nodes % 2 == 1
      then (node_at nodes (length nodes / 2 * 2) >>= λ last. ok (results ++ cr.sha256 last ∷ []))
      else ok results

  -- `for len(layer) > 1`
  unfoldable pub layers_loop : ℕ → List Hash → Result (List Hash)
  layers_loop zero layer = diverged
  layers_loop (suc f) layer =
      let again = compute_layer layer >>= layers_loop f in
      if ltb 1 (length layer) then again else ok layer

  -- NewTree(leaves): nil for no leaves. Every layer is shorter than the one before, so as many
  -- rounds as there are leaves are enough.
  unfoldable pub new_tree : List Hash → Result (Option Tree)
  new_tree leaves =
      if length leaves == 0
      then ok none
      else (layers_loop (length leaves) leaves >>= λ layer.
          node_at layer 0 >>= λ top. ok (some (record { root = cr.sha256 top; leaves = leaves })))
