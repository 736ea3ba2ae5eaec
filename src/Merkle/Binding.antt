-- ===== src/Merkle/Binding.antt =====
-- A root binds its leaves: other leaves with the same root show a collision of the hash.
use mathlib.Core.Path.{subst}
use proxyot.Prelude.{
  ◌≡◌, ◌≢◌, ◌⊎◌, inl, inr, refl, sym, ap, ap₂, ◌∙◌, arith, none, some, List, [], ◌∷◌, ◌++◌, length,
  All, append_cancel,
}
use proxyot.Prelude.Equal.{bytes-cases}
use proxyot.Prelude.Result.{ok, ok-injective}
use proxyot.Crypto.{Bytes, Crypto, IsCrypto, hash_size}
use proxyot.Merkle.{Hash, Tree, compute_pair, new_tree}
use proxyot.Merkle.Layer.{
  pair_layer, compute_pair-append, length-pair_layer, Reduces, one, layer, new_tree-Reduces,
}

-- An array of 32 bytes.
abbrev pub IsHash : Hash → Type 0
IsHash h = length h ≡ hash_size

module _ (cr : Crypto) where
  -- Two different messages with one digest.
  abbrev pub Collision : Type 0
  Collision = (u : Bytes) × (v : Bytes) × (u ≢ v) × (cr.sha256 u ≡ cr.sha256 v)

  digest_binding : (u v : Bytes) → cr.sha256 u ≡ cr.sha256 v → (u ≡ v) ⊎ Collision
  digest_binding u v e = elim (bytes-cases u v) [ inl p ↦ inl p | inr p ↦ inr (u, v, p, e) ]

  head_eq : {a b : Hash} {as' bs : List Hash} → a ∷ as' ≡ b ∷ bs → a ≡ b
  head_eq e = cc

  tail_eq : {a b : Hash} {as' bs : List Hash} → a ∷ as' ≡ b ∷ bs → as' ≡ bs
  tail_eq e = cc

  pair_binding :
      (a b c d : Hash)
      → IsHash a
      → IsHash b
      → IsHash c
      → IsHash d
      → compute_pair cr a b ≡ compute_pair cr c d
      → ((a ≡ c) × (b ≡ d)) ⊎ Collision
  pair_binding a b c d ha hb hc hd e =
      elim (digest_binding (a ++ b) (c ++ d)
        (sym (compute_pair-append cr a b ha hb) ∙ e ∙ compute_pair-append cr c d hc hd)) [
          | inl p ↦ inl (append_cancel a b c d (ha ∙ sym hc) p)
          | inr p ↦ inr p
        ]

  pair_layer_binding :
      (xs ys : List Hash)
      → length xs ≡ length ys
      → All IsHash xs
      → All IsHash ys
      → pair_layer cr xs ≡ pair_layer cr ys
      → (xs ≡ ys) ⊎ Collision
  pair_layer_binding [] [] h hx hy e = inl refl
  pair_layer_binding [] (c ∷ ys) h hx hy e = absurd (omega arith)
  pair_layer_binding (a ∷ xs) [] h hx hy e = absurd (omega arith)
  pair_layer_binding (a ∷ []) (c ∷ []) h hx hy e = elim (digest_binding a c (head_eq e)) [
    | inl p ↦ inl (ap (λ (x : Hash). x ∷ []) p)
    | inr p ↦ inr p
  ]
  pair_layer_binding (a ∷ []) (c ∷ d ∷ ys) h hx hy e = absurd (omega arith)
  pair_layer_binding (a ∷ b ∷ xs) (c ∷ []) h hx hy e = absurd (omega arith)
  pair_layer_binding (a ∷ b ∷ xs) (c ∷ d ∷ ys) h (ha, (hb, hx)) (hc, (hd, hy)) e =
      join (pair_binding a b c d ha hb hc hd (head_eq e))
        (pair_layer_binding xs ys (omega arith) hx hy (tail_eq e))
    where
      join :
          ((a ≡ c) × (b ≡ d)) ⊎ Collision
          → (xs ≡ ys) ⊎ Collision
          → (a ∷ b ∷ xs ≡ c ∷ d ∷ ys) ⊎ Collision
      join (inl (p, q)) (inl r) = inl (ap₂ ◌∷◌ p (ap₂ ◌∷◌ q r))
      join (inr p) q = inr p
      join (inl p) (inr q) = inr q

  module _ (laws : IsCrypto cr) where
    pair_layer-IsHash : (xs : List Hash) → All IsHash (pair_layer cr xs)
    unfolding compute_pair
    pair_layer-IsHash [] = tt
    pair_layer-IsHash (a ∷ []) = (laws.length-sha256 a, tt)
    pair_layer-IsHash (a ∷ b ∷ xs) = (laws.length-sha256 _, pair_layer-IsHash xs)

    Reduces-binding :
        {top : Hash} {xs ys : List Hash}
        → Reduces cr top xs
        → Reduces cr top ys
        → length xs ≡ length ys
        → All IsHash xs
        → All IsHash ys
        → (xs ≡ ys) ⊎ Collision
    Reduces-binding one one h hx hy = inl refl
    Reduces-binding one (layer c d ys r) h hx hy = absurd (omega arith)
    Reduces-binding (layer a b xs r) one h hx hy = absurd (omega arith)
    Reduces-binding (layer a b xs r) (layer c d ys s) h hx hy = below (
        Reduces-binding r s (omega (arith, length-pair_layer cr xs, length-pair_layer cr ys))
          (pair_layer-IsHash (a ∷ b ∷ xs)) (pair_layer-IsHash (c ∷ d ∷ ys)))
      where
        below :
            (pair_layer cr (a ∷ b ∷ xs) ≡ pair_layer cr (c ∷ d ∷ ys)) ⊎ Collision
            → (a ∷ b ∷ xs ≡ c ∷ d ∷ ys) ⊎ Collision
        below (inl e) = pair_layer_binding (a ∷ b ∷ xs) (c ∷ d ∷ ys) h hx hy e
        below (inr p) = inr p

    tree_of :
        (xs : List Hash) (t : Tree)
        → new_tree cr xs ≡ ok (some t)
        → (top : Hash) × (t.root ≡ cr.sha256 top) × Reduces cr top xs
    tree_of xs t e = elim (new_tree-Reduces cr xs) [
      | inl (p, q) ↦ absurd (none≢some (ok-injective (sym q ∙ e)))
      | inr (top, q, r) ↦ (top, root_of (ok-injective (sym e ∙ q)), r)
    ]
      where
        none≢some : ¬ (none ≡ some t)
        none≢some p = cc

        root_of : {s : Tree} → some t ≡ some s → t.root ≡ s.root
        root_of p = ap (λ (x : Tree). x.root) (some_eq p)
          where
            some_eq : {s : Tree} → some t ≡ some s → t ≡ s
            some_eq q = cc

    -- Two lists of as many 32-byte leaves whose trees have the same root are equal, or two different
    -- messages with the same SHA-256 digest are at hand.
    pub root_binding :
        (xs ys : List Hash) (s t : Tree)
        → length xs ≡ length ys
        → All IsHash xs
        → All IsHash ys
        → new_tree cr xs ≡ ok (some s)
        → new_tree cr ys ≡ ok (some t)
        → s.root ≡ t.root
        → (xs ≡ ys) ⊎ Collision
    root_binding xs ys s t h hx hy es et e =
        let (top, p, r) = tree_of xs s es in
        let (top', p', r') = tree_of ys t et in
        conclude top top' r r' (digest_binding top top' (sym p ∙ e ∙ p'))
      where
        conclude :
            (top top' : Hash)
            → Reduces cr top xs
            → Reduces cr top' ys
            → (top ≡ top') ⊎ Collision
            → (xs ≡ ys) ⊎ Collision
        conclude top top' r r' (inl q) =
            Reduces-binding r (subst (λ x. Reduces cr x ys) (sym q) r') h hx hy
        conclude top top' r r' (inr q) = inr q
