-- ===== src/Bn256/Laws.antt =====
-- What follows for the multiples of the generator: they add, multiply and compare as their scalars
-- do modulo the order.
use native.Mathlib.Nat
use native.Mathlib.Nat.{mul-suc}
use proxyot.Prelude.{
  ℕ, zero, suc, ◌+◌, ◌-◌, ◌*◌, ◌%◌, ◌≡◌, ◌↔◌, ◌≤◌, ◌⊎◌, inl, inr, sym, ap, ◌∙◌, arith,
}
use proxyot.BigInt.{pos}
use proxyot.BigInt.Residue.{IsPrime, sub_residue, eq_residue_of_sub}
use proxyot.Bn256.{Group, IsCyclic}

module _ {G : Type 0} (order : ℕ) (ops : Group G) (laws : IsCyclic order ops) where
  -- The generator's multiple by k.
  abbrev base : ℕ → G
  base k = ops.scalar_base_mult (pos k)

  add_zero : (a : G) → ops.add a (base 0) ≡ a
  add_zero a = laws.add_comm a (base 0) ∙ laws.zero_add a

  pub base-suc : (k : ℕ) → base (suc k) ≡ ops.add (base 1) (base k)
  base-suc k =
      laws.base_mult (suc k)
      ∙ laws.mult_suc (base 1) k
      ∙ ap (ops.add (base 1)) (sym (laws.base_mult k))

  pub add-base : (j k : ℕ) → ops.add (base j) (base k) ≡ base (j + k)
  add-base zero k = laws.zero_add (base k) ∙ ap base (omega arith)
  add-base (suc j) k =
      ap (λ (x : G). ops.add x (base k)) (base-suc j)
      ∙ laws.add_assoc (base 1) (base j) (base k)
      ∙ ap (ops.add (base 1)) (add-base j k)
      ∙ sym (base-suc (j + k))
      ∙ ap base (omega arith)

  pub scalar_mult-base : (j k : ℕ) → ops.scalar_mult (base j) (pos k) ≡ base (j * k)
  scalar_mult-base j zero = laws.mult_zero (base j) ∙ ap base (omega arith)
  scalar_mult-base j (suc k) =
      laws.mult_suc (base j) k
      ∙ ap (ops.add (base j)) (scalar_mult-base j k)
      ∙ add-base j (j * k)
      ∙ ap base (omega (arith, mul-suc j k))

  -- Equal sums with one summand in common have equal other summands.
  pub add_cancel : (a b c : G) → ops.add a b ≡ ops.add a c → b ≡ c
  add_cancel a b c e = sym (shift b) ∙ ap (ops.add (ops.neg a)) e ∙ shift c
    where
      shift : (x : G) → ops.add (ops.neg a) (ops.add a x) ≡ x
      shift x =
          sym (laws.add_assoc (ops.neg a) a x)
          ∙ ap (λ (y : G). ops.add y x) (laws.add_comm (ops.neg a) a ∙ laws.add_neg a)
          ∙ laws.zero_add x

  -- a - b is the x with b + x = a.
  pub add-neg_eq : (a b x : G) → ops.add b x ≡ a → ops.add a (ops.neg b) ≡ x
  add-neg_eq a b x e =
      ap (λ (y : G). ops.add y (ops.neg b)) (sym e ∙ laws.add_comm b x)
      ∙ laws.add_assoc x b (ops.neg b)
      ∙ ap (ops.add x) (laws.add_neg b)
      ∙ add_zero x

  -- -k is k times the order less one.
  pub neg-base : IsPrime order → (k : ℕ) → ops.neg (base k) ≡ base (k * (order - 1))
  neg-base prime k =
      sym (laws.zero_add (ops.neg (base k)))
      ∙ add-neg_eq (base 0) (base k) (base (k * (order - 1))) (add-base k (k * (order - 1)) ∙ whole)
    where
      product : k + k * (order - 1) ≡ k * order
      product =
          omega (arith, Nat.mul-sub k order 1, Nat.le-mul_of_pos_right {m = order} k (omega arith))

      whole : base (k + k * (order - 1)) ≡ base 0
      whole = ap base product ∙ (laws.order_exact (k * order)).1 (Nat.mul-mod_left k order)

  base-inj_le : (j k : ℕ) → j ≤ k → (base j ≡ base k) ↔ (j % order ≡ k % order)
  base-inj_le j k h = (forth, back)
    where
      split : base k ≡ ops.add (base j) (base (k - j))
      split = ap base (omega arith) ∙ sym (add-base j (k - j))

      forth : base j ≡ base k → j % order ≡ k % order
      forth e = eq_residue_of_sub order j k h (
          (laws.order_exact (k - j)).0 (
            add_cancel (base j) (base (k - j)) (base 0)
              (sym split ∙ sym e ∙ sym (add_zero (base j)))))

      back : j % order ≡ k % order → base j ≡ base k
      back e =
          sym (add_zero (base j))
          ∙ ap (ops.add (base j)) (sym ((laws.order_exact (k - j)).1 (sub_residue order j k e)))
          ∙ sym split

  -- Two multiples of the generator are equal exactly when their scalars are equal modulo the order.
  pub base-eq_iff : (j k : ℕ) → (base j ≡ base k) ↔ (j % order ≡ k % order)
  base-eq_iff j k = elim (total j k) [
    | inl h ↦ base-inj_le j k h
    | inr h ↦ let (f, g) = base-inj_le k j h in (λ e. sym (f (sym e)), λ e. sym (g (sym e)))
  ]
    where
      total : (x y : ℕ) → (x ≤ y) ⊎ (y ≤ x)
      total x y = omega arith
