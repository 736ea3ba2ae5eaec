-- ===== src/Tests/Toy.antt =====
-- Small stand-ins for the parameters: bn256 by the integers modulo 7, the digests and the cipher by
-- simple functions of the right sizes. They meet every hypothesis.
use mathlib.Core.HLevel.{Σ_prop_path}
use mathlib.Core.Logic.{dite, dif_pos}
use native.Mathlib.Bridge.{le_prop}
use native.Mathlib.Decide.{dec_lt}
use native.Mathlib.Nat.{mod-lt, mod-add-mod}
use proxyot.Prelude.{
  ℕ, zero, suc, ◌+◌, ◌-◌, ◌*◌, ◌%◌, ◌<◌, ◌≡◌, ◌⊎◌, inl, inr, refl, sym, ap, ap₂, ◌∙◌, arith, Option,
  none, some, [], ◌∷◌, ◌++◌, map, length, replicate, length-append, length-map,
}
use proxyot.BigInt.{emod}
use proxyot.BigInt.Residue.{IsPrime, mul_residue_left, mul_residue_right}
use proxyot.Bn256.{Group, Bn256, IsCyclic, IsPairing}
use proxyot.Crypto.{Bytes, Crypto, IsCrypto}

factor_of_seven : (r b : ℕ) → r < 7 → r * b % 7 ≡ 0 → (r ≡ 0) ⊎ (b % 7 ≡ 0)
factor_of_seven zero b h e = inl refl
factor_of_seven (suc zero) b h e = inr (omega arith)
factor_of_seven (suc (suc zero)) b h e = inr (omega arith)
factor_of_seven (suc (suc (suc zero))) b h e = inr (omega arith)
factor_of_seven (suc (suc (suc (suc zero)))) b h e = inr (omega arith)
factor_of_seven (suc (suc (suc (suc (suc zero))))) b h e = inr (omega arith)
factor_of_seven (suc (suc (suc (suc (suc (suc zero)))))) b h e = inr (omega arith)
factor_of_seven (suc (suc (suc (suc (suc (suc (suc r))))))) b h e = absurd (omega arith)

seven-IsPrime : IsPrime 7
seven-IsPrime = record {
  above_one = omega arith;
  euclid = λ a b e. factor_of_seven (a % 7) b (omega arith) (mul_residue_left a b 7 ∙ e);
}

-- A residue modulo 7.
abbrev pub Z7 : Type 0
Z7 = (n : ℕ) × (n < 7)

abbrev pub z7 : ℕ → Z7
z7 n = (n % 7, mod-lt n (omega arith))

z7_eq : (a b : Z7) → a.0 ≡ b.0 → a ≡ b
z7_eq a b e = Σ_prop_path (λ n. le_prop) {u = a} {v = b} e

abbrev read_z7 : Bytes → Option (Z7 × Bytes)
read_z7 [] = none
read_z7 (b ∷ rest) = dite (dec_lt b 7) (λ h. some ((b, h), rest)) (λ _. none)

abbrev pub group7 : Group Z7
group7 = record {
  zero_value = z7 0;
  scalar_base_mult = λ k. z7 (emod k 7);
  scalar_mult = λ a k. z7 (a.0 * emod k 7);
  add = λ a b. z7 (a.0 + b.0);
  neg = λ a. z7 (7 - a.0);
  marshal = λ a. a.0 ∷ [];
  unmarshal = read_z7;
}

read-group7 : (a : Z7) (rest : Bytes) → read_z7 (a.0 ∷ rest) ≡ some (a, rest)
read-group7 (n, h) rest = dif_pos (dec_lt n 7) le_prop h (λ p. some ((n, p), rest)) (λ _. none)

times_suc : (a k : ℕ) → a * (suc k % 7) % 7 ≡ (a + a * (k % 7) % 7) % 7
times_suc a k =
    mul_residue_right a (suc k) 7
    ∙ ap (λ (n : ℕ). n % 7) (omega arith)
    ∙ sym (mod-add-mod (a * k) 7 a)
    ∙ ap (λ (n : ℕ). (n + a) % 7) (sym (mul_residue_right a k 7))
    ∙ ap (λ (n : ℕ). n % 7) (omega arith)

group7-IsCyclic : IsCyclic 7 group7
unfolding emod
group7-IsCyclic = record {
  add_assoc = λ a b c. z7_eq _ _ (omega arith);
  add_comm = λ a b. z7_eq _ _ (omega arith);
  zero_add = λ a. z7_eq _ _ (omega (arith, a.1));
  add_neg = λ a. z7_eq _ _ (omega (arith, a.1));
  mult_zero = λ a. z7_eq _ _ (omega arith);
  mult_suc = λ a k. z7_eq _ _ (times_suc a.0 k);
  base_mult = λ k. z7_eq _ _ (omega arith);
  order_exact =
      λ k. (λ e. omega (arith, ap (λ (x : Z7). x.0) e), λ e. z7_eq _ _ (omega (arith, e)));
  generated = λ a. (a.0, z7_eq _ _ (omega (arith, a.1)));
  unmarshal-marshal = read-group7;
}

abbrev pub toy : Bn256
toy = record {
  G1 = Z7;
  G2 = Z7;
  GT = Z7;
  order = 7;
  g1 = group7;
  g2 = group7;
  gt = group7;
  pair = λ a b. z7 (a.0 * b.0);
}

product_residue : (j k : ℕ) → j % 7 % 7 * (k % 7 % 7) % 7 ≡ j * k % 7 % 7
product_residue j k =
    mul_residue_right (j % 7 % 7) (k % 7) 7
    ∙ mul_residue_right (j % 7 % 7) k 7
    ∙ mul_residue_left (j % 7) k 7
    ∙ mul_residue_left j k 7
    ∙ omega arith

pub toy-IsPairing : IsPairing toy
unfolding emod
toy-IsPairing = record {
  prime = seven-IsPrime;
  cyclic1 = group7-IsCyclic;
  cyclic2 = group7-IsCyclic;
  cyclic_t = group7-IsCyclic;
  bilinear = λ j k. z7_eq _ _ (product_residue j k);
}

-- A digest of as many bytes as SHA-256 has, of which the last is the sum of the message, and an
-- encryption of a block that adds one to each byte.
abbrev pub sum : Bytes → ℕ
sum [] = 0
sum (x ∷ xs) = let rest = sum xs in x + rest

abbrev pub digest : Bytes → Bytes
digest m = replicate 31 0 ++ (sum m % 256) ∷ []

length-digest : (m : Bytes) → length (digest m) ≡ 32
length-digest m = length-append (replicate 31 0) ((sum m % 256) ∷ []) ∙ refl

abbrev pub toy_crypto : Crypto
toy_crypto = record {
  sha256 = digest;
  sha512 = λ m. digest m ++ digest m;
  hmac = λ k m. digest (k ++ m);
  encrypt_block = λ k b. map (λ (x : ℕ). x + 1) b;
  decrypt_block = λ k b. map (λ (x : ℕ). x - 1) b;
}

back : (b : Bytes) → map (λ (x : ℕ). x - 1) (map (λ (x : ℕ). x + 1) b) ≡ b
back [] = refl
back (x ∷ xs) = ap₂ ◌∷◌ (omega arith) (back xs)

pub toy_crypto-IsCrypto : IsCrypto toy_crypto
toy_crypto-IsCrypto = record {
  length-sha256 = length-digest;
  length-sha512 = λ m.
      length-append (digest m) (digest m)
      ∙ ap₂ (λ (s t : ℕ). s + t) (length-digest m) (length-digest m);
  length-hmac = λ k m. length-digest (k ++ m);
  length-encrypt_block = λ k b h. length-map (λ (x : ℕ). x + 1) b ∙ h;
  length-decrypt_block = λ k b h. length-map (λ (x : ℕ). x - 1) b ∙ h;
  decrypt-encrypt = λ k b hk hb. back b;
}
