-- ===== src/Pb/Fields.antt =====
-- Unmarshal of node/protocol/pb/msg.pb.go on what Marshal writes for a field.
use mathlib.Core.Path.{subst}
use proxyot.Prelude.{
  ℕ, zero, suc, ◌+◌, ◌*◌, ◌/◌, ◌%◌, ◌^◌, ◌<◌, ◌≡◌, refl, sym, ap, ◌∙◌, arith, some, List, [], ◌∷◌,
  ◌++◌, length, leb_iff, leb-false_iff, ltb_iff, ==-false_iff, length-append, take-append_eq,
  drop-append_eq, append_assoc, All, foldl,
}
use proxyot.Crypto.{Bytes}
use proxyot.Pb.{
  encode_varint_msg, put_bytes, put_number, put_element, put_list, Kind, bytes_field, number_field,
  take_field, unmarshal_loop,
}
use proxyot.Pb.Varint.{read_varint-tag, read_varint-encode_varint_msg}

module _ {M : Type 0} (kinds : ℕ → Kind M) where
  -- With a round for every byte, and one more, the loop ends with a message.
  abbrev pub Decodes : M → Bytes → M → Type 0
  Decodes m bytes m' = (f : ℕ) → length bytes < f → unmarshal_loop kinds f m bytes ≡ some m'

  pub Decodes-nothing : (m : M) → Decodes m [] m
  unfolding unmarshal_loop
  Decodes-nothing m zero h = absurd (omega arith)
  Decodes-nothing m (suc f) h = refl

  -- A round that reads a tag with the number k and a wire type, and then the field.
  round :
      (k wire_type f : ℕ) (m m' : M) (bytes rest : Bytes)
      → 0 < k
      → k < 16
      → wire_type < 3
      → take_field (kinds k) wire_type m ((k * 8 + wire_type) ∷ bytes) bytes ≡ some (m', rest)
      → unmarshal_loop kinds (suc f) m ((k * 8 + wire_type) ∷ bytes)
        ≡ unmarshal_loop kinds f m' rest
  unfolding unmarshal_loop
  round k wire_type f m m' bytes rest positive below small taken = rw (
    read_varint-tag (k * 8 + wire_type) bytes (omega arith),
    field,
    type,
    (==-false_iff wire_type 4).1 (λ e. omega arith),
    (==-false_iff k 0).1 (λ e. omega arith),
    (leb-false_iff (2 ^ 31) k).1 (omega arith),
    taken,
  )
    where
      field : (k * 8 + wire_type) / 8 % 2 ^ 32 ≡ k
      field = omega arith

      type : (k * 8 + wire_type) % 8 ≡ wire_type
      type = omega arith

  take_bytes :
      (k : ℕ) (set : Bytes → M → M) (m : M) (whole b rest : Bytes)
      → kinds k ≡ bytes_field set
      → length b < 2 ^ 63
      → take_field (kinds k) 2 m whole (encode_varint_msg (length b) ++ (b ++ rest))
        ≡ some (set b m, rest)
  unfolding take_field
  take_bytes k set m whole b rest kind small = rw (
    kind,
    read_varint-encode_varint_msg (2 ^ 64) (length b) (b ++ rest) (omega arith) (omega arith),
    (ltb_iff (length b) (2 ^ 63)).1 small,
    (leb_iff (length b) (length (b ++ rest))).1 (omega (arith, length-append b rest)),
    take-append_eq (length b) b rest refl,
    drop-append_eq (length b) b rest refl,
  )

  take_number :
      (k size : ℕ) (set : ℕ → M → M) (m : M) (whole rest : Bytes) (v : ℕ)
      → kinds k ≡ number_field size set
      → v < size
      → v < 2 ^ 64
      → take_field (kinds k) 0 m whole (encode_varint_msg v ++ rest) ≡ some (set v m, rest)
  unfolding take_field
  take_number k size set m whole rest v kind fits small =
      rw (kind, read_varint-encode_varint_msg size v rest fits small)

  -- What is written for an element, a field of bytes, a number and a list is read back.
  pub Decodes-element :
      (k : ℕ) (set : Bytes → M → M) (m m' : M) (b rest : Bytes)
      → 0 < k
      → k < 16
      → kinds k ≡ bytes_field set
      → length b < 2 ^ 63
      → Decodes (set b m) rest m'
      → Decodes m (put_element (k * 8 + 2) b ++ rest) m'
  unfolding put_element
  Decodes-element k set m m' b rest positive below kind small decodes zero h = absurd (omega arith)
  Decodes-element k set m m' b rest positive below kind small decodes (suc f) h =
      ap (λ (bs : Bytes). unmarshal_loop kinds (suc f) m ((k * 8 + 2) ∷ bs)) shape
      ∙ round k 2 f m (set b m) _ rest positive below (omega arith)
          (take_bytes k set m _ b rest kind small)
      ∙ decodes f (omega (arith, h, ap length shape, longer))
    where
      shape :
          (encode_varint_msg (length b) ++ b) ++ rest ≡ encode_varint_msg (length b) ++ (b ++ rest)
      shape = append_assoc (encode_varint_msg (length b)) b rest

      longer :
          length (encode_varint_msg (length b) ++ (b ++ rest))
          ≡ length (encode_varint_msg (length b)) + (length b + length rest)
      longer =
          omega
            (arith, length-append (encode_varint_msg (length b)) (b ++ rest), length-append b rest)

  pub Decodes-bytes :
      (k : ℕ) (set : Bytes → M → M) (m m' : M) (b rest : Bytes)
      → 0 < k
      → k < 16
      → kinds k ≡ bytes_field set
      → length b < 2 ^ 63
      → set [] m ≡ m
      → Decodes (set b m) rest m'
      → Decodes m (put_bytes (k * 8 + 2) b ++ rest) m'
  unfolding put_bytes put_element
  Decodes-bytes k set m m' [] rest positive below kind small blank decodes =
      subst (λ (x : M). Decodes x rest m') blank decodes
  Decodes-bytes k set m m' (x ∷ b) rest positive below kind small blank decodes =
      subst (λ (bs : Bytes). Decodes m (bs ++ rest) m') (sym written)
        (Decodes-element k set m m' (x ∷ b) rest positive below kind small decodes)
    where
      written : put_bytes (k * 8 + 2) (x ∷ b) ≡ put_element (k * 8 + 2) (x ∷ b)
      written = rw ((==-false_iff (suc (length b)) 0).1 (λ e. omega arith))

  pub Decodes-number :
      (k size : ℕ) (set : ℕ → M → M) (m m' : M) (v : ℕ) (rest : Bytes)
      → 0 < k
      → k < 16
      → kinds k ≡ number_field size set
      → v < size
      → v < 2 ^ 64
      → set 0 m ≡ m
      → Decodes (set v m) rest m'
      → Decodes m (put_number (k * 8) v ++ rest) m'
  unfolding put_number
  Decodes-number k size set m m' zero rest positive below kind fits small blank decodes =
      subst (λ (x : M). Decodes x rest m') blank decodes
  Decodes-number k size set m m' (suc v) rest positive below kind fits small blank decodes =
      subst (λ (bs : Bytes). Decodes m (bs ++ rest) m') (sym written) at
    where
      written : put_number (k * 8) (suc v) ≡ (k * 8 + 0) ∷ encode_varint_msg (suc v)
      written = rw (
        (==-false_iff (suc v) 0).1 (λ e. omega arith),
        (let e : k * 8 + 0 ≡ k * 8 = omega arith in e),
      )

      at : Decodes m ((k * 8 + 0) ∷ encode_varint_msg (suc v) ++ rest) m'
      at zero h = absurd (omega arith)
      at (suc f) h =
          round k 0 f m (set (suc v) m) _ rest positive below (omega arith)
            (take_number k size set m _ rest (suc v) kind fits small)
          ∙ decodes f (omega (arith, h, length-append (encode_varint_msg (suc v)) rest))

  pub Decodes-list :
      (k : ℕ) (set : Bytes → M → M) (m' : M) (bs : List Bytes) (rest : Bytes)
      → 0 < k
      → k < 16
      → kinds k ≡ bytes_field set
      → All (λ (b : Bytes). length b < 2 ^ 63) bs
      → (m : M) → Decodes (foldl (λ (x : M) (b : Bytes). set b x) m bs) rest m'
      → Decodes m (put_list (k * 8 + 2) bs ++ rest) m'
  unfolding put_list
  Decodes-list k set m' [] rest positive below kind small m decodes = decodes
  Decodes-list k set m' (b ∷ bs) rest positive below kind (fits, small) m decodes =
      subst (λ (x : Bytes). Decodes m x m')
        (sym (append_assoc (put_element (k * 8 + 2) b) (put_list (k * 8 + 2) bs) rest))
        (Decodes-element k set m m' b (put_list (k * 8 + 2) bs ++ rest) positive below kind fits
          (Decodes-list k set m' bs rest positive below kind small (set b m) decodes))
