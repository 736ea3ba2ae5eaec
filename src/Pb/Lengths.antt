-- ===== src/Pb/Lengths.antt =====
-- The lengths of what the parts of node/protocol/pb/msg.pb.go write.
use proxyot.Prelude.{
  ℕ, suc, ◌+◌, ◌^◌, ◌<◌, ◌≡◌, refl, arith, List, [], ◌∷◌, length, length-append, ==_iff,
  ==-false_iff, eq-cases, inl, inr,
}
use proxyot.Crypto.{Bytes}
use proxyot.Pb.{
  encode_varint_msg, sov_msg, put_bytes, put_number, put_element, put_list, size_bytes, size_number,
  size_list,
}
use proxyot.Pb.Varint.{length-encode_varint_msg}

-- A length that an int64 holds.
abbrev pub Short : Bytes → Type 0
Short b = length b < 2 ^ 63

-- The sizes of the parts.
pub length-put_element :
    (tag : ℕ) (b : Bytes) → length (put_element tag b) ≡ 1 + length b + sov_msg (length b)
unfolding put_element
length-put_element tag b =
    omega
      (arith, length-append (encode_varint_msg (length b)) b, length-encode_varint_msg (length b))

pub length-put_bytes : (tag : ℕ) (b : Bytes) → length (put_bytes tag b) ≡ size_bytes b
unfolding put_bytes size_bytes put_element
length-put_bytes tag b = elim (eq-cases (length b) 0) [
  | inl e ↦ rw ((==_iff (length b) 0).1 e)
  | inr ne ↦ rw ((==-false_iff (length b) 0).1 ne, length-put_element tag b)
]

pub length-put_number : (tag v : ℕ) → length (put_number tag v) ≡ size_number v
unfolding put_number size_number
length-put_number tag v = elim (eq-cases v 0) [
  | inl e ↦ rw ((==_iff v 0).1 e)
  | inr ne ↦ rw ((==-false_iff v 0).1 ne) (
      let e : suc (length (encode_varint_msg v)) ≡ 1 + sov_msg v =
        omega (arith, length-encode_varint_msg v) in
      e)
]

pub length-put_list : (tag : ℕ) (bs : List Bytes) → length (put_list tag bs) ≡ size_list bs
unfolding put_list size_list
length-put_list tag [] = refl
length-put_list tag (b ∷ bs) = omega (
  arith,
  length-append (put_element tag b) (put_list tag bs),
  length-put_element tag b,
  length-put_list tag bs,
)
