-- ===== src/Pre.antt =====
-- pre/pre.go: proxy re-encryption. A key of the owner is a pair (a, a * G1); whoever holds the
-- re-key b/a * G2 turns a point for a into one for b.
pub mod Padding
pub mod Cbc
pub mod Cipher
pub mod Delegation
use proxyot.Prelude.{Option}
use proxyot.Prelude.Result.{Result, ok, deref, ◌>>=◌}
use proxyot.BigInt.{ℤ, pos, mod_inverse}
use proxyot.Rand.{Reader}
use proxyot.Crypto.{Bytes}
use proxyot.Bn256.{Bn256}
use proxyot.Curve.{
  Point, type_g1, type_g2, type_gt, curve_of, new_point, marshal, scalar_base_mult, scalar_mult,
  pair, as_g1, as_g2, random_field_element,
}

-- What an EncryptClosure and a DecryptClosure do with a key: they write a W. The first draws bytes.
abbrev pub EncryptClosure : Type 0 → Type 0
EncryptClosure W = Bytes → Reader → Result (W × Reader)

abbrev pub DecryptClosure : Type 0 → Type 0
DecryptClosure W = Bytes → Result W

module _ ⦃bn : Bn256⦄ where
  -- newPoint(), newTwistPoint(), newPairedPoint()
  unfoldable pub new_g1 : Result Point
  unfolding new_point
  new_g1 = deref (new_point type_g1)

  unfoldable pub new_twist_point : Result Point
  unfolding new_point
  new_twist_point = deref (new_point type_g2)

  unfoldable pub new_paired_point : Result Point
  unfolding new_point
  new_paired_point = deref (new_point type_gt)

  -- var oneTwistPoint
  unfoldable pub one_twist_point : Result Point
  unfolding new_twist_point scalar_base_mult
  one_twist_point = new_twist_point >>= λ e. ok (scalar_base_mult e (pos 1))

  -- Encrypt(publicKey, encryptFunc): (r * pkA, and the closure on the bytes of r * GT). On an error
  -- the point is dropped, as every caller drops it.
  unfoldable pub encrypt :
      {W : Type 0} → Point → EncryptClosure W → Reader → Result ((Point × W) × Reader)
  unfolding new_paired_point new_point scalar_base_mult curve_of
  encrypt public_key encrypt_func reader = do
    (r, rest) ← random_field_element reader
    e ← deref (new_point (curve_of public_key))
    a ← scalar_mult e public_key r
    e' ← new_paired_point
    let b = scalar_base_mult e' r
    (w, rest') ← encrypt_func (marshal b) rest
    ok ((a, w), rest')

  -- GenerateReKey(a, b): b/a * G2. ModInverse is nil at a number without an inverse, and
  -- ScalarMult then follows a nil pointer.
  unfoldable pub generate_re_key : ℤ → ℤ → Result Point
  unfolding new_twist_point scalar_base_mult
  generate_re_key a b = do
    let ia = mod_inverse a bn.order
    e ← new_twist_point
    let rk_ab = scalar_base_mult e b
    i ← deref ia
    scalar_mult rk_ab rk_ab i

  -- ReEncrypt(A, rkAB)
  unfoldable pub re_encrypt : Point → Point → Result Point
  re_encrypt a rk_ab = do p ← as_g1 a; q ← as_g2 rk_ab; ok (pair p q)

  -- DecryptByReceiver(APrime, b, decryptFunc)
  unfoldable pub decrypt_by_receiver : {W : Type 0} → Point → ℤ → DecryptClosure W → Result W
  unfolding new_paired_point
  decrypt_by_receiver a_prime b decrypt_func = do
    let ib = mod_inverse b bn.order
    e ← new_paired_point
    i ← deref ib
    p ← scalar_mult e a_prime i
    decrypt_func (marshal p)

  -- DecryptByOwner(A, a, decryptFunc)
  unfoldable pub decrypt_by_owner : {W : Type 0} → Point → ℤ → DecryptClosure W → Result W
  unfolding new_g1 one_twist_point
  decrypt_by_owner a_point a decrypt_func = do
    let ia = mod_inverse a bn.order
    e ← new_g1
    i ← deref ia
    r_g ← scalar_mult e a_point i
    p ← as_g1 r_g
    one ← one_twist_point
    q ← as_g2 one
    decrypt_func (marshal (pair p q))
