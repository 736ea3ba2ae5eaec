-- ===== src/Bn256.antt =====
-- github.com/cloudflare/bn256, which curve/points.go wraps: three groups and a pairing. The
-- package is not part of the repository, so its types and functions are a parameter.
pub mod Laws
use proxyot.Prelude.{ℕ, suc, ◌+◌, ◌*◌, ◌%◌, ◌≡◌, ◌↔◌, Option, some, List, ◌++◌}
use proxyot.BigInt.{ℤ, pos}
use proxyot.BigInt.Residue.{IsPrime}

-- The methods of bn256.G1, of G2 and of GT. Each sets its receiver from its arguments alone; the
-- value is what the receiver holds afterwards.
pub record Group (G : Type 0) : Type 0 where
  -- new(G)
  pub zero_value : G
  pub scalar_base_mult : ℤ → G
  pub scalar_mult : G → ℤ → G
  pub add : G → G → G
  pub neg : G → G
  pub marshal : G → List ℕ
  -- The rest of the input behind the point, or an error.
  pub unmarshal : List ℕ → Option (G × List ℕ)

pub record Bn256 : Type 1 where
  pub G1 : Type 0
  pub G2 : Type 0
  pub GT : Type 0
  -- bn256.Order
  pub order : ℕ
  pub g1 : Group G1
  pub g2 : Group G2
  pub gt : Group GT
  pub pair : G1 → G2 → GT

-- The documentation calls each of the three an abstract cyclic group and `Order` the number of its
-- elements: `Add` and `Neg` are the operations of a commutative group, `ScalarMult` is repeated
-- addition, `ScalarBaseMult` a multiple of the generator, and every element is such a multiple.
-- Of a scalar below 0 nothing is documented.
pub record IsCyclic {G : Type 0} (order : ℕ) (ops : Group G) : Type 0 where
  pub add_assoc : (a b c : G) → ops.add (ops.add a b) c ≡ ops.add a (ops.add b c)
  pub add_comm : (a b : G) → ops.add a b ≡ ops.add b a
  pub zero_add : (a : G) → ops.add (ops.scalar_base_mult (pos 0)) a ≡ a
  pub add_neg : (a : G) → ops.add a (ops.neg a) ≡ ops.scalar_base_mult (pos 0)
  pub mult_zero : (a : G) → ops.scalar_mult a (pos 0) ≡ ops.scalar_base_mult (pos 0)
  pub mult_suc :
      (a : G) (k : ℕ) → ops.scalar_mult a (pos (suc k)) ≡ ops.add a (ops.scalar_mult a (pos k))
  pub base_mult :
      (k : ℕ)
      → ops.scalar_base_mult (pos k) ≡ ops.scalar_mult (ops.scalar_base_mult (pos 1)) (pos k)
  pub order_exact :
      (k : ℕ) → (ops.scalar_base_mult (pos k) ≡ ops.scalar_base_mult (pos 0)) ↔ (k % order ≡ 0)
  pub generated : (a : G) → (k : ℕ) × (a ≡ ops.scalar_base_mult (pos k))
  pub unmarshal-marshal :
      (a : G) (rest : List ℕ) → ops.unmarshal (ops.marshal a ++ rest) ≡ some (a, rest)

-- Three groups of one prime order, and a pairing that is bilinear and maps the generators to the
-- generator of GT.
pub record IsPairing (bn : Bn256) : Type 0 where
  pub prime : IsPrime bn.order
  pub cyclic1 : IsCyclic bn.order bn.g1
  pub cyclic2 : IsCyclic bn.order bn.g2
  pub cyclic_t : IsCyclic bn.order bn.gt
  pub bilinear :
      (j k : ℕ)
      → bn.pair (bn.g1.scalar_base_mult (pos j)) (bn.g2.scalar_base_mult (pos k))
        ≡ bn.gt.scalar_base_mult (pos (j * k))
