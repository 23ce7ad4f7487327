-- ===== src/Base/Float.antt =====
-- Python floats, which the source computes latencies, rates and times with: a type with the
-- operations that the code uses. NaN and infinities do not occur in these computations.
use Prim.Native.Nat.{ℕ, ◌+◌, ◌-◌, ◌*◌, ◌/◌, ◌≤◌, ◌<◌}
use mathlib.Core.Path.{◌≡◌}
use mathlib.Core.Bool.{Bool, true, false}
use native.Mathlib.Decide.{dec_lt}
use native.Mathlib.Nat.{mul-le-mul_left}
use native.Mathlib.Omega.{arith}
use adaptive_admission_contr.Base.Tests.{ltb}

pub record Float : Type 1 where
  pub F : Type 0
  -- `x < y`
  pub lt : F → F → Bool
  pub plus : F → F → F
  pub minus : F → F → F
  pub times : F → F → F
  pub over : F → F → F
  -- the float of an integer, and the literal p/q
  pub of_ℕ : ℕ → F
  pub lit : ℕ → ℕ → F
  -- `int(x)` and `math.ceil(x)`, for x ≥ 0
  pub trunc : F → ℕ
  pub ceil : F → ℕ

-- `<` is a strict total order on the floats that occur.
pub record IsOrdered (fl : Float) : Type 0 where
  pub lt_irrefl : (x : fl.F) → fl.lt x x ≡ false
  pub lt_trans : (x y z : fl.F) → fl.lt x y ≡ true → fl.lt y z ≡ true → fl.lt x z ≡ true
  -- of two floats one is smaller, or they are equal: then anything is below both or neither
  pub le_trans : (x y z : fl.F) → fl.lt y x ≡ false → fl.lt z y ≡ false → fl.lt z x ≡ false

-- `int(n * p/q)` for an integer n below 2^32 and a literal p/q with small p and q: rounding does
-- not carry the product over an integer from below, so a factor of at most 1 does not grow n, and
-- a factor of at least 1 does not shrink it.
pub record IsRounded (fl : Float) : Type 0 where
  pub scale_le :
      (n p q : ℕ)
      → n < 4294967296
      → p ≤ 1000
      → 0 < q
      → q ≤ 1000
      → q * fl.trunc (fl.times (fl.of_ℕ n) (fl.lit p q)) ≤ n * p
  pub scale_ge :
      (n p q : ℕ)
      → n < 4294967296
      → p ≤ 1000
      → 0 < q
      → q ≤ p
      → n ≤ fl.trunc (fl.times (fl.of_ℕ n) (fl.lit p q))

-- Numbers in units of 1/1000: an instance for the examples.
abbrev pub fixed_point : Float
fixed_point = record {
  F = ℕ;
  lt = ltb;
  plus = λ x y. x + y;
  minus = λ x y. x - y;
  times = λ x y. x * y / 1000;
  over = λ x y. x * 1000 / y;
  of_ℕ = λ n. n * 1000;
  lit = λ p q. p * 1000 / q;
  trunc = λ x. x / 1000;
  ceil = λ x. (x + 999) / 1000;
}

pub fixed_point-IsOrdered : IsOrdered fixed_point
fixed_point-IsOrdered = record {
  lt_irrefl = λ x. ground arith;
  lt_trans = λ x y z p q. ground arith;
  le_trans = λ x y z p q. ground arith;
}

-- The instance rounds as the laws say: x is the literal in thousandths.
scale_down_bound : (n p q x t : ℕ) → q * x ≤ p * 1000 → 1000 * t ≤ n * x → q * t ≤ n * p
scale_down_bound n p q x t lit prod =
    let a : q * (1000 * t) ≤ q * (n * x) = mul-le-mul_left q prod in
    let b : n * (q * x) ≤ n * (p * 1000) = mul-le-mul_left n lit in omega arith

scale_up_bound : (n x : ℕ) → 1000 ≤ x → n ≤ n * x / 1000
scale_up_bound n x h = let a : n * 1000 ≤ n * x = grind arith in omega arith

fixed_scale : (n x : ℕ) → n * 1000 * x / 1000 / 1000 ≡ n * x / 1000
fixed_scale n x = omega arith

quotient_bound : (p q : ℕ) → 0 < q → q ≤ p → 1000 ≤ p * 1000 / q
quotient_bound p q pos le = elim (dec_lt (p * 1000 / q) 1000) [
  | yes small ↦
      let next : p * 1000 / q + 1 ≤ 1000 = omega arith in
      let bound : q * (p * 1000 / q + 1) ≤ q * 1000 = mul-le-mul_left q next in absurd (omega arith)
  | no large ↦ omega arith
]

pub fixed_point-IsRounded : IsRounded fixed_point
fixed_point-IsRounded = record {
  scale_le = λ n p q small_n small_p pos small_q.
      let x = p * 1000 / q in
      scale_down_bound n p q x (n * 1000 * x / 1000 / 1000) (omega arith)
        (omega (arith, fixed_scale n x));
  scale_ge = λ n p q small_n small_p pos le.
      let x = p * 1000 / q in rw (fixed_scale n x) (scale_up_bound n x (quotient_bound p q pos le));
}
