-- ===== src/Floats.antt =====
-- Python's `float`, which is code of the interpreter and not of the repository: its operations, as
-- the rating code uses them, and what IEEE 754 doubles with round-to-nearest guarantee of them.
-- Every float operation of the source has an `int` on its left: `1 - e`, `32 * x`, `10 ** x`.
pub mod Thousandths
use tournament_platform_sdd.Base.{
  ℕ, ◌≤◌, ℤ, pos, pos_part, neg_part, ◌+ℤ◌, ◌-ℤ◌, ◌*ℤ◌, ◌≤ℤ◌, ◌≡◌, ◌^◌, ◌+◌,
}
use tournament_platform_sdd.Exec.{Result, ok}

-- Up to this size every integer is a double.
abbrev pub max_exact : ℕ
max_exact = 2 ^ 53

abbrev pub IsExact : ℤ → Type 0
IsExact n = pos_part n + neg_part n ≤ max_exact

pub record PyFloat : Type 1 where
  pub Float : Type 0
  -- the literal `400.0`, or an `int` that is converted
  pub of_int : ℤ → Float
  pub add : ℤ → Float → Float
  pub sub : ℤ → Float → Float
  pub mul : ℤ → Float → Float
  -- `int / int`, and `int / float`: `ZeroDivisionError`
  pub true_div : ℤ → ℤ → Result Float
  pub div : ℤ → Float → Result Float
  -- `OverflowError`
  pub pow : ℤ → Float → Result Float
  -- `OverflowError` at an infinity, `ValueError` at a NaN
  pub round : Float → Result ℤ
  -- `n ≤ x` and `x ≤ n`; a NaN satisfies neither
  pub AtLeast : ℤ → Float → Type 0
  pub AtMost : ℤ → Float → Type 0
  -- Rounding to nearest is monotone and keeps what is a double, so integer bounds carry over.
  pub of_int-least : (n : ℤ) → IsExact n → AtLeast n (of_int n)
  pub of_int-most : (n : ℤ) → IsExact n → AtMost n (of_int n)
  pub add-least :
      (k n : ℤ) {x : Float}
      → IsExact k
      → IsExact (k +ℤ n)
      → AtLeast n x
      → AtLeast (k +ℤ n) (add k x)
  pub add-most :
      (k n : ℤ) {x : Float} → IsExact k → IsExact (k +ℤ n) → AtMost n x → AtMost (k +ℤ n) (add k x)
  pub sub-least :
      (k n : ℤ) {x : Float} → IsExact k → IsExact (k -ℤ n) → AtMost n x → AtLeast (k -ℤ n) (sub k x)
  pub sub-most :
      (k n : ℤ) {x : Float} → IsExact k → IsExact (k -ℤ n) → AtLeast n x → AtMost (k -ℤ n) (sub k x)
  pub mul-least :
      (k : ℕ) (n : ℤ) {x : Float}
      → IsExact (pos k)
      → IsExact (pos k *ℤ n)
      → AtLeast n x
      → AtLeast (pos k *ℤ n) (mul (pos k) x)
  pub mul-most :
      (k : ℕ) (n : ℤ) {x : Float}
      → IsExact (pos k)
      → IsExact (pos k *ℤ n)
      → AtMost n x
      → AtMost (pos k *ℤ n) (mul (pos k) x)
  -- Both divisions round the quotient correctly, so they agree where the operands are doubles.
  pub true_div-eq : (d n : ℤ) → IsExact d → IsExact n → true_div d n ≡ div d (of_int n)
  -- A quotient by a positive integer: `d / n ≤ q` where `d ≤ q * n`.
  pub div-by :
      (d : ℤ) (n : ℕ)
      → IsExact d
      → 1 ≤ n
      → n ≤ max_exact
      → (q : ℤ) → IsExact q
      → d ≤ℤ pos n *ℤ q
      → (x : Float) × (div d (of_int (pos n)) ≡ ok x) × AtMost q x
  -- The reciprocal of what is at least one lies between zero and one.
  pub div-one :
      {x : Float}
      → AtLeast (pos 1) x
      → (y : Float) × (div (pos 1) x ≡ ok y) × AtLeast (pos 0) y × AtMost (pos 1) y
  -- The largest double is above ten to the 308th; a power of ten is not negative.
  pub pow-ten :
      {x : Float} → AtMost (pos 308) x → (y : Float) × (pow (pos 10) x ≡ ok y) × AtLeast (pos 0) y
  -- `round` goes to a nearest integer.
  pub round-between :
      (a b : ℤ) {x : Float}
      → AtLeast a x
      → AtMost b x
      → (r : ℤ) × (round x ≡ ok r) × (a ≤ℤ r) × (r ≤ℤ b)
