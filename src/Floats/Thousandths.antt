-- ===== src/Floats/Thousandths.antt =====
-- An instance of the interface, to show that it can be met and to run tests: numbers are counted
-- in thousandths, and a power of ten is taken at the exponent's whole part.
use tournament_platform_sdd.Base.{
  ℕ, ◌+◌, ◌*◌, ◌/◌, ◌^◌, ◌≤◌, ℤ, pos, negsuc, pos_part, neg_part, sub_ℕ, ◌+ℤ◌, ◌-ℤ◌, ◌*ℤ◌, ◌≤ℤ◌,
  ◌≡◌, refl, ap, arith, leb, ◌==◌, if◌then◌else◌, *ℤ_parts, int_laws,
}
use native.Mathlib.Nat.{mul-le-mul_left, div-le_of_le-mul, le-div_iff_mul-le}
use tournament_platform_sdd.Exec.{Result, ok, err, zero_division_error, overflow_error, value_error}
use tournament_platform_sdd.Floats.{PyFloat}

abbrev scaled : ℤ → ℤ
scaled (pos n) = pos (1000 * n)
scaled (negsuc n) = negsuc (1000 * n + 999)

-- Quotients are cut off towards zero.
quotient : ℤ → ℤ → Result ℤ
quotient (pos d) (pos m) = if m == 0 then err zero_division_error else ok (pos (1000000 * d / m))
quotient (negsuc d) (pos m) =
    if m == 0 then err zero_division_error else ok (sub_ℕ 0 (1000000 * (d + 1) / m))
quotient d (negsuc m) = err value_error

power : ℤ → ℤ → Result ℤ
power (pos k) (pos m) =
    if leb 309000 m then err overflow_error else ok (pos (1000 * k ^ (m / 1000)))
power (pos k) (negsuc m) = ok (pos (1000 / k ^ (m / 1000 + 1)))
power (negsuc k) x = err value_error

nearest : ℤ → ℤ
nearest (pos m) = pos ((m + 500) / 1000)
nearest (negsuc m) = sub_ℕ 0 ((m + 501) / 1000)

AtLeast : ℤ → ℤ → Type 0
AtLeast n x = scaled n ≤ℤ x

AtMost : ℤ → ℤ → Type 0
AtMost n x = x ≤ℤ scaled n

scaled_parts :
    (n : ℤ) → (pos_part (scaled n) ≡ 1000 * pos_part n) × (neg_part (scaled n) ≡ 1000 * neg_part n)
scaled_parts (pos n) = (refl, refl)
scaled_parts (negsuc n) = (refl, omega arith)

ruleset scaled_laws = (int_laws, scaled_parts)

mul-mono : (k : ℕ) (a b : ℤ) → a ≤ℤ b → pos k *ℤ a ≤ℤ pos k *ℤ b
mul-mono k a b h = omega (arith, *ℤ_parts k a, *ℤ_parts k b, mul-le-mul_left k h)

scaled-mul : (k : ℕ) (n : ℤ) → scaled (pos k *ℤ n) ≡ pos k *ℤ scaled n
scaled-mul k n = omega (
  scaled_laws,
  *ℤ_parts k n,
  *ℤ_parts k (scaled n),
  ap (λ (t : ℕ). k * t) (scaled_parts n).0,
  ap (λ (t : ℕ). k * t) (scaled_parts n).1,
)

quotient-most :
    (d : ℤ) (n : ℕ) (q : ℤ)
    → 1 ≤ n
    → d ≤ℤ pos n *ℤ q
    → (x : ℤ) × (quotient d (pos (1000 * n)) ≡ ok x) × (x ≤ℤ scaled q)
unfolding quotient
quotient-most (pos d) n (pos q) h1 hq = (
  pos (1000000 * d / (1000 * n)),
  ground arith,
  omega (
    arith,
    div-le_of_le-mul (1000 * n) {m = 1000000 * d} {n = 1000 * q}
        (omega (arith, *ℤ_parts n (pos q))),
  ),
)
quotient-most (pos d) n (negsuc q) h1 hq =
    absurd
      (omega (arith, *ℤ_parts n (negsuc q), mul-le-mul_left {m = 1} {n = q + 1} n (omega arith)))
quotient-most (negsuc d) n (pos q) h1 hq =
    (sub_ℕ 0 (1000000 * (d + 1) / (1000 * n)), ground arith, ground arith)
quotient-most (negsuc d) n (negsuc q) h1 hq = (
  sub_ℕ 0 (1000000 * (d + 1) / (1000 * n)),
  ground arith,
  ground (
    arith,
    (le-div_iff_mul-le {k = 1000 * n} {x = 1000 * (q + 1)} {y = 1000000 * (d + 1)} (omega arith)).1
        (omega (arith, *ℤ_parts n (negsuc q))),
  ),
)

quotient-one :
    (x : ℤ) → pos 1000 ≤ℤ x → (y : ℤ) × (quotient (pos 1) x ≡ ok y) × (pos 0 ≤ℤ y) × (y ≤ℤ pos 1000)
unfolding quotient
quotient-one (pos m) h = (
  pos (1000000 / m),
  ground arith,
  omega arith,
  omega (arith, div-le_of_le-mul m {m = 1000000} {n = 1000} (omega arith)),
)
quotient-one (negsuc m) h = absurd (omega arith)

power-ten : (x : ℤ) → x ≤ℤ pos 308000 → (y : ℤ) × (power (pos 10) x ≡ ok y) × (pos 0 ≤ℤ y)
unfolding power
power-ten (pos m) h = (pos (1000 * 10 ^ (m / 1000)), ground arith, omega arith)
power-ten (negsuc m) h = (pos (1000 / 10 ^ (m / 1000 + 1)), refl, omega arith)

nearest_bounds : (a b x : ℤ) → scaled a ≤ℤ x → x ≤ℤ scaled b → (a ≤ℤ nearest x) × (nearest x ≤ℤ b)
unfolding nearest
nearest_bounds a b (pos m) ha hb = ground (arith, scaled_parts a, scaled_parts b)
nearest_bounds a b (negsuc m) ha hb = ground (arith, scaled_parts a, scaled_parts b)

unfoldable pub thousandths : PyFloat
unfolding quotient power nearest AtLeast AtMost scaled_parts scaled-mul mul-mono quotient-most
    quotient-one power-ten nearest_bounds
thousandths = record {
  Float = ℤ;
  of_int = scaled;
  add = λ k x. scaled k +ℤ x;
  sub = λ k x. scaled k -ℤ x;
  mul = λ k x. k *ℤ x;
  true_div = λ d n. quotient d (scaled n);
  div = quotient;
  pow = power;
  round = λ x. ok (nearest x);
  AtLeast = AtLeast;
  AtMost = AtMost;
  of_int-least = λ n xn. omega arith;
  of_int-most = λ n xn. omega arith;
  add-least = λ k n {x} xk xn h. omega scaled_laws;
  add-most = λ k n {x} xk xn h. omega scaled_laws;
  sub-least = λ k n {x} xk xn h. omega scaled_laws;
  sub-most = λ k n {x} xk xn h. omega scaled_laws;
  mul-least = λ k n {x} xk xn h. rw scaled-mul (mul-mono k (scaled n) x h);
  mul-most = λ k n {x} xk xn h. rw scaled-mul (mul-mono k x (scaled n) h);
  true_div-eq = λ d n xd xn. refl;
  div-by = λ d n xd n1 n2 q xq h. quotient-most d n q n1 h;
  div-one = λ {x} h. quotient-one x h;
  pow-ten = λ {x} h. power-ten x h;
  round-between =
      λ a b {x} ha hb. let (low, high) = nearest_bounds a b x ha hb in (nearest x, refl, low, high);
}
