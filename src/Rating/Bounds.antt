-- ===== src/Rating/Bounds.antt =====
-- The rating functions return, and move a rating by at most 32 points in the right direction.
use tournament_platform_sdd.Base.{
  ℕ, ◌+◌, ◌≤◌, ℤ, pos, pos_part, neg_part, ◌+ℤ◌, ◌-ℤ◌, ◌*ℤ◌, ◌≤ℤ◌, ◌≡◌, refl, arith, ◌∙◌,
}
use tournament_platform_sdd.Exec.{ok}
use tournament_platform_sdd.Floats.{PyFloat, IsExact}
use tournament_platform_sdd.Rating.Agreement.{calculate_elo-eq}
use tournament_platform_sdd.Rating.{expected_score, update_elo, calculate_elo, k_factor}

-- A value that an `IntegerField` column can hold lies below this bound on either side.
abbrev pub IsInt4 : ℤ → Type 0
IsInt4 r = pos_part r + neg_part r ≤ 2147483648

-- The largest difference of ratings for which `10 ** (difference / 400)` surely does not overflow.
abbrev pub max_difference : ℕ
max_difference = 123200

-- `a` is rated at most `max_difference` points below `b`.
abbrev pub IsWithin : ℤ → ℤ → Type 0
IsWithin a b = b ≤ℤ a +ℤ pos max_difference

module _ (fl : PyFloat) where
  open fl use {Float, of_int, add, sub, mul, div, pow, round, AtLeast, AtMost}

  expected_score_bounds :
      (a b : ℤ)
      → IsInt4 a
      → IsInt4 b
      → IsWithin a b
      → (e : Float) × (expected_score fl a b ≡ ok e) × AtLeast (pos 0) e × AtMost (pos 1) e
  unfolding expected_score ◌+ℤ◌ ◌-ℤ◌ ◌*ℤ◌
  expected_score_bounds a b ha hb w =
      let exact : IsExact (b -ℤ a) = ground arith in
      let same = fl.true_div-eq (b -ℤ a) (pos 400) exact (omega arith) in
      let (q, eq, hq) =
        fl.div-by (b -ℤ a) 400 exact (omega arith) (omega arith) (pos 308) (omega arith)
          (ground arith) in
      let (p, ep, hp) = fl.pow-ten hq in
      let above = fl.add-least (pos 1) (pos 0) (omega arith) (omega arith) hp in
      let (e, ee, h0, h1) = fl.div-one above in (e, rw (same ∙ eq, ep) ee, h0, h1)

  -- The new rating of a player with the score `s` and the expected score `e`.
  rounded_bounds :
      (r s : ℤ) {e : Float}
      → IsInt4 r
      → pos 0 ≤ℤ s
      → s ≤ℤ pos 1
      → AtLeast (pos 0) e
      → AtMost (pos 1) e
      → (r' : ℤ) × (round (add r (mul k_factor (sub s e))) ≡ ok r')
        × (r +ℤ pos 32 *ℤ (s -ℤ pos 1) ≤ℤ r')
        × (r' ≤ℤ r +ℤ pos 32 *ℤ (s -ℤ pos 0))
  unfolding ◌+ℤ◌ ◌-ℤ◌ ◌*ℤ◌
  rounded_bounds r s {e} hr s0 s1 h0 h1 =
      let low = fl.sub-least s (pos 1) (ground arith) (ground arith) h1 in
      let high = fl.sub-most s (pos 0) (ground arith) (ground arith) h0 in
      let low' = fl.mul-least 32 (s -ℤ pos 1) (omega arith) (ground arith) low in
      let high' = fl.mul-most 32 (s -ℤ pos 0) (omega arith) (ground arith) high in
      fl.round-between (r +ℤ pos 32 *ℤ (s -ℤ pos 1)) (r +ℤ pos 32 *ℤ (s -ℤ pos 0))
        (fl.add-least r (pos 32 *ℤ (s -ℤ pos 1)) (ground arith) (ground arith) low')
        (fl.add-most r (pos 32 *ℤ (s -ℤ pos 0)) (ground arith) (ground arith) high')

  -- Between two ratings of database range that are at most 123200 apart, `_update_elo` returns; the
  -- winner gains between 0 and 32 points, and the loser loses between 0 and 32.
  pub update_elo_bounds :
      (w l : ℤ)
      → IsInt4 w
      → IsInt4 l
      → IsWithin w l
      → IsWithin l w
      → (w' l' : ℤ) × (update_elo fl w l ≡ ok (w', l'))
        × (w ≤ℤ w')
        × (w' ≤ℤ w +ℤ pos 32)
        × (l ≤ℤ l' +ℤ pos 32)
        × (l' ≤ℤ l)
  unfolding update_elo ◌+ℤ◌ ◌-ℤ◌ ◌*ℤ◌
  update_elo_bounds w l hw hl wl lw =
      let (e, ee, e0, e1) = expected_score_bounds w l hw hl wl in
      let (d, ed, d0, d1) = expected_score_bounds l w hl hw lw in
      let (w', ew, w0, w1) = rounded_bounds w (pos 1) hw (omega arith) (omega arith) e0 e1 in
      let (l', el, l0, l1) = rounded_bounds l (pos 0) hl (omega arith) (omega arith) d0 d1 in
      (w', l', rw (ee, ed, ew, el) refl, ground arith, ground arith, ground arith, ground arith)

  -- Between two ratings of database range, of which the winner's is at most 123200 below the
  -- loser's, `calculate_elo` with its default `k` returns; the winner gains between 0 and 32 points,
  -- and the loser loses between 0 and 32.
  pub calculate_elo_bounds :
      (w l : ℤ)
      → IsInt4 w
      → IsInt4 l
      → IsWithin w l
      → (w' l' : ℤ) × (calculate_elo fl w l k_factor ≡ ok (w', l'))
        × (w ≤ℤ w')
        × (w' ≤ℤ w +ℤ pos 32)
        × (l ≤ℤ l' +ℤ pos 32)
        × (l' ≤ℤ l)
  unfolding ◌+ℤ◌ ◌-ℤ◌ ◌*ℤ◌
  calculate_elo_bounds w l hw hl wl =
      let (e, ee, e0, e1) = expected_score_bounds w l hw hl wl in
      let (w', ew, w0, w1) = rounded_bounds w (pos 1) hw (omega arith) (omega arith) e0 e1 in
      let d0 = fl.sub-least (pos 1) (pos 1) (omega arith) (omega arith) e1 in
      let d1 = fl.sub-most (pos 1) (pos 0) (omega arith) (omega arith) e0 in
      let (l', el, l0, l1) = rounded_bounds l (pos 0) hl (omega arith) (omega arith) d0 d1 in
      (
        w',
        l',
        rw (calculate_elo-eq fl w l k_factor, ee, ew, el) refl,
        ground arith,
        ground arith,
        ground arith,
        ground arith,
      )
