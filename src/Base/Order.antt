-- ===== src/Base/Order.antt =====
-- `ORDER BY`: one order that the database may give, in which equal rows keep the order of the
-- table. `before x y` says that `x` may stand before `y`.
use tournament_platform_sdd.Base.Tests.{Bool-cases, if◌then◌else◌}
use tournament_platform_sdd.Base.Lists.{All, count_where, total}
use Prim.Native.Nat.{ℕ, ◌+◌}
use mathlib.Core.Path.{◌≡◌, refl, sym, ◌∙◌}
use mathlib.Core.Logic.{inl, inr}
use mathlib.Core.Bool.{Bool, true, false}
use mathlib.Core.List.{List, [], ◌∷◌}
use native.Mathlib.Omega.{arith}

count_where-eq-total {ℓ} :
    {A : Type ℓ} (p : A → Bool) (xs : List A)
    → count_where p xs ≡ total (λ x. if p x then 1 else 0) xs
count_where-eq-total p [] = refl
count_where-eq-total p (x ∷ xs) = omega (arith, count_where-eq-total p xs)

module _ {ℓ} {A : Type ℓ} (before : A → A → Bool) where
  unfoldable pub insert_by : A → List A → List A
  insert_by x [] = x ∷ []
  insert_by x (y ∷ ys) = if before x y then x ∷ y ∷ ys else y ∷ insert_by x ys

  unfoldable pub order_by : List A → List A
  unfolding insert_by
  order_by [] = []
  order_by (x ∷ xs) = insert_by x (order_by xs)

  -- Each row may stand before all that follow it.
  abbrev pub IsOrdered : List A → Type ℓ
  IsOrdered [] = Unit
  IsOrdered (x ∷ xs) = All (λ y. before x y ≡ true) xs × IsOrdered xs

  -- Nothing is lost, and nothing comes in.
  insert_by-total : (f : A → ℕ) (x : A) (xs : List A) → total f (insert_by x xs) ≡ f x + total f xs
  unfolding insert_by
  insert_by-total f x [] = refl
  insert_by-total f x (y ∷ ys) = ground (arith, insert_by-total f x ys)

  pub total-order_by : (f : A → ℕ) (xs : List A) → total f (order_by xs) ≡ total f xs
  unfolding order_by
  total-order_by f [] = refl
  total-order_by f (x ∷ xs) = insert_by-total f x (order_by xs) ∙ omega (arith, total-order_by f xs)

  pub count_where-order_by :
      (p : A → Bool) (xs : List A) → count_where p (order_by xs) ≡ count_where p xs
  count_where-order_by p xs =
      count_where-eq-total p (order_by xs)
      ∙ total-order_by (λ x. if p x then 1 else 0) xs
      ∙ sym (count_where-eq-total p xs)

  insert_by-All : (P : A → Type 0) (x : A) (xs : List A) → P x → All P xs → All P (insert_by x xs)
  unfolding insert_by
  insert_by-All P x [] h all = (h, tt)
  insert_by-All P x (y ∷ ys) h all = elim (Bool-cases (before x y)) [
    | inl first ↦ rw first (h, all)
    | inr later ↦ rw later (all.0, insert_by-All P x ys h all.1)
  ]

  pub All-order_by : (P : A → Type 0) (xs : List A) → All P xs → All P (order_by xs)
  unfolding order_by
  All-order_by P [] all = tt
  All-order_by P (x ∷ xs) all = insert_by-All P x (order_by xs) all.0 (All-order_by P xs all.1)

  module _ (total_ : (x y : A) → before x y ≡ false → before y x ≡ true)
      (transitive : (x y z : A) → before x y ≡ true → before y z ≡ true → before x z ≡ true) where
    All-before :
        (x y : A) (ys : List A)
        → before x y ≡ true
        → All (λ z. before y z ≡ true) ys
        → All (λ z. before x z ≡ true) ys
    All-before x y [] h all = _
    All-before x y (z ∷ zs) h all = (transitive x y z h all.0, All-before x y zs h all.1)

    All-insert_by :
        (x y : A) (ys : List A)
        → before x y ≡ true
        → All (λ z. before x z ≡ true) ys
        → All (λ z. before x z ≡ true) (insert_by y ys)
    unfolding insert_by
    All-insert_by x y [] h all = (h, tt)
    All-insert_by x y (z ∷ zs) h all = elim (Bool-cases (before y z)) [
      | inl first ↦ rw first (h, all)
      | inr later ↦ rw later (all.0, All-insert_by x y zs h all.1)
    ]

    IsOrdered-insert_by : (x : A) (xs : List A) → IsOrdered xs → IsOrdered (insert_by x xs)
    unfolding insert_by
    IsOrdered-insert_by x [] h = (tt, tt)
    IsOrdered-insert_by x (y ∷ ys) h = elim (Bool-cases (before x y)) [
      | inl first ↦ rw first ((first, All-before x y ys first h.0), h)
      | inr later ↦
          rw later (All-insert_by y x ys (total_ x y later) h.0, IsOrdered-insert_by x ys h.1)
    ]

    pub order_by-IsOrdered : (xs : List A) → IsOrdered (order_by xs)
    unfolding order_by
    order_by-IsOrdered [] = tt
    order_by-IsOrdered (x ∷ xs) = IsOrdered-insert_by x (order_by xs) (order_by-IsOrdered xs)
