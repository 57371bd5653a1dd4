-- ===== src/Base/Lists.antt =====
-- Rows of a table as a list: filters, lookups and updates by a Boolean test, and their laws.
use Prim.Native.Nat.{ℕ, zero, suc, ◌+◌, ◌≤◌}
use mathlib.Core.Path.{◌≡◌, refl}
use mathlib.Core.Bool.{Bool, true, false, ◌||◌, ◌&&◌}
use mathlib.Core.Option
use mathlib.Core.Option.{Option, none, some}
use mathlib.Core.List.{List, [], ◌∷◌, ◌++◌}
use native.Mathlib.Omega.{arith}
use tournament_platform_sdd.Base.Tests.{if◌then◌else◌}

module _ {ℓ} {A : Type ℓ} where
  abbrev pub length : List A → ℕ
  length [] = 0
  length (x ∷ xs) = suc (length xs)

  abbrev pub take : ℕ → List A → List A
  take zero xs = []
  take (suc n) [] = []
  take (suc n) (x ∷ xs) = x ∷ take n xs

  -- The first row that passes the test.
  abbrev pub find? : (A → Bool) → List A → Option A
  find? p [] = none
  find? p (x ∷ xs) = if p x then some x else find? p xs

  -- Some row passes the test.
  abbrev pub any : (A → Bool) → List A → Bool
  any p [] = false
  any p (x ∷ xs) = p x || any p xs

  -- The rows that pass the test.
  abbrev pub filter : (A → Bool) → List A → List A
  filter p [] = []
  filter p (x ∷ xs) = let rest = filter p xs in if p x then x ∷ rest else rest

  -- The rows that pass the test are rewritten.
  abbrev pub update_where : (A → Bool) → (A → A) → List A → List A
  update_where p f [] = []
  update_where p f (x ∷ xs) = (if p x then f x else x) ∷ update_where p f xs

  -- How many rows pass the test.
  abbrev pub count_where : (A → Bool) → List A → ℕ
  count_where p [] = 0
  count_where p (x ∷ xs) = (if p x then 1 else 0) + count_where p xs

  -- The sum of a number over the rows.
  abbrev pub total : (A → ℕ) → List A → ℕ
  total f [] = 0
  total f (x ∷ xs) = f x + total f xs

  abbrev pub drop : ℕ → List A → List A
  drop zero xs = xs
  drop (suc n) [] = []
  drop (suc n) (x ∷ xs) = drop n xs

  -- A predicate holds of every row.
  abbrev pub All {κ} : (A → Type κ) → List A → Type κ
  All P [] = Unit
  All P (x ∷ xs) = P x × All P xs

  pub any-append : (p : A → Bool) (xs ys : List A) → any p (xs ++ ys) ≡ (any p xs || any p ys)
  any-append p [] ys = refl
  any-append p (x ∷ xs) ys = ground (arith, any-append p xs ys)

  pub count_where-append :
      (p : A → Bool) (xs ys : List A)
      → count_where p (xs ++ ys) ≡ count_where p xs + count_where p ys
  count_where-append p [] ys = omega arith
  count_where-append p (x ∷ xs) ys = omega (arith, count_where-append p xs ys)

  pub count_where-zero : (p : A → Bool) (xs : List A) → any p xs ≡ false → count_where p xs ≡ 0
  count_where-zero p [] h = refl
  count_where-zero p (x ∷ xs) h = ground (arith, count_where-zero p xs)

  pub length-take : (n : ℕ) (xs : List A) → length (take n xs) ≤ n
  length-take zero xs = omega arith
  length-take (suc n) [] = omega arith
  length-take (suc n) (x ∷ xs) = omega (arith, length-take n xs)

  -- Two tests that no row passes both.
  pub count_where-or :
      (p q : A → Bool) (xs : List A)
      → ((x : A) → p x ≡ true → q x ≡ false)
      → count_where (λ x. p x || q x) xs ≡ count_where p xs + count_where q xs
  count_where-or p q [] apart = refl
  count_where-or p q (x ∷ xs) apart = ground (arith, apart x, count_where-or p q xs apart)

  pub count_where-filter :
      (p q : A → Bool) (xs : List A)
      → count_where p (filter q xs) ≡ count_where (λ x. q x && p x) xs
  count_where-filter p q [] = refl
  count_where-filter p q (x ∷ xs) = ground (arith, count_where-filter p q xs)

  pub filter-append :
      (p : A → Bool) (xs ys : List A) → filter p (xs ++ ys) ≡ filter p xs ++ filter p ys
  filter-append p [] ys = refl
  filter-append p (x ∷ xs) ys = ground (arith, filter-append p xs ys)

  pub take-append-drop : (n : ℕ) (xs : List A) → take n xs ++ drop n xs ≡ xs
  take-append-drop zero xs = refl
  take-append-drop (suc n) [] = refl
  take-append-drop (suc n) (x ∷ xs) = cc (take-append-drop n xs)

  pub length-append : (xs ys : List A) → length (xs ++ ys) ≡ length xs + length ys
  length-append [] ys = omega arith
  length-append (x ∷ xs) ys = omega (arith, length-append xs ys)

module _ {ℓ} {A : Type ℓ} where
  pub find?-holds : (p : A → Bool) (xs : List A) {x : A} → find? p xs ≡ some x → p x ≡ true
  find?-holds p [] h = cc
  find?-holds p (y ∷ ys) {x} h = ground (arith, find?-holds p ys {x = x})

  -- A filter that keeps all that the lookup could find.
  pub find?-filter :
      (p q : A → Bool) (xs : List A)
      → ((x : A) → p x ≡ true → q x ≡ true)
      → find? p (filter q xs) ≡ find? p xs
  find?-filter p q [] h = refl
  find?-filter p q (x ∷ xs) h = ground (arith, h x, find?-filter p q xs h)

  -- An update that the lookup's test does not see in the rows that it rewrites.
  pub find?-update_where :
      (p q : A → Bool) (f : A → A) (xs : List A)
      → ((x : A) → q x ≡ true → p (f x) ≡ p x)
      → find? p (update_where q f xs) ≡ Option.map (λ x. if q x then f x else x) (find? p xs)
  find?-update_where p q f [] h = refl
  find?-update_where p q f (x ∷ xs) h = ground (arith, h x, find?-update_where p q f xs h)

  pub any-implies :
      (p q : A → Bool) (xs : List A)
      → ((x : A) → p x ≡ true → q x ≡ true)
      → any q xs ≡ false
      → any p xs ≡ false
  any-implies p q [] h none_holds = refl
  any-implies p q (x ∷ xs) h none_holds = ground (arith, h x, any-implies p q xs h)

  pub any-of_find? : (p : A → Bool) (xs : List A) {x : A} → find? p xs ≡ some x → any p xs ≡ true
  any-of_find? p [] h = cc
  any-of_find? p (y ∷ ys) {x} h = ground (arith, any-of_find? p ys {x = x})

  pub any-last : (p : A → Bool) (xs : List A) {x : A} → p x ≡ true → any p (xs ++ x ∷ []) ≡ true
  any-last p [] h = ground arith
  any-last p (y ∷ ys) {x} h = ground (arith, any-last p ys {x = x})

module _ {ℓ} {A : Type ℓ} where
  abbrev pub get_or : List A → ℕ → A → A
  get_or [] i d = d
  get_or (x ∷ xs) zero d = x
  get_or (x ∷ xs) (suc i) d = get_or xs i d
