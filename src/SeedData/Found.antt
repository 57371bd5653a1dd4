-- ===== src/SeedData/Found.antt =====
-- What a run of `seed_data` (django-api/app/apps/users/management/commands/seed_data.py) may rely
-- on in the rows that an earlier one left: each `get_or_create` finds the same row again.
use tournament_platform_sdd.Base.{
  ◌≡◌, refl, Bool, true, false, inl, inr, Bool-cases, List, [], ◌∷◌, ◌++◌, filter, filter-append,
  map, arith,
}

-- A test for each key; rows that pass the test of one key pass the same tests.
pub record IsKey {K A : Type 0} (has_key : K → A → Bool) : Type 0 where
  pub agree :
      (k j : K) (x y : A) → has_key k x ≡ true → has_key k y ≡ true → has_key j x ≡ has_key j y

-- Where one row alone had a key, that row alone has it still.
pub record Held {K A : Type 0} (has_key : K → A → Bool) (xs ys : List A) : Type 0 where
  pub at : (k : K) (x : A) → filter (has_key k) xs ≡ x ∷ [] → filter (has_key k) ys ≡ x ∷ []

module _ {A : Type 0} (p : A → Bool) where
  filter-holds : (xs : List A) (x : A) → filter p xs ≡ x ∷ [] → p x ≡ true
  filter-holds [] x h = cc
  filter-holds (y ∷ ys) x h = ground (arith, filter-holds ys x)

  -- A test that no row passes is not passed by the row that a filter finds.
  filter-absent :
      (q : A → Bool) (xs : List A) (x : A) → filter p xs ≡ x ∷ [] → filter q xs ≡ [] → q x ≡ false
  filter-absent q [] x h none_ = cc
  filter-absent q (y ∷ ys) x h none_ = ground (arith, filter-absent q ys x)

  pub filter-map :
      {B : Type 0} (q : B → Bool) (f : A → B) (xs : List A)
      → ((x : A) → q (f x) ≡ p x)
      → filter q (map f xs) ≡ map f (filter p xs)
  filter-map q f [] h = refl
  filter-map q f (x ∷ xs) h = ground (arith, h x, filter-map q f xs h)

module _ {K A : Type 0} {has_key : K → A → Bool} where
  pub Held-refl : (xs : List A) → Held has_key xs xs
  Held-refl xs = record { at = λ k x h. h }

  pub Held-trans :
      (xs ys zs : List A) → Held has_key xs ys → Held has_key ys zs → Held has_key xs zs
  Held-trans xs ys zs g h = record { at = λ k x e. h.at k x (g.at k x e) }

  -- A row with a key that no row has is added.
  pub Held-append :
      (is_key : IsKey has_key) (k : K) (x : A) (xs : List A)
      → filter (has_key k) xs ≡ []
      → has_key k x ≡ true
      → Held has_key xs (xs ++ x ∷ [])
  Held-append is_key k x xs new own = record {
    at = λ j y h. elim (Bool-cases (has_key j x)) [
      | inr other ↦ ground (arith, filter-append (has_key j) xs (x ∷ []))
      | inl same ↦
          let there = filter-holds (has_key j) xs y h in
          let absent = filter-absent (has_key j) (has_key k) xs y h new in
          cc (is_key.agree j k x y same there)
    ];
  }
