-- ===== src/SeedData/Rounds/Loops.antt =====
-- The loops of `_seed` (seed_data.py in django-api/app/apps/users/management/commands) in two runs.
use tournament_platform_sdd.Base.{ℕ, zero, suc, ◌≡◌, refl, List, [], ◌∷◌}
use tournament_platform_sdd.Exec.{Exec, pure, ◌>>=◌}
use tournament_platform_sdd.Exec.Repeat.{Grows-bind, Grows-pure}
use tournament_platform_sdd.Exec.Again.{Settles-bind, Settles-pure}
use tournament_platform_sdd.Models.{World}
use tournament_platform_sdd.SeedData.Create.{for_each, pick, deal}
use tournament_platform_sdd.SeedData.Lookup.{Grown-refl, Grown-IsPreorder, without_passwords}
use tournament_platform_sdd.SeedData.Rounds.{Adding, Again, world_order}

-- The lists are of one length, and their elements related in their order.
abbrev pub Both {ℓ κ} : {A : Type ℓ} {B : Type κ} → (A → B → Type 0) → List A → List B → Type 0
Both R [] [] = Unit
Both R [] (y ∷ ys) = ⊥
Both R (x ∷ xs) [] = ⊥
Both R (x ∷ xs) (y ∷ ys) = R x y × Both R xs ys

pub Both-refl {ℓ} :
    {A : Type ℓ} (R : A → A → Type 0) → ((x : A) → R x x) → (xs : List A) → Both R xs xs
Both-refl R same [] = tt
Both-refl R same (x ∷ xs) = (same x, Both-refl R same xs)

pub Both-eq : {A : Type 0} (xs ys : List A) → Both (λ (x y : A). x ≡ y) xs ys → xs ≡ ys
Both-eq [] [] h = refl
Both-eq [] (y ∷ ys) h = absurd h
Both-eq (x ∷ xs) [] h = absurd h
Both-eq (x ∷ xs) (y ∷ ys) h = let same = Both-eq xs ys h.1 in let first = h.0 in cc

-- Dealing out related lists.
pub deal-Both :
    {A B : Type 0} (Q : A → A → Type 0) (R : B → B → Type 0) (xs xs' : List A)
    (ys ys' rest rest' : List B)
    → Both Q xs xs'
    → Both R ys ys'
    → Both R rest rest'
    → Both (λ (p q : A × B). Q p.0 q.0 × R p.1 q.1) (deal xs ys rest) (deal xs' ys' rest')
unfolding deal
deal-Both Q R [] [] ys ys' rest rest' h g k = tt
deal-Both Q R [] (x' ∷ xs') ys ys' rest rest' h g k = absurd h
deal-Both Q R (x ∷ xs) [] ys ys' rest rest' h g k = absurd h
deal-Both Q R (x ∷ xs) (x' ∷ xs') ys ys' (y ∷ rest) (y' ∷ rest') h g k =
    ((h.0, k.0), deal-Both Q R xs xs' ys ys' rest rest' h.1 g k.1)
deal-Both Q R (x ∷ xs) (x' ∷ xs') ys ys' (y ∷ rest) [] h g k = absurd k
deal-Both Q R (x ∷ xs) (x' ∷ xs') ys ys' [] (y' ∷ rest') h g k = absurd k
deal-Both Q R (x ∷ xs) (x' ∷ xs') [] [] [] [] h g k = tt
deal-Both Q R (x ∷ xs) (x' ∷ xs') [] (y' ∷ ys') [] [] h g k = absurd g
deal-Both Q R (x ∷ xs) (x' ∷ xs') (y ∷ ys) [] [] [] h g k = absurd g
deal-Both Q R (x ∷ xs) (x' ∷ xs') (y ∷ ys) (y' ∷ ys') [] [] h g k =
    ((h.0, g.0), deal-Both Q R xs xs' (y ∷ ys) (y' ∷ ys') ys ys' h.1 g g.1)

module _ {ℓ} {A : Type ℓ} {B : Type 0} where
  pub for_each-Adding :
      (round : A → Exec World B) (xs : List A)
      → ((x : A) → Adding (round x))
      → Adding (for_each round xs)
  unfolding for_each
  for_each-Adding round [] added = Grows-pure world_order []
  for_each-Adding round (x ∷ xs) added =
      Grows-bind world_order (round x) (λ y. for_each round xs >>= λ ys. pure (y ∷ ys)) (added x)
        λ y.
          Grows-bind world_order (for_each round xs) (λ ys. pure (y ∷ ys))
            (for_each-Adding round xs added) (λ ys. Grows-pure world_order (y ∷ ys))

  pub for_each-Again :
      (Q : A → A → Type 0) (R : B → B → Type 0) (round round' : A → Exec World B) (xs xs' : List A)
      → ((x x' : A) → Q x x' → Again R (round x) (round' x'))
      → ((x : A) → Adding (round x))
      → Both Q xs xs'
      → Again (Both R) (for_each round xs) (for_each round' xs')
  unfolding for_each
  for_each-Again Q R round round' [] [] settled added h = Settles-pure (Both R) [] [] tt
  for_each-Again Q R round round' [] (x' ∷ xs') settled added h = absurd h
  for_each-Again Q R round round' (x ∷ xs) [] settled added h = absurd h
  for_each-Again Q R round round' (x ∷ xs) (x' ∷ xs') settled added h =
      Settles-bind Grown-IsPreorder (round x) (round' x')
        (λ y. for_each round xs >>= λ ys. pure (y ∷ ys))
        (λ y'. for_each round' xs' >>= λ ys'. pure (y' ∷ ys')) (settled x x' h.0)
        (λ y y' r.
          Settles-bind Grown-IsPreorder (for_each round xs) (for_each round' xs')
            (λ ys. pure (y ∷ ys)) (λ ys'. pure (y' ∷ ys'))
            (for_each-Again Q R round round' xs xs' settled added h.1)
            (λ ys ys' rs. Settles-pure (Both R) (y ∷ ys) (y' ∷ ys') (r, rs))
            (λ ys. Grows-pure world_order (y ∷ ys)))
        λ y.
          Grows-bind world_order (for_each round xs) (λ ys. pure (y ∷ ys))
            (for_each-Adding round xs added) (λ ys. Grows-pure world_order (y ∷ ys))

module _ {A : Type 0} where
  pub pick-Adding : (xs : List A) (i : ℕ) → Adding (pick xs i)
  unfolding pick
  pick-Adding [] i = record { at = λ s. Grown-refl (without_passwords s) }
  pick-Adding (x ∷ xs) zero = Grows-pure world_order x
  pick-Adding (x ∷ xs) (suc i) = pick-Adding xs i

  pub pick-Again :
      (R : A → A → Type 0) (xs xs' : List A) (i : ℕ)
      → Both R xs xs'
      → Again R (pick xs i) (pick xs' i)
  unfolding pick
  pick-Again R [] xs' i h = record { at = λ s t a e x. cc }
  pick-Again R (x ∷ xs) [] i h = absurd h
  pick-Again R (x ∷ xs) (x' ∷ xs') zero h = Settles-pure R x x' h.0
  pick-Again R (x ∷ xs) (x' ∷ xs') (suc i) h = pick-Again R xs xs' i h.1
