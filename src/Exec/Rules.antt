-- ===== src/Exec/Rules.antt =====
-- Rules for operations by the way they are built: what holds after they return, and what they keep
-- however they end.
use tournament_platform_sdd.Base.{
  ◌≡◌, refl, subst, Bool, true, false, Option, none, some, ◌⊎◌, inl, inr, if◌then◌else◌,
}
use tournament_platform_sdd.Exec.{
  Error, Result, ok, err, Exec, pure, raise, lift, gets, or_raise, raise_if, atomic, ◌>>=◌,
}

pub ok-injective {ℓ} : {A : Type ℓ} {a b : A} → ok a ≡ ok b → a ≡ b
ok-injective h = cc

-- To split on a result and keep the equation.
pub Result-cases {ℓ} :
    {A : Type ℓ} (r : Result A) → ((a : A) × (r ≡ ok a)) ⊎ ((e : Error) × (r ≡ err e))
Result-cases (ok a) = inl (a, refl)
Result-cases (err e) = inr (e, refl)

-- An operation that returns, taken apart at a bind.
pub >>=-eq-ok {ℓ κ μ} :
    {S : Type ℓ} {A : Type κ} {B : Type μ} (m : Exec S A) (f : A → Exec S B) (s : S) {b : B}
    → ((m >>= f) s).0 ≡ ok b
    → (a : A) × ((m s).0 ≡ ok a) × ((m >>= f) s ≡ f a (m s).1)
>>=-eq-ok {S} {A} {B} m f s {b} h = at_result (m s).0 (m s).1 h
  where
    at_result :
        (r : Result A) (s' : S)
        → (((λ (t : S). (r, s')) >>= f) s).0 ≡ ok b
        → (a : A) × (r ≡ ok a) × ((((λ (t : S). (r, s')) >>= f) s) ≡ f a s')
    at_result (ok a) s' e = (a, refl, refl)
    at_result (err e) s' e' = cc

-- An operation that raises, taken apart at a bind: the first part has raised, or the rest.
pub >>=-eq-err {ℓ κ μ} :
    {S : Type ℓ} {A : Type κ} {B : Type μ} (m : Exec S A) (f : A → Exec S B) (s : S) {e : Error}
    → ((m >>= f) s).0 ≡ err e
    → (((m s).0 ≡ err e) × (((m >>= f) s).1 ≡ (m s).1))
      ⊎ ((a : A) × ((m s).0 ≡ ok a) × ((m >>= f) s ≡ f a (m s).1))
>>=-eq-err {S} {A} {B} m f s {e} h = at_result (m s).0 (m s).1 h
  where
    at_result :
        (r : Result A) (s' : S)
        → (((λ (t : S). (r, s')) >>= f) s).0 ≡ err e
        → ((r ≡ err e) × ((((λ (t : S). (r, s')) >>= f) s).1 ≡ s'))
          ⊎ ((a : A) × (r ≡ ok a) × ((((λ (t : S). (r, s')) >>= f) s) ≡ f a s'))
    at_result (ok a) s' h' = inr (a, refl, refl)
    at_result (err e') s' h' = inl (cc, refl)

-- Binds regrouped, and a bind whose rest is replaced.
module _ {ℓ κ μ} {S : Type ℓ} {A : Type κ} {B : Type μ} where
  pub >>=_assoc {ν} :
      {C : Type ν} (m : Exec S A) (f : A → Exec S B) (g : B → Exec S C) (s : S)
      → ((m >>= f) >>= g) s ≡ (m >>= λ a. f a >>= g) s
  >>=_assoc {C} m f g s = at_result (m s).0 (m s).1
    where
      at_result :
          (r : Result A) (t : S)
          → (((λ (u : S). (r, t)) >>= f) >>= g) s ≡ ((λ (u : S). (r, t)) >>= λ a. f a >>= g) s
      at_result (ok a) t = refl
      at_result (err e) t = refl

  pub >>=_congr :
      (m : Exec S A) (f g : A → Exec S B) (s : S)
      → ((a : A) (t : S) → f a t ≡ g a t)
      → (m >>= f) s ≡ (m >>= g) s
  >>=_congr m f g s same = at_result (m s).0 (m s).1
    where
      at_result :
          (r : Result A) (t : S) → ((λ (u : S). (r, t)) >>= f) s ≡ ((λ (u : S). (r, t)) >>= g) s
      at_result (ok a) t = same a t
      at_result (err e) t = refl

-- Where `m` returns, `P` holds of the state.
pub record Ensures {ℓ κ μ} {S : Type ℓ} {A : Type κ} (P : S → Type μ) (m : Exec S A)
    : Type (ℓ ⊔ κ ⊔ μ) where
  pub at : (s : S) (a : A) → (m s).0 ≡ ok a → P (m s).1

-- Where `m` starts with `P`, it ends with `P`, whether it returns or raises.
pub record Keeps {ℓ κ μ} {S : Type ℓ} {A : Type κ} (P : S → Type μ) (m : Exec S A)
    : Type (ℓ ⊔ κ ⊔ μ) where
  pub at : (s : S) → P s → P (m s).1

module _ {ℓ κ μ ν} {S : Type ℓ} {A : Type κ} {B : Type μ} {P : S → Type ν} where
  pub Ensures-bind :
      (m : Exec S A) (f : A → Exec S B) → ((a : A) → Ensures P (f a)) → Ensures P (m >>= f)
  Ensures-bind m f ensured = record {
    at = λ s b h. let (a, _, e) = >>=-eq-ok m f s h in rw e ((ensured a).at (m s).1 b (rw e at h));
  }

  pub Keeps-bind :
      (m : Exec S A) (next : A → Exec S B)
      → Keeps P m
      → ((value : A) → Keeps P (next value))
      → Keeps P (m >>= next)
  Keeps-bind m f kept rest = record { at = λ s h. at_result (m s).0 (m s).1 (kept.at s h) }
    where
      at_result : (r : Result A) (s' : S) → P s' → P (((λ (t : S). (r, s')) >>= f) s').1
      at_result (ok a) s' h = (rest a).at s' h
      at_result (err e) s' h = h

  -- The same at one state.
  pub Keeps-bind_at :
      (m : Exec S A) (next : A → Exec S B) (s : S)
      → P (m s).1
      → ((value : A) → Keeps P (next value))
      → P ((m >>= next) s).1
  Keeps-bind_at m next s h rest = at_result (m s).0 (m s).1 h
    where
      at_result : (r : Result A) (s' : S) → P s' → P (((λ (t : S). (r, s')) >>= next) s').1
      at_result (ok a) s' h = (rest a).at s' h
      at_result (err e) s' h = h

module _ {ℓ κ ν} {S : Type ℓ} {A : Type κ} {P : S → Type ν} where
  pub Keeps-pure : (a : A) → Keeps P (pure a)
  Keeps-pure a = record { at = λ s h. h }

  pub Keeps-raise : (e : Error) → Keeps P (raise {A = A} e)
  Keeps-raise e = record { at = λ s h. h }

  pub Keeps-lift : (r : Result A) → Keeps P (lift r)
  Keeps-lift r = record { at = λ s h. h }

  pub Keeps-gets : (f : S → A) → Keeps P (gets f)
  Keeps-gets f = record { at = λ s h. h }

  pub Keeps-or_raise : (o : Option A) (e : Error) → Keeps P (or_raise o e)
  Keeps-or_raise none e = record { at = λ s h. h }
  Keeps-or_raise (some a) e = record { at = λ s h. h }

  pub Keeps-if : (b : Bool) (m n : Exec S A) → Keeps P m → Keeps P n → Keeps P (if b then m else n)
  Keeps-if true m n km kn = km
  Keeps-if false m n km kn = kn

  pub Keeps-atomic : (m : Exec S A) → Keeps P m → Keeps P (atomic m)
  Keeps-atomic m kept = record { at = λ s h. at_result s (m s).0 (m s).1 h (kept.at s h) }
    where
      at_result : (s : S) (r : Result A) (s' : S) → P s → P s' → P (atomic (λ (t : S). (r, s')) s).1
      at_result s (ok a) s' h h' = h'
      at_result s (err e) s' h h' = h

pub Keeps-raise_if {ℓ ν} :
    {S : Type ℓ} {P : S → Type ν} (b : Bool) (e : Error) → Keeps P (raise_if b e)
Keeps-raise_if b e = record { at = λ s h. h }

pub ruleset keeps_rules = (
  Keeps-bind, Keeps-pure, Keeps-raise, Keeps-lift, Keeps-gets, Keeps-or_raise, Keeps-if,
  Keeps-atomic, Keeps-raise_if,
)

pub Ensures-atomic {ℓ κ μ} :
    {S : Type ℓ} {A : Type κ} {P : S → Type μ} (m : Exec S A) → Ensures P m → Ensures P (atomic m)
Ensures-atomic {S} {A} {P} m ensured = record {
  at = λ s a h. at_result s (m s).0 (m s).1 h (ensured.at s a);
}
  where
    at_result :
        (s : S) (r : Result A) (s' : S) {a : A}
        → (atomic (λ (t : S). (r, s')) s).0 ≡ ok a
        → (r ≡ ok a → P s')
        → P (atomic (λ (t : S). (r, s')) s).1
    at_result s (ok a) s' h p = p h
    at_result s (err e) s' h p = cc

-- Where `m` returns at all, it returns `b`.
pub record Returns {ℓ κ} {S : Type ℓ} {A : Type κ} (b : A) (m : Exec S A) : Type (ℓ ⊔ κ) where
  pub at : (s : S) (a : A) → (m s).0 ≡ ok a → a ≡ b

pub Returns-pure {ℓ κ} : {S : Type ℓ} {A : Type κ} (b : A) → Returns {S = S} b (pure b)
Returns-pure b = record { at = λ s a h. cc }

pub Returns-bind {ℓ κ μ} :
    {S : Type ℓ} {A : Type κ} {B : Type μ} {b : B} (m : Exec S A) (f : A → Exec S B)
    → ((a : A) → Returns b (f a))
    → Returns b (m >>= f)
Returns-bind m f returned = record {
  at = λ s b' h. let (a, _, e) = >>=-eq-ok m f s h in (returned a).at (m s).1 b' (rw e at h);
}

-- Where `m` returns, `Q` holds of its value.
pub record Yields {ℓ κ μ} {S : Type ℓ} {A : Type κ} (Q : A → Type μ) (m : Exec S A)
    : Type (ℓ ⊔ κ ⊔ μ) where
  pub at : (s : S) (a : A) → (m s).0 ≡ ok a → Q a

module _ {ℓ κ μ} {S : Type ℓ} {A : Type κ} {Q : A → Type μ} where
  pub Yields-pure : (a : A) → Q a → Yields {S = S} Q (pure a)
  Yields-pure a q = record { at = λ s b h. subst Q (ok-injective h) q }

  pub Yields-gets : (f : S → A) → ((s : S) → Q (f s)) → Yields Q (gets f)
  Yields-gets f q = record { at = λ s b h. subst Q (ok-injective h) (q s) }

pub Yields-bind {ℓ κ μ ν ξ} :
    {S : Type ℓ} {A : Type κ} {B : Type μ} {Q : A → Type ν} {R : B → Type ξ} (m : Exec S A)
    (f : A → Exec S B)
    → Yields Q m
    → ((a : A) → Q a → Yields R (f a))
    → Yields R (m >>= f)
Yields-bind m f first rest = record {
  at = λ s b h.
      let (a, e, same) = >>=-eq-ok m f s h in (rest a (first.at s a e)).at (m s).1 b (rw same at h);
}

pub Yields-any {ℓ κ} : {S : Type ℓ} {A : Type κ} {m : Exec S A} → Yields (λ (a : A). Unit {0}) m
Yields-any = record { at = λ s a h. tt }

pub Ensures-then-Keeps {ℓ κ μ ν} :
    {S : Type ℓ} {A : Type κ} {B : Type μ} {P : S → Type ν} (m : Exec S A) (f : A → Exec S B)
    → Ensures P m
    → ((a : A) → Keeps P (f a))
    → Ensures P (m >>= f)
Ensures-then-Keeps m f ensured kept = record {
  at = λ s b h.
      let (a, done, e) = >>=-eq-ok m f s h in rw e ((kept a).at (m s).1 (ensured.at s a done));
}
