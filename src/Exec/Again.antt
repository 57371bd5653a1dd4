-- ===== src/Exec/Again.antt =====
-- Two runs of a program, the second over what the first one left: where the first returned, the
-- second returns a related value and changes nothing that a view of the state shows.
use tournament_platform_sdd.Base.{◌≡◌, refl, subst, sym, ap, ◌∙◌}
use tournament_platform_sdd.Exec.{ok, Exec, pure, ◌>>=◌}
use tournament_platform_sdd.Exec.Rules.{>>=-eq-ok, ok-injective}
use tournament_platform_sdd.Exec.Repeat.{IsPreorder, Grows}

module _ {ℓ} {S V : Type ℓ} (view : S → V) (Extends : V → V → Type 0) where
  -- The first run only adds to what matters of the view.
  abbrev pub Adds {κ} : {A : Type κ} → Exec S A → Type (ℓ ⊔ κ)
  Adds = Grows (λ s t. Extends (view s) (view t))

  -- `m` is the first run, and `m'` the second, which starts in any state that extends what the first
  -- one left.
  pub record Settles {κ μ} {A : Type κ} {B : Type μ} (R : A → B → Type 0) (m : Exec S A)
      (m' : Exec S B) : Type (ℓ ⊔ κ ⊔ μ) where
    pub at :
        (s t : S) (a : A)
        → (m s).0 ≡ ok a
        → Extends (view (m s).1) (view t)
        → (b : B) × R a b × ((m' t).0 ≡ ok b) × (view (m' t).1 ≡ view t)

module _ {ℓ κ μ} {S V : Type ℓ} {A : Type κ} {B : Type μ} {view : S → V}
    {Extends : V → V → Type 0} where
  pub Settles-pure :
      (R : A → B → Type 0) (a : A) (b : B) → R a b → Settles view Extends R (pure a) (pure b)
  Settles-pure R a b r = record {
    at = λ s t a' h x. (b, subst (λ v. R v b) (ok-injective h) r, refl, refl);
  }

  -- The relation is weakened.
  pub Settles-weaken :
      {R R' : A → B → Type 0} (m : Exec S A) (m' : Exec S B)
      → Settles view Extends R m m'
      → ((a : A) (b : B) → R a b → R' a b)
      → Settles view Extends R' m m'
  Settles-weaken m m' settled weaker = record {
    at = λ s t a h x. let (b, r, e, same) = settled.at s t a h x in (b, weaker a b r, e, same);
  }

-- What is known at a bind once its first part has returned.
second_bind {ℓ κ μ} :
    {S : Type ℓ} {A : Type κ} {B : Type μ} (m : Exec S A) (f : A → Exec S B) (t : S) (a : A)
    → (m t).0 ≡ ok a
    → (m >>= f) t ≡ f a (m t).1
second_bind m f t a h = rw (h, ◌>>=◌) refl

module _ {ℓ κ μ ν ξ} {S V : Type ℓ} {A : Type κ} {A' : Type μ} {B : Type ν} {B' : Type ξ}
    {view : S → V} {Extends : V → V → Type 0} {R : A → A' → Type 0} {Q : B → B' → Type 0} where
  pub Settles-bind :
      (order : IsPreorder Extends) (m : Exec S A) (m' : Exec S A') (f : A → Exec S B)
      (f' : A' → Exec S B')
      → Settles view Extends R m m'
      → ((a : A) (a' : A') → R a a' → Settles view Extends Q (f a) (f' a'))
      → ((a : A) → Adds view Extends (f a))
      → Settles view Extends Q (m >>= f) (m' >>= f')
  Settles-bind order m m' f f' first rest adds = record {
    at = λ s t b h x.
        let (a, done, e) = >>=-eq-ok m f s h in
        let s' = (m s).1 in
        let x' : Extends (view (f a s').1) (view t) = rw (← e) x in
        let (a', r, done', same) =
          first.at s t a done (order.transitive _ _ _ ((adds a).at s') x') in
        let t' = (m' t).1 in
        let (b', q, again, same') =
          (rest a a' r).at s' t' b (rw e at h)
            (subst (λ v. Extends (view (f a s').1) v) (sym same) x') in
        let e' = second_bind m' f' t a' done' in
        (b', q, ap (λ p. p.0) e' ∙ again, ap (λ p. view p.1) e' ∙ same' ∙ same);
  }
