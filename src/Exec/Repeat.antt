-- ===== src/Exec/Repeat.antt =====
-- Operations that may run twice: the second run returns what the first one did and changes nothing,
-- also where the state has grown in between.
use tournament_platform_sdd.Base.{◌≡◌, ap, Option, none, some}
use tournament_platform_sdd.Exec.{Error, Result, ok, err, Exec, pure, lift, or_raise, ◌>>=◌}
use tournament_platform_sdd.Exec.Rules.{>>=-eq-ok}

-- `Extends s t`: the state `t` has all the facts of `s` that matter.
pub record IsPreorder {ℓ} {S : Type ℓ} (Extends : S → S → Type 0) : Type ℓ where
  pub reflexive : (s : S) → Extends s s
  pub transitive : (s t u : S) → Extends s t → Extends t u → Extends s u

pub record Repeats {ℓ κ} {S : Type ℓ} {A : Type κ} (Extends : S → S → Type 0) (m : Exec S A)
    : Type (ℓ ⊔ κ) where
  pub at : (s t : S) (a : A) → (m s).0 ≡ ok a → Extends (m s).1 t → m t ≡ (ok a, t)

pub record Grows {ℓ κ} {S : Type ℓ} {A : Type κ} (Extends : S → S → Type 0) (m : Exec S A)
    : Type (ℓ ⊔ κ) where
  pub at : (s : S) → Extends s (m s).1

module _ {ℓ κ} {S : Type ℓ} {A : Type κ} {Extends : S → S → Type 0}
    (order : IsPreorder Extends) where
  pub Grows-pure : (a : A) → Grows Extends (pure a)
  Grows-pure a = record { at = λ s. order.reflexive s }

  pub Grows-lift : (r : Result A) → Grows Extends (lift r)
  Grows-lift r = record { at = λ s. order.reflexive s }

  pub Grows-or_raise : (o : Option A) (e : Error) → Grows Extends (or_raise o e)
  Grows-or_raise none e = record { at = λ s. order.reflexive s }
  Grows-or_raise (some a) e = record { at = λ s. order.reflexive s }

  pub Repeats-lift : (r : Result A) → Repeats Extends (lift r)
  Repeats-lift r = record { at = λ s t a h e. ap (λ x. (x, t)) h }

  pub Repeats-or_raise : (o : Option A) (e : Error) → Repeats Extends (or_raise o e)
  Repeats-or_raise none e = record { at = λ s t a h x. cc }
  Repeats-or_raise (some b) e = record { at = λ s t a h x. ap (λ r. (r, t)) h }

module _ {ℓ κ μ} {S : Type ℓ} {A : Type κ} {B : Type μ} {Extends : S → S → Type 0}
    (order : IsPreorder Extends) where
  pub Grows-bind :
      (m : Exec S A) (f : A → Exec S B)
      → Grows Extends m
      → ((a : A) → Grows Extends (f a))
      → Grows Extends (m >>= f)
  Grows-bind m f first rest = record { at = λ s. at_result s (m s).0 (m s).1 (first.at s) }
    where
      at_result :
          (s : S) (r : Result A) (s' : S)
          → Extends s s'
          → Extends s (((λ (t : S). (r, s')) >>= f) s).1
      at_result s (ok a) s' h = order.transitive s s' (f a s').1 h ((rest a).at s')
      at_result s (err e) s' h = h

  pub Repeats-bind :
      (m : Exec S A) (f : A → Exec S B)
      → Repeats Extends m
      → ((a : A) → Repeats Extends (f a))
      → ((a : A) → Grows Extends (f a))
      → Repeats Extends (m >>= f)
  Repeats-bind m f first rest grows = record {
    at = λ s t b h x.
        let (a, done, e) = >>=-eq-ok m f s h in
        let s' = (m s).1 in
        let x' : Extends (f a s').1 t = rw (← e) x in
        let again = first.at s t a done (order.transitive s' (f a s').1 t ((grows a).at s') x') in
        rw again ((rest a).at s' t b (rw e at h) x');
  }
