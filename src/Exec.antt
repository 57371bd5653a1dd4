-- ===== src/Exec.antt =====
-- Python's exceptions and mutable state: an operation takes the state and returns its result, or
-- the exception that it raised, with the state as it left it. What was written before a raise stays
-- written unless the operation stands under `atomic` (`django.db.transaction.atomic`).
pub mod Rules
pub mod Repeat
pub mod Again
use tournament_platform_sdd.Base.{
  ◌≡◌, refl, Bool, true, false, not, Option, none, some, if◌then◌else◌,
}

-- The exceptions that the modelled code raises or lets pass.
pub data Error : Type 0 where
  -- tournaments/services.py
  match_not_found match_already_finished tournament_not_found invalid_tournament_state : Error
  -- Django: `Model.DoesNotExist`, `MultipleObjectsReturned`, a unique or foreign key that is
  -- violated, a number that its column cannot hold, `ValidationError`, `PermissionDenied`, 404
  does_not_exist multiple_objects integrity_error data_error : Error
  validation_error permission_denied http404 : Error
  -- Python: arithmetic, a missing key, an operand of the wrong type, a text that is not JSON
  overflow_error zero_division_error value_error key_error type_error json_decode_error : Error
  -- a connection to the broker or to another service that fails
  connection_error : Error
  -- `sys.exit(1)`, and a list index out of range
  system_exit index_error : Error

pub data Result {ℓ} (A : Type ℓ) : Type ℓ where
  ok : A → Result A
  err : Error → Result A

abbrev pub is_ok {ℓ} : {A : Type ℓ} → Result A → Bool
is_ok (ok a) = true
is_ok (err e) = false

-- What `except Exception` catches: `SystemExit` is no subclass of `Exception`.
abbrev pub is_exception : Error → Bool
is_exception system_exit = false
is_exception _ = true

-- A result that `except Exception` catches.
abbrev pub failed {ℓ} : {A : Type ℓ} → Result A → Bool
failed (ok a) = false
failed (err e) = is_exception e

-- A result that goes past `except Exception`.
abbrev pub escapes {ℓ} : {A : Type ℓ} → Result A → Bool
escapes (ok a) = false
escapes (err e) = not (is_exception e)

abbrev pub Exec {ℓ κ} : Type ℓ → Type κ → Type (ℓ ⊔ κ)
Exec S A = S → Result A × S

module _ {ℓ κ} {S : Type ℓ} {A : Type κ} where
  abbrev pub pure : A → Exec S A
  pure a s = (ok a, s)

  abbrev pub raise : Error → Exec S A
  raise e s = (err e, s)

  -- A pure computation that may raise, as an operation.
  abbrev pub lift : Result A → Exec S A
  lift r s = (r, s)

  abbrev pub gets : (S → A) → Exec S A
  gets f s = (ok (f s), s)

  abbrev pub or_raise : Option A → Error → Exec S A
  or_raise none e s = (err e, s)
  or_raise (some a) e s = (ok a, s)

  abbrev rolled_back : S → Result A → S → Result A × S
  rolled_back s (ok a) s' = (ok a, s')
  rolled_back s (err e) s' = (err e, s)

  -- `transaction.atomic`: an exception rolls the state back and is raised again.
  abbrev pub atomic : Exec S A → Exec S A
  atomic m s = let (r, s') = m s in rolled_back s r s'

module _ {ℓ} {S : Type ℓ} where
  abbrev pub modify : (S → S) → Exec S (Unit {0})
  modify f s = (ok tt, f s)

  abbrev pub raise_if : Bool → Error → Exec S (Unit {0})
  raise_if b e s = (if b then err e else ok tt, s)

module _ {ℓ κ μ} {S : Type ℓ} {A : Type κ} {B : Type μ} where
  abbrev pub continue : Result A → (A → Exec S B) → Exec S B
  continue (ok a) f s = f a s
  continue (err e) f s = (err e, s)

  infixl 5 ◌>>=◌ ◌>>◌
  abbrev pub ◌>>=◌ : Exec S A → (A → Exec S B) → Exec S B
  ◌>>=◌ m f s = let (r, s') = m s in continue r f s'

  abbrev pub ◌>>◌ : Exec S A → Exec S B → Exec S B
  m >> k = m >>= λ _. k

module _ {ℓ κ} {S : Type ℓ} {A : Type κ} where
  -- An operation under `atomic` that raises leaves the state alone.
  pub atomic-err : (m : Exec S A) (s : S) {e : Error} → (atomic m s).0 ≡ err e → (atomic m s).1 ≡ s
  atomic-err m s h = at_result (m s).0 (m s).1 h
    where
      at_result :
          (r : Result A) (s' : S) {e : Error}
          → (rolled_back s r s').0 ≡ err e
          → (rolled_back s r s').1 ≡ s
      at_result (ok a) s' h = cc
      at_result (err e) s' h = refl
