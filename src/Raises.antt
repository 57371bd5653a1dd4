-- ===== src/Raises.antt =====
-- Pure computations that may raise, as `do` blocks.
use tournament_platform_sdd.Base.{◌≡◌, refl}
use tournament_platform_sdd.Exec.{Result, ok, err}

module _ {ℓ κ} {A : Type ℓ} {B : Type κ} where
  infixl 5 ◌>>=◌
  abbrev pub ◌>>=◌ : Result A → (A → Result B) → Result B
  err raised >>= next = err raised
  ok value >>= next = next value

module _ {ℓ κ μ} {A : Type ℓ} {B : Type κ} {C : Type μ} where
  pub >>=_assoc :
      (r : Result A) (next : A → Result B) (last : B → Result C)
      → ((r >>= next) >>= last) ≡ (r >>= λ value. next value >>= last)
  >>=_assoc (err raised) next last = refl
  >>=_assoc (ok value) next last = refl
