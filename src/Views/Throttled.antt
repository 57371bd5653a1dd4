-- ===== src/Views/Throttled.antt =====
-- `custom_exception_handler` of django-api/app/common/exceptions.py, at the exception `Throttled`.
-- `Seconds` is the float that the framework computed, `ceil` is `math.ceil`, and `is_zero` says
-- that the float counts as false.
use tournament_platform_sdd.Base.{
  ℤ, pos, ◌≡◌, refl, Bool, true, Bool-cases, inl, inr, if◌then◌else◌, Option, none, some, ℕ,
}

pub record ThrottledResponse : Type 0 where
  pub status : ℕ
  -- the field `retry_after_seconds` of the body, and the header `Retry-After`
  pub retry_after_seconds : ℤ
  pub retry_after : Option ℤ

module _ {Seconds : Type 0} (ceil : Seconds → ℤ) (is_zero : Seconds → Bool) where
  -- `math.ceil(exc.wait or 0)`
  abbrev pub whole_wait : Option Seconds → ℤ
  whole_wait none = pos 0
  whole_wait (some wait) = if is_zero wait then pos 0 else ceil wait

  abbrev pub header_of : Option Seconds → Option ℤ
  header_of none = none
  header_of (some wait) = some (ceil wait)

  unfoldable pub handle_throttled : Option Seconds → ThrottledResponse
  handle_throttled wait = record {
    status = 429;
    retry_after_seconds = whole_wait wait;
    retry_after = header_of wait;
  }

  abbrev pub Agrees : Option Seconds → ThrottledResponse → Type 0
  Agrees none response = (response.retry_after ≡ none) × (response.retry_after_seconds ≡ pos 0)
  Agrees (some wait) response =
      (response.retry_after ≡ some response.retry_after_seconds)
      × (response.retry_after_seconds ≡ ceil wait)

  -- The header is there exactly where the framework gives a time to wait, and then says the same
  -- number of seconds as the body; otherwise the body says zero.
  pub handle_throttled-Agrees :
      (wait : Option Seconds)
      → ((s : Seconds) → is_zero s ≡ true → ceil s ≡ pos 0)
      → Agrees wait (handle_throttled wait)
  unfolding handle_throttled
  handle_throttled-Agrees none zero_ = (refl, refl)
  handle_throttled-Agrees (some s) zero_ = elim (Bool-cases (is_zero s)) [
    | inl falsy ↦ rw (falsy, zero_ s falsy) (refl, refl)
    | inr truthy ↦ rw truthy (refl, refl)
  ]
