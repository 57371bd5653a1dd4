-- ===== src/Views/Stack.antt =====
-- A report on its way through the whole stack: `JwtAuthMiddleware` of
-- django-api/app/middleware/jwt_auth.py, the authentication classes of config/settings/base.py, and
-- `MatchViewSet.report` of apps/tournaments/views.py.
use tournament_platform_sdd.Base.{ℕ, ◌≡◌, ◌⊎◌, inl, inr, refl, Bool, List, String}
use tournament_platform_sdd.Exec.{Exec, Result, ok, err}
use tournament_platform_sdd.Models.{World}
use tournament_platform_sdd.Runtime.{Runtime}
use tournament_platform_sdd.Views.Jwt.{
  AuthReply, Outcome, forward, service_unavailable, invalid_token, user_not_found, call,
}
use tournament_platform_sdd.Views.Matches.{ReportData, Response}
use tournament_platform_sdd.Views.Authentication.{
  Framework, serve_report, serve_report_unauthorized,
}

-- The status of a response; an exception that nothing catches goes on.
abbrev status_of : Result Response × World → Result ℕ × World
status_of (ok response, w) = (ok response.status, w)
status_of (err e, w) = (err e, w)

module _ (post : List ℕ → AuthReply) (iexact : String → String → Bool) (framework : Framework)
    (rt : Runtime) where
  -- The middleware answers by itself, or it calls `get_response` with the user that it found.
  unfoldable pub answer : Result Outcome → ℕ → ReportData → Exec World ℕ
  answer (err e) pk request w = (err e, w)
  answer (ok service_unavailable) pk request w = (ok 503, w)
  answer (ok invalid_token) pk request w = (ok 401, w)
  answer (ok user_not_found) pk request w = (ok 401, w)
  answer (ok (forward user)) pk request w = status_of (serve_report framework rt user pk request w)

  unfoldable pub serve : List ℕ → ℕ → ReportData → Exec World ℕ
  serve header pk request w = answer (call post iexact header w) pk request w

  abbrev IsRefused : World → Result ℕ × World → Type 0
  IsRefused w (r, w') = (w' ≡ w) × ((status : ℕ) → r ≡ ok status → (status ≡ 401) ⊎ (status ≡ 503))

  answer-IsRefused :
      (outcome : Result Outcome) (pk : ℕ) (request : ReportData) (w : World)
      → IsRefused w (answer outcome pk request w)
  unfolding answer
  answer-IsRefused (err e) pk request w = (refl, λ status h. cc)
  answer-IsRefused (ok service_unavailable) pk request w = (refl, λ status h. inr (cc))
  answer-IsRefused (ok invalid_token) pk request w = (refl, λ status h. inl (cc))
  answer-IsRefused (ok user_not_found) pk request w = (refl, λ status h. inl (cc))
  answer-IsRefused (ok (forward user)) pk request w =
      rw (serve_report_unauthorized framework rt user pk request w) (refl, λ status h. inl (cc))

  -- No report ever gets through the stack: whatever its header, whatever the auth service answers and
  -- whoever the sender is, the response to it has the status 401 or 503, if there is a response at
  -- all, and nothing changes.
  pub serve_refused :
      (header : List ℕ) (pk : ℕ) (request : ReportData) (w : World)
      → ((serve header pk request w).1 ≡ w)
        × ((status : ℕ)
            → (serve header pk request w).0 ≡ ok status
            → (status ≡ 401) ⊎ (status ≡ 503))
  unfolding serve
  serve_refused header pk request w = answer-IsRefused (call post iexact header w) pk request w
