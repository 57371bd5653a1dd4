-- ===== src/Views/Authentication.antt =====
-- From the middleware to a view: `BearerHeaderAuthentication` of
-- django-api/app/apps/users/authentication.py, which the setting `DEFAULT_AUTHENTICATION_CLASSES`
-- of config/settings/base.py names as the only class.
use tournament_platform_sdd.Base.{ℕ, ◌≡◌, Option, none, List, [], ◌∷◌, All, String, refl}
use tournament_platform_sdd.Exec.{Exec, ok}
use tournament_platform_sdd.Models.{World, User}
use tournament_platform_sdd.Runtime.{Runtime}
use tournament_platform_sdd.Views.Access.{RequestUser, anonymous, has_permission, match_permissions}
use tournament_platform_sdd.Views.Matches.{ReportData, Response, not_permitted, dispatch_report}

-- `authenticate`: whoever the middleware found, the class names no one.
unfoldable pub authenticate : RequestUser → Option User
authenticate user = none

unfoldable pub authenticate_header : String
authenticate_header = "Bearer realm=\"api\""

-- The framework's `request.user`, from what the authentication classes answer: by its
-- documentation, if no class authenticates, it is an anonymous user.
pub record Framework : Type 0 where
  pub request_user : List (Option User) → RequestUser
  pub no_class :
      (answers : List (Option User))
      → All (λ a. a ≡ none) answers
      → request_user answers ≡ anonymous

-- `DEFAULT_AUTHENTICATION_CLASSES`
abbrev pub answers_for : RequestUser → List (Option User)
answers_for user = authenticate user ∷ []

module _ (framework : Framework) (rt : Runtime) where
  -- A report that the middleware forwards with the user it found.
  unfoldable pub serve_report : RequestUser → ℕ → ReportData → Exec World Response
  serve_report found pk request =
      dispatch_report rt (framework.request_user (answers_for found)) pk request

  -- Whoever the middleware found, the report is answered with 401 and changes nothing: the class
  -- does not pass the user on to the view.
  pub serve_report_unauthorized :
      (found : RequestUser) (pk : ℕ) (request : ReportData) (w : World)
      → serve_report found pk request w ≡ (ok (record { status = 401; body = not_permitted }), w)
  unfolding serve_report dispatch_report has_permission match_permissions authenticate
  serve_report_unauthorized found pk request w =
      rw (framework.no_class (answers_for found) (refl, tt)) refl
