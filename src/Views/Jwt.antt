-- ===== src/Views/Jwt.antt =====
-- `JwtAuthMiddleware.__call__` of django-api/app/middleware/jwt_auth.py: who a request is from.
-- A header is the list of its code points.
use tournament_platform_sdd.Base.{
  ℕ, ◌+◌, ◌==◌, leb, ◌&&◌, Bool, true, false, if◌then◌else◌, Option, none, some, List, [], ◌∷◌, map,
  filter, String,
}
use tournament_platform_sdd.Exec.{Result, ok, err, value_error, key_error, multiple_objects}
use tournament_platform_sdd.Models.{World, User}
use tournament_platform_sdd.Views.Access.{RequestUser, anonymous, authenticated}

-- The body of the auth service's answer: `valid`, and `email` where it is given.
pub record AuthData : Type 0 where
  pub valid : Bool
  pub email : Option String

-- The answer of the auth service: none, for a timeout or any other exception of `requests.post`, or
-- a status with a body, where `none` is a body that is not JSON.
pub data AuthReply : Type 0 where
  no_reply : AuthReply
  replied : ℕ → Option AuthData → AuthReply

-- What the middleware does with the request.
pub data Outcome : Type 0 where
  -- `get_response`, with this `request.user`
  forward : RequestUser → Outcome
  -- 503 `AUTH_SERVICE_UNAVAILABLE`, 401 `INVALID_TOKEN` and 401 `USER_NOT_FOUND`
  service_unavailable invalid_token user_not_found : Outcome

-- `split(" ", 1)`: the parts before and behind the first space, if there is one.
unfoldable pub split_space : List ℕ → Option (List ℕ × List ℕ)
split_space [] = none
split_space (c ∷ cs) =
    if c == b' '
    then some ([], cs)
    else elim (split_space cs) [ none ↦ none | some (a, b) ↦ some (c ∷ a, b) ]

-- `lower()`, on ASCII letters
abbrev pub lower : ℕ → ℕ
lower c = if leb b'A' c && leb c b'Z' then c + 32 else c

abbrev pub same_codes : List ℕ → List ℕ → Bool
same_codes [] [] = true
same_codes (a ∷ as_) (b ∷ bs) = a == b && same_codes as_ bs
same_codes _ _ = false

abbrev pub bearer : List ℕ
bearer = b'b' ∷ b'e' ∷ b'a' ∷ b'r' ∷ b'e' ∷ b'r' ∷ []

-- The token of a header `Bearer <token>`; the header is empty where the request has none.
unfoldable pub token_of : List ℕ → Option (List ℕ)
token_of header = elim (split_space header) [
  | none ↦ none
  | some (scheme, token) ↦ if same_codes (map lower scheme) bearer then some token else none
]

-- `User.objects.get(…)` over the rows that fit.
abbrev pub only_user : List User → Result Outcome
only_user [] = ok user_not_found
only_user (u ∷ []) = ok (forward (authenticated u))
only_user (u ∷ v ∷ us) = err multiple_objects

-- `iexact` is the database's comparison of texts without regard to case.
module _ (post : List ℕ → AuthReply) (iexact : String → String → Bool) where
  abbrev pub users_with_email : String → World → List User
  users_with_email email w = filter (λ u. iexact u.email email) w.users

  -- From `data.get("valid")` on.
  unfoldable pub identify : AuthData → World → Result Outcome
  identify reply w =
      if reply.valid
      then elim reply.email [
        | none ↦ err key_error
        | some email ↦ only_user (users_with_email email w)
      ]
      else ok invalid_token

  -- From `requests.post` on.
  unfoldable pub validate_token : AuthReply → World → Result Outcome
  validate_token no_reply w = ok service_unavailable
  validate_token (replied status body) w =
      if leb 500 status
      then ok service_unavailable
      else elim body [ none ↦ err value_error | some reply ↦ identify reply w ]

  unfoldable pub call : List ℕ → World → Result Outcome
  call header w = elim (token_of header) [
    | none ↦ ok (forward anonymous)
    | some token ↦ validate_token (post token) w
  ]
