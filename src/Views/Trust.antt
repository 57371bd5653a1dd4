-- ===== src/Views/Trust.antt =====
-- When `JwtAuthMiddleware` of django-api/app/middleware/jwt_auth.py lets a request pass, and as
-- whom.
use tournament_platform_sdd.Base.{
  ℕ, ◌<◌, ◌≡◌, ◌≢◌, refl, sym, ap, ◌∙◌, Bool, Bool-cases, true, ◌↔◌, none, some, Option-cases, inl,
  inr, List, [], ◌∷◌, String, arith,
}
use tournament_platform_sdd.Exec.{ok}
use tournament_platform_sdd.Models.{World, User}
use tournament_platform_sdd.Views.Access.{RequestUser, anonymous, authenticated}
use tournament_platform_sdd.Views.Jwt.{
  AuthData, AuthReply, no_reply, replied, forward, token_of, only_user, users_with_email, identify,
  validate_token, call,
}

anonymous-ne-authenticated : (u : User) → anonymous ≢ authenticated u
anonymous-ne-authenticated u e = cc

authenticated-injective : {u v : User} → authenticated u ≡ authenticated v → u ≡ v
authenticated-injective e = cc

module _ (post : List ℕ → AuthReply) (iexact : String → String → Bool) where
  -- The auth service vouches for this email: it answered below 500 that the token is valid.
  pub record IsVouched (token : List ℕ) (email : String) : Type 0 where
    pub status : ℕ
    pub reply : AuthData
    pub answer : post token ≡ replied status (some reply)
    pub below : status < 500
    pub valid : reply.valid ≡ true
    pub names : reply.email ≡ some email

  only_user-forward :
      (us : List User) (who : RequestUser)
      → only_user us ≡ ok (forward who)
      → (u : User) × (who ≡ authenticated u) × (us ≡ u ∷ [])
  only_user-forward [] who h = cc
  only_user-forward (u ∷ []) who h = (u, cc, refl)
  only_user-forward (u ∷ v ∷ us) who h = cc

  identify-forward :
      (reply : AuthData) (w : World) (who : RequestUser)
      → identify post iexact reply w ≡ ok (forward who)
      → (reply.valid ≡ true)
        × ((email : String) × (reply.email ≡ some email)
            × (only_user (users_with_email post iexact email w) ≡ ok (forward who)))
  unfolding identify
  identify-forward reply w who h = elim (Bool-cases reply.valid) [
    | inl valid ↦ elim (Option-cases reply.email) [
      | inl gone ↦ cc (rw valid at (rw gone at h))
      | inr (email, named) ↦ (valid, (email, named, ground arith))
    ]
    | inr rejected ↦ cc (rw rejected at h)
  ]

  validate_token-answered :
      (status : ℕ) (reply : AuthData) (w : World) (who : RequestUser)
      → validate_token post iexact (replied status (some reply)) w ≡ ok (forward who)
      → (status < 500) × (identify post iexact reply w ≡ ok (forward who))
  unfolding validate_token
  validate_token-answered status reply w who h = ground arith

  -- The reply that was read, taken apart.
  reply-forward :
      (token : List ℕ) (r : AuthReply) (w : World) (who : RequestUser)
      → post token ≡ r
      → validate_token post iexact r w ≡ ok (forward who)
      → (u : User) × (email : String) × (who ≡ authenticated u)
        × IsVouched token email
        × (users_with_email post iexact email w ≡ u ∷ [])
  reply-forward token no_reply w who e h = unfold validate_token in cc
  reply-forward token (replied status none) w who e h = absurd (unread status h)
    where
      unread :
          (status : ℕ) → validate_token post iexact (replied status none) w ≡ ok (forward who) → ⊥
      unread status h = unfold validate_token in ground arith
  reply-forward token (replied status (some reply)) w who e h =
      let (below, named) = validate_token-answered status reply w who h in
      let (valid, (email, has_email, found)) = identify-forward reply w who named in
      let (u, is_u, row) = only_user-forward (users_with_email post iexact email w) who found in
      (
        u,
        email,
        is_u,
        record {
          status = status;
          reply = reply;
          answer = e;
          below = below;
          valid = valid;
          names = has_email;
        },
        row,
      )

  call-anonymous :
      (header : List ℕ) (w : World)
      → token_of header ≡ none
      → call post iexact header w ≡ ok (forward anonymous)
  unfolding call
  call-anonymous header w bare = rw (bare, call)

  pub call-token :
      (header token : List ℕ) (w : World)
      → token_of header ≡ some token
      → call post iexact header w ≡ validate_token post iexact (post token) w
  unfolding call
  call-token header token w given = rw (given, call)

  -- A request passes as a user only on the word of the auth service: its header has the scheme
  -- `Bearer` and a token, the service answered below 500 that the token is valid for an email, and
  -- this user is the only one with that email. Without such a header the request passes as an
  -- anonymous one, and with one it never does: an unreachable service, a rejected token or an
  -- unknown email do not let it through.
  pub call_trust :
      (header : List ℕ) (w : World)
      → ((token_of header ≡ none) ↔ (call post iexact header w ≡ ok (forward anonymous)))
        × ((u : User)
            → call post iexact header w ≡ ok (forward (authenticated u))
            → (token : List ℕ) × (email : String) × (token_of header ≡ some token)
              × IsVouched token email
              × (users_with_email post iexact email w ≡ u ∷ []))
  call_trust header w = (
    (
      call-anonymous header w,
      λ h. elim (Option-cases (token_of header)) [
        | inl bare ↦ bare
        | inr (token, given) ↦
            let (u, _, is_u, _, _) =
              reply-forward token (post token) w anonymous refl
                (rw (call-token header token w given) at h) in
            absurd (anonymous-ne-authenticated u is_u)
      ],
    ),
    λ u h. elim (Option-cases (token_of header)) [
      | inl bare ↦ cc (rw (call-anonymous header w bare) at h)
      | inr (token, given) ↦
          let (v, email, is_v, vouched, row) =
            reply-forward token (post token) w (authenticated u) refl
              (rw (call-token header token w given) at h) in
          (
            token,
            email,
            given,
            vouched,
            row ∙ ap (λ x. x ∷ []) (sym (authenticated-injective is_v)),
          )
    ],
  )
