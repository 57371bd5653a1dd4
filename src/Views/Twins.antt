-- ===== src/Views/Twins.antt =====
-- `UserManager.create_user` of django-api/app/apps/users/models.py beside the look-up of
-- `JwtAuthMiddleware` (middleware/jwt_auth.py): the first tells addresses apart by their case, the
-- second does not.
use tournament_platform_sdd.Base.{
  ℕ, ℤ, ◌≡◌, refl, ◌∙◌, ap, Bool, true, false, some, List, [], ◌∷◌, ◌++◌, filter, filter-append,
  String, arith,
}
use tournament_platform_sdd.Exec.{ok, err, multiple_objects}
use tournament_platform_sdd.Models.{World, User, Role}
use tournament_platform_sdd.Models.Tables.{fits_int4}
use tournament_platform_sdd.Runtime.{Runtime}
use tournament_platform_sdd.Events.{publish_event}
use tournament_platform_sdd.Views.Access.{authenticated}
use tournament_platform_sdd.Views.Jwt.{
  AuthReply, forward, token_of, only_user, users_with_email, identify, validate_token, call,
}
use tournament_platform_sdd.Views.Teams.{insert_user, is_taken_user, create_user, new_user}
use tournament_platform_sdd.Views.Trust.{IsVouched, call-token}

module _ (rt : Runtime) (normalize_email make_password : String → String)
    (email username password : String) (role : Role) (elo : ℤ) (is_staff is_superuser : Bool) where
  -- A user whose address and name no one has is inserted.
  create_user-users :
      (w : World)
      → is_taken_user (normalize_email email) username w.users ≡ false
      → fits_int4 elo ≡ true
      → (create_user rt normalize_email make_password email username password role elo is_staff
          is_superuser w).1.users
        ≡ w.users
          ++ new_user rt normalize_email make_password w email username password role elo is_staff
              is_superuser
            ∷ []
  unfolding create_user insert_user publish_event
  create_user-users w free fits = ground arith

  create_user-made :
      (w : World)
      → is_taken_user (normalize_email email) username w.users ≡ false
      → fits_int4 elo ≡ true
      → (create_user rt normalize_email make_password email username password role elo is_staff
          is_superuser w).0
        ≡ ok (
            new_user rt normalize_email make_password w email username password role elo is_staff
              is_superuser)
  unfolding create_user insert_user publish_event
  create_user-made w free fits = ground arith

module _ (post : List ℕ → AuthReply) (iexact : String → String → Bool) where
  -- What a vouched token leads to.
  call-vouched :
      (header token : List ℕ) (email : String) (w : World)
      → token_of header ≡ some token
      → IsVouched post iexact token email
      → call post iexact header w ≡ only_user (users_with_email post iexact email w)
  unfolding validate_token identify
  call-vouched header token email w given vouched =
      call-token post iexact header token w given
      ∙ rw vouched.answer (rw (vouched.valid, vouched.names) (ground arith))

  two_users :
      (p : User → Bool) (us : List User) (u v : User)
      → filter p us ≡ u ∷ []
      → p v ≡ true
      → only_user (filter p (us ++ v ∷ [])) ≡ err multiple_objects
  two_users p us u v own twin = rw (filter-append p us (v ∷ []), own, twin) refl

  module _ (rt : Runtime) (normalize_email make_password : String → String)
      (address username password : String) (role : Role) (elo : ℤ)
      (is_staff is_superuser : Bool) where
    -- A user has a valid token, and no one else has the address, in whatever case. Whoever registers
    -- the same address in another case, under a name that is free, is let in by `create_user`; and
    -- from then on each request with the token raises MultipleObjectsReturned, which nothing catches.
    pub create_user-locks_out :
        (header token : List ℕ) (email : String) (w : World) (u : User)
        → token_of header ≡ some token
        → IsVouched post iexact token email
        → users_with_email post iexact email w ≡ u ∷ []
        → iexact (normalize_email address) email ≡ true
        → is_taken_user (normalize_email address) username w.users ≡ false
        → fits_int4 elo ≡ true
        → let made =
            create_user rt normalize_email make_password address username password role elo is_staff
              is_superuser w in
          (call post iexact header w ≡ ok (forward (authenticated u)))
          × (made.0
              ≡ ok (
                  new_user rt normalize_email make_password w address username password role elo
                    is_staff is_superuser))
          × (call post iexact header made.1 ≡ err multiple_objects)
    create_user-locks_out header token email w u given vouched only twin free fits =
        let made_world =
          (create_user rt normalize_email make_password address username password role elo is_staff
            is_superuser w).1 in
        (
          call-vouched header token email w given vouched ∙ ap only_user only,
          create_user-made rt normalize_email make_password address username password role elo
              is_staff is_superuser w free fits,
          call-vouched header token email made_world given vouched
              ∙ rw
                  (create_user-users rt normalize_email make_password address username password role
                    elo is_staff is_superuser w free fits)
                  (two_users (λ x. iexact x.email email) w.users u _ only twin),
        )
