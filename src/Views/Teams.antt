-- ===== src/Views/Teams.antt =====
-- `TeamViewSet.create` of django-api/app/apps/teams/views.py, and `UserManager` of
-- apps/users/models.py: the two other operations that insert a row and publish an event.
use tournament_platform_sdd.Base.{
  ℤ, pos, ◌+◌, Bool, true, false, ◌||◌, if◌then◌else◌, Option, none, some, List, [], ◌∷◌, ◌++◌, any,
  String, str_eq,
}
use tournament_platform_sdd.Exec.{
  Exec, ok, err, pure, raise, raise_if, ◌>>=◌, ◌>>◌, integrity_error, data_error, permission_denied,
  validation_error,
}
use tournament_platform_sdd.Json.{Json, num, text, obj, end, field}
use tournament_platform_sdd.Models.{World, User, Team, Role}
use tournament_platform_sdd.Models.Tables.{fits_int4}
use tournament_platform_sdd.Runtime.{Runtime}
use tournament_platform_sdd.Events.{publish_event}
use tournament_platform_sdd.Views.Access.{
  RequestUser, anonymous, authenticated, Action, has_permission, team_permissions,
}

abbrev pub is_taken_name : String → List Team → Bool
is_taken_name name = any (λ t. str_eq t.name name)

abbrev pub new_team : World → User → String → Team
new_team w owner name = record {
  id = w.next_id;
  name = name;
  elo = pos 1000;
  owner_id = owner.id;
  created_at = w.now;
}

-- `in_serializer.save(owner=request.user)`; the name is unique.
unfoldable pub insert_team : User → String → Exec World Team
insert_team owner name w = if is_taken_name name w.teams then (err integrity_error, w) else (
  ok (new_team w owner name),
  record w { teams = w.teams ++ new_team w owner name ∷ []; next_id = w.next_id + 1 },
)

-- A row with this name or email would break a unique constraint of the users.
abbrev pub is_taken_user : String → String → List User → Bool
is_taken_user email username = any (λ u. str_eq u.email email || str_eq u.username username)

-- `user.save(using=self._db)`
unfoldable pub insert_user : User → Exec World (Unit {0})
insert_user user w =
    if is_taken_user user.email user.username w.users
    then (err integrity_error, w)
    else (if fits_int4 user.elo
        then (ok tt, record w { users = w.users ++ user ∷ []; next_id = w.next_id + 1 })
        else (err data_error, w))

module _ (rt : Runtime) where
  abbrev pub team_payload : Team → Json
  team_payload t = obj (
      field "team_id" (num (pos t.id))
        (field "name" (text t.name) (field "created_at" (text (rt.isoformat t.created_at)) end)))

  -- `valid_name` is the framework's check of the field `name`, which also refuses a taken name.
  unfoldable pub create : (String → World → Bool) → User → String → Exec World Team
  create valid_name owner name w =
      (do
        raise_if (if valid_name name w then false else true) validation_error
        team ← insert_team owner name
        publish_event rt "team.created" (team_payload team)
        pure team)
        w

  unfoldable pub dispatch_create : (String → World → Bool) → RequestUser → String → Exec World Team
  dispatch_create valid_name anonymous name = raise permission_denied
  dispatch_create valid_name (authenticated u) name =
      if has_permission (team_permissions Action.create) (authenticated u)
      then create valid_name u name
      else raise permission_denied

  abbrev pub user_payload : User → Json
  user_payload u = obj (
      field "user_id" (num (pos u.id)) (
        field "email" (text u.email)
          (field "registered_at" (text (rt.isoformat u.created_at)) end)))

  -- `UserManager.create_user`; `normalize_email` and `set_password` are the framework's, and the
  -- flags are the keyword arguments `extra` or their defaults.
  module _ (normalize_email make_password : String → String) where
    abbrev pub new_user : World → String → String → String → Role → ℤ → Bool → Bool → User
    new_user w email username password role elo is_staff is_superuser = record {
      id = w.next_id;
      username = username;
      email = normalize_email email;
      password = make_password password;
      role = role;
      elo = elo;
      avatar_url = none;
      created_at = w.now;
      is_active = true;
      is_staff = is_staff;
      is_superuser = is_superuser;
    }

    unfoldable pub create_user : String → String → String → Role → ℤ → Bool → Bool → Exec World User
    create_user email username password role elo is_staff is_superuser w =
        let user = new_user w email username password role elo is_staff is_superuser in
        (do insert_user user; publish_event rt "user.registered" (user_payload user); pure user) w

    -- `extra.setdefault` keeps what the caller gives.
    abbrev or_default : {A : Type 0} → Option A → A → A
    or_default none d = d
    or_default (some a) d = a

    unfoldable pub create_superuser :
        String → String → String → Option Role → Option Bool → Option Bool → Exec World User
    create_superuser email username password role is_staff is_superuser =
        create_user email username password (or_default role Role.admin) (pos 1000)
          (or_default is_staff true) (or_default is_superuser true)
