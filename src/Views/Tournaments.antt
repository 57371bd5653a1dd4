-- ===== src/Views/Tournaments.antt =====
-- `TournamentViewSet` of django-api/app/apps/tournaments/views.py, and `TournamentCreateSerializer`
-- of serializers/input.py.
use tournament_platform_sdd.Base.{
  ℕ, pos, ◌+◌, leb, ltb, Bool, false, ◌||◌, ◌&&◌, not, if◌then◌else◌, List, [], ◌∷◌, ◌++◌, filter,
  String,
}
use tournament_platform_sdd.Exec.{
  Exec, ok, err, pure, raise, raise_if, ◌>>=◌, ◌>>◌, integrity_error, data_error, permission_denied,
  validation_error,
}
use tournament_platform_sdd.Json.{Json, num, text, obj, end, field}
use tournament_platform_sdd.Models.{
  World, User, Tournament, TournamentStatus, Format, is_draft, is_staff_role,
}
use tournament_platform_sdd.Models.Tables.{fits_int4}
use tournament_platform_sdd.Runtime.{Runtime}
use tournament_platform_sdd.Events.{publish_event}
use tournament_platform_sdd.Views.Access.{
  RequestUser, anonymous, authenticated, Action, has_permission, tournament_permissions,
}

-- `order_by("start_date")`: one order that the database may give, in which equal dates keep the
-- order of the table.
unfoldable pub insert_by_start : Tournament → List Tournament → List Tournament
insert_by_start t [] = t ∷ []
insert_by_start t (u ∷ us) =
    if leb t.start_date u.start_date then t ∷ u ∷ us else u ∷ insert_by_start t us

unfoldable pub order_by_start : List Tournament → List Tournament
order_by_start [] = []
order_by_start (t ∷ ts) = insert_by_start t (order_by_start ts)

-- `user.is_authenticated and role in ("admin", "organizer")`
abbrev pub sees_drafts : RequestUser → Bool
sees_drafts anonymous = false
sees_drafts (authenticated u) = is_staff_role u.role

unfoldable pub get_queryset : RequestUser → World → List Tournament
get_queryset user w =
    let qs = order_by_start w.tournaments in
    if sees_drafts user then qs else filter (λ t. not (is_draft t.status)) qs

-- The fields that the serializer takes; they are read by the framework, and all are required.
pub record TournamentData : Type 0 where
  pub name : String
  pub format : Format
  pub max_teams : ℕ
  pub start_date : ℕ
  pub end_date : ℕ

-- The validator of a `PositiveIntegerField`, which the serializer takes over from the model.
abbrev pub fits_field : TournamentData → Bool
fits_field request = leb request.max_teams 2147483647

-- `validate`: the end is not before the start.
abbrev pub has_valid_dates : TournamentData → Bool
has_valid_dates request = not (ltb request.end_date request.start_date)

abbrev pub new_tournament : ℕ → User → TournamentData → Tournament
new_tournament id owner request = record {
  id = id;
  name = request.name;
  status = TournamentStatus.draft;
  format = request.format;
  max_teams = request.max_teams;
  start_date = request.start_date;
  end_date = request.end_date;
  created_by_id = owner.id;
}

-- The check constraints of the table, but for those that the types of the rows enforce.
abbrev pub satisfies_constraints : Tournament → Bool
satisfies_constraints t = not (leb t.max_teams 0 || ltb t.end_date t.start_date)

-- `in_serializer.save(created_by=request.user)`
unfoldable pub insert_tournament : User → TournamentData → Exec World Tournament
insert_tournament owner request w =
    let t = new_tournament w.next_id owner request in
    if not (fits_int4 (pos t.max_teams))
    then (err data_error, w)
    else if satisfies_constraints t
    then (ok t, record w { tournaments = w.tournaments ++ t ∷ []; next_id = w.next_id + 1 })
    else (err integrity_error, w)

module _ (rt : Runtime) where
  abbrev pub tournament_payload : Tournament → Json
  tournament_payload t = obj (
      field "tournament_id" (num (pos t.id))
        (field "name" (text t.name) (field "created_at" (text (rt.isoformat t.start_date)) end)))

  unfoldable pub create : User → TournamentData → Exec World Tournament
  create owner request = do
    raise_if (not (fits_field request && has_valid_dates request)) validation_error
    tournament ← insert_tournament owner request
    publish_event rt "tournament.created" (tournament_payload tournament)
    pure tournament

  -- The framework asks `get_permissions` first.
  unfoldable pub dispatch_create : RequestUser → TournamentData → Exec World Tournament
  dispatch_create anonymous request = raise permission_denied
  dispatch_create (authenticated u) request =
      if has_permission (tournament_permissions Action.create) (authenticated u)
      then create u request
      else raise permission_denied
