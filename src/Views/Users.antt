-- ===== src/Views/Users.antt =====
-- `UserViewSet` of django-api/app/apps/users/views.py: who may see the users of one role.
use tournament_platform_sdd.Base.{
  leb_ℤ, ◌≡◌, Bool, true, false, ◌&&◌, not, if◌then◌else◌, Option, none, some, String, str_eq, List,
  filter, order_by,
}
use tournament_platform_sdd.Exec.{Result, ok, err, permission_denied, validation_error}
use tournament_platform_sdd.Models.{World, User, Role}
use tournament_platform_sdd.Views.Access.{RequestUser, is_admin, is_known_user}

-- `User.ROLE_CHOICES`, as `ChoiceFilter` reads the query parameter.
unfoldable pub role_of : String → Option Role
role_of text =
    if str_eq text "admin"
    then some Role.admin
    else if str_eq text "organizer"
    then some Role.organizer
    else if str_eq text "player"
    then some Role.player
    else none

abbrev pub same_role : Role → Role → Bool
same_role Role.admin Role.admin = true
same_role Role.organizer Role.organizer = true
same_role Role.player Role.player = true
same_role _ _ = false

abbrev pub has_role : Role → User → Bool
has_role role u = same_role role u.role

-- `order_by("-elo")`
abbrev pub higher_user : User → User → Bool
higher_user u v = leb_ℤ v.elo u.elo

-- `not user.is_authenticated or role != "admin"`
abbrev pub may_filter : RequestUser → Bool
may_filter user = is_known_user user && is_admin user

-- `filter_queryset` on the users in their order; an empty parameter counts as missing.
unfoldable pub list_users : RequestUser → Option String → World → Result (List User)
list_users user none w = ok (order_by higher_user w.users)
list_users user (some text) w =
    if str_eq text ""
    then ok (order_by higher_user w.users)
    else if not (may_filter user)
    then err permission_denied
    else elim (role_of text) [
      | none ↦ err validation_error
      | some role ↦ ok (order_by higher_user (filter (has_role role) w.users))
    ]

-- The user is an admin.
abbrev pub IsAdmin : RequestUser → Type 0
IsAdmin RequestUser.anonymous = ⊥
IsAdmin (RequestUser.authenticated u) = u.role ≡ Role.admin

-- The text that names a role.
abbrev pub name_of : Role → String
name_of Role.admin = "admin"
name_of Role.organizer = "organizer"
name_of Role.player = "player"

-- How often a user has a role.
abbrev pub plays_role : Role → User → Bool
plays_role role u = str_eq (name_of role) (name_of u.role)
