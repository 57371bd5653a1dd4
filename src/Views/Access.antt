-- ===== src/Views/Access.antt =====
-- Who may call an action: django-api/app/common/permissions.py, and the `get_permissions` of the
-- three view sets. The framework asks the permission before it calls the action.
use tournament_platform_sdd.Base.{Bool, true, false, ◌&&◌}
use tournament_platform_sdd.Models.{User, is_admin_role}

-- `request.user`
pub data RequestUser : Type 0 where
  anonymous : RequestUser
  authenticated : User → RequestUser

pub data Permission : Type 0 where
  allow_any is_authenticated is_admin_role_permission : Permission

-- `getattr(request.user, "role", None) == "admin"`
abbrev pub is_admin : RequestUser → Bool
is_admin anonymous = false
is_admin (authenticated u) = is_admin_role u.role

-- `IsAuthenticated.has_permission`
abbrev pub is_known_user : RequestUser → Bool
is_known_user anonymous = false
is_known_user (authenticated u) = true

-- `IsAdminRole.has_permission`
abbrev pub admin_role_permitted : RequestUser → Bool
admin_role_permitted user = is_known_user user && is_admin user

unfoldable pub has_permission : Permission → RequestUser → Bool
has_permission allow_any user = true
has_permission is_authenticated user = is_known_user user
has_permission is_admin_role_permission user = admin_role_permitted user

-- The actions of the view sets that `http_method_names` leaves.
pub data Action : Type 0 where
  list retrieve create report : Action

unfoldable pub tournament_permissions : Action → Permission
tournament_permissions create = is_admin_role_permission
tournament_permissions _ = allow_any

unfoldable pub team_permissions : Action → Permission
team_permissions create = is_authenticated
team_permissions _ = allow_any

unfoldable pub match_permissions : Action → Permission
match_permissions report = is_authenticated
match_permissions _ = allow_any
