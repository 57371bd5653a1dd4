-- ===== src/Models/Rows.antt =====
-- One record for each model. A foreign key is the id of the row that it names; times and dates are
-- counted from an epoch, in any unit.
use tournament_platform_sdd.Base.{ℕ, ℤ, Bool, String, Option, true, false}
use tournament_platform_sdd.Json.{Json}

-- `User.ROLE_CHOICES`
pub data Role : Type 0 where
  admin organizer player : Role

pub record User : Type 0 where
  pub id : ℕ
  pub username : String
  pub email : String
  pub password : String
  pub role : Role
  pub elo : ℤ
  pub avatar_url : Option String
  pub created_at : ℕ
  pub is_active : Bool
  pub is_staff : Bool
  pub is_superuser : Bool

-- `EloHistory` of apps/users
pub record UserEloHistory : Type 0 where
  pub user_id : ℕ
  pub match_id : ℕ
  pub elo_before : ℤ
  pub elo_after : ℤ
  pub changed_at : ℕ

pub record Team : Type 0 where
  pub id : ℕ
  pub name : String
  pub elo : ℤ
  pub owner_id : ℕ
  pub created_at : ℕ

pub record TeamMember : Type 0 where
  pub user_id : ℕ
  pub team_id : ℕ
  pub joined_at : ℕ

-- `EloHistory` of apps/teams
pub record TeamEloHistory : Type 0 where
  pub team_id : ℕ
  pub match_id : ℕ
  pub elo_before : ℤ
  pub elo_after : ℤ
  pub created_at : ℕ

-- `Tournament.STATUS_CHOICES`, which a check constraint enforces
pub data TournamentStatus : Type 0 where
  draft open_ ongoing finished : TournamentStatus

-- `Tournament.FORMAT_CHOICES`, which a check constraint enforces
pub data Format : Type 0 where
  single_elimination round_robin : Format

pub record Tournament : Type 0 where
  pub id : ℕ
  pub name : String
  pub status : TournamentStatus
  pub format : Format
  pub max_teams : ℕ
  pub start_date : ℕ
  pub end_date : ℕ
  pub created_by_id : ℕ

pub record TournamentTeam : Type 0 where
  pub tournament_id : ℕ
  pub team_id : ℕ
  pub registered_at : ℕ

-- `Match.STATUS_CHOICES`
pub data MatchStatus : Type 0 where
  scheduled ongoing finished : MatchStatus

pub record Match : Type 0 where
  pub id : ℕ
  pub tournament_id : ℕ
  pub team_a_id : ℕ
  pub team_b_id : ℕ
  pub winner_team_id : Option ℕ
  pub score_a : ℤ
  pub score_b : ℤ
  pub status : MatchStatus
  pub played_at : Option ℕ

pub record EventLog : Type 0 where
  pub topic : String
  pub payload : Json
  pub received_at : ℕ

pub record NotificationLog : Type 0 where
  pub match_id : ℕ
  pub team_id : ℕ
  pub sent_at : ℕ

abbrev pub is_admin_role : Role → Bool
is_admin_role Role.admin = true
is_admin_role _ = false

-- `role in ("admin", "organizer")`
abbrev pub is_staff_role : Role → Bool
is_staff_role Role.admin = true
is_staff_role Role.organizer = true
is_staff_role Role.player = false

-- `status == "finished"`
abbrev pub is_finished : MatchStatus → Bool
is_finished MatchStatus.finished = true
is_finished _ = false

-- `status == "open"` and `status == "draft"`
abbrev pub is_open : TournamentStatus → Bool
is_open TournamentStatus.open_ = true
is_open _ = false

abbrev pub is_draft : TournamentStatus → Bool
is_draft TournamentStatus.draft = true
is_draft _ = false
