-- ===== src/Tests/Fixtures.antt =====
-- A small platform: two teams of one player each, an open tournament with one match that is not
-- played yet, an admin and the surroundings that the examples run in.
use tournament_platform_sdd.Base.{ℕ, pos, true, false, Option, none, some, [], ◌∷◌, refl, String}
use tournament_platform_sdd.Json.{Json, num, Wire}
use tournament_platform_sdd.Models.{
  World, User, Role, Team, Tournament, TournamentStatus, Format, Match, MatchStatus,
}
use tournament_platform_sdd.Floats.Thousandths.{thousandths}
use tournament_platform_sdd.Runtime.{Runtime}

abbrev pub some_user : ℕ → String → Role → User
some_user k name role = record {
  id = k;
  username = name;
  email = name;
  password = "";
  role = role;
  elo = pos 1000;
  avatar_url = none;
  created_at = 0;
  is_active = true;
  is_staff = false;
  is_superuser = false;
}

abbrev pub ann : User
ann = some_user 1 "ann" Role.admin

abbrev pub bob : User
bob = some_user 2 "bob" Role.player

abbrev pub reds : Team
reds = record { id = 11; name = "reds"; elo = pos 1000; owner_id = 1; created_at = 0 }

abbrev pub blues : Team
blues = record { id = 12; name = "blues"; elo = pos 1200; owner_id = 2; created_at = 0 }

abbrev pub spring : Tournament
spring = record {
  id = 21;
  name = "spring";
  status = TournamentStatus.open_;
  format = Format.round_robin;
  max_teams = 2;
  start_date = 40;
  end_date = 50;
  created_by_id = 1;
}

abbrev pub winter : Tournament
winter = record {
  id = 22;
  name = "winter";
  status = TournamentStatus.draft;
  format = Format.single_elimination;
  max_teams = 8;
  start_date = 10;
  end_date = 20;
  created_by_id = 1;
}

abbrev pub final_ : Match
final_ = record {
  id = 31;
  tournament_id = 21;
  team_a_id = 11;
  team_b_id = 12;
  winner_team_id = none;
  score_a = pos 0;
  score_b = pos 0;
  status = MatchStatus.scheduled;
  played_at = none;
}

-- A match that is over.
abbrev pub opener : Match
opener = record final_ {
  id = 32;
  winner_team_id = some 12;
  score_b = pos 2;
  status = MatchStatus.finished;
  played_at = some 5;
}

abbrev pub platform : World
platform = record {
  users = ann ∷ bob ∷ [];
  teams = reds ∷ blues ∷ [];
  team_members =
      record { user_id = 1; team_id = 11; joined_at = 0 }
      ∷ record { user_id = 2; team_id = 12; joined_at = 0 }
      ∷ [];
  tournaments = spring ∷ winter ∷ [];
  tournament_teams = [];
  matches = final_ ∷ opener ∷ [];
  user_elo_history = [];
  team_elo_history = [];
  event_log = [];
  notification_log = [];
  now = 7;
  next_id = 100;
  published = [];
  notified = [];
  publish_failures = [];
}

-- Values travel as they are.
abbrev pub id_in : Json → Option ℕ
id_in (num (pos k)) = some k
id_in j = none

abbrev pub plain : Wire
plain = record {
  Bytes = Json;
  dumps = λ j. j;
  loads = λ j. some j;
  id_of = id_in;
  same_json = λ i j. true;
  loads-dumps = λ j. refl;
  id_of-num = λ k. refl;
  same_json-refl = λ j. refl;
}

abbrev pub setting : Runtime
setting = record {
  floats = thousandths;
  isoformat = λ t. "2026-01-01T00:00:00";
  accepts = λ topic payload. true;
}

-- The match that is over is rated: the platform a little later, its teams having started equal.
abbrev pub rated : World
rated = record platform {
  teams = record reds { elo = pos 984 } ∷ record blues { elo = pos 1016 } ∷ [];
  team_elo_history =
      record {
        team_id = 12;
        match_id = 32;
        elo_before = pos 1000;
        elo_after = pos 1016;
        created_at = 5;
      }
      ∷ record {
        team_id = 11;
        match_id = 32;
        elo_before = pos 1000;
        elo_after = pos 984;
        created_at = 5;
      }
      ∷ [];
}
