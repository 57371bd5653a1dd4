-- ===== src/Tests/Accounts.antt =====
-- Accounts whose addresses differ in their case.
use Prim.Native.Char.{code}
use tournament_platform_sdd.Base.{
  ℕ, pos, ◌≡◌, refl, Bool, false, true, some, String, List, [], ◌∷◌, map, arith,
}
use tournament_platform_sdd.Exec.{err, multiple_objects}
use tournament_platform_sdd.Models.{World, Role}
use tournament_platform_sdd.Views.Jwt.{lower, same_codes, token_of, split_space, call}
use tournament_platform_sdd.Views.Teams.{create_user}
use tournament_platform_sdd.Views.Twins.{create_user-locks_out}
use tournament_platform_sdd.Tests.Fixtures.{bob, platform, setting}
use tournament_platform_sdd.Tests.Requests.{auth_service, header}

abbrev codes : String → List ℕ
codes String.[] = []
codes (String.◌∷◌ c s) = code c ∷ codes s

abbrev same_letters : String → String → Bool
same_letters s t = same_codes (map lower (codes s)) (map lower (codes t))

abbrev same : String → String
same s = s

-- Someone registers as BOB.
abbrev with_twin : World
with_twin =
    (create_user setting same same "BOB" "rob" "secret" Role.player (pos 1000) false false
      platform).1

token_given : token_of header ≡ some (b'x' ∷ [])
unfolding token_of split_space
token_given = refl

create_user-locks_out_example :
    call auth_service same_letters header with_twin ≡ err multiple_objects
create_user-locks_out_example =
    (create_user-locks_out auth_service same_letters setting same same "BOB" "rob" "secret"
      Role.player (pos 1000) false false header (b'x' ∷ []) "bob" platform bob token_given
      (record {
        status = 200;
        reply = record { valid = true; email = some "bob" };
        answer = refl;
        below = omega arith;
        valid = refl;
        names = refl;
      })
      refl refl refl refl).2
