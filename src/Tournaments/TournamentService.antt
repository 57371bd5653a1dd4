-- ===== src/Tournaments/TournamentService.antt =====
-- `TournamentService.start` of django-api/app/apps/tournaments/services.py.
use tournament_platform_sdd.Base.{ℕ, ◌==◌, not, update_where}
use tournament_platform_sdd.Exec.{
  Exec, pure, gets, or_raise, raise_if, modify, ◌>>=◌, ◌>>◌, tournament_not_found,
  invalid_tournament_state,
}
use tournament_platform_sdd.Models.{World, Tournament, TournamentStatus, is_open}
use tournament_platform_sdd.Models.Tables.{find_tournament}

-- `tournament.save(update_fields=["status"])`
unfoldable pub save_tournament_status : Tournament → World → World
save_tournament_status t w = record w {
  tournaments =
      update_where (λ x. x.id == t.id) (λ x. record x { status = t.status }) w.tournaments;
}

unfoldable pub start : ℕ → Exec World Tournament
start tournament_id = do
  found ← gets (λ w. find_tournament tournament_id w.tournaments)
  tournament ← or_raise found tournament_not_found
  raise_if (not (is_open tournament.status)) invalid_tournament_state
  let started = record tournament { status = TournamentStatus.ongoing }
  modify (save_tournament_status started)
  pure started
