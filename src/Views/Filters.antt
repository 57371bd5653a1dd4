-- ===== src/Views/Filters.antt =====
-- `TournamentFilterSet` and `MatchFilterSet` of django-api/app/apps/tournaments/views.py, and what
-- the lists of tournaments and matches show. A filter that the request leaves out lets all pass.
use tournament_platform_sdd.Base.{
  ℕ, leb, ◌≡◌, ◌∙◌, ◌==◌, ◌&&◌, Bool, true, false, Option, none, some, List, filter, count_where,
  count_where-filter,
}
use tournament_platform_sdd.Models.{World, Tournament, TournamentStatus, Match, MatchStatus}
use tournament_platform_sdd.Views.Access.{RequestUser}
use tournament_platform_sdd.Views.Tournaments.{get_queryset}
use tournament_platform_sdd.Views.Visible.{IsStaff, is_public, get_queryset_visible}

abbrev pub passes : {A B : Type 0} → Option A → (A → B → Bool) → B → Bool
passes none test x = true
passes (some a) test x = test a x

abbrev pub same_status : TournamentStatus → TournamentStatus → Bool
same_status TournamentStatus.draft TournamentStatus.draft = true
same_status TournamentStatus.open_ TournamentStatus.open_ = true
same_status TournamentStatus.ongoing TournamentStatus.ongoing = true
same_status TournamentStatus.finished TournamentStatus.finished = true
same_status _ _ = false

pub record TournamentFilters : Type 0 where
  pub status : Option TournamentStatus
  pub date_from : Option ℕ
  pub date_to : Option ℕ
  pub created_by : Option ℕ

unfoldable pub tournament_passes : TournamentFilters → Tournament → Bool
tournament_passes f t =
    passes f.status (λ status x. same_status status x.status) t
    && passes f.date_from (λ d x. leb d x.start_date) t
    && passes f.date_to (λ d x. leb x.start_date d) t
    && passes f.created_by (λ k x. x.created_by_id == k) t

unfoldable pub list_tournaments : RequestUser → TournamentFilters → World → List Tournament
list_tournaments user f w = filter (tournament_passes f) (get_queryset user w)

abbrev pub same_match_status : MatchStatus → MatchStatus → Bool
same_match_status MatchStatus.scheduled MatchStatus.scheduled = true
same_match_status MatchStatus.ongoing MatchStatus.ongoing = true
same_match_status MatchStatus.finished MatchStatus.finished = true
same_match_status _ _ = false

pub record MatchFilters : Type 0 where
  pub tournament_id : Option ℕ
  pub status : Option MatchStatus
  pub date_from : Option ℕ
  pub date_to : Option ℕ

-- `date__gte` and `date__lte` on `played_at`: `date_of` is the day of a time, and a match without a
-- time passes neither.
abbrev pub on_day : (ℕ → ℕ) → (ℕ → Bool) → Match → Bool
on_day date_of test m = elim m.played_at [ none ↦ false | some t ↦ test (date_of t) ]

unfoldable pub match_passes : (ℕ → ℕ) → MatchFilters → Match → Bool
match_passes date_of f m =
    passes f.tournament_id (λ k x. x.tournament_id == k) m
    && passes f.status (λ status x. same_match_status status x.status) m
    && passes f.date_from (λ d. on_day date_of (λ day. leb d day)) m
    && passes f.date_to (λ d. on_day date_of (λ day. leb day d)) m

-- Whatever the filters, who is neither an admin nor an organizer is shown no draft, and exactly the
-- other tournaments that pass the filters, as often as the table has them.
pub list_tournaments_visible :
    (user : RequestUser) (f : TournamentFilters) (w : World) (p : Tournament → Bool)
    → ¬ IsStaff user
    → count_where p (list_tournaments user f w)
      ≡ count_where (λ t. is_public t.status && (tournament_passes f t && p t)) w.tournaments
unfolding list_tournaments
list_tournaments_visible user f w p other =
    count_where-filter p (tournament_passes f) (get_queryset user w)
    ∙ (get_queryset_visible user w).2 other (λ t. tournament_passes f t && p t)
