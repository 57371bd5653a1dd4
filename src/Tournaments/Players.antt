-- ===== src/Tournaments/Players.antt =====
-- `MatchService._update_team_elo` of django-api/app/apps/tournaments/services.py: if it returns, it
-- has left a row of history for the match, or the match's teams have no members.
use tournament_platform_sdd.Base.{
  ℕ, ◌≡◌, refl, subst, ap, true, ◌==◌, ◌⊎◌, inl, inr, some, List, [], ◌∷◌, ◌++◌, any, any-append,
  append-nil, arith,
}
use tournament_platform_sdd.Exec.{Exec, ok, pure, lift, gets, ◌>>=◌}
use tournament_platform_sdd.Exec.Rules.{
  >>=-eq-ok, ok-injective, Yields, Yields-bind, Yields-gets, Yields-pure, Yields-any,
}
use tournament_platform_sdd.Models.{World, Match, User, UserEloHistory}
use tournament_platform_sdd.Models.Tables.{save_user_elo}
use tournament_platform_sdd.Rating.{initial_elo, update_elo}
use tournament_platform_sdd.Floats.{PyFloat}
use tournament_platform_sdd.Consumers.Handlers.{is_user_rated}
use tournament_platform_sdd.Teams.Service.{loser_id}
use tournament_platform_sdd.Tournaments.UserRating.{
  members_of, elo_record, rate_winner, rate_loser, for_members, bulk_create, update_team_elo,
}

-- The row is one of this match.
abbrev IsOf : Match → UserEloHistory → Type 0
IsOf m row = row.match_id ≡ m.id

bulk_create-history :
    (rows : List UserEloHistory) (w : World)
    → (bulk_create rows w).1.user_elo_history ≡ w.user_elo_history ++ rows
unfolding bulk_create
bulk_create-history [] w = rw append-nil
bulk_create-history (row ∷ rows) w = refl

-- A loop over at least one member collects a row of the match.
for_members-rows :
    (m : Match) (round : User → Exec World UserEloHistory) (u : User) (us : List User)
    → ((v : User) → Yields (IsOf m) (round v))
    → Yields (λ rows. any (λ h. h.match_id == m.id) rows ≡ true) (for_members round (u ∷ us))
unfolding for_members
for_members-rows m round u us of_match = Yields-bind (round u) _ (of_match u) (λ row e. record {
  at = λ s rows h.
      let (more, _, same) = >>=-eq-ok (for_members round us) (λ rs. pure (row ∷ rs)) s h in
      subst (λ rs. any (λ x. x.match_id == m.id) rs ≡ true) (ok-injective (rw same at h))
        (ground (arith, e));
})

-- The history of the players has a row of the match.
abbrev pub IsUserRated : ℕ → World → Type 0
IsUserRated match_id w = is_user_rated match_id w ≡ true

bulk_create-rated :
    (m : Match) (rows : List UserEloHistory) (w : World)
    → any (λ h. h.match_id == m.id) rows ≡ true
    → IsUserRated m.id (bulk_create rows w).1
bulk_create-rated m rows w h = rw (bulk_create-history rows w, any-append) (ground (arith, h))

-- The loops over both lists of members, and the rows that they store.
abbrev pub rate_lists :
    (User → Exec World UserEloHistory)
    → (User → Exec World UserEloHistory)
    → List User
    → List User
    → Exec World (Unit {0})
rate_lists won lost winners losers = do
  winner_records ← for_members won winners
  loser_records ← for_members lost losers
  bulk_create (winner_records ++ loser_records)

module _ (m : Match) (won lost : User → Exec World UserEloHistory)
    (won_of : (v : User) → Yields (IsOf m) (won v))
    (lost_of : (v : User) → Yields (IsOf m) (lost v)) where
  rate_lists-winners :
      (u : User) (us losers : List User) (s : World)
      → (rate_lists won lost (u ∷ us) losers s).0 ≡ ok tt
      → IsUserRated m.id (rate_lists won lost (u ∷ us) losers s).1
  rate_lists-winners u us losers s h =
      let (wr, ew, same) = >>=-eq-ok (for_members won (u ∷ us)) _ s h in
      let s' = (for_members won (u ∷ us) s).1 in
      let (lr, el, same') = >>=-eq-ok (for_members lost losers) _ s' (rw same at h) in
      rw (same, same')
        (bulk_create-rated m (wr ++ lr) (for_members lost losers s').1
          (rw any-append (ground (arith, (for_members-rows m won u us won_of).at s wr ew))))

  rate_lists-losers :
      (u : User) (us : List User) (s : World)
      → (rate_lists won lost [] (u ∷ us) s).0 ≡ ok tt
      → IsUserRated m.id (rate_lists won lost [] (u ∷ us) s).1
  rate_lists-losers u us s h =
      let (wr, ew, same) = >>=-eq-ok (for_members won []) _ s h in
      let s' = (for_members won [] s).1 in
      let (lr, el, same') = >>=-eq-ok (for_members lost (u ∷ us)) _ s' (rw same at h) in
      rw (same, same')
        (bulk_create-rated m (wr ++ lr) (for_members lost (u ∷ us) s').1
          (rw any-append (ground (arith, (for_members-rows m lost u us lost_of).at s' lr el))))

rate_lists-empty :
    (won lost : User → Exec World UserEloHistory) (s : World)
    → rate_lists won lost [] [] s ≡ (ok tt, s)
unfolding for_members bulk_create
rate_lists-empty won lost s = refl

module _ (fl : PyFloat) where
  rate_winner-IsOf : (m : Match) (u : User) → Yields (IsOf m) (rate_winner fl m u)
  unfolding rate_winner
  rate_winner-IsOf m u =
      Yields-bind (lift (update_elo fl u.elo initial_elo)) _ Yields-any (λ ratings _.
        Yields-bind (gets (λ w. elo_record w m u ratings.0)) _ (Yields-gets _ (λ w. refl)) (λ row e.
          Yields-bind (save_user_elo u.id ratings.0) _ Yields-any (λ _ _. Yields-pure row e)))

  rate_loser-IsOf : (m : Match) (u : User) → Yields (IsOf m) (rate_loser fl m u)
  unfolding rate_loser
  rate_loser-IsOf m u =
      Yields-bind (lift (update_elo fl initial_elo u.elo)) _ Yields-any (λ ratings _.
        Yields-bind (gets (λ w. elo_record w m u ratings.1)) _ (Yields-gets _ (λ w. refl)) (λ row e.
          Yields-bind (save_user_elo u.id ratings.1) _ Yields-any (λ _ _. Yields-pure row e)))

  pub update_team_elo-eq :
      (m : Match) (s : World)
      → update_team_elo fl m s
        ≡ rate_lists
            (rate_winner fl m)
            (rate_loser fl m)
            (members_of m.winner_team_id s)
            (members_of (some (loser_id m)) s)
            s
  unfolding update_team_elo
  update_team_elo-eq m s = refl

-- The match is settled for the players: it is in their history, or nobody is on its teams.
abbrev pub IsSettled : Match → World → Type 0
IsSettled m w =
    IsUserRated m.id w
    ⊎ ((members_of m.winner_team_id w ≡ []) × (members_of (some (loser_id m)) w ≡ []))

module _ (fl : PyFloat) where
  rate_lists-settles :
      (m : Match) (winners losers : List User) (s : World)
      → (rate_lists (rate_winner fl m) (rate_loser fl m) winners losers s).0 ≡ ok tt
      → let s' = (rate_lists (rate_winner fl m) (rate_loser fl m) winners losers s).1 in
        IsUserRated m.id s' ⊎ ((winners ≡ []) × (losers ≡ []) × (s' ≡ s))
  rate_lists-settles m [] [] s h =
      inr (refl, refl, ap (λ x. x.1) (rate_lists-empty (rate_winner fl m) (rate_loser fl m) s))
  rate_lists-settles m [] (u ∷ us) s h = inl (
      rate_lists-losers m (rate_winner fl m) (rate_loser fl m) (rate_winner-IsOf fl m)
        (rate_loser-IsOf fl m) u us s h)
  rate_lists-settles m (u ∷ us) losers s h = inl (
      rate_lists-winners m (rate_winner fl m) (rate_loser fl m) (rate_winner-IsOf fl m)
        (rate_loser-IsOf fl m) u us losers s h)

  pub update_team_elo-settles :
      (m : Match) (s : World)
      → (update_team_elo fl m s).0 ≡ ok tt
      → IsSettled m (update_team_elo fl m s).1
  update_team_elo-settles m s h =
      let winners = members_of m.winner_team_id s in
      let losers = members_of (some (loser_id m)) s in
      let same = update_team_elo-eq fl m s in
      elim (rate_lists-settles m winners losers s (rw same at h)) [
        | inl rated ↦ inl (rw same rated)
        | inr (nw, nl, unchanged) ↦ inr (rw (same, unchanged) (nw, nl))
      ]

  -- Nobody is rated twice: where nobody is on the teams, nothing happens.
  pub update_team_elo-nobody :
      (m : Match) (s : World)
      → members_of m.winner_team_id s ≡ []
      → members_of (some (loser_id m)) s ≡ []
      → update_team_elo fl m s ≡ (ok tt, s)
  update_team_elo-nobody m s nw nl =
      rw (update_team_elo-eq fl m s, nw, nl)
        (rate_lists-empty (rate_winner fl m) (rate_loser fl m) s)
