-- ===== src/Consumers/Failure.antt =====
-- ranking_consumer.py of django-api/app/consumers where an attempt at a message raises:
-- `_update_team_elo` saves each player at once and the history at the end, with no transaction
-- around them.
use tournament_platform_sdd.Base.{
  ℕ, ℤ, ◌≡◌, refl, ◌∙◌, ap, arith, ◌++◌, if◌then◌else◌, false, Bool-cases, Option-cases, inl, inr,
  some, List, [], ◌∷◌,
}
use tournament_platform_sdd.Exec.{Exec, Error, ok, err, pure}
use tournament_platform_sdd.Exec.Rules.{Keeps, keeps_rules, >>=-eq-err}
use tournament_platform_sdd.Json.{Json, Wire}
use tournament_platform_sdd.Models.{World, Match, User, UserEloHistory}
use tournament_platform_sdd.Models.Tables.{find_match, save_user_elo}
use tournament_platform_sdd.Floats.{PyFloat}
use tournament_platform_sdd.Events.Consumer.{Message}
use tournament_platform_sdd.Events.Contract.{HasId}
use tournament_platform_sdd.Teams.Service.{loser_id}
use tournament_platform_sdd.Tournaments.UserRating.{
  members_of, for_members, rate_winner, rate_loser, bulk_create, update_team_elo,
  update_team_elo_by_match_id,
}
use tournament_platform_sdd.Tournaments.Rounds.{for_members-Keeps}
use tournament_platform_sdd.Tournaments.Players.{rate_lists, update_team_elo-eq}
use tournament_platform_sdd.Consumers.Handlers.{is_user_rated, payload_of, rank_match_finished}

-- The state is `s` but for the rows of the users.
abbrev pub IsButUsers : World → World → Type 0
IsButUsers s w = w ≡ record s { users = w.users }

module _ (s : World) where
  save_user_elo-IsButUsers : (k : ℕ) (elo : ℤ) → Keeps (IsButUsers s) (save_user_elo k elo)
  unfolding save_user_elo
  save_user_elo-IsButUsers k elo = record { at = λ w h. ground arith }

  rate_winner-IsButUsers :
      (fl : PyFloat) (m : Match) (u : User) → Keeps (IsButUsers s) (rate_winner fl m u)
  unfolding rate_winner
  rate_winner-IsButUsers fl m u = search (keeps_rules, save_user_elo-IsButUsers) depth 10

  rate_loser-IsButUsers :
      (fl : PyFloat) (m : Match) (u : User) → Keeps (IsButUsers s) (rate_loser fl m u)
  unfolding rate_loser
  rate_loser-IsButUsers fl m u = search (keeps_rules, save_user_elo-IsButUsers) depth 10

bulk_create-ok : (rows : List UserEloHistory) (w : World) → (bulk_create rows w).0 ≡ ok tt
unfolding bulk_create
bulk_create-ok [] w = refl
bulk_create-ok (row ∷ rows) w = refl

-- Where the loops over the members raise, they have written players only.
rate_lists-failure :
    (won lost : User → Exec World UserEloHistory) (winners losers : List User) (s : World)
    → ((u : User) → Keeps (IsButUsers s) (won u))
    → ((u : User) → Keeps (IsButUsers s) (lost u))
    → {e : Error} → (rate_lists won lost winners losers s).0 ≡ err e
    → IsButUsers s (rate_lists won lost winners losers s).1
rate_lists-failure won lost winners losers s kw kl {e} h =
    let first = (for_members-Keeps won winners kw).at s refl in
    let v = (for_members won winners s).1 in
    elim (>>=-eq-err (for_members won winners) _ s h) [
      | inl (raised, same) ↦ rw same first
      | inr (wr, done, same) ↦ elim (>>=-eq-err (for_members lost losers) _ v (rw same at h)) [
        | inl (raised, same') ↦ rw (same, same') ((for_members-Keeps lost losers kl).at v first)
        | inr (lr, done', same') ↦
            cc (bulk_create-ok (wr ++ lr) (for_members lost losers v).1, rw (same, same') at h)
      ]
    ]

module _ (fl : PyFloat) where
  update_team_elo-failure :
      (m : Match) (s : World) {e : Error}
      → (update_team_elo fl m s).0 ≡ err e
      → IsButUsers s (update_team_elo fl m s).1
  update_team_elo-failure m s {e} h =
      let same = update_team_elo-eq fl m s in
      rw same (
        rate_lists-failure (rate_winner fl m) (rate_loser fl m) (members_of m.winner_team_id s)
          (members_of (some (loser_id m)) s) s (rate_winner-IsButUsers s fl m)
          (rate_loser-IsButUsers s fl m) (rw same at h))

  by_id-failure :
      (k : ℕ) (s : World) {e : Error}
      → (update_team_elo_by_match_id fl k s).0 ≡ err e
      → IsButUsers s (update_team_elo_by_match_id fl k s).1
  unfolding update_team_elo_by_match_id
  by_id-failure k s {e} h = elim (Option-cases (find_match k s.matches)) [
    | inl gone ↦ rw gone refl
    | inr (m, found) ↦ rw found (update_team_elo-failure m s (rw found at h))
  ]

module _ (wire : Wire) (fl : PyFloat) where
  -- What an attempt does, by whether the match is in the history of the players.
  rank-read :
      (msg : Message wire) (payload : Json) (k : ℕ) (w : World)
      → wire.loads msg.value ≡ some payload
      → HasId payload "match_id" k
      → rank_match_finished wire fl msg w
        ≡ (if is_user_rated k w then pure tt else update_team_elo_by_match_id fl k) w
  unfolding rank_match_finished payload_of
  rank-read msg payload k w read named = rw read (rw named (rw wire.id_of-num refl))

  -- An attempt of the ranking consumer that raises, once it has read the id in the message, has
  -- written no history: nothing but rows of users. So the next attempt does not take the match for
  -- rated, and rates all players once more, from the ratings that the first attempt has left.
  pub rank_match_finished_failure :
      (msg : Message wire) (payload : Json) (k : ℕ) (w : World) {e : Error}
      → wire.loads msg.value ≡ some payload
      → HasId payload "match_id" k
      → (rank_match_finished wire fl msg w).0 ≡ err e
      → let w' = (rank_match_finished wire fl msg w).1 in
        IsButUsers w w' × (rank_match_finished wire fl msg w' ≡ update_team_elo_by_match_id fl k w')
  rank_match_finished_failure msg payload k w {e} read named h =
      let same = rank-read msg payload k w read named in
      elim (Bool-cases (is_user_rated k w)) [
        | inl rated ↦ cc (rw (same, rated) at h)
        | inr new ↦
            let v = (update_team_elo_by_match_id fl k w).1 in
            let kept = by_id-failure fl k w (rw (same, new) at h) in
            let still : is_user_rated k v ≡ false = ap (is_user_rated k) kept ∙ new in
            rw (same, new) (kept, rank-read msg payload k v read named ∙ rw still refl)
      ]
