-- ===== src/SqlQueries/Leaderboard.antt =====
-- The leaderboard has the best players.
use tournament_platform_sdd.Base.{
  ℕ, zero, suc, ◌≤ℤ◌, ◌≡◌, ◌≤◌, refl, ◌∙◌, ap, Bool, true, ◌⊎◌, inl, inr, List, [], ◌∷◌, ◌++◌, map,
  take, drop, take-append-drop, length, length-take, All, count_where, order_by, IsOrdered,
  order_by-IsOrdered, count_where-order_by, arith,
}
use tournament_platform_sdd.Models.{World, User}
use tournament_platform_sdd.SqlQueries.Queries.{higher_rated, get_leaderboard}

All-take :
    (n : ℕ) (u : User) (us : List User)
    → All (λ v. higher_rated u v ≡ true) us
    → All (λ v. higher_rated u v ≡ true) (take n us)
All-take zero u us h = tt
All-take (suc n) u [] h = tt
All-take (suc n) u (v ∷ vs) h = (h.0, All-take n u vs h.1)

All-drop :
    (n : ℕ) (u : User) (us : List User)
    → All (λ v. higher_rated u v ≡ true) us
    → All (λ v. v.elo ≤ℤ u.elo) (drop n us)
All-drop zero u [] h = tt
All-drop zero u (v ∷ vs) h = ground (arith, All-drop zero u vs)
All-drop (suc n) u [] h = tt
All-drop (suc n) u (v ∷ vs) h = All-drop n u vs h.1

-- A list in order is in order up to any place, and what follows stands behind.
take-IsOrdered :
    (n : ℕ) (us : List User)
    → IsOrdered higher_rated us
    → IsOrdered higher_rated (take n us)
      × All (λ u. All (λ v. v.elo ≤ℤ u.elo) (drop n us)) (take n us)
take-IsOrdered zero us h = (tt, tt)
take-IsOrdered (suc n) [] h = (tt, tt)
take-IsOrdered (suc n) (u ∷ us) h =
    let (ordered, best) = take-IsOrdered n us h.1 in
    ((All-take n u us h.0, ordered), (All-drop n u us h.0, best))

full_or_all : (n : ℕ) (us : List User) → (length (take n us) ≡ n) ⊎ (drop n us ≡ [])
full_or_all zero us = inl refl
full_or_all (suc n) [] = inr refl
full_or_all (suc n) (u ∷ us) = elim (full_or_all n us) [
  | inl full ↦ inl (ap suc full)
  | inr rest ↦ inr rest
]

-- `board` is the best of the table, up to the limit, and `others` are the rest.
abbrev pub IsBoard : ℕ → World → List User → List User → Type 0
IsBoard limit w board others =
    (get_leaderboard limit w ≡ map (λ u. (u.username, u.elo)) board)
    × IsOrdered higher_rated board
    × All (λ u. All (λ v. v.elo ≤ℤ u.elo) others) board
    × ((length board ≡ limit) ⊎ (others ≡ []))
    × (length board ≤ limit)
    × ((p : User → Bool) → count_where p (board ++ others) ≡ count_where p w.users)

-- The leaderboard shows the names and ratings of a list of players, the best first. These and the
-- players that it leaves out are together exactly the players of the table; nobody who is left out
-- is rated higher than someone on the board, and if anybody is left out, the board is full.
pub get_leaderboard_best :
    (limit : ℕ) (w : World) → (board others : List User) × IsBoard limit w board others
unfolding get_leaderboard
get_leaderboard_best limit w =
    let ranked = order_by higher_rated w.users in
    let (ordered, best) = take-IsOrdered limit ranked (
      order_by-IsOrdered higher_rated (λ u v h. ground arith) (λ u v x h k. ground arith)
        w.users) in
    (
      take limit ranked,
      drop limit ranked,
      (
        refl,
        ordered,
        best,
        full_or_all limit ranked,
        length-take limit ranked,
        λ p.
            ap (count_where p) (take-append-drop limit ranked)
            ∙ count_where-order_by higher_rated p w.users,
      ),
    )
