-- ===== src/Events/Contract.antt =====
-- The contracts of the payloads of the four topics (requirements/kafka+events.md, "Topics and
-- Payload Contracts"): which fields a consumer may read, and of which type.
use tournament_platform_sdd.Base.{
  ℕ, pos, ◌≡◌, true, ◌==◌, ◌||◌, String, List, All, ◌++◌, [], ◌∷◌, Bool-cases, inl, inr,
}
use tournament_platform_sdd.Exec.{ok}
use tournament_platform_sdd.Exec.Rules.{Keeps}
use tournament_platform_sdd.Json.{Json, num, text, subscript}
use tournament_platform_sdd.Models.{World}
use tournament_platform_sdd.Runtime.{Runtime}
use tournament_platform_sdd.Events.{publish_event}

-- The field holds this id.
abbrev pub HasId : Json → String → ℕ → Type 0
HasId payload key k = subscript payload key ≡ ok (num (pos k))

-- The field holds a text.
abbrev pub HasText : Json → String → Type 0
HasText payload key = (s : String) × (subscript payload key ≡ ok (text s))

module _ (rt : Runtime) where
  -- The field holds a time, in the form that Python writes.
  abbrev pub HasTime : Json → String → Type 0
  HasTime payload key = (t : ℕ) × (subscript payload key ≡ ok (text (rt.isoformat t)))

  -- `match.finished`: the contract has a winner or null; every match that is reported has a winner,
  -- which is one of its two teams.
  pub record IsMatchFinished (payload : Json) : Type 0 where
    pub match_id : ℕ
    pub team_a_id : ℕ
    pub team_b_id : ℕ
    pub winner_id : ℕ
    pub has_match : HasId payload "match_id" match_id
    pub has_team_a : HasId payload "team_a_id" team_a_id
    pub has_team_b : HasId payload "team_b_id" team_b_id
    pub has_winner : HasId payload "winner_id" winner_id
    pub reported_at : HasTime payload "reported_at"
    pub winner_plays : (winner_id == team_a_id || winner_id == team_b_id) ≡ true

  -- A message that keeps the contract of its topic.
  pub data IsEvent (topic : String) (payload : Json) : Type 0 where
    match_finished : topic ≡ "match.finished" → IsMatchFinished payload → IsEvent topic payload
    tournament_created :
        topic ≡ "tournament.created"
        → (k : ℕ) × HasId payload "tournament_id" k
        → HasText payload "name"
        → HasTime payload "created_at"
        → IsEvent topic payload
    user_registered :
        topic ≡ "user.registered"
        → (k : ℕ) × HasId payload "user_id" k
        → HasText payload "email"
        → HasTime payload "registered_at"
        → IsEvent topic payload
    team_created :
        topic ≡ "team.created"
        → (k : ℕ) × HasId payload "team_id" k
        → HasText payload "name"
        → HasTime payload "created_at"
        → IsEvent topic payload

  -- Every message that the broker took, and every one that it did not take.
  abbrev pub AllEvents : World → Type 0
  AllEvents w =
      All (λ (e : String × Json). IsEvent e.0 e.1) w.published
      × All (λ (e : String × Json). IsEvent e.0 e.1) w.publish_failures

  All-last {ℓ} :
      {A : Type ℓ} (P : A → Type 0) (xs : List A) (x : A) → All P xs → P x → All P (xs ++ x ∷ [])
  All-last P [] x h p = (p, tt)
  All-last P (y ∷ ys) x h p = (h.0, All-last P ys x h.1 p)

  pub publish_event-AllEvents :
      (topic : String) (payload : Json)
      → IsEvent topic payload
      → Keeps AllEvents (publish_event rt topic payload)
  unfolding publish_event
  publish_event-AllEvents topic payload good = record {
    at = λ w h. elim (Bool-cases (rt.accepts topic payload)) [
      | inl taken ↦ rw taken (All-last _ w.published (topic, payload) h.0 good, h.1)
      | inr lost ↦ rw lost (h.0, All-last _ w.publish_failures (topic, payload) h.1 good)
    ];
  }
