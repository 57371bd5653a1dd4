-- ===== src/Views/Visible.antt =====
-- Which tournaments a request sees, and in which order: `TournamentViewSet.get_queryset` of
-- django-api/app/apps/tournaments/views.py.
use tournament_platform_sdd.Base.{
  ℕ, ◌≤◌, ◌≡◌, ◌≢◌, ◌⊎◌, refl, ◌∙◌, Bool, true, false, Bool-cases, inl, inr, ◌&&◌, not, List, [],
  ◌∷◌, filter, count_where, arith,
}
use tournament_platform_sdd.Models.{
  World, Tournament, TournamentStatus, Role, is_draft, is_staff_role,
}
use tournament_platform_sdd.Views.Access.{RequestUser}
use tournament_platform_sdd.Views.Tournaments.{
  insert_by_start, order_by_start, sees_drafts, get_queryset,
}

-- How often a row is listed does not depend on the order.
count-insert_by_start :
    (p : Tournament → Bool) (t : Tournament) (ts : List Tournament)
    → count_where p (insert_by_start t ts) ≡ count_where p (t ∷ ts)
unfolding insert_by_start
count-insert_by_start p t [] = refl
count-insert_by_start p t (u ∷ us) = ground (arith, count-insert_by_start p t us)

count-order_by_start :
    (p : Tournament → Bool) (ts : List Tournament)
    → count_where p (order_by_start ts) ≡ count_where p ts
unfolding order_by_start
count-order_by_start p [] = refl
count-order_by_start p (t ∷ ts) =
    count-insert_by_start p t (order_by_start ts) ∙ omega (arith, count-order_by_start p ts)

-- The dates of the list rise from a date on.
abbrev pub RisesFrom : ℕ → List Tournament → Type 0
RisesFrom d [] = Unit
RisesFrom d (t ∷ ts) = (d ≤ t.start_date) × RisesFrom t.start_date ts

insert_by_start-RisesFrom :
    (d : ℕ) (t : Tournament) (ts : List Tournament)
    → d ≤ t.start_date
    → RisesFrom d ts
    → RisesFrom d (insert_by_start t ts)
unfolding insert_by_start
insert_by_start-RisesFrom d t [] low h = (low, tt)
insert_by_start-RisesFrom d t (u ∷ us) low h =
    ground (arith, insert_by_start-RisesFrom u.start_date t us)

order_by_start-RisesFrom : (ts : List Tournament) → RisesFrom 0 (order_by_start ts)
unfolding order_by_start
order_by_start-RisesFrom [] = tt
order_by_start-RisesFrom (t ∷ ts) =
    insert_by_start-RisesFrom 0 t (order_by_start ts) (omega arith) (order_by_start-RisesFrom ts)

RisesFrom-le : (d e : ℕ) (ts : List Tournament) → e ≤ d → RisesFrom d ts → RisesFrom e ts
RisesFrom-le d e [] low h = tt
RisesFrom-le d e (t ∷ ts) low h = (omega arith, h.1)

filter-RisesFrom :
    (d : ℕ) (p : Tournament → Bool) (ts : List Tournament)
    → RisesFrom d ts
    → RisesFrom d (filter p ts)
filter-RisesFrom d p [] h = tt
filter-RisesFrom d p (t ∷ ts) h = elim (Bool-cases (p t)) [
  | inl kept ↦ rw kept (h.0, filter-RisesFrom t.start_date p ts h.1)
  | inr dropped ↦
      rw dropped
        (RisesFrom-le t.start_date d (filter p ts) h.0 (filter-RisesFrom t.start_date p ts h.1))
]

count-filter :
    (p q : Tournament → Bool) (ts : List Tournament)
    → count_where p (filter q ts) ≡ count_where (λ t. q t && p t) ts
count-filter p q [] = refl
count-filter p q (t ∷ ts) = ground (arith, count-filter p q ts)

-- Who sees drafts.
abbrev pub IsStaff : RequestUser → Type 0
IsStaff RequestUser.anonymous = ⊥
IsStaff (RequestUser.authenticated u) = (u.role ≡ Role.admin) ⊎ (u.role ≡ Role.organizer)

sees_drafts-staff : (user : RequestUser) → IsStaff user → sees_drafts user ≡ true
sees_drafts-staff RequestUser.anonymous h = absurd h
sees_drafts-staff (RequestUser.authenticated u) (inl admin_) = rw admin_ refl
sees_drafts-staff (RequestUser.authenticated u) (inr organizer_) = rw organizer_ refl

role-other : (r : Role) → r ≢ Role.admin → r ≢ Role.organizer → is_staff_role r ≡ false
role-other Role.admin h g = absurd (h refl)
role-other Role.organizer h g = absurd (g refl)
role-other Role.player h g = refl

sees_drafts-other : (user : RequestUser) → ¬ IsStaff user → sees_drafts user ≡ false
sees_drafts-other RequestUser.anonymous h = refl
sees_drafts-other (RequestUser.authenticated u) h =
    role-other u.role (λ e. h (inl e)) (λ e. h (inr e))

-- A tournament that everyone sees.
abbrev pub is_public : TournamentStatus → Bool
is_public TournamentStatus.draft = false
is_public TournamentStatus.open_ = true
is_public TournamentStatus.ongoing = true
is_public TournamentStatus.finished = true

is_public-eq : (s : TournamentStatus) → not (is_draft s) ≡ is_public s
is_public-eq TournamentStatus.draft = refl
is_public-eq TournamentStatus.open_ = refl
is_public-eq TournamentStatus.ongoing = refl
is_public-eq TournamentStatus.finished = refl

count-public :
    (p : Tournament → Bool) (ts : List Tournament)
    → count_where (λ t. not (is_draft t.status) && p t) ts
      ≡ count_where (λ t. is_public t.status && p t) ts
count-public p [] = refl
count-public p (t ∷ ts) = rw is_public-eq (ground (arith, count-public p ts))

-- The list of tournaments that a request sees is ordered by the start date. An authenticated admin
-- or organizer sees every tournament as often as the table has it. Anyone else, a player or a
-- request without a user, sees exactly those that are open, ongoing or finished.
pub get_queryset_visible :
    (user : RequestUser) (w : World)
    → RisesFrom 0 (get_queryset user w)
      × (IsStaff user
          → (p : Tournament → Bool)
          → count_where p (get_queryset user w) ≡ count_where p w.tournaments)
      × (¬ IsStaff user
          → (p : Tournament → Bool)
          → count_where p (get_queryset user w)
            ≡ count_where (λ t. is_public t.status && p t) w.tournaments)
unfolding get_queryset
get_queryset_visible user w =
    let rising = order_by_start-RisesFrom w.tournaments in
    (
      elim (Bool-cases (sees_drafts user)) [
        | inl staff ↦ rw staff rising
        | inr other ↦ rw other (
            filter-RisesFrom 0 (λ t. not (is_draft t.status)) (order_by_start w.tournaments) rising)
      ],
      λ staff p. rw (sees_drafts-staff user staff) (count-order_by_start p w.tournaments),
      λ other p. rw (sees_drafts-other user other) (
          count-filter p (λ t. not (is_draft t.status)) (order_by_start w.tournaments)
          ∙ count-order_by_start (λ t. not (is_draft t.status) && p t) w.tournaments
          ∙ count-public p w.tournaments),
    )
