-- ===== src/Api/Journeys/Current.antt =====
-- The mission that the page shows as current is the one whose forbidden rules taint the user.
use falco_ctf_app.Prelude.{
  ◌≡◌, refl, ap, ◌∙◌, inl, inr, String, string_eq, Bool, true, ◌&&◌, ◌||◌, List, [], ◌∷◌, map, ◌==◌,
  arith, if◌then◌else◌, Bool-cases, ℕ,
}
use falco_ctf_app.Prelude.Maps.{Map, lookup, has, has-insert, insert, lookup-empty}
use falco_ctf_app.Catalog.{Catalog}
use falco_ctf_app.Store.State.{SolveKey, solve_key, solve_eq, Store}
use falco_ctf_app.Store.Solves.{is_solved}
use falco_ctf_app.Store.Lifecycle.{snapshot}
use falco_ctf_app.Scoring.Grader.{first_unsolved, current_mission, order_of}
use falco_ctf_app.Api.Journeys.{Pages, Status, solved, current, locked}
use falco_ctf_app.Api.Journeys.Page.{
  MissionView, known_order, solved_set, mission_views, named, journey_page,
}

same_has : (a b : String) (cat : Catalog) → (a == b) ≡ true → has a cat ≡ has b cat
same_has a b cat h = ap (λ x. has x cat) ((string_eq.beq_iff a b).0 h)

has-solved_set :
    (cat : Catalog) (user id : String) (m : Map SolveKey String) (set : Map String (Unit {0}))
    → has id (solved_set cat user m set) ≡ ((has id cat && has (solve_key user id) m) || has id set)
unfolding solved_set lookup
has-solved_set cat user id [] set = ground arith
has-solved_set cat user id ((k, at) ∷ m) set = elim (Bool-cases (k.user == user)) [
  | inr others ↦ rw others (has-solved_set cat user id m set)
  | inl own ↦ rw own (elim (Bool-cases (has k.challenge cat)) [
    | inl known ↦ rw known (
        ground (
          arith,
          has-solved_set cat user id m (insert k.challenge tt set),
          has-insert k.challenge id tt set,
          same_has k.challenge id cat,
        ))
    | inr gone ↦
        rw gone (ground (arith, has-solved_set cat user id m set, same_has k.challenge id cat))
  ])
]

first_unsolved-known :
    (order : List String) (cat : Catalog) (p q : String → Bool)
    → ((id : String) → has id cat ≡ true → p id ≡ q id)
    → first_unsolved (known_order cat order) cat p ≡ first_unsolved order cat q
unfolding first_unsolved
first_unsolved-known [] cat p q h = refl
first_unsolved-known (id ∷ order) cat p q h = elim (Bool-cases (has id cat)) [
  | inl known ↦
      rw known (rw known (rw (h id known) (rw (first_unsolved-known order cat p q h) refl)))
  | inr gone ↦ rw gone (first_unsolved-known order cat p q h)
]

has-done :
    (cat : Catalog) (user id : String) (s : Store)
    → has id cat ≡ true
    → has id (solved_set cat user (snapshot s).solved []) ≡ is_solved user id s
unfolding is_solved snapshot
has-done cat user id s known =
    has-solved_set cat user id s.mem.solved [] ∙ ground (arith, lookup-empty {V = Unit {0}} id)

-- The status of a mission, from the store and the current mission of the grader.
abbrev pub status_in : String → Store → String → String → Status
status_in user s now_at id =
    if is_solved user id s then solved else if id == now_at then current else locked

abbrev pub statuses : List MissionView → List (String × Status)
statuses views = map (λ v. (v.id, v.status)) views

mission_views-status :
    (p : Pages) (user : String) (s : Store) (now_at : String) (order : List String)
    → statuses (
        mission_views p
          (solved_set p.cat user (snapshot s).solved [])
          now_at
          (known_order p.cat order))
      ≡ map (λ id. (id, status_in user s now_at id)) (known_order p.cat order)
unfolding mission_views
mission_views-status p user s now_at [] = refl
mission_views-status p user s now_at (id ∷ order) = elim (Bool-cases (has id p.cat)) [
  | inl known ↦
      rw (known, has-done p.cat user id s known)
        (ap (◌∷◌ (id, status_in user s now_at id)) (mission_views-status p user s now_at order))
  | inr gone ↦ rw gone (mission_views-status p user s now_at order)
]

module _ (p : Pages) (now : ℕ) (s : Store) (selected user : String) where
  abbrev pub now_at : String
  now_at = current_mission p.grader user s

  -- Where the page and the grader have one catalog and one order, the page's current mission is
  -- the grader's, and the page gives each mission that the catalog has, in the order, its status:
  -- solved where the store has the solve, current where it is the grader's current mission, locked
  -- otherwise.
  pub journey_page-current :
      order_of p.grader.order p.grader.cat ≡ p.order
      → p.grader.cat ≡ p.cat
      → ((journey_page p now s selected user).current ≡ named now_at)
        × (statuses (journey_page p now s selected user).missions
            ≡ map (λ id. (id, status_in user s now_at id)) (known_order p.cat p.order))
  unfolding journey_page current_mission
  journey_page-current o c =
      let same =
        first_unsolved-known p.order p.cat
          (λ id. has id (solved_set p.cat user (snapshot s).solved [])) (λ id. is_solved user id s)
          (λ id known. has-done p.cat user id s known) in
      rw (o, c) (ap named same, rw same (mission_views-status p user s _ p.order))
