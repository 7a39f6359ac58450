-- ===== src/Api/Leaderboard/Rows.antt =====
-- Who has a row in the standings, and what the row says.
use falco_ctf_app.Prelude.{
  ℕ, suc, ◌≡◌, refl, ◌∙◌, inl, inr, String, string_eq, Bool, not, ◌&&◌, ◌||◌, List, [], ◌∷◌, map,
  any, contains, ◌==◌, arith, ltb, Bool-cases,
}
use falco_ctf_app.Prelude.Maps.{Map, lookup, has, has-insert, lookup-empty}
use falco_ctf_app.Prelude.Sort.{any-sort, string_le}
use falco_ctf_app.Prelude.Text.{Text, text, text_eq}
use falco_ctf_app.Store.State.{SolveKey, Store}
use falco_ctf_app.Store.Lifecycle.{Snapshot}
use falco_ctf_app.Scoring.Grader.{Grader}
use falco_ctf_app.Api.Leaderboard.{
  Entry, add_user, event_users, solve_users, user_set, entry_of, not_after, assign_ranks,
  compute_leaderboard,
}

abbrev pub is_hidden : Map Text (Unit {0}) → String → Bool
is_hidden hidden u = has (text u) hidden

-- A solve of the user in a challenge of the catalog.
abbrev pub counts_for : List String → String → SolveKey × String → Bool
counts_for ids u e = contains ids e.0.challenge && e.0.user == u

has-add_user :
    (hidden : Map Text (Unit {0})) (v u : String) (set : Map String (Unit {0}))
    → has u (add_user hidden v set) ≡ ((not (is_hidden hidden u) && v == u) || has u set)
has-add_user hidden v u set = elim (Bool-cases (v == u)) [
  | inl same ↦
      rw ((string_eq.beq_iff v u).0 same)
        (ground (arith, has-insert u u tt set, string_eq.beq_iff u u))
  | inr other ↦ ground (arith, has-insert v u tt set)
]

has-event_users :
    (hidden : Map Text (Unit {0})) (u : String) (m : Map String ℕ) (set : Map String (Unit {0}))
    → has u (event_users hidden m set) ≡ ((not (is_hidden hidden u) && has u m) || has u set)
unfolding event_users lookup
has-event_users hidden u [] set = ground arith
has-event_users hidden u ((v, n) ∷ m) set =
    ground (arith, has-event_users hidden u m (add_user hidden v set), has-add_user hidden v u set)

has-solve_users :
    (hidden : Map Text (Unit {0})) (ids : List String) (u : String) (m : Map SolveKey String)
    (set : Map String (Unit {0}))
    → has u (solve_users hidden ids m set)
      ≡ ((not (is_hidden hidden u) && any (counts_for ids u) m) || has u set)
unfolding solve_users
has-solve_users hidden ids u [] set = ground arith
has-solve_users hidden ids u ((k, at) ∷ m) set = elim (Bool-cases (contains ids k.challenge)) [
  | inl known ↦ rw known (
      ground (
        arith,
        has-solve_users hidden ids u m (add_user hidden k.user set),
        has-add_user hidden k.user u set,
      ))
  | inr gone ↦ rw gone (has-solve_users hidden ids u m set)
]

any-keys :
    (u : String) (set : Map String (Unit {0})) → any (λ x. x == u) (map (λ e. e.0) set) ≡ has u set
unfolding lookup
any-keys u [] = refl
any-keys u ((v, x) ∷ set) = ground (arith, any-keys u set)

abbrev pub is_row_of : String → Entry → Bool
is_row_of u e = e.user == u

any-entries :
    (g : Grader) (s : Store) (snap : Snapshot) (ids : List String) (u : String) (us : List String)
    → any (is_row_of u) (map (entry_of g s snap ids) us) ≡ any (λ x. x == u) us
any-entries g s snap ids u [] = refl
any-entries g s snap ids u (v ∷ us) = ground (arith, any-entries g s snap ids u us)

any-assign_ranks :
    (u : String) (rank : ℕ) (es : List Entry)
    → any (is_row_of u) (assign_ranks rank es) ≡ any (is_row_of u) es
unfolding assign_ranks
any-assign_ranks u rank [] = refl
any-assign_ranks u rank (e ∷ es) = elim (Bool-cases (ltb 0 e.solved)) [
  | inl p ↦ rw p (ground (arith, any-assign_ranks u (suc rank) es))
  | inr p ↦ rw p (ground (arith, any-assign_ranks u rank es))
]

-- A user has a row in the standings exactly when the hidden set has not the name and the user has
-- an event or a solve of a challenge that is still in the catalog.
pub compute_leaderboard_users :
    (hidden : Map Text (Unit {0})) (g : Grader) (s : Store) (snap : Snapshot) (ids : List String)
    (u : String)
    → any (is_row_of u) (compute_leaderboard hidden g s snap ids) ≡ (
        not (is_hidden hidden u)
        && (has u snap.events_per_user || any (counts_for ids u) snap.solved))
unfolding compute_leaderboard
compute_leaderboard_users hidden g s snap ids u =
    any-assign_ranks u 0 _
    ∙ any-sort not_after (is_row_of u) (map (entry_of g s snap ids) _)
    ∙ any-entries g s snap ids u _
    ∙ any-sort string_le (λ x. x == u) (map (λ e. e.0) (user_set hidden snap ids))
    ∙ any-keys u (user_set hidden snap ids)
    ∙ has-solve_users hidden ids u snap.solved (event_users hidden snap.events_per_user [])
    ∙ ground
        (arith, has-event_users hidden u snap.events_per_user [], lookup-empty {V = Unit {0}} u)
