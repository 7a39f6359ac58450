-- ===== src/Api/Progress/Own.antt =====
-- What a participant reads of the standings, and what the operator reads of a challenge's solvers.
use falco_ctf_app.Prelude.{
  ℕ, suc, ◌≡◌, refl, ap, ◌∙◌, ◌⊎◌, inl, inr, String, string_eq, true, false, List, [], ◌∷◌, map,
  any, ◌==◌, arith, ltb, length, All, Bool-cases,
}
use falco_ctf_app.Prelude.Int.{ℤ, pos}
use falco_ctf_app.Prelude.Maps.{Map, lookup, has}
use falco_ctf_app.Prelude.Sort.{any-sort, All-sort}
use falco_ctf_app.Prelude.Order.{string_le_total, string_le_trans, IsSorted, sort-IsSorted}
use falco_ctf_app.Prelude.Text.{Text}
use falco_ctf_app.Catalog.{Catalog, ids}
use falco_ctf_app.Store.State.{SolveKey, solve_key, solve_eq, Store}
use falco_ctf_app.Store.Solves.{is_solved}
use falco_ctf_app.Store.Lifecycle.{Snapshot, snapshot}
use falco_ctf_app.Scoring.Grader.{Grader}
use falco_ctf_app.Scoring.Sweep.{user_score}
use falco_ctf_app.Api.Leaderboard.{
  Entry, entry_of, solves_of, not_after, assign_ranks, compute_leaderboard,
}
use falco_ctf_app.Api.Leaderboard.Rows.{is_hidden, is_row_of, compute_leaderboard_users}
use falco_ctf_app.Api.Progress.{
  Me, standing, me_page, ChallengeSolver, solvers_of, solver_no_later, ranked_solvers,
}

-- A row's score is that of its user, for the solves in the catalog.
abbrev IsScored : Grader → Store → Snapshot → List String → Entry → Type 0
IsScored g s snap ids e =
    e.score ≡ user_score g e.user (pos (length (solves_of ids e.user snap.solved))) s

entries-IsScored :
    (g : Grader) (s : Store) (snap : Snapshot) (ids us : List String)
    → All (IsScored g s snap ids) (map (entry_of g s snap ids) us)
entries-IsScored g s snap ids [] = tt
entries-IsScored g s snap ids (u ∷ us) = (refl, entries-IsScored g s snap ids us)

assign_ranks-IsScored :
    (g : Grader) (s : Store) (snap : Snapshot) (ids : List String) (rank : ℕ) (es : List Entry)
    → All (IsScored g s snap ids) es
    → All (IsScored g s snap ids) (assign_ranks rank es)
unfolding assign_ranks
assign_ranks-IsScored g s snap ids rank [] h = tt
assign_ranks-IsScored g s snap ids rank (e ∷ es) (p, h) = elim (Bool-cases (ltb 0 e.solved)) [
  | inl q ↦ rw q (p, assign_ranks-IsScored g s snap ids (suc rank) es h)
  | inr q ↦ rw q (p, assign_ranks-IsScored g s snap ids rank es h)
]

standing_score :
    (g : Grader) (s : Store) (snap : Snapshot) (ids : List String) (u : String) (es : List Entry)
    → All (IsScored g s snap ids) es
    → (standing u (0, user_score g u (pos (length (solves_of ids u snap.solved))) s) es).1
      ≡ user_score g u (pos (length (solves_of ids u snap.solved))) s
unfolding standing
standing_score g s snap ids u [] h = refl
standing_score g s snap ids u (e ∷ es) (p, h) = elim (Bool-cases (e.user == u)) [
  | inl same ↦ rw same (
      p
      ∙ ap (λ v. user_score g v (pos (length (solves_of ids v snap.solved))) s)
          ((string_eq.beq_iff e.user u).0 same))
  | inr other ↦ rw other (standing_score g s snap ids u es h)
]

standing_absent :
    (u : String) (own : ℕ × ℤ) (es : List Entry)
    → any (is_row_of u) es ≡ false
    → standing u own es ≡ own
unfolding standing
standing_absent u own [] h = refl
standing_absent u own (e ∷ es) h = ground (arith, standing_absent u own es)

module _ (hidden : Map Text (Unit {0})) (g : Grader) (cat : Catalog) (now : ℕ) (s : Store)
    (user : String) where
  abbrev pub me : Me
  me = me_page hidden g cat now s user

  -- The score that a participant reads is the grader's for the solves that the page counts, whether
  -- or not the standings hide the name; and a participant whose name they hide has rank 0.
  pub me_page_score :
      (me.score ≡ user_score g user (pos me.solved_count) s)
      × ((is_hidden hidden user ≡ false) ⊎ (me.rank ≡ 0))
  unfolding me_page
  me_page_score = (
    scored,
    elim (Bool-cases (is_hidden hidden user)) [
      | inr seen ↦ inl seen
      | inl unseen ↦ inr (
          ap (λ r. r.0)
            (standing_absent user _ _
              (compute_leaderboard_users hidden g s (snapshot s) (ids cat) user ∙ rw unseen refl)))
    ],
  )
    where
      scored : me.score ≡ user_score g user (pos me.solved_count) s
      scored =
          standing_score g s (snapshot s) (ids cat) user
            (compute_leaderboard hidden g s (snapshot s) (ids cat))
            (unfold compute_leaderboard in
              (assign_ranks-IsScored g s (snapshot s) (ids cat) 0 _
                (All-sort not_after _ _ (entries-IsScored g s (snapshot s) (ids cat) _))))

solver_no_later_total :
    (a b : ChallengeSolver) → (solver_no_later a b ≡ true) ⊎ (solver_no_later b a ≡ true)
solver_no_later_total a b = ground (arith, string_le_total a.at b.at)

solver_no_later_trans :
    (a b c : ChallengeSolver)
    → solver_no_later a b ≡ true
    → solver_no_later b c ≡ true
    → solver_no_later a c ≡ true
solver_no_later_trans a b c h k = ground (arith, string_le_trans a.at b.at c.at)

any-solvers_of :
    (snap : Snapshot) (cid u : String) (m : Map SolveKey String)
    → any (λ d. d.user == u) (solvers_of snap cid m) ≡ has (solve_key u cid) m
unfolding solvers_of lookup
any-solvers_of snap cid u [] = refl
any-solvers_of snap cid u ((k, at) ∷ m) = elim (Bool-cases (k.challenge == cid)) [
  | inl e ↦ rw e (ground (arith, any-solvers_of snap cid u m))
  | inr e ↦ rw e (ground (arith, any-solvers_of snap cid u m))
]

-- The solvers that the operator sees of a challenge are exactly the users whose solve of it the
-- store has, and every one stands before all whose solve is later.
pub ranked_solvers_lem :
    (s : Store) (cid u : String)
    → (any (λ d. d.user == u) (ranked_solvers (snapshot s) cid) ≡ is_solved u cid s)
      × IsSorted solver_no_later (ranked_solvers (snapshot s) cid)
unfolding is_solved snapshot
ranked_solvers_lem s cid u = (
  any-sort solver_no_later (λ d. d.user == u) _ ∙ any-solvers_of (snapshot s) cid u s.mem.solved,
  sort-IsSorted solver_no_later solver_no_later_total solver_no_later_trans _,
)
