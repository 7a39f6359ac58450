-- ===== src/Api/Progress.antt =====
-- The progress of one participant and of the event: userMe, state and buildState of
-- internal/scoreboard/api/api.go. A read changes nothing but the list of denials; the formatted time
-- of the answer is left out.
pub mod Own
use falco_ctf_app.Prelude.{
  ℕ, zero, suc, ◌+◌, ◌*◌, String, string_eq, Bool, true, false, not, Option, none, some, List, [],
  ◌∷◌, map, ◌==◌, contains, length, if◌then◌else◌,
}
use falco_ctf_app.Prelude.Int.{ℤ, pos}
use falco_ctf_app.Prelude.Maps.{Map, lookup, has, insert}
use falco_ctf_app.Prelude.Sort.{sort, string_le}
use falco_ctf_app.Prelude.Text.{Text}
use falco_ctf_app.Catalog.{Catalog, ids}
use falco_ctf_app.Store.State.{SolveKey, RuleFire, Store}
use falco_ctf_app.Store.Rules.{recent_rule_fires}
use falco_ctf_app.Store.Lifecycle.{Snapshot, snapshot}
use falco_ctf_app.Scoring.Grader.{Grader, hint_penalty_for}
use falco_ctf_app.Scoring.Sweep.{user_score}
use falco_ctf_app.Api.Gates.{is_admin_request}
use falco_ctf_app.Api.Actions.{ApiHandler}
use falco_ctf_app.Api.Leaderboard.{
  Entry, solves_of, display_of, avatar_of, events_of, string_lt, compute_leaderboard,
}
use falco_ctf_app.Api.Journeys.{challenge_of}
use falco_ctf_app.Api.Journeys.Page.{ReadAnswer, for_user}

pub record SolveEntry : Type 0 where
  pub challenge : String
  pub at : String

pub record Me : Type 0 where
  pub user : String
  pub display_name : String
  pub avatar : String
  pub solved : List SolveEntry
  pub solved_count : ℕ
  pub total_challenges : ℕ
  pub next_unsolved : Option String
  pub recent_fires : List RuleFire
  pub events : ℕ
  pub score : ℤ
  pub rank : ℕ
  pub hint_penalty : ℤ

abbrev pub solve_entry : String × String → SolveEntry
solve_entry (c, at) = record { challenge = c; at = at }

-- A stable sort by a time that ascends.
abbrev pub no_later : SolveEntry → SolveEntry → Bool
no_later a b = not (string_lt b.at a.at)

abbrev pub solved_in : List (String × String) → String → Bool
solved_in [] cid = false
solved_in ((c, _) ∷ rest) cid = if c == cid then true else solved_in rest cid

unfoldable pub next_unsolved : List String → List (String × String) → Option String
next_unsolved [] solves = none
next_unsolved (cid ∷ rest) solves =
    let later = next_unsolved rest solves in if solved_in solves cid then later else some cid

-- The rank and the score of the first row of the user, or those given.
unfoldable pub standing : String → ℕ × ℤ → List Entry → ℕ × ℤ
standing user own [] = own
standing user own (e ∷ rest) =
    let later = standing user own rest in if e.user == user then (e.rank, e.score) else later

unfoldable pub me_page : Map Text (Unit {0}) → Grader → Catalog → ℕ → Store → String → Me
unfolding next_unsolved standing
me_page hidden g cat now s user =
    let snap = snapshot s in
    let solves = solves_of (ids cat) user snap.solved in
    let (rank, score) =
      standing user (0, user_score g user (pos (length solves)) s)
        (compute_leaderboard hidden g s snap (ids cat)) in
    record {
      user = user;
      display_name = display_of snap user;
      avatar = avatar_of snap user;
      solved = sort no_later (map solve_entry solves);
      solved_count = length solves;
      total_challenges = length (ids cat);
      next_unsolved = next_unsolved (ids cat) solves;
      recent_fires = recent_rule_fires user (now * 1000000000) (60 * 1000000000) s;
      events = events_of snap user;
      score = score;
      rank = rank;
      hint_penalty = hint_penalty_for g (pos 1);
    }

-- userMe
unfoldable pub user_me :
    Map Text (Unit {0}) → Grader → ℕ → Text → String → ApiHandler → ReadAnswer Me × ApiHandler
unfolding for_user me_page
user_me hidden g now email raw h = for_user email raw h (me_page hidden g h.cat now h.store)

pub record ChallengeSolver : Type 0 where
  pub user : String
  pub display_name : String
  pub avatar : String
  pub at : String

pub record ChallengeStat : Type 0 where
  pub id : String
  pub type : String
  pub expected_rules : List String
  pub forbidden_rules : List String
  pub solved_count : ℕ
  pub solvers : List String
  pub solver_details : List ChallengeSolver
  pub first_solver : Option String

pub record RecentEntry : Type 0 where
  pub user : String
  pub display_name : String
  pub avatar : String
  pub challenge : String
  pub at : String

pub record EventState : Type 0 where
  pub users : ℕ
  pub challenge_count : ℕ
  pub solves : ℕ
  pub events : ℕ
  pub leaderboard : List Entry
  pub challenges : List ChallengeStat
  pub recent_solves : List RecentEntry
  pub solved : List RecentEntry
  pub events_per_user : Map String ℕ

-- perChalSolvers[cid], for an id of the catalog.
unfoldable pub solvers_of : Snapshot → String → Map SolveKey String → List ChallengeSolver
solvers_of snap cid [] = []
solvers_of snap cid ((k, at) ∷ m) =
    let rest = solvers_of snap cid m in
    if k.challenge == cid
    then record {
      user = k.user;
      display_name = display_of snap k.user;
      avatar = avatar_of snap k.user;
      at = at;
    }
      ∷ rest
    else rest

abbrev pub solver_no_later : ChallengeSolver → ChallengeSolver → Bool
solver_no_later a b = not (string_lt b.at a.at)

abbrev pub first_of : List ChallengeSolver → Option String
first_of [] = none
first_of (x ∷ _) = some x.user

abbrev pub ranked_solvers : Snapshot → String → List ChallengeSolver
ranked_solvers snap cid = sort solver_no_later (solvers_of snap cid snap.solved)

unfoldable pub challenge_stats : Catalog → Snapshot → List String → List ChallengeStat
unfolding solvers_of
challenge_stats cat snap [] = []
challenge_stats cat snap (cid ∷ rest) =
    let ch = challenge_of (lookup cid cat) in
    let details = ranked_solvers snap cid in
    record {
      id = cid;
      type = ch.type;
      expected_rules = ch.expected_rules;
      forbidden_rules = ch.forbidden_rules;
      solved_count = length details;
      solvers = map (λ d. d.user) details;
      solver_details = details;
      first_solver = first_of details;
    }
    ∷ challenge_stats cat snap rest

unfoldable pub all_solves : Snapshot → List String → Map SolveKey String → List RecentEntry
all_solves snap ids [] = []
all_solves snap ids ((k, at) ∷ m) =
    let rest = all_solves snap ids m in
    if contains ids k.challenge
    then record {
      user = k.user;
      display_name = display_of snap k.user;
      avatar = avatar_of snap k.user;
      challenge = k.challenge;
      at = at;
    }
      ∷ rest
    else rest

-- A stable sort by a time that descends.
abbrev pub no_earlier : RecentEntry → RecentEntry → Bool
no_earlier a b = not (string_lt a.at b.at)

abbrev pub first_n : {A : Type 0} → ℕ → List A → List A
first_n zero xs = []
first_n (suc n) [] = []
first_n (suc n) (x ∷ xs) = x ∷ first_n n xs

abbrev pub total : Map String ℕ → ℕ
total [] = 0
total ((_, n) ∷ m) = n + total m

unfoldable pub build_state : Map Text (Unit {0}) → Grader → Catalog → Store → EventState
unfolding challenge_stats all_solves
build_state hidden g cat s =
    let snap = snapshot s in
    let leaderboard = compute_leaderboard hidden g s snap (ids cat) in
    let solved = sort no_earlier (all_solves snap (ids cat) snap.solved) in
    record {
      users = length leaderboard;
      challenge_count = length (ids cat);
      solves = length snap.solved;
      events = total snap.events_per_user;
      leaderboard = leaderboard;
      challenges = challenge_stats cat snap (ids cat);
      recent_solves = first_n 15 solved;
      solved = solved;
      events_per_user = snap.events_per_user;
    }

-- state: none is the 403 for a request that is no admin's.
unfoldable pub state : Map Text (Unit {0}) → Grader → Text → ApiHandler → Option EventState
unfolding build_state
state hidden g email h =
    if is_admin_request h.admin_set email then some (build_state hidden g h.cat h.store) else none
