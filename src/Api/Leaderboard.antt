-- ===== src/Api/Leaderboard.antt =====
-- The standings of the whole event: newHiddenSet and computeLeaderboard of internal/scoreboard/api/api.go.
-- `hidden` is the hidden set, `ids` the catalog's ids, and the store is read for the revealed hints.
pub mod Latest
pub mod Order
pub mod Rows
use falco_ctf_app.Prelude.{
  ℕ, suc, ◌+◌, String, string_eq, Bool, true, false, not, ◌&&◌, Option, none, some, List, [], ◌∷◌,
  map, ◌==◌, contains, eqb, ltb, length, if◌then◌else◌,
}
use falco_ctf_app.Prelude.Int.{ℤ, pos, pos_part, neg_part, ltb_ℤ}
use falco_ctf_app.Prelude.Maps.{Map, lookup, has, insert}
use falco_ctf_app.Prelude.Sort.{sort, string_le}
use falco_ctf_app.Prelude.Text.{Text, text, text_eq, is_empty, trim_space, to_lower}
use falco_ctf_app.Avatar
use falco_ctf_app.Store.State.{SolveKey, Store}
use falco_ctf_app.Store.Lifecycle.{Snapshot}
use falco_ctf_app.Scoring.Grader.{Grader}
use falco_ctf_app.Scoring.Sweep.{user_score}

pub record Entry : Type 0 where
  pub user : String
  pub display_name : String
  pub avatar : String
  pub solved : ℕ
  pub score : ℤ
  pub earliest : String
  pub events : ℕ
  pub rank : ℕ

abbrev add_hidden : Text → Map Text (Unit {0}) → Map Text (Unit {0})
add_hidden u set = if is_empty u then set else insert u tt set

unfoldable pub new_hidden_set : List Text → Map Text (Unit {0}) → Map Text (Unit {0})
new_hidden_set [] set = set
new_hidden_set (u ∷ rest) set = new_hidden_set rest (add_hidden (trim_space (to_lower u)) set)

abbrev pub add_user : Map Text (Unit {0}) → String → Map String (Unit {0}) → Map String (Unit {0})
add_user hidden u set = if has (text u) hidden then set else insert u tt set

unfoldable pub event_users :
    Map Text (Unit {0}) → Map String ℕ → Map String (Unit {0}) → Map String (Unit {0})
event_users hidden [] set = set
event_users hidden ((u, _) ∷ m) set = event_users hidden m (add_user hidden u set)

unfoldable pub solve_users :
    Map Text (Unit {0})
    → List String
    → Map SolveKey String
    → Map String (Unit {0})
    → Map String (Unit {0})
solve_users hidden ids [] set = set
solve_users hidden ids ((k, _) ∷ m) set =
    solve_users hidden ids m (if contains ids k.challenge then add_user hidden k.user set else set)

abbrev pub user_set : Map Text (Unit {0}) → Snapshot → List String → Map String (Unit {0})
user_set hidden snap ids =
    solve_users hidden ids snap.solved (event_users hidden snap.events_per_user [])

-- perUserSolves[u]: the challenge and the time of each solve, in the order of the map.
unfoldable pub solves_of : List String → String → Map SolveKey String → List (String × String)
solves_of ids u [] = []
solves_of ids u ((k, at) ∷ m) =
    let rest = solves_of ids u m in
    if contains ids k.challenge
    then if k.user == u then (k.challenge, at) ∷ rest else rest
    else rest

-- Go's < on strings.
abbrev pub string_lt : String → String → Bool
string_lt a b = not (string_le b a)

unfoldable pub latest_from : String → List (String × String) → String
latest_from latest [] = latest
latest_from latest ((_, at) ∷ rest) = latest_from (if string_lt latest at then at else latest) rest

abbrev pub or_last : String → String
or_last latest = if latest == "" then "9999" else latest

abbrev pub shown_name : String → Option String → String
shown_name u none = u
shown_name u (some n) = if n == "" then u else n

abbrev pub display_of : Snapshot → String → String
display_of snap u = shown_name u (lookup u snap.display_names)

abbrev pub string_or_empty : Option String → String
string_or_empty none = ""
string_or_empty (some s) = s

abbrev pub avatar_of : Snapshot → String → String
avatar_of snap u = Avatar.resolve (string_or_empty (lookup u snap.avatars)) u

abbrev pub or_zero : Option ℕ → ℕ
or_zero none = 0
or_zero (some n) = n

abbrev pub events_of : Snapshot → String → ℕ
events_of snap u = or_zero (lookup u snap.events_per_user)

abbrev pub entry_of : Grader → Store → Snapshot → List String → String → Entry
entry_of g s snap ids u =
    let solves = solves_of ids u snap.solved in
    record {
      user = u;
      display_name = display_of snap u;
      avatar = avatar_of snap u;
      solved = length solves;
      score = user_score g u (pos (length solves)) s;
      earliest = or_last (latest_from "" solves);
      events = events_of snap u;
      rank = 0;
    }

abbrev pub eqb_ℤ : ℤ → ℤ → Bool
eqb_ℤ a b = eqb (pos_part a + neg_part b) (pos_part b + neg_part a)

-- The less function of the stable sort.
abbrev pub ranks_before : Entry → Entry → Bool
ranks_before a b =
    if not (eqb_ℤ a.score b.score) then ltb_ℤ b.score a.score else string_lt a.earliest b.earliest

abbrev pub not_after : Entry → Entry → Bool
not_after a b = not (ranks_before b a)

unfoldable pub assign_ranks : ℕ → List Entry → List Entry
assign_ranks rank [] = []
assign_ranks rank (e ∷ rest) =
    (if ltb 0 e.solved then record e { rank = suc rank } else e)
    ∷ assign_ranks (if ltb 0 e.solved then suc rank else rank) rest

unfoldable pub compute_leaderboard :
    Map Text (Unit {0}) → Grader → Store → Snapshot → List String → List Entry
unfolding event_users solve_users solves_of latest_from assign_ranks
compute_leaderboard hidden g s snap ids = assign_ranks 0 (
    sort not_after
      (map (entry_of g s snap ids) (sort string_le (map (λ e. e.0) (user_set hidden snap ids)))))
