-- ===== src/Examples/Grades.antt =====
-- The grader of internal/scoreboard/scoring with one evade mission.
use falco_ctf_app.Prelude.{
  true, false, ◌≡◌, ◌↔◌, ◌-◌, ◌*◌, refl, inl, inr, none, some, List, [], ◌∷◌, All, string_eq, ◌==◌,
  Bool-cases, arith, not,
}
use falco_ctf_app.Prelude.Maps.{lookup, insert}
use falco_ctf_app.Prelude.Int.{pos, pos_part}
use falco_ctf_app.Prelude.Sort.{sort, insert_sorted}
use falco_ctf_app.Prelude.Results.{ok}
use falco_ctf_app.Identity.{codes, valid_seat, match_seat, match_middle}
use falco_ctf_app.Identity.Grammar.{IsSeat, valid_seat_iff}
use falco_ctf_app.Catalog.{Catalog, Challenge, IsLoaded, ids}
use falco_ctf_app.Store.State.{Store, solve_key, solve_eq}
use falco_ctf_app.Store.Solves.{mark_solved, is_solved, has_exfil}
use falco_ctf_app.Store.Rules.{dirty_rules, has_expected_rule_fire}
use falco_ctf_app.Store.Lifecycle.{empty_memory}
use falco_ctf_app.Scoring.Points.{default_points_policy, compute_score}
use falco_ctf_app.Scoring.Points.Exact.{award, total, compute_score-exact}
use falco_ctf_app.Scoring.Grader.{
  Grader, new, collect_rules, first_unsolved, current_mission, taint_target, on_rule_fire,
}
use falco_ctf_app.Scoring.Submit.{EvadeOutcome, solved, evaluate_clean, submit_evade}
use falco_ctf_app.Scoring.Accept.{IsAccepted, submit_evade_sound, submit_evade_complete}
use falco_ctf_app.Scoring.Sweep.{sweep}
use falco_ctf_app.Scoring.Swept.{IsSwept, sweep-IsSwept}
use falco_ctf_app.Scoring.Taint.NeverSolved.{Call, evade, receipt, calls}
use falco_ctf_app.Scoring.Taint.Fires.{tainted_sets, dirty-on_rule_fire, fired_mission-unsolved}
use falco_ctf_app.Examples.Stores.{fresh}

abbrev pub quiet_shell : Challenge
quiet_shell = record {
  id = "evade-01";
  type = "evade";
  expected_rules = "Exfil" ∷ [];
  forbidden_rules = "Shell" ∷ [];
  expected_flag = "flag{a}";
  require_exfil = true;
  require_expected_rule_fire = true;
  detect = none;
  no_hint_penalty = false;
  dir = "evade-01";
}

abbrev pub catalog : Catalog
catalog = ("evade-01", quiet_shell) ∷ []

abbrev pub grader : Grader
grader = new catalog

pub catalog-IsLoaded : IsLoaded grader.cat
unfolding lookup new
catalog-IsLoaded = record {
  own_id = λ cid {ch} h. elim (Bool-cases ("evade-01" == cid)) [
    | inl same ↦ ground (arith, (string_eq.beq_iff "evade-01" cid).0 same, rw same at h)
    | inr other ↦ absurd (ground (arith, rw other at h))
  ];
}

user01-seat : valid_seat "user01" ≡ true
unfolding valid_seat match_seat match_middle
user01-seat = refl

pub fresh-target : taint_target grader "user01" "Shell" fresh ≡ some "evade-01"
unfolding taint_target current_mission first_unsolved is_solved lookup new collect_rules ids sort
    insert_sorted
fresh-target = refl

abbrev afterwards : List Call
afterwards =
    receipt "user01" "evade-01" "flag{a}" "t1" ∷ evade "user01" "evade-01" "flag{a}" "t2" ∷ []

fired_mission-unsolved_example :
    is_solved "user01" "evade-01"
      (calls grader afterwards (on_rule_fire grader "user01" "Shell" "t" "t" "t" fresh).1)
    ≡ false
fired_mission-unsolved_example =
    fired_mission-unsolved grader "user01" "Shell" "t" "t" "t" fresh afterwards catalog-IsLoaded
      user01-seat fresh-target

dirty-on_rule_fire_example :
    (on_rule_fire grader "user01" "Shell" "t" "t" "t" fresh).1.mem.dirty_rules
    ≡ tainted_sets
        (taint_target grader "user01" "Shell" fresh)
        "user01"
        "Shell"
        fresh.mem.dirty_rules
dirty-on_rule_fire_example =
    dirty-on_rule_fire grader "user01" "Shell" "t" "t" "t" fresh user01-seat

-- The store after the forbidden rule has fired.
abbrev fired : Store
fired = (on_rule_fire grader "user01" "Shell" "t" "t" "t" fresh).1

catalog-has : lookup "evade-01" grader.cat ≡ some quiet_shell
unfolding lookup new
catalog-has = refl

-- The store of a participant who has met every gate of the mission.
abbrev ready : Store
ready = record fresh {
  mem = record empty_memory {
    exfil = (solve_key "user01" "evade-01", "flag{a}") ∷ [];
    expected_rule_fire = (solve_key "user01" "evade-01", ("Exfil", tt) ∷ []) ∷ [];
  };
}

abbrev first_solve : EvadeOutcome
first_solve = record { status = solved; offending = []; newly = true }

submit_evade_sound_example : IsAccepted grader "user01" "evade-01" "flag{a}" ready
unfolding submit_evade evaluate_clean valid_seat match_seat match_middle lookup new mark_solved
    has_exfil has_expected_rule_fire dirty_rules insert sort insert_sorted
submit_evade_sound_example =
    submit_evade_sound grader "user01" "evade-01" "flag{a}" "t" ready {out = first_solve} refl refl

ready-IsAccepted : IsAccepted grader "user01" "evade-01" "flag{a}" ready
unfolding lookup new has_exfil has_expected_rule_fire dirty_rules sort insert_sorted
ready-IsAccepted = record {
  challenge = quiet_shell;
  seat = user01-seat;
  found = catalog-has;
  evade = refl;
  right_flag = refl;
  clean = record { untainted = refl; fired = λ _. refl; sent = λ _. refl };
}

submit_evade_complete_example :
    ((submit_evade grader "user01" "evade-01" "flag{a}" "t" ready).0
      ≡ ok (record {
        status = solved;
        offending = [];
        newly = not (is_solved "user01" "evade-01" ready);
      }))
    × (is_solved "user01" "evade-01" (submit_evade grader "user01" "evade-01" "flag{a}" "t" ready).1
        ≡ true)
submit_evade_complete_example =
    submit_evade_complete grader "user01" "evade-01" "flag{a}" "t" ready catalog-IsLoaded
      ready-IsAccepted refl

compute_score-exact_example :
    compute_score default_points_policy (pos 3) (pos 1 ∷ pos 4 ∷ [])
    ≡ pos (
        pos_part (pos 3) * award default_points_policy
        - total default_points_policy (pos 1 ∷ pos 4 ∷ []))
compute_score-exact_example =
    compute_score-exact default_points_policy (pos 3) (pos 1 ∷ pos 4 ∷ []) (omega arith)
      (omega arith)

valid_seat_iff_example : (valid_seat "user-01" ≡ true) ↔ IsSeat (codes "user-01")
valid_seat_iff_example = valid_seat_iff "user-01"

sweep-IsSwept_example : All (IsSwept grader ready) (sweep grader (λ r. "t") ready).0.0
sweep-IsSwept_example = sweep-IsSwept grader (λ r. "t") ready
