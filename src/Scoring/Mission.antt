-- ===== src/Scoring/Mission.antt =====
-- The mission that a participant is on: CurrentMission and taintTarget of
-- internal/scoreboard/scoring/scoring.go.
use falco_ctf_app.Prelude.{
  ◌≢◌, String, Bool, true, false, ◌≡◌, refl, ap, ◌⊎◌, inl, inr, some, List, [], ◌∷◌, ◌++◌, All,
  arith, ◌==◌, string_eq, contains, &&-eq-true, Bool-cases, Option-cases,
}
use falco_ctf_app.Prelude.Maps.{lookup, has}
use falco_ctf_app.Catalog.{Challenge, Catalog}
use falco_ctf_app.Store.State.{solve_eq, Store}
use falco_ctf_app.Store.Solves.{is_solved}
use falco_ctf_app.Scoring.Grader.{
  Grader, first_unsolved, current_mission, order_of, taints, taint_target,
}

-- An id of the order that is no longer a challenge, or one that is solved, is passed over.
pub Passed : Catalog → (String → Bool) → String → Type 0
Passed cat solved id = has id cat ≡ true → solved id ≡ true

Passed-done :
    (cat : Catalog) (solved : String → Bool) (id : String) → solved id ≡ true → Passed cat solved id
unfolding Passed
Passed-done cat solved id h = λ _. h

Passed-gone :
    (cat : Catalog) (solved : String → Bool) (id : String)
    → has id cat ≡ false
    → Passed cat solved id
unfolding Passed
Passed-gone cat solved id h = λ k. cc

-- The missions before `m` are passed, and `m` is not solved.
pub record IsFirst (order : List String) (cat : Catalog) (solved : String → Bool) (m : String)
    : Type 0 where
  pub before : List String
  pub after : List String
  pub split : order ≡ before ++ m ∷ after
  pub passed : All (Passed cat solved) before
  pub known : has m cat ≡ true
  pub unsolved : solved m ≡ false

-- The loop of CurrentMission returns the first id of the order that is in the catalog and not
-- solved, or "" when every id of the order is solved or outside the catalog.
pub first_unsolved_lem :
    (order : List String) (cat : Catalog) (solved : String → Bool)
    → IsFirst order cat solved (first_unsolved order cat solved)
      ⊎ ((first_unsolved order cat solved ≡ "") × All (Passed cat solved) order)
unfolding first_unsolved
first_unsolved_lem [] cat solved = inr (refl, tt)
first_unsolved_lem (id ∷ order) cat solved = elim (Bool-cases (has id cat)) [
  | inl known ↦ elim (Bool-cases (solved id)) [
    | inl done ↦
        rw (known, done)
          (later (Passed-done cat solved id done) (first_unsolved_lem order cat solved))
    | inr todo ↦
        rw (known, todo)
          (inl (record {
            before = [];
            after = order;
            split = refl;
            passed = tt;
            known = known;
            unsolved = todo;
          }))
  ]
  | inr gone ↦
      rw gone (later (Passed-gone cat solved id gone) (first_unsolved_lem order cat solved))
]
  where
    later :
        Passed cat solved id
        → IsFirst order cat solved (first_unsolved order cat solved)
          ⊎ ((first_unsolved order cat solved ≡ "") × All (Passed cat solved) order)
        → IsFirst (id ∷ order) cat solved (first_unsolved order cat solved)
          ⊎ ((first_unsolved order cat solved ≡ "") × All (Passed cat solved) (id ∷ order))
    later p (inl f) = inl (record {
      before = id ∷ f.before;
      after = f.after;
      split = ap (◌∷◌ id) f.split;
      passed = (p, f.passed);
      known = f.known;
      unsolved = f.unsolved;
    })
    later p (inr (e, all)) = inr (e, (p, all))

-- A taint falls on the current mission alone: an evade challenge that forbids the rule.
pub record IsTaintTarget (g : Grader) (user rule : String) (s : Store) (c : String) : Type 0 where
  pub current : current_mission g user s ≡ c
  pub challenge : Challenge
  pub found : lookup c g.cat ≡ some challenge
  pub evade : challenge.type ≡ "evade"
  pub forbidden : contains challenge.forbidden_rules rule ≡ true
  pub unsolved : is_solved user c s ≡ false

unsolved_of_current :
    (g : Grader) (user : String) (s : Store)
    → current_mission g user s ≢ ""
    → is_solved user (current_mission g user s) s ≡ false
unfolding current_mission
unsolved_of_current g user s ne =
    elim (first_unsolved_lem (order_of g.order g.cat) g.cat (λ id. is_solved user id s)) [
      | inl f ↦ f.unsolved
      | inr (e, all) ↦ absurd (ne e)
    ]

-- A mission that a rule taints is the user's current one, an evade challenge of the catalog that
-- forbids the rule, and not solved by the user.
pub taint_target_lem :
    (g : Grader) (user rule : String) (s : Store) {c : String}
    → taint_target g user rule s ≡ some c
    → IsTaintTarget g user rule s c
unfolding taint_target
taint_target_lem g user rule s {c} h = elim (Bool-cases (current_mission g user s == "")) [
  | inl idle ↦ absurd (ground arith)
  | inr busy ↦ elim (Option-cases (lookup (current_mission g user s) g.cat)) [
    | inl gone ↦ absurd (ground arith)
    | inr (ch, found) ↦ elim (Bool-cases (taints rule ch)) [
      | inr harmless ↦ absurd (ground arith)
      | inl hit ↦
          let same : current_mission g user s ≡ c = ground arith in
          let both = &&-eq-true (ch.type == "evade") (contains ch.forbidden_rules rule) hit in
          record {
            current = same;
            challenge = ch;
            found = rw same at found;
            evade = (string_eq.beq_iff ch.type "evade").0 both.0;
            forbidden = both.1;
            unsolved = rw same at (
                unsolved_of_current g user s
                  (λ e. absurd (ground (arith, string_eq.beq_iff (current_mission g user s) ""))));
          }
    ]
  ]
]
