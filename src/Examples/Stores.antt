-- ===== src/Examples/Stores.antt =====
-- The store of internal/store/store.go at concrete histories.
use falco_ctf_app.Prelude.{ℕ, Bool, true, false, ◌≡◌, refl, List, [], ◌∷◌, string_eq}
use falco_ctf_app.Prelude.Maps.{lookup, insert}
use falco_ctf_app.Prelude.Results.{ok}
use falco_ctf_app.Store.State.{Tables, Store, sqlite, solve_eq}
use falco_ctf_app.Store.Solves.{mark_solved, record_exfil}
use falco_ctf_app.Store.Rules.{mark_dirty, record_expected_rule_fire}
use falco_ctf_app.Store.Lifecycle.{empty_memory, open_store}
use falco_ctf_app.Store.Coherence.Writes.{Coherent}
use falco_ctf_app.Store.Coherence.Histories.{
  Write, solve, taint, receipt, expect, perform, run, NoErrors, run-Coherent, perform_err-unchanged,
}
use falco_ctf_app.Store.Coherence.FailClosed.{IsKnown, run-Known}
use falco_ctf_app.Store.Coherence.PrimaryKeys.{Keyed}
use falco_ctf_app.Store.Coherence.Restart.{SameAnswers, open_store-total, restart-SameAnswers}

abbrev pub empty_tables : Tables
empty_tables = record {
  solved = [];
  exfil = [];
  display_names = [];
  avatars = [];
  hint_views = [];
  step_checks = [];
  evade_dirty = [];
  expected_rule_fire = [];
}

abbrev pub no_faults : ℕ → Bool
no_faults n = false

abbrev pub fresh : Store
fresh = record { mem = empty_memory; db = empty_tables; statements = 0; faulty = no_faults }

-- Every statement fails.
abbrev broken : Store
broken = record fresh { faulty = λ _. true }

abbrev history : List Write
history =
    receipt "user01" "evade-01" "flag{a}" "t1"
    ∷ expect "user01" "evade-01" "Exfil" "t2"
    ∷ solve "user01" "evade-01" "t3"
    ∷ taint "user02" "evade-01" "Shell" "t4"
    ∷ []

fresh-Coherent : Coherent fresh
unfolding lookup
fresh-Coherent = record {
  solved = λ k. refl;
  exfil = λ k. refl;
  display_names = λ u. refl;
  avatars = λ u. refl;
  hint_views = λ k. refl;
  step_checks = λ k. refl;
  dirty = λ u c r. refl;
  expected = λ u c r. refl;
}

fresh-Keyed : Keyed fresh.db
fresh-Keyed = record { solved = tt; exfil = tt; display_names = tt; avatars = tt }

fresh-IsKnown : IsKnown fresh
unfolding lookup
fresh-IsKnown = record { solves = λ k p. p; taints = λ u c r p. p }

history-NoErrors : NoErrors history fresh
unfolding perform record_exfil record_expected_rule_fire mark_solved mark_dirty lookup insert
history-NoErrors = (refl, (refl, (refl, (refl, tt))))

run-Coherent_example : Coherent (run history fresh)
run-Coherent_example = run-Coherent history fresh fresh-Coherent history-NoErrors

perform_err-unchanged_example :
    ((perform (solve "user01" "evade-01" "t3") broken).1.mem ≡ broken.mem)
    × ((perform (solve "user01" "evade-01" "t3") broken).1.db ≡ broken.db)
unfolding perform mark_solved lookup
perform_err-unchanged_example =
    perform_err-unchanged (solve "user01" "evade-01" "t3") broken sqlite refl refl

run-Known_example : IsKnown (run history fresh)
run-Known_example = run-Known history fresh fresh-IsKnown

abbrev reopened : Store
reopened = (open_store-total (run history fresh).db no_faults (λ n. refl)).0

reopened-opened : open_store (run history fresh).db no_faults ≡ ok reopened
reopened-opened = (open_store-total (run history fresh).db no_faults (λ n. refl)).1

restart-SameAnswers_example : SameAnswers (run history fresh) reopened
restart-SameAnswers_example =
    restart-SameAnswers history fresh no_faults fresh-Keyed fresh-Coherent history-NoErrors
      reopened-opened
