-- ===== src/Store/Coherence/Histories.antt =====
-- Histories of writes: any sequence of the calls that write, with any of their statements failing.
use falco_ctf_app.Prelude.{
  ℕ, suc, String, Bool, true, false, ◌≡◌, refl, inl, inr, Option, List, [], ◌∷◌, arith, string_eq,
  Bool-cases,
}
use falco_ctf_app.Prelude.Maps.{lookup}
use falco_ctf_app.Prelude.Results.{Result, ok, err}
use falco_ctf_app.Store.State.{solve_eq, rule_eq, Memory, Tables, Store, Failure, Action}
use falco_ctf_app.Store.Solves.{mark_solved, record_exfil}
use falco_ctf_app.Store.Reveals.{record_hint_view, set_step_check}
use falco_ctf_app.Store.Profiles.{set_display_name, set_profile, reset_profile}
use falco_ctf_app.Store.Rules.{mark_dirty, record_expected_rule_fire, reset_dirty, record_rule_fire}
use falco_ctf_app.Store.Lifecycle.{run_all, reset_statements, reset, cleared}
use falco_ctf_app.Store.Coherence.Relation.{Mirrors}
use falco_ctf_app.Store.Coherence.GateWrites.{dirty-Mirrors, expected-Mirrors}
use falco_ctf_app.Store.Coherence.Writes.{
  Coherent, Atomic, mark_solved-Atomic, record_exfil-Atomic, record_hint_view-Atomic,
  set_step_check-Atomic, set_display_name-Atomic, set_profile-Atomic, reset_profile-Atomic,
  reset_dirty-Atomic, record_rule_fire-Atomic,
}

-- A call of a method of `Store` that writes.
pub data Write : Type 0 where
  solve : String → String → String → Write
  receipt : String → String → String → String → Write
  reveal : String → String → ℕ → String → Write
  check : String → String → ℕ → Bool → String → Write
  rename : String → String → String → Write
  profile : String → Option String → Option String → String → Write
  unprofile : String → Write
  fire : String → String → ℕ → Write
  taint : String → String → String → String → Write
  expect : String → String → String → String → Write
  clean : String → String → Write
  clear : Write

-- The call without its value.
abbrev forget : {A : Type 0} → Result Failure A → Result Failure (Unit {0})
forget (ok a) = ok tt
forget (err e) = err e

abbrev drop_value : {A : Type 0} → Result Failure A × Store → Result Failure (Unit {0}) × Store
drop_value r = (forget r.0, r.1)

unfoldable pub perform : Write → Action (Unit {0})
perform (solve u c at) s = drop_value (mark_solved u c at s)
perform (receipt u c flag at) s = record_exfil u c flag at s
perform (reveal u c i at) s = drop_value (record_hint_view u c i at s)
perform (check u c i b at) s = set_step_check u c i b at s
perform (rename u n at) s = set_display_name u n at s
perform (profile u n a at) s = set_profile u n a at s
perform (unprofile u) s = reset_profile u s
perform (fire u r at) s = drop_value (record_rule_fire u r at s)
perform (taint u c r at) s = mark_dirty u c r at s
perform (expect u c r at) s = record_expected_rule_fire u c r at s
perform (clean u c) s = reset_dirty u c s
perform clear s = drop_value (reset s)

drop_value-Atomic : {A : Type 0} (m : Action A) → Atomic m → Atomic (λ s. drop_value (m s))
drop_value-Atomic m a = record {
  kept = λ s e h. a.kept s e (forget-err (m s).0 e h);
  coherent = a.coherent;
}
  where
    forget-err : {A : Type 0} (r : Result Failure A) (e : Failure) → forget r ≡ err e → r ≡ err e
    forget-err (ok a) e h = cc
    forget-err (err f) e h = cc

-- The three calls that can leave memory and tables apart.
abbrev pub is_atomic : Write → Bool
is_atomic (taint _ _ _ _) = false
is_atomic (expect _ _ _ _) = false
is_atomic clear = false
is_atomic _ = true

perform-Atomic : (w : Write) → is_atomic w ≡ true → Atomic (perform w)
unfolding perform
perform-Atomic (solve u c at) h = drop_value-Atomic _ (mark_solved-Atomic u c at)
perform-Atomic (receipt u c flag at) h = record_exfil-Atomic u c flag at
perform-Atomic (reveal u c i at) h = drop_value-Atomic _ (record_hint_view-Atomic u c i at)
perform-Atomic (check u c i b at) h = set_step_check-Atomic u c i b at
perform-Atomic (rename u n at) h = set_display_name-Atomic u n at
perform-Atomic (profile u n a at) h = set_profile-Atomic u n a at
perform-Atomic (unprofile u) h = reset_profile-Atomic u
perform-Atomic (fire u r at) h = drop_value-Atomic _ (record_rule_fire-Atomic u r at)
perform-Atomic (taint u c r at) h = cc
perform-Atomic (expect u c r at) h = cc
perform-Atomic (clean u c) h = reset_dirty-Atomic u c
perform-Atomic clear h = cc

cleared-Mirrors :
    {m : Memory} {t : Tables}
    → Mirrors m t
    → Mirrors (cleared m) (record t {
      solved = [];
      exfil = [];
      hint_views = [];
      step_checks = [];
      evade_dirty = [];
      expected_rule_fire = [];
    })
unfolding lookup
cleared-Mirrors h = record {
  solved = λ k. refl;
  exfil = λ k. refl;
  display_names = h.display_names;
  avatars = h.avatars;
  hint_views = λ k. refl;
  step_checks = λ k. refl;
  dirty = λ u c r. refl;
  expected = λ u c r. refl;
}

taint-Coherent :
    (u c r at : String) (s : Store)
    → Coherent s
    → (mark_dirty u c r at s).0 ≡ ok tt
    → Coherent (mark_dirty u c r at s).1
unfolding mark_dirty
taint-Coherent u c r at s h done = elim (Bool-cases (s.faulty s.statements)) [
  | inl bad ↦ absurd (ground arith)
  | inr good ↦ rw good (dirty-Mirrors h u c r at)
]

expect-Coherent :
    (u c r at : String) (s : Store)
    → Coherent s
    → (record_expected_rule_fire u c r at s).0 ≡ ok tt
    → Coherent (record_expected_rule_fire u c r at s).1
unfolding record_expected_rule_fire
expect-Coherent u c r at s h done = elim (Bool-cases (s.faulty s.statements)) [
  | inl bad ↦ absurd (ground arith)
  | inr good ↦ rw good (expected-Mirrors h u c r at)
]

abbrev pub wiped : Tables → Tables
wiped t = record t {
  solved = [];
  exfil = [];
  hint_views = [];
  step_checks = [];
  evade_dirty = [];
  expected_rule_fire = [];
}

abbrev apply_all : List (String × (Tables → Tables)) → Tables → Tables
apply_all [] t = t
apply_all ((_, f) ∷ fs) t = apply_all fs (f t)

run_all-ok :
    (fs : List (String × (Tables → Tables))) (s : Store)
    → (run_all fs s).0 ≡ ok tt
    → ((run_all fs s).1.mem ≡ s.mem) × ((run_all fs s).1.db ≡ apply_all fs s.db)
unfolding run_all
run_all-ok [] s h = (refl, refl)
run_all-ok ((stage, f) ∷ fs) s h = elim (Bool-cases (s.faulty s.statements)) [
  | inl bad ↦ absurd (ground arith)
  | inr good ↦
      rw good
        (run_all-ok fs (record s { db = f s.db; statements = suc s.statements }) (rw good at h))
]

pub reset-wiped :
    (s : Store) {n : ℕ}
    → (reset s).0 ≡ ok n
    → ((reset s).1.mem ≡ cleared s.mem) × ((reset s).1.db ≡ wiped s.db)
reset-wiped s h = unfold reset in ground (arith, run_all-ok reset_statements s)

clear-Coherent : (s : Store) {n : ℕ} → Coherent s → (reset s).0 ≡ ok n → Coherent (reset s).1
clear-Coherent s h done = let (mem, db) = reset-wiped s done in rw (mem, db) (cleared-Mirrors h)

forget-ok : {A : Type 0} (r : Result Failure A) → forget r ≡ ok tt → (a : A) × (r ≡ ok a)
forget-ok (ok a) h = (a, refl)
forget-ok (err e) h = cc

-- A call that reports no error keeps memory and tables in agreement.
pub perform-Coherent :
    (w : Write) (s : Store) → Coherent s → (perform w s).0 ≡ ok tt → Coherent (perform w s).1
unfolding perform
perform-Coherent (taint u c r at) s h done = taint-Coherent u c r at s h done
perform-Coherent (expect u c r at) s h done = expect-Coherent u c r at s h done
perform-Coherent clear s h done = clear-Coherent s h (forget-ok (reset s).0 done).1
perform-Coherent (solve u c at) s h done = (mark_solved-Atomic u c at).coherent s h
perform-Coherent w s h done = (perform-Atomic w refl).coherent s h

unfoldable pub run : List Write → Store → Store
run [] s = s
run (w ∷ ws) s = run ws (perform w s).1

-- No call of the history reports an error.
abbrev pub NoErrors : List Write → Store → Type 0
NoErrors [] s = Unit
NoErrors (w ∷ ws) s = ((perform w s).0 ≡ ok tt) × NoErrors ws (perform w s).1

-- If memory and tables agree, they agree after any history in which no call reports an error.
pub run-Coherent : (ws : List Write) (s : Store) → Coherent s → NoErrors ws s → Coherent (run ws s)
unfolding run
run-Coherent [] s h _ = h
run-Coherent (w ∷ ws) s h (done, rest) =
    run-Coherent ws (perform w s).1 (perform-Coherent w s h done) rest

-- A call that reports an error, other than MarkDirty, RecordExpectedRuleFire and Reset, has
-- changed neither memory nor a table.
pub perform_err-unchanged :
    (w : Write) (s : Store) (e : Failure)
    → is_atomic w ≡ true
    → (perform w s).0 ≡ err e
    → ((perform w s).1.mem ≡ s.mem) × ((perform w s).1.db ≡ s.db)
perform_err-unchanged w s e a h = (perform-Atomic w a).kept s e h
