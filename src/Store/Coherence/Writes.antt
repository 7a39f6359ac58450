-- ===== src/Store/Coherence/Writes.antt =====
-- Every method that writes keeps memory and tables in agreement, whenever it reports no error.
use falco_ctf_app.Prelude.{
  ℕ, suc, String, Bool, true, false, ◌≡◌, refl, inl, inr, Option, none, some, arith, Bool-cases,
}
use falco_ctf_app.Prelude.Maps.{has}
use falco_ctf_app.Prelude.Results.{err}
use falco_ctf_app.Store.State.{
  solve_key, solve_eq, hint_eq, Memory, Tables, Store, Failure, Action, exec, update, staged, pure,
  ◌>>◌,
}
use falco_ctf_app.Store.Solves.{mark_solved, record_exfil}
use falco_ctf_app.Store.Reveals.{hint_key, step_key, record_hint_view, set_step_check}
use falco_ctf_app.Store.Profiles.{
  set_display_name, set_profile, reset_profile, write_profile, cache_profile,
}
use falco_ctf_app.Store.Rules.{reset_dirty, record_rule_fire}
use falco_ctf_app.Store.Coherence.Relation.{Mirrors}
use falco_ctf_app.Store.Coherence.SolveWrites.{
  solved-Mirrors, exfil-Mirrors, name-Mirrors, avatar-Mirrors, unprofiled-Mirrors,
}
use falco_ctf_app.Store.Coherence.GateWrites.{
  hint-Mirrors, step-Mirrors, unchecked-Mirrors, cleaned-Mirrors,
}

abbrev pub Coherent : Store → Type 0
Coherent s = Mirrors s.mem s.db

-- A method that leaves the store alone on an error, and keeps the agreement otherwise.
pub record Atomic {A : Type 0} (m : Action A) : Type 0 where
  pub kept :
      (s : Store) (e : Failure) → (m s).0 ≡ err e → ((m s).1.mem ≡ s.mem) × ((m s).1.db ≡ s.db)
  pub coherent : (s : Store) → Coherent s → Coherent (m s).1

-- A statement and the assignment after it.
commit-Atomic :
    (f : Tables → Tables) (g : Memory → Memory)
    → ((m : Memory) (t : Tables) → Mirrors m t → Mirrors (g m) (f t))
    → Atomic (exec f >> update g)
commit-Atomic f g keep = record {
  kept = λ s e h. ground arith;
  coherent = λ s h. elim (Bool-cases (s.faulty s.statements)) [
    | inl bad ↦ rw bad h
    | inr good ↦ rw good (keep s.mem s.db h)
  ];
}

commit_pure-Atomic :
    {A : Type 0} (a : A) (f : Tables → Tables) (g : Memory → Memory)
    → ((m : Memory) (t : Tables) → Mirrors m t → Mirrors (g m) (f t))
    → Atomic (exec f >> (update g >> pure a))
commit_pure-Atomic a f g keep = record {
  kept = λ s e h. ground arith;
  coherent = λ s h. elim (Bool-cases (s.faulty s.statements)) [
    | inl bad ↦ rw bad h
    | inr good ↦ rw good (keep s.mem s.db h)
  ];
}

staged-Atomic : {A : Type 0} (m : Action A) → Atomic m → Atomic (staged >> m)
staged-Atomic m a = record {
  kept = λ s e h. elim (Bool-cases (s.faulty s.statements)) [
    | inl bad ↦ rw bad (refl, refl)
    | inr good ↦ rw good (a.kept (record s { statements = suc s.statements }) e (rw good at h))
  ];
  coherent = λ s h. elim (Bool-cases (s.faulty s.statements)) [
    | inl bad ↦ rw bad h
    | inr good ↦ rw good (a.coherent (record s { statements = suc s.statements }) h)
  ];
}

pub mark_solved-Atomic : (u c at : String) → Atomic (mark_solved u c at)
unfolding mark_solved
mark_solved-Atomic u c at = record {
  kept = λ s e h. ground arith;
  coherent = λ s h. elim (Bool-cases (has (solve_key u c) s.mem.solved)) [
    | inl old ↦ rw old h
    | inr new ↦ elim (Bool-cases (s.faulty s.statements)) [
      | inl bad ↦ rw (new, bad) h
      | inr good ↦ rw (new, good) (solved-Mirrors h (solve_key u c) at new)
    ]
  ];
}

pub record_hint_view-Atomic :
    (u c : String) (i : ℕ) (at : String) → Atomic (record_hint_view u c i at)
unfolding record_hint_view
record_hint_view-Atomic u c i at = record {
  kept = λ s e h. ground arith;
  coherent = λ s h. elim (Bool-cases (has (hint_key u c i) s.mem.hint_views)) [
    | inl old ↦ rw old h
    | inr new ↦ elim (Bool-cases (s.faulty s.statements)) [
      | inl bad ↦ rw (new, bad) h
      | inr good ↦ rw (new, good) (hint-Mirrors h (hint_key u c i) at new)
    ]
  ];
}

pub record_exfil-Atomic : (u c flag at : String) → Atomic (record_exfil u c flag at)
unfolding record_exfil
record_exfil-Atomic u c flag at = commit-Atomic _ _ λ m t h. exfil-Mirrors h (solve_key u c) _

pub set_display_name-Atomic : (u name at : String) → Atomic (set_display_name u name at)
unfolding set_display_name
set_display_name-Atomic u name at = commit-Atomic _ _ λ m t h. name-Mirrors h u _

pub set_step_check-Atomic :
    (u c : String) (i : ℕ) (b : Bool) (at : String) → Atomic (set_step_check u c i b at)
unfolding set_step_check
set_step_check-Atomic u c i true at = commit-Atomic _ _ λ m t h. step-Mirrors h (step_key u c i) at
set_step_check-Atomic u c i false at =
    commit-Atomic _ _ λ m t h. unchecked-Mirrors h (step_key u c i)

pub reset_profile-Atomic : (u : String) → Atomic (reset_profile u)
unfolding reset_profile
reset_profile-Atomic u =
    staged-Atomic _
      (staged-Atomic _ (staged-Atomic _ (commit-Atomic _ _ λ m t h. unprofiled-Mirrors h u)))

pub reset_dirty-Atomic : (u c : String) → Atomic (reset_dirty u c)
unfolding reset_dirty
reset_dirty-Atomic u c =
    staged-Atomic _
      (staged-Atomic _ (staged-Atomic _ (commit-Atomic _ _ λ m t h. cleaned-Mirrors h u c)))

pure-Atomic : {A : Type 0} (a : A) → Atomic (pure a)
pure-Atomic a = record { kept = λ s e h. cc; coherent = λ s h. h }

skip-Atomic : {A : Type 0} (m : Action A) → Atomic m → Atomic (pure tt >> m)
skip-Atomic m a = a

pub set_profile-Atomic :
    (u : String) (name av : Option String) (at : String) → Atomic (set_profile u name av at)
unfolding set_profile
set_profile-Atomic u none none at = pure-Atomic tt
set_profile-Atomic u (some n) none at = staged-Atomic _ (
    staged-Atomic _ (
      commit-Atomic (write_profile u (some n) none at) (cache_profile u (some n) none)
        λ m t h. name-Mirrors h u (record { value = n; set_at = at })))
set_profile-Atomic u none (some a) at = staged-Atomic _ (
    staged-Atomic _ (
      commit-Atomic (write_profile u none (some a) at) (cache_profile u none (some a))
        λ m t h. avatar-Mirrors h u (record { value = a; set_at = at })))
set_profile-Atomic u (some n) (some a) at = staged-Atomic _ (
    staged-Atomic _ (
      staged-Atomic _ (
        commit-Atomic (write_profile u (some n) (some a) at) (cache_profile u (some n) (some a))
          λ m t h.
            avatar-Mirrors (name-Mirrors h u (record { value = n; set_at = at })) u
              (record { value = a; set_at = at }))))

pub record_rule_fire-Atomic : (u r : String) (at : ℕ) → Atomic (record_rule_fire u r at)
unfolding record_rule_fire
record_rule_fire-Atomic u r at = record {
  kept = λ s e h. ground arith;
  coherent = λ s h. record {
    solved = h.solved;
    exfil = h.exfil;
    display_names = h.display_names;
    avatars = h.avatars;
    hint_views = h.hint_views;
    step_checks = h.step_checks;
    dirty = h.dirty;
    expected = h.expected;
  };
}
