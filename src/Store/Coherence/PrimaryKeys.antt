-- ===== src/Store/Coherence/PrimaryKeys.antt =====
-- The primary keys of the tables: no write makes a key stand twice.
use falco_ctf_app.Prelude.{
  suc, String, true, ◌≡◌, refl, ◌⊎◌, inl, inr, Option, none, some, List, [], ◌∷◌, All, arith, Eq,
  string_eq, Bool-cases,
}
use falco_ctf_app.Prelude.Maps.{Map, delete, Distinct, insert-Distinct, delete-Distinct}
use falco_ctf_app.Store.State.{
  solve_key, solve_eq, ProfileRow, Memory, Tables, Store, Action, exec, staged, update, ◌>>◌,
  insert_or_ignore,
}
use falco_ctf_app.Store.Solves.{mark_solved, record_exfil}
use falco_ctf_app.Store.Reveals.{record_hint_view, set_step_check}
use falco_ctf_app.Store.Profiles.{
  set_display_name, set_profile, reset_profile, put_row, write_profile, cache_profile,
}
use falco_ctf_app.Store.Rules.{
  delete_mission, mark_dirty, record_expected_rule_fire, reset_dirty, record_rule_fire,
}
use falco_ctf_app.Store.Lifecycle.{reset_statements, reset}
use falco_ctf_app.Store.Coherence.Histories.{
  Write, solve, receipt, check, rename, profile, unprofile, clean, clear, perform, run,
}
use falco_ctf_app.Store.Coherence.FailClosed.{Keeps, run_all-keeps, reset-cases}

-- The tables whose rows carry a value.
pub record Keyed (t : Tables) : Type 0 where
  pub solved : Distinct t.solved
  pub exfil : Distinct t.exfil
  pub display_names : Distinct t.display_names
  pub avatars : Distinct t.avatars

insert_or_ignore-Distinct :
    {K V : Type 0} ⦃e : Eq K⦄ (k : K) (v : V) (m : Map K V)
    → Distinct m
    → Distinct (insert_or_ignore k v m)
insert_or_ignore-Distinct k v m d = ground (arith, insert-Distinct k v m d)

solve-Keyed : (u c at : String) (s : Store) → Keyed s.db → Keyed (mark_solved u c at s).1.db
unfolding mark_solved
solve-Keyed u c at s d =
    ground (arith, insert_or_ignore-Distinct (solve_key u c) at s.db.solved d.solved)

KeyedTables : Memory → Tables → Type 0
KeyedTables m t = Keyed t

reset_statements-Keyed : All (λ e. Keeps KeyedTables e.1) reset_statements
unfolding KeyedTables
reset_statements-Keyed = (
  λ m t d. record {
    solved = tt;
    exfil = d.exfil;
    display_names = d.display_names;
    avatars = d.avatars;
  },
  (
    λ m t d. record {
      solved = d.solved;
      exfil = tt;
      display_names = d.display_names;
      avatars = d.avatars;
    },
    (
      keeps_rest (λ t. record t { hint_views = [] }) (λ t. (refl, refl, refl, refl)),
      (
        keeps_rest (λ t. record t { step_checks = [] }) (λ t. (refl, refl, refl, refl)),
        (
          keeps_rest (λ t. record t { evade_dirty = [] }) (λ t. (refl, refl, refl, refl)),
          (
            keeps_rest (λ t. record t { expected_rule_fire = [] }) (λ t. (refl, refl, refl, refl)),
            tt,
          ),
        ),
      ),
    ),
  ),
)
  where
    keeps_rest :
        (f : Tables → Tables)
        → ((t : Tables)
            → ((f t).solved ≡ t.solved)
              × ((f t).exfil ≡ t.exfil)
              × ((f t).display_names ≡ t.display_names)
              × ((f t).avatars ≡ t.avatars))
        → Keeps KeyedTables f
    keeps_rest f same m t d =
        let (a, b, c, e) = same t in
        record {
          solved = rw a d.solved;
          exfil = rw b d.exfil;
          display_names = rw c d.display_names;
          avatars = rw e d.avatars;
        }

reset-Keyed : (s : Store) → Keyed s.db → Keyed (reset s).1.db
unfolding KeyedTables
reset-Keyed s d = elim (reset-cases s) [
  | inl (mem, db) ↦
      rw db
        (record { solved = tt; exfil = tt; display_names = d.display_names; avatars = d.avatars })
  | inr stopped ↦ rw stopped (run_all-keeps KeyedTables reset_statements reset_statements-Keyed s d)
]

put_row-Distinct :
    (u : String) (v : Option String) (at : String) (m : Map String ProfileRow)
    → Distinct m
    → Distinct (put_row u v at m)
put_row-Distinct u none at m d = d
put_row-Distinct u (some v) at m d = insert-Distinct u (record { value = v; set_at = at }) m d

-- A transaction writes its tables at the commit or not at all.
record Commits (m : Action (Unit {0})) (f : Tables → Tables) : Type 0 where
  at : (s : Store) → ((m s).1.db ≡ s.db) ⊎ ((m s).1.db ≡ f s.db)

commit-Commits : (f : Tables → Tables) (g : Memory → Memory) → Commits (exec f >> update g) f
commit-Commits f g = record {
  at = λ s. elim (Bool-cases (s.faulty s.statements)) [
    | inl bad ↦ inl (rw bad)
    | inr good ↦ inr (rw good)
  ];
}

staged-Commits :
    (m : Action (Unit {0})) (f : Tables → Tables) → Commits m f → Commits (staged >> m) f
staged-Commits m f c = record {
  at = λ s. elim (Bool-cases (s.faulty s.statements)) [
    | inl bad ↦ inl (rw bad)
    | inr good ↦ rw good (c.at (record s { statements = suc s.statements }))
  ];
}

Commits-Keyed :
    (m : Action (Unit {0})) (f : Tables → Tables)
    → Commits m f
    → ((t : Tables) → Keyed t → Keyed (f t))
    → (s : Store) → Keyed s.db
    → Keyed (m s).1.db
Commits-Keyed m f c keeps s d = elim (c.at s) [
  | inl same ↦ rw same d
  | inr written ↦ rw written (keeps s.db d)
]

write_profile-Keyed :
    (u : String) (n a : Option String) (at : String) (t : Tables)
    → Keyed t
    → Keyed (write_profile u n a at t)
write_profile-Keyed u n a at t d = record {
  solved = d.solved;
  exfil = d.exfil;
  display_names = put_row-Distinct u n at t.display_names d.display_names;
  avatars = put_row-Distinct u a at t.avatars d.avatars;
}

set_profile-Commits :
    (u : String) (n a : Option String) (at : String)
    → Commits (set_profile u n a at) (write_profile u n a at)
unfolding set_profile
set_profile-Commits u none none at = record { at = λ s. inl refl }
set_profile-Commits u (some n) none at =
    staged-Commits _ _ (staged-Commits _ _ (commit-Commits _ (cache_profile u (some n) none)))
set_profile-Commits u none (some a) at =
    staged-Commits _ _ (staged-Commits _ _ (commit-Commits _ (cache_profile u none (some a))))
set_profile-Commits u (some n) (some a) at =
    staged-Commits _ _ (
      staged-Commits _ _
        (staged-Commits _ _ (commit-Commits _ (cache_profile u (some n) (some a)))))

reset_profile-Keyed : (u : String) (s : Store) → Keyed s.db → Keyed (reset_profile u s).1.db
unfolding reset_profile
reset_profile-Keyed u =
    Commits-Keyed _ _
      (staged-Commits _ _ (
        staged-Commits _ _ (
          staged-Commits _ _ (
            commit-Commits
              (λ t. record t {
                display_names = delete u t.display_names;
                avatars = delete u t.avatars;
              })
              (λ m. record m {
                display_names = delete u m.display_names;
                avatars = delete u m.avatars;
              })))))
      (λ t d. record {
        solved = d.solved;
        exfil = d.exfil;
        display_names = delete-Distinct u t.display_names d.display_names;
        avatars = delete-Distinct u t.avatars d.avatars;
      })

reset_dirty-Keyed : (u c : String) (s : Store) → Keyed s.db → Keyed (reset_dirty u c s).1.db
unfolding reset_dirty
reset_dirty-Keyed u c =
    Commits-Keyed _ _
      (staged-Commits _ _ (
        staged-Commits _ _ (
          staged-Commits _ _ (
            commit-Commits
              (λ t. record t {
                evade_dirty = delete_mission u c t.evade_dirty;
                exfil = delete (solve_key u c) t.exfil;
              })
              (λ m. record m {
                dirty_rules = delete (solve_key u c) m.dirty_rules;
                exfil = delete (solve_key u c) m.exfil;
              })))))
      (λ t d. record {
        solved = d.solved;
        exfil = delete-Distinct (solve_key u c) t.exfil d.exfil;
        display_names = d.display_names;
        avatars = d.avatars;
      })

perform-Keyed : (w : Write) (s : Store) → Keyed s.db → Keyed (perform w s).1.db
unfolding perform record_exfil record_hint_view set_step_check set_display_name
    record_expected_rule_fire record_rule_fire mark_dirty
perform-Keyed (solve u c at) s d = solve-Keyed u c at s d
perform-Keyed (receipt u c flag at) s d =
    ground
      (arith, insert-Distinct (solve_key u c) (record { flag = flag; at = at }) s.db.exfil d.exfil)
perform-Keyed (rename u n at) s d = ground (
  arith,
  insert-Distinct u (record { value = n; set_at = at }) s.db.display_names d.display_names,
)
perform-Keyed (profile u n a at) s d =
    Commits-Keyed _ _ (set_profile-Commits u n a at) (write_profile-Keyed u n a at) s d
perform-Keyed (unprofile u) s d = reset_profile-Keyed u s d
perform-Keyed (clean u c) s d = reset_dirty-Keyed u c s d
perform-Keyed clear s d = reset-Keyed s d
perform-Keyed (check u c i true at) s d = ground arith
perform-Keyed w s d = ground arith

-- If the tables solved, exfil, display_names and avatars hold no key twice, they hold none twice
-- after any history, failing statements included.
pub run-Keyed : (ws : List Write) (s : Store) → Keyed s.db → Keyed (run ws s).db
unfolding run
run-Keyed [] s d = d
run-Keyed (w ∷ ws) s d = run-Keyed ws (perform w s).1 (perform-Keyed w s d)
