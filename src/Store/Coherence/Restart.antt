-- ===== src/Store/Coherence/Restart.antt =====
-- A restart: `Open` on the tables that a running store has written.
use falco_ctf_app.Prelude.{
  ℕ, suc, String, Bool, true, false, ◌||◌, ◌≡◌, refl, sym, ◌∙◌, inl, inr, Option, none, some, List,
  [], ◌∷◌, arith, Eq, string_eq, Bool-cases,
}
use mathlib.Core.Option
use falco_ctf_app.Prelude.Maps.{Map, lookup, has, insert, lookup-insert, Distinct}
use falco_ctf_app.Prelude.RuleSets.{RuleSet, has_rule, add_rule, has_rule-add_rule}
use falco_ctf_app.Prelude.Results.{ok}
use falco_ctf_app.Store.State.{
  SolveKey, solve_key, solve_eq, HintViewKey, hint_eq, StepCheckKey, step_eq, RuleKey, rule_eq,
  Memory, Tables, Store,
}
use falco_ctf_app.Store.Solves.{is_solved, has_exfil}
use falco_ctf_app.Store.Profiles
use falco_ctf_app.Store.Profiles.{display_name}
use falco_ctf_app.Store.Rules.{rule_key}
use falco_ctf_app.Store.Lifecycle.{
  empty_memory, load_rows, load_rules, load_all, selects, load_from_db, open_store,
}
use falco_ctf_app.Store.Coherence.Relation.{Mirrors}
use falco_ctf_app.Store.Coherence.Writes.{Coherent}
use falco_ctf_app.Store.Coherence.Histories.{Write, run, NoErrors, run-Coherent}
use falco_ctf_app.Store.Coherence.PrimaryKeys.{Keyed, run-Keyed}

abbrev or_else : {A : Type 0} → Option A → Option A → Option A
or_else none b = b
or_else (some a) b = some a

module _ {K V W : Type 0} ⦃e : Eq K⦄ (f : V → W) where
  lookup-load_rows :
      (k : K) (rows : Map K V) (m : Map K W)
      → Distinct rows
      → lookup k (load_rows f rows m) ≡ or_else (Option.map f (lookup k rows)) (lookup k m)
  unfolding load_rows lookup
  lookup-load_rows k [] m d = refl
  lookup-load_rows k ((j, v) ∷ rows) m (fresh, d) = ground (
    arith,
    lookup-load_rows k rows (insert j (f v) m) d,
    lookup-insert j k (f v) m,
    e.beq_iff j k,
  )

  has-load_rows :
      (k : K) (rows : Map K V) (m : Map K W) → has k (load_rows f rows m) ≡ (has k rows || has k m)
  unfolding load_rows lookup
  has-load_rows k [] m = refl
  has-load_rows k ((j, v) ∷ rows) m =
      ground (arith, has-load_rows k rows (insert j (f v) m), lookup-insert j k (f v) m)

has_rule-load_rules :
    (u c r : String) (rows : Map RuleKey String) (m : Map SolveKey RuleSet)
    → has_rule (solve_key u c) r (load_rules rows m)
      ≡ (has (rule_key u c r) rows || has_rule (solve_key u c) r m)
unfolding load_rules lookup
has_rule-load_rules u c r [] m = refl
has_rule-load_rules u c r ((k, at) ∷ rows) m =
    has_rule-load_rules u c r rows (add_rule (solve_key k.user k.challenge) k.rule m)
    ∙ rw has_rule-add_rule (ground arith)

abbrev load_fold : List (Tables → Memory → Memory) → Tables → Memory → Memory
load_fold [] t m = m
load_fold (f ∷ fs) t m = load_fold fs t (f t m)

load_all-ok :
    (fs : List (Tables → Memory → Memory)) (s : Store)
    → (load_all fs s).0 ≡ ok tt
    → ((load_all fs s).1.mem ≡ load_fold fs s.db s.mem) × ((load_all fs s).1.db ≡ s.db)
unfolding load_all
load_all-ok [] s h = (refl, refl)
load_all-ok (f ∷ fs) s h = elim (Bool-cases (s.faulty s.statements)) [
  | inl bad ↦ absurd (ground arith)
  | inr good ↦ rw good (
      load_all-ok fs (record s { mem = f s.db s.mem; statements = suc s.statements })
        (rw good at h))
]

or_else-none : {A : Type 0} (o : Option A) → or_else o none ≡ o
or_else-none none = refl
or_else-none (some a) = refl

map-same : {A : Type 0} (o : Option A) → Option.map (λ a. a) o ≡ o
map-same none = refl
map-same (some a) = refl

||-false : (b : Bool) → (b || false) ≡ b
||-false true = refl
||-false false = refl

-- The maps that a complete load makes of the tables.
loaded-Mirrors : (t : Tables) → Keyed t → Mirrors (load_fold selects t empty_memory) t
unfolding lookup
loaded-Mirrors t d = record {
  solved = λ k. lookup-load_rows (λ at. at) k t.solved [] d.solved ∙ or_else-none _ ∙ map-same _;
  exfil = λ k. lookup-load_rows (λ row. row.flag) k t.exfil [] d.exfil ∙ or_else-none _;
  display_names = λ k.
      lookup-load_rows (λ row. row.value) k t.display_names [] d.display_names ∙ or_else-none _;
  avatars = λ k. lookup-load_rows (λ row. row.value) k t.avatars [] d.avatars ∙ or_else-none _;
  hint_views = λ k. has-load_rows (λ _. true) k t.hint_views [] ∙ ||-false _;
  step_checks = λ k. has-load_rows (λ _. true) k t.step_checks [] ∙ ||-false _;
  dirty = λ u c r. has_rule-load_rules u c r t.evade_dirty [] ∙ ||-false _;
  expected = λ u c r. has_rule-load_rules u c r t.expected_rule_fire [] ∙ ||-false _;
}

opened-loaded :
    (t : Tables) (faulty : ℕ → Bool) {s : Store}
    → open_store t faulty ≡ ok s
    → (s.mem ≡ load_fold selects t empty_memory) × (s.db ≡ t)
unfolding open_store
opened-loaded t faulty h = ground (
  arith,
  load_all-ok selects (record { mem = empty_memory; db = t; statements = 0; faulty = faulty }),
)

-- If the tables hold no key twice and Open returns a store on them, its maps hold exactly what
-- the tables do and the tables are unchanged.
pub open_store-Mirrors :
    (t : Tables) (faulty : ℕ → Bool) {s : Store}
    → Keyed t
    → open_store t faulty ≡ ok s
    → Mirrors s.mem t × (s.db ≡ t)
open_store-Mirrors t faulty d h =
    let (mem, db) = opened-loaded t faulty h in (rw mem (loaded-Mirrors t d), db)

load_all-total :
    (fs : List (Tables → Memory → Memory)) (s : Store)
    → ((n : ℕ) → s.faulty n ≡ false)
    → (load_all fs s).0 ≡ ok tt
unfolding load_all
load_all-total [] s good = refl
load_all-total (f ∷ fs) s good =
    rw (good s.statements)
      (load_all-total fs (record s { mem = f s.db s.mem; statements = suc s.statements }) good)

-- When no statement fails, Open returns a store.
pub open_store-total :
    (t : Tables) (faulty : ℕ → Bool)
    → ((n : ℕ) → faulty n ≡ false)
    → (s : Store) × (open_store t faulty ≡ ok s)
unfolding open_store load_from_db
open_store-total t faulty good =
    let start : Store = record { mem = empty_memory; db = t; statements = 0; faulty = faulty } in
    ((load_all selects start).1, ground (arith, load_all-total selects start good))

-- What the scoring and the pages read of two stores is the same.
pub record SameAnswers (s s' : Store) : Type 0 where
  pub solved : (u c : String) → is_solved u c s' ≡ is_solved u c s
  pub exfil : (u c flag : String) → has_exfil u c flag s' ≡ has_exfil u c flag s
  pub name : (u : String) → display_name u s' ≡ display_name u s
  pub avatar : (u : String) → Profiles.avatar u s' ≡ Profiles.avatar u s
  pub hint : (k : HintViewKey) → has k s'.mem.hint_views ≡ has k s.mem.hint_views
  pub step : (k : StepCheckKey) → has k s'.mem.step_checks ≡ has k s.mem.step_checks
  pub dirty :
      (u c r : String)
      → has_rule (solve_key u c) r s'.mem.dirty_rules ≡ has_rule (solve_key u c) r s.mem.dirty_rules
  pub expected :
      (u c r : String)
      → has_rule (solve_key u c) r s'.mem.expected_rule_fire
        ≡ has_rule (solve_key u c) r s.mem.expected_rule_fire

Mirrors-SameAnswers : (s s' : Store) → Mirrors s.mem s.db → Mirrors s'.mem s.db → SameAnswers s s'
unfolding is_solved has_exfil display_name Profiles.avatar
Mirrors-SameAnswers s s' h k = record {
  solved = λ u c. rw (h.solved (solve_key u c), k.solved (solve_key u c));
  exfil = λ u c flag. ground (arith, h.exfil (solve_key u c), k.exfil (solve_key u c));
  name = λ u. ground (arith, h.display_names u, k.display_names u);
  avatar = λ u. ground (arith, h.avatars u, k.avatars u);
  hint = λ j. k.hint_views j ∙ sym (h.hint_views j);
  step = λ j. k.step_checks j ∙ sym (h.step_checks j);
  dirty = λ u c r. k.dirty u c r ∙ sym (h.dirty u c r);
  expected = λ u c r. k.expected u c r ∙ sym (h.expected u c r);
}

-- From a store whose memory agrees with its tables and whose tables hold no key twice, after any
-- history without an error: if Open succeeds on the tables, the new store answers every question
-- about solves, receipts, profiles, reveals, checks, taints and expected fires as the old one.
pub restart-SameAnswers :
    (ws : List Write) (s : Store) (faulty : ℕ → Bool) {s' : Store}
    → Keyed s.db
    → Coherent s
    → NoErrors ws s
    → open_store (run ws s).db faulty ≡ ok s'
    → SameAnswers (run ws s) s'
restart-SameAnswers ws s faulty {s'} d h quiet opened =
    Mirrors-SameAnswers (run ws s) s' (run-Coherent ws s h quiet)
      (open_store-Mirrors (run ws s).db faulty (run-Keyed ws s d) opened).0
