-- ===== src/Migrations/Additive.antt =====
-- A start keeps what the database already defines.
use falco_ctf_app.Prelude.{
  ℕ, ◌≡◌, List, [], ◌∷◌, Option, none, some, map, refl, ap, ==_refl, Bool, true, false, not, arith,
  String, string_eq, ◌==◌, inl, inr, Bool-cases, Option-cases, leb, ltb, All,
}
use falco_ctf_app.Prelude.Maps.{lookup, lookup-insert}
use falco_ctf_app.Prelude.Text.{text, text_eq, lower}
use falco_ctf_app.Migrations.{
  Migration, Conn, called, apply_pending, assert_consecutive_versions, latest_schema_version,
  migrate,
}
use falco_ctf_app.Migrations.Atomic.{apply_one-cases}
use falco_ctf_app.Migrations.Schemas.{
  Definition, Statement, create, drop, table, index, Schema, goes_with, drop_table, same_name,
  is_defined, run_statement, run_script, store_migrations, board_migrations,
}

-- A definition that a schema has under a name, it has there still.
abbrev pub Holds : String → Definition → Schema → Type 0
Holds name d s = lookup name s ≡ some d

-- The statement does not drop the definition that stands under the name.
abbrev spares : String → Definition → Statement → Bool
spares name d (create _ _) = true
spares name d (drop t) = not (goes_with t name d)

same_name_refl : (name : String) → same_name name name ≡ true
unfolding same_name
same_name_refl name = ==_refl (map lower (text name))

Holds-is_defined :
    (name : String) (d : Definition) (s : Schema) → Holds name d s → is_defined name s ≡ true
unfolding lookup
Holds-is_defined name d [] h = absurd (ground arith)
Holds-is_defined name d ((i, e) ∷ s) h = elim (Bool-cases (i == name)) [
  | inl same ↦ rw ((string_eq.beq_iff i name).0 same, same_name_refl name) refl
  | inr other ↦ ground (arith, Holds-is_defined name d s (rw other at h))
]

abbrev or_given : Definition → Option Definition → Definition
or_given d none = d
or_given d (some e) = e

drop_table-Holds :
    (t name : String) (d : Definition) (s : Schema)
    → goes_with t name d ≡ false
    → Holds name d s
    → Holds name d (drop_table t s)
unfolding drop_table lookup
drop_table-Holds t name d [] n h = h
drop_table-Holds t name d ((i, e) ∷ s) n h = elim (Bool-cases (i == name)) [
  | inl same ↦
      let found : Path (Option Definition) (some e) (some d) = rw same at h in
      let kept : goes_with t i e ≡ false =
        rw ((string_eq.beq_iff i name).0 same, ap (or_given d) found) n in
      rw (kept, same) found
  | inr other ↦
      let rest = drop_table-Holds t name d s n (rw other at h) in
      elim (Bool-cases (goes_with t i e)) [
        | inl gone ↦ rw gone rest
        | inr kept ↦ rw (kept, other) rest
      ]
]

run_statement-Holds :
    (name : String) (d : Definition) (st : Statement) (s : Schema)
    → spares name d st ≡ true
    → Holds name d s
    → Holds name d (run_statement st s)
unfolding run_statement
run_statement-Holds name d (create other e) s p h = elim (Bool-cases (is_defined other s)) [
  | inl there ↦ rw there h
  | inr free ↦ rw free (elim (Bool-cases (other == name)) [
    | inl same ↦ absurd (
        ground
          (arith, free, Holds-is_defined other d s (rw ((string_eq.beq_iff other name).0 same) h)))
    | inr apart ↦ rw (lookup-insert other name e s, apart) h
  ])
]
run_statement-Holds name d (drop t) s p h = drop_table-Holds t name d s (ground (arith, p)) h

run_script-Holds :
    (name : String) (d : Definition) (script : List Statement) (s : Schema)
    → All (λ st. spares name d st ≡ true) script
    → Holds name d s
    → Holds name d (run_script script s)
unfolding run_script
run_script-Holds name d [] s p h = h
run_script-Holds name d (st ∷ rest) s (p, ps) h =
    run_script-Holds name d rest (run_statement st s) ps (run_statement-Holds name d st s p h)

module _ (P : Schema → Type 0) where
  abbrev Preserves : List (Migration Schema) → Type 0
  Preserves ms = All (λ m. (s : Schema) → P s → P (m.apply s)) ms

  apply_pending-Preserves :
      (ms : List (Migration Schema)) (current : ℕ) (c : Conn Schema)
      → Preserves ms
      → P c.db.schema
      → P (apply_pending ms current c).1.db.schema
  unfolding apply_pending
  apply_pending-Preserves [] current c p h = h
  apply_pending-Preserves (m ∷ ms) current c (p, ps) h = elim (Bool-cases (leb m.version current)) [
    | inl past ↦ rw past (apply_pending-Preserves ms current c ps h)
    | inr due ↦ rw due (elim (apply_one-cases m c) [
      | inl (c', e, d) ↦ rw e (apply_pending-Preserves ms current c' ps (rw d (p c.db.schema h)))
      | inr (f, (c', e, d)) ↦ rw e (rw d h)
    ])
  ]

  migrate-Preserves :
      (ms : List (Migration Schema)) (c : Conn Schema)
      → Preserves ms
      → P c.db.schema
      → P (migrate ms c).1.db.schema
  unfolding migrate
  migrate-Preserves ms c p h = elim (Option-cases (assert_consecutive_versions 0 ms)) [
    | inr (i, e) ↦ rw e h
    | inl e ↦ rw e (elim (Bool-cases (c.faulty c.calls)) [
      | inl f ↦ rw f h
      | inr f ↦ rw f (elim (Bool-cases (ltb (latest_schema_version 0 ms) c.db.version)) [
        | inl newer ↦ rw newer h
        | inr l ↦ rw l (apply_pending-Preserves ms c.db.version (called c) p h)
      ])
    ])
  ]

-- The table that a definition is, or is on.
abbrev pub owner : String → Definition → String
owner name (table _ _) = name
owner name (index t _) = t

abbrev pub is_of_events : String → Definition → Bool
is_of_events name d = text "events_per_user" == map lower (text (owner name d))

goes_with_lem :
    (name : String) (d : Definition)
    → is_of_events name d ≡ false
    → goes_with "events_per_user" name d ≡ false
unfolding goes_with same_name lower
goes_with_lem name (table columns key) h = h
goes_with_lem name (index t column) h = h

-- Every table and every index that a database has, but the table events_per_user (its name in any
-- case) and the indexes on it, is there after a start of the store with the store's migrations, and
-- after one of the board with the board's, as it was, whatever its version and whichever calls fail.
pub migrate_additive :
    (name : String) (d : Definition) (c : Conn Schema)
    → is_of_events name d ≡ false
    → Holds name d c.db.schema
    → Holds name d (migrate store_migrations c).1.db.schema
      × Holds name d (migrate board_migrations c).1.db.schema
migrate_additive name d c n h = (
  migrate-Preserves (Holds name d) store_migrations c
      (
        λ s. run_script-Holds name d _ s (ground (arith, goes_with_lem name d n)),
        (λ s. run_script-Holds name d _ s (ground (arith, goes_with_lem name d n)), tt),
      )
      h,
  migrate-Preserves (Holds name d) board_migrations c
      (λ s. run_script-Holds name d _ s (ground (arith, goes_with_lem name d n)), tt) h,
)
