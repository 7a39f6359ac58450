-- ===== src/Migrations.antt =====
-- The schema migrations of internal/store/migrations.go. internal/board/migrations.go has a copy of
-- the runner for its own list.
--
-- The DDL of a migration is SQL for SQLite: what it does to a schema is the field `apply`. The
-- database is its recorded version (`PRAGMA user_version`, never negative here) with its schema; a
-- transaction works on a copy, which Commit writes. Whether the n-th call into the driver fails is
-- the parameter `faulty`.
use falco_ctf_app.Prelude.{
  ℕ, suc, ◌+◌, String, Bool, List, [], ◌∷◌, Option, none, some, ltb, leb, eqb, if◌then◌else◌,
}
use falco_ctf_app.Prelude.Results.{Result, ok, err}
pub mod Atomic
pub mod Liveness
pub mod Schemas
pub mod Additive

pub record Migration (S : Type 0) : Type 0 where
  pub version : ℕ
  pub name : String
  pub apply : S → S

pub record Database (S : Type 0) : Type 0 where
  pub version : ℕ
  pub schema : S

pub record Conn (S : Type 0) : Type 0 where
  pub db : Database S
  pub calls : ℕ
  pub faulty : ℕ → Bool

pub data Stage : Type 0 where
  begin : Stage
  change : Stage
  set_user_version : Stage
  commit : Stage

pub data MigrateError : Type 0 where
  misnumbered : ℕ → MigrateError
  read_schema_version : MigrateError
  newer_than_binary : ℕ → ℕ → MigrateError
  migration : ℕ → String → Stage → MigrateError

module _ {S : Type 0} where
  -- One more call into the driver.
  abbrev pub called : Conn S → Conn S
  called c = record c { calls = suc c.calls }

  abbrev pub step {ℓ} : {A : Type ℓ} → Conn S → (Conn S → A) → (Conn S → A) → A
  step c failed done = if c.faulty c.calls then failed (called c) else done (called c)

  unfoldable pub latest_schema_version : ℕ → List (Migration S) → ℕ
  latest_schema_version max [] = max
  latest_schema_version max (m ∷ ms) =
      latest_schema_version (if ltb max m.version then m.version else max) ms

  -- The deferred Rollback drops the copy on every path but the last.
  unfoldable pub apply_one : Migration S → Conn S → Result Stage (Unit {0}) × Conn S
  apply_one m c =
      step c (λ c. (err begin, c))
        (λ c.
          step c (λ c. (err change, c))
            (λ c.
              step c (λ c. (err set_user_version, c))
                (λ c.
                  step c (λ c. (err commit, c))
                    (λ c.
                      let tx : Database S = record c.db { schema = m.apply c.db.schema } in
                      (ok tt, record c { db = record tx { version = m.version } })))))

  abbrev pub wrapped :
      Migration S
      → Result Stage (Unit {0}) × Conn S
      → (Conn S → Result MigrateError (Unit {0}) × Conn S)
      → Result MigrateError (Unit {0}) × Conn S
  wrapped m (ok _, c) rest = rest c
  wrapped m (err e, c) rest = (err (migration m.version m.name e), c)

  -- The loop of migrate; `current` is the version that was read before it.
  unfoldable pub apply_pending :
      List (Migration S) → ℕ → Conn S → Result MigrateError (Unit {0}) × Conn S
  apply_pending [] current c = (ok tt, c)
  apply_pending (m ∷ ms) current c =
      let skipped = apply_pending ms current c in
      let applied = wrapped m (apply_one m c) (apply_pending ms current) in
      if leb m.version current then skipped else applied

  -- assertConsecutiveVersions: the index it panics at.
  unfoldable pub assert_consecutive_versions : ℕ → List (Migration S) → Option ℕ
  assert_consecutive_versions i [] = none
  assert_consecutive_versions i (m ∷ ms) =
      if eqb m.version (i + 1) then assert_consecutive_versions (i + 1) ms else some i

  abbrev pub migrate_from : List (Migration S) → Conn S → Result MigrateError (Unit {0}) × Conn S
  migrate_from ms c =
      let latest = latest_schema_version 0 ms in
      if ltb latest c.db.version
      then (err (newer_than_binary c.db.version latest), c)
      else apply_pending ms c.db.version c

  -- A panic of the assertion ends the start as an error does.
  abbrev pub asserted :
      Option ℕ
      → Conn S
      → (Conn S → Result MigrateError (Unit {0}) × Conn S)
      → Result MigrateError (Unit {0}) × Conn S
  asserted (some i) c rest = (err (misnumbered i), c)
  asserted none c rest = rest c

  unfoldable pub migrate : List (Migration S) → Conn S → Result MigrateError (Unit {0}) × Conn S
  migrate ms c =
      asserted (assert_consecutive_versions 0 ms) c
        (λ c. step c (λ c. (err read_schema_version, c)) (migrate_from ms))
