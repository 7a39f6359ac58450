-- ===== src/Migrations/Liveness.antt =====
-- A restart without a fault completes the migrations, after any number of failed attempts; and an
-- older binary leaves a newer database alone.
use falco_ctf_app.Prelude.{
  ℕ, suc, ◌+◌, ◌<◌, ◌≡◌, refl, ap, inl, inr, List, [], ◌∷◌, length, none, Bool, true, false, arith,
  ltb, leb, Bool-cases, Option-cases, if◌then◌else◌,
}
use falco_ctf_app.Prelude.Results.{ok, is_ok}
use falco_ctf_app.Migrations.{
  Migration, Database, Conn, called, latest_schema_version, apply_one, apply_pending,
  assert_consecutive_versions, migrate,
}
use falco_ctf_app.Migrations.Atomic.{schema_after, Applied, Kept, numbered_cons, apply_pending-Kept}

abbrev pub Quiet : (ℕ → Bool) → Type 0
Quiet faulty = (n : ℕ) → faulty n ≡ false

module _ {S : Type 0} where
  latest_consecutive :
      (k : ℕ) (ms : List (Migration S))
      → assert_consecutive_versions k ms ≡ none
      → latest_schema_version k ms ≡ k + length ms
  unfolding latest_schema_version
  latest_consecutive k [] h = omega arith
  latest_consecutive k (m ∷ ms) h =
      let n = numbered_cons k m ms h in
      let e : (if ltb k m.version then m.version else k) ≡ k + 1 = ground (arith, n.0) in
      rw e (omega (arith, latest_consecutive (k + 1) ms n.1))

  within_latest :
      (ms : List (Migration S)) (s : S) (db : Database S)
      → assert_consecutive_versions 0 ms ≡ none
      → Applied 0 ms s db
      → ltb (latest_schema_version 0 ms) db.version ≡ false
  within_latest ms s db e a = ground (arith, latest_consecutive 0 ms e, a.within, a.numbered)

  -- Whichever calls into the driver fail, and wherever the run stops, a database that held exactly
  -- the first migrations its version counts still does; its version is not lower than before; and
  -- an answer without an error leaves it at the last version of the list.
  pub migrate-Kept :
      (ms : List (Migration S)) (s : S) (c : Conn S)
      → Applied 0 ms s c.db
      → Kept 0 ms s c.db.version (migrate ms c)
  unfolding migrate
  migrate-Kept ms s c a = elim (Option-cases (assert_consecutive_versions 0 ms)) [
    | inr (i, e) ↦ rw e (record { applied = a; grown = omega arith; finished = λ o. cc })
    | inl e ↦ rw e (elim (Bool-cases (c.faulty c.calls)) [
      | inl f ↦ rw f (record { applied = a; grown = omega arith; finished = λ o. cc })
      | inr f ↦ rw f (
          rw (within_latest ms s c.db e a)
            (apply_pending-Kept 0 ms s c.db.version (called c) e a (omega arith) (inl refl)))
    ])
  ]

  -- A database whose version is past the last one the list has is refused, and not touched.
  pub migrate-newer :
      (ms : List (Migration S)) (c : Conn S)
      → length ms < c.db.version
      → (is_ok (migrate ms c).0 ≡ false) × ((migrate ms c).1.db ≡ c.db)
  unfolding migrate
  migrate-newer ms c h = elim (Option-cases (assert_consecutive_versions 0 ms)) [
    | inr (i, e) ↦ rw e (refl, refl)
    | inl e ↦ rw e (elim (Bool-cases (c.faulty c.calls)) [
      | inl f ↦ rw f (refl, refl)
      | inr f ↦ rw f (ground (arith, latest_consecutive 0 ms e))
    ])
  ]

  apply_one-Quiet :
      (m : Migration S) (c : Conn S)
      → Quiet c.faulty
      → (c' : Conn S) × (apply_one m c ≡ (ok tt, c')) × (c'.faulty ≡ c.faulty)
  unfolding apply_one
  apply_one-Quiet m c q =
      rw (q c.calls, q (suc c.calls), q (suc (suc c.calls)), q (suc (suc (suc c.calls))))
        (_, refl, refl)

  apply_pending-Quiet :
      (ms : List (Migration S)) (current : ℕ) (c : Conn S)
      → Quiet c.faulty
      → is_ok (apply_pending ms current c).0 ≡ true
  unfolding apply_pending
  apply_pending-Quiet [] current c q = refl
  apply_pending-Quiet (m ∷ ms) current c q = elim (Bool-cases (leb m.version current)) [
    | inl past ↦ rw past (apply_pending-Quiet ms current c q)
    | inr due ↦
        let (c', e, f) = apply_one-Quiet m c q in
        rw due (rw e (apply_pending-Quiet ms current c' (rw f q)))
  ]

  migrate-Quiet :
      (ms : List (Migration S)) (s : S) (c : Conn S)
      → assert_consecutive_versions 0 ms ≡ none
      → Applied 0 ms s c.db
      → Quiet c.faulty
      → is_ok (migrate ms c).0 ≡ true
  unfolding migrate
  migrate-Quiet ms s c e a q =
      rw (e, q c.calls, within_latest ms s c.db e a)
        (apply_pending-Quiet ms c.db.version (called c) q)

  at_end :
      (ms : List (Migration S)) (s : S) (db : Database S)
      → Applied 0 ms s db
      → db.version ≡ length ms
      → db ≡ record { version = length ms; schema = schema_after (length ms) ms s }
  at_end ms s db a e =
      let d : a.done ≡ length ms = omega (arith, a.numbered) in
      ground (arith, e, a.built, ap (λ n. schema_after n ms s) d)

  -- A start of the process on the database that an earlier one left.
  abbrev pub started : Database S → (ℕ → Bool) → Conn S
  started db faulty = record { db = db; calls = 0; faulty = faulty }

  -- The database after a sequence of starts, each with its own faults.
  abbrev pub restarts : List (Migration S) → List (ℕ → Bool) → Database S → Database S
  restarts ms [] db = db
  restarts ms (f ∷ fs) db = restarts ms fs (migrate ms (started db f)).1.db

  restarts-Applied :
      (ms : List (Migration S)) (fs : List (ℕ → Bool)) (s : S) (db : Database S)
      → Applied 0 ms s db
      → Applied 0 ms s (restarts ms fs db)
  restarts-Applied ms [] s db a = a
  restarts-Applied ms (f ∷ fs) s db a =
      restarts-Applied ms fs s _ (migrate-Kept ms s (started db f) a).applied

  -- After any sequence of starts with any faults, the next start whose calls all succeed answers
  -- without an error, and leaves the last version with the schema that all migrations build.
  pub migrate_completes :
      (ms : List (Migration S)) (fs : List (ℕ → Bool)) (s : S) (db : Database S) (f : ℕ → Bool)
      → assert_consecutive_versions 0 ms ≡ none
      → Applied 0 ms s db
      → Quiet f
      → (is_ok (migrate ms (started (restarts ms fs db) f)).0 ≡ true)
        × ((migrate ms (started (restarts ms fs db) f)).1.db
            ≡ record { version = length ms; schema = schema_after (length ms) ms s })
  migrate_completes ms fs s db f e a q =
      (answered, at_end ms s _ done.applied (omega (arith, done.finished answered)))
    where
      before : Database S
      before = restarts ms fs db

      done : Kept 0 ms s before.version (migrate ms (started before f))
      done = migrate-Kept ms s (started before f) (restarts-Applied ms fs s db a)

      answered : is_ok (migrate ms (started before f)).0 ≡ true
      answered = migrate-Quiet ms s (started before f) e (restarts-Applied ms fs s db a) q
