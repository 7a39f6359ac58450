-- ===== src/Migrations/Atomic.antt =====
-- What a database holds after migrate, whichever call fails.
use falco_ctf_app.Prelude.{
  ℕ, zero, suc, ◌+◌, ◌≤◌, ◌<◌, ◌≡◌, refl, ap, ◌∙◌, ◌⊎◌, inl, inr, List, [], ◌∷◌, length, none, true,
  false, arith, leb, Bool-cases,
}
use falco_ctf_app.Prelude.Results.{Result, ok, err, is_ok}
use falco_ctf_app.Migrations.{
  Migration, Database, Conn, Stage, begin, change, set_user_version, commit, called, MigrateError,
  apply_one, apply_pending, assert_consecutive_versions,
}

module _ {S : Type 0} where
  -- The schema after the first n migrations, from the schema of a new file.
  abbrev pub schema_after : ℕ → List (Migration S) → S → S
  schema_after zero ms s = s
  schema_after (suc n) [] s = s
  schema_after (suc n) (m ∷ ms) s = schema_after n ms (m.apply s)

  -- Of the migrations `ms`, which are numbered from k + 1, exactly the first `done` are applied to
  -- `s`, and the version says so.
  pub record Applied (k : ℕ) (ms : List (Migration S)) (s : S) (db : Database S) : Type 0 where
    pub done : ℕ
    pub within : done ≤ length ms
    pub numbered : db.version ≡ k + done
    pub built : db.schema ≡ schema_after done ms s

  -- What one migration does, in its two outcomes.
  pub apply_one-cases :
      (m : Migration S) (c : Conn S)
      → ((c' : Conn S) × (apply_one m c ≡ (ok tt, c'))
          × (c'.db ≡ record { version = m.version; schema = m.apply c.db.schema }))
        ⊎ ((e : Stage) × ((c' : Conn S) × (apply_one m c ≡ (err e, c')) × (c'.db ≡ c.db)))
  unfolding apply_one
  apply_one-cases m c = elim (Bool-cases (c.faulty c.calls)) [
    | inl e ↦ inr (begin, (called c, rw e, refl))
    | inr e ↦ rw e (elim (Bool-cases (c.faulty (suc c.calls))) [
      | inl f ↦ inr (change, (called (called c), rw f, refl))
      | inr f ↦ rw f (elim (Bool-cases (c.faulty (suc (suc c.calls)))) [
        | inl g ↦ inr (set_user_version, (called (called (called c)), rw g, refl))
        | inr g ↦ rw g (elim (Bool-cases (c.faulty (suc (suc (suc c.calls))))) [
          | inl h ↦ inr (commit, (called (called (called (called c))), rw h, refl))
          | inr h ↦ rw h (inl (_, refl, refl))
        ])
      ])
    ])
  ]

  pub Applied-cons :
      (k : ℕ) (m : Migration S) (ms : List (Migration S)) (s : S) (db : Database S)
      → Applied (k + 1) ms (m.apply s) db
      → Applied k (m ∷ ms) s db
  Applied-cons k m ms s db a = record {
    done = suc a.done;
    within = omega (arith, a.within);
    numbered = omega (arith, a.numbered);
    built = a.built;
  }

  uncons :
      (k : ℕ) (m : Migration S) (ms : List (Migration S)) (s : S) (db : Database S) (done : ℕ)
      → done ≤ length (m ∷ ms)
      → db.version ≡ k + done
      → db.schema ≡ schema_after done (m ∷ ms) s
      → k < db.version
      → Applied (k + 1) ms (m.apply s) db
  uncons k m ms s db zero w n b h = absurd (omega arith)
  uncons k m ms s db (suc done) w n b h = record {
    done = done;
    within = omega arith;
    numbered = omega arith;
    built = b;
  }

  pub Applied-uncons :
      (k : ℕ) (m : Migration S) (ms : List (Migration S)) (s : S) (db : Database S)
      → Applied k (m ∷ ms) s db
      → k < db.version
      → Applied (k + 1) ms (m.apply s) db
  Applied-uncons k m ms s db a = uncons k m ms s db a.done a.within a.numbered a.built

  -- A database that no migration of the list has reached holds the schema it began with.
  at_start :
      (k : ℕ) (ms : List (Migration S)) (s : S) (db : Database S) (done : ℕ)
      → db.version ≡ k + done
      → db.schema ≡ schema_after done ms s
      → db.version ≡ k
      → db.schema ≡ s
  at_start k ms s db zero n b h = b
  at_start k ms s db (suc done) n b h = absurd (omega arith)

  -- What holds of the answer and the database after a run that began at version v.
  pub record Kept (k : ℕ) (ms : List (Migration S)) (s : S) (v : ℕ)
      (r : Result MigrateError (Unit {0}) × Conn S) : Type 0 where
    pub applied : Applied k ms s r.1.db
    pub grown : v ≤ r.1.db.version
    pub finished : is_ok r.0 ≡ true → r.1.db.version ≡ k + length ms

  Kept-le :
      {k : ℕ} {ms : List (Migration S)} {s : S} {v w : ℕ}
      {r : Result MigrateError (Unit {0}) × Conn S}
      → v ≤ w
      → Kept k ms s w r
      → Kept k ms s v r
  Kept-le h x = record {
    applied = x.applied;
    grown = omega (arith, x.grown);
    finished = x.finished;
  }

  pub numbered_cons :
      (k : ℕ) (m : Migration S) (ms : List (Migration S))
      → assert_consecutive_versions k (m ∷ ms) ≡ none
      → (m.version ≡ k + 1) × (assert_consecutive_versions (k + 1) ms ≡ none)
  unfolding assert_consecutive_versions
  numbered_cons k m ms h = ground arith

  -- The loop, from a database that stands at the version read before it or, past that, at the
  -- migration the loop has come to.
  pub apply_pending-Kept :
      (k : ℕ) (ms : List (Migration S)) (s : S) (current : ℕ) (c : Conn S)
      → assert_consecutive_versions k ms ≡ none
      → Applied k ms s c.db
      → current ≤ c.db.version
      → (c.db.version ≡ current) ⊎ (c.db.version ≡ k)
      → Kept k ms s c.db.version (apply_pending ms current c)
  unfolding apply_pending
  apply_pending-Kept k [] s current c h a le at = record {
    applied = a;
    grown = omega arith;
    finished = λ _. omega (arith, a.within, a.numbered);
  }
  apply_pending-Kept k (m ∷ ms) s current c h a le at = elim (Bool-cases (leb m.version current)) [
    | inl past ↦ rw past (
        Kept-cons (
          apply_pending-Kept (k + 1) ms (m.apply s) current c n.1
            (Applied-uncons k m ms s c.db a (ground (arith, n))) le (inl (ground (arith, n, at)))))
    | inr due ↦ rw due (elim (apply_one-cases m c) [
      | inl (c', e, d) ↦ rw e (
          Kept-cons {v = c.db.version} (
            Kept-le (omega (arith, ap (λ db. db.version) d, n.0, stands due)) (
              apply_pending-Kept (k + 1) ms (m.apply s) current c' n.1
                (record {
                  done = 0;
                  within = omega arith;
                  numbered = omega (arith, ap (λ db. db.version) d, n.0);
                  built =
                      ap (λ db. db.schema) d
                      ∙ ap m.apply
                          (at_start k (m ∷ ms) s c.db a.done a.numbered a.built (stands due));
                })
                (omega (arith, ap (λ db. db.version) d, n.0, stands due))
                (inr (omega (arith, ap (λ db. db.version) d, n.0))))))
      | inr (f, (c', e, d)) ↦ rw e (record {
        applied = rw d a;
        grown = omega (arith, ap (λ db. db.version) d);
        finished = λ o. cc;
      })
    ])
  ]
    where
      n : (m.version ≡ k + 1) × (assert_consecutive_versions (k + 1) ms ≡ none)
      n = numbered_cons k m ms h

      stands : leb m.version current ≡ false → c.db.version ≡ k
      stands due = ground (arith, n, at, a.numbered)

      Kept-cons :
          {v : ℕ} {r : Result MigrateError (Unit {0}) × Conn S}
          → Kept (k + 1) ms (m.apply s) v r
          → Kept k (m ∷ ms) s v r
      Kept-cons {r = r} x = record {
        applied = Applied-cons k m ms s r.1.db x.applied;
        grown = x.grown;
        finished = λ o. omega (arith, x.finished o);
      }
