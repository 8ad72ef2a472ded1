-- ===== src/Migrations/Atomic.antt =====
-- What a run of apply_migrations in storage/migrations.py leaves in the ledger, whether it returns or
-- raises.
use a_share_analysis.Common.{
  ◌≡◌, refl, sym, subst, String, Option, List, map, ◌⊎◌, inl, inr, Text, Result, ok, err,
  Answer-cases, Result-cases,
}
use a_share_analysis.Migrations.{
  DirEntry, MigrationRecord, MigrationError, database, Found, discover_migrations,
}
use a_share_analysis.Migrations.Apply.{
  Connection, Reading, record_of, verified, apply_files, apply_found, ledger_made, apply_migrations,
}
use a_share_analysis.Migrations.Ledger.{Same, Same-trans, Same-append}
use a_share_analysis.Migrations.Transactions.{IsTransactional}
use a_share_analysis.Migrations.Progress.{ArePlain, pending, Progress, apply_files-Progress}

module _ {S : Type 0} (c : Connection S) (IsDdl : Text → Type 0) where
  Progress-from :
      (reading : Reading) (todo : List Found) (before before' : List MigrationRecord)
      (result : Result MigrationError (List MigrationRecord) × S)
      → Same before before'
      → Progress c IsDdl reading todo before result
      → Progress c IsDdl reading todo before' result
  Progress-from reading todo before before' result a x = record {
    done = x.done;
    rest = x.rest;
    split = x.split;
    gained = Same-trans x.gained (Same-append (map (record_of reading) x.done) a);
    outcome = x.outcome;
  }

  -- The call raised before the loop, with the ledger as it was; or it verified the files against the
  -- ledger, and the loop has made progress on those that were pending.
  abbrev pub Settled :
      Reading
      → Option (List DirEntry)
      → List MigrationRecord
      → Result MigrationError (List MigrationRecord) × S
      → Type 0
  Settled reading directory before result =
      (((e : MigrationError) × (result.0 ≡ err e)) × Same (c.rows result.1) before)
      ⊎ ((files : List Found) × (ledger : List MigrationRecord) × (discover_migrations directory
            ≡ ok files)
          × Same ledger before
          × (verified reading ledger files ≡ ok tt)
          × Progress c IsDdl reading (pending reading ledger files) before result)

  module _ (reading : Reading) (files : List Found) (t : S) where
    apply_found-refused :
        (e : MigrationError)
        → verified reading (c.rows t) files ≡ err e
        → apply_found c reading (ok files) t ≡ (err e, t)
    unfolding apply_found
    apply_found-refused e bad = rw (bad, apply_found) refl

    apply_found-verified :
        verified reading (c.rows t) files ≡ ok tt
        → apply_found c reading (ok files) t ≡ apply_files c reading (c.rows t) files t
    unfolding apply_found
    apply_found-verified whole = rw (whole, apply_found) refl

  apply_found-Settled :
      (laws : IsTransactional c IsDdl) (reading : Reading) (directory : Option (List DirEntry))
      (s t : S)
      → ((files : List Found)
          → discover_migrations directory ≡ ok files
          → ArePlain c IsDdl reading files)
      → Same (c.rows t) (c.rows s)
      → Settled reading directory
          (c.rows s)
          (apply_found c reading (discover_migrations directory) t)
  apply_found-Settled laws reading directory s t plain same =
      elim (Result-cases (discover_migrations directory)) [
        | inr (e, bad) ↦
            subst (λ d. Settled reading directory (c.rows s) (apply_found c reading d t)) (sym bad)
              (inl ((e, unfold apply_found in refl), unfold apply_found in same))
        | inl (files, good) ↦
            subst (λ d. Settled reading directory (c.rows s) (apply_found c reading d t)) (sym good)
              (elim (Result-cases (verified reading (c.rows t) files)) [
                | inr (e, bad) ↦
                    rw (apply_found-refused reading files t e bad) (inl ((e, refl), same))
                | inl (done, whole) ↦ rw (apply_found-verified reading files t whole) (
                    inr (
                      files,
                      c.rows t,
                      good,
                      same,
                      whole,
                      Progress-from reading (pending reading (c.rows t) files) (c.rows t) (c.rows s)
                          _ same
                          (apply_files-Progress c IsDdl laws reading files (c.rows t) t
                            (plain files good)),
                    ))
              ])
      ]

  -- If the database keeps its documented rules of transactions, and neither the statement that makes
  -- the ledger nor those of the migrations touch the ledger's rows, then apply_migrations either raises
  -- before it begins a migration and leaves the ledger as it was, or it has found the files numbered in
  -- order and in agreement with the ledger, and the ledger has gained exactly the records of the first
  -- of the pending migrations: of all, which it returns, or, if it raised, not of all.
  pub apply_migrations-Settled :
      (laws : IsTransactional c IsDdl) (reading : Reading) (directory : Option (List DirEntry))
      (s : S)
      → ((t : S) (outcome : Result String (Unit {0}))
          → c.execute reading.ledger_ddl s ≡ (outcome, t)
          → Same (c.rows t) (c.rows s))
      → ((files : List Found)
          → discover_migrations directory ≡ ok files
          → ArePlain c IsDdl reading files)
      → Settled reading directory (c.rows s) (apply_migrations c reading directory s)
  unfolding apply_migrations ledger_made
  apply_migrations-Settled laws reading directory s kept plain =
      elim (Answer-cases (c.execute reading.ledger_ddl s)) [
        | inr (m, t, e) ↦
            subst (λ p. Settled reading directory (c.rows s) (ledger_made c reading directory p))
              (sym e) (inl ((database m, refl), kept t (err m) e))
        | inl (done, t, e) ↦
            subst (λ p. Settled reading directory (c.rows s) (ledger_made c reading directory p))
              (sym e) (apply_found-Settled laws reading directory s t plain (kept t (ok tt) e))
      ]
