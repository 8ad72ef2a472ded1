-- ===== src/Migrations/Apply.antt =====
-- apply_migrations of storage/migrations.py over a database connection, which is an argument: its
-- state, the effect of a statement and of the ledger's INSERT, and the rows of the ledger table.
use a_share_analysis.Common.{
  String, Bool, true, false, not, ◌&&◌, Option, none, some, List, [], ◌∷◌, any, Text, codes,
  text_eq, text_in, text_leb, sort_by, str_eq, Result, ok, err, ◌>>=◌, if◌then◌else◌,
}
use a_share_analysis.Migrations.{
  DirEntry, MigrationRecord, MigrationError, ledger_gap, tampered, renamed, rolled_back, database,
  undecodable, Found, ids_of, discover_migrations, split_statements,
}

-- The connection: a call gives its outcome and the state after it.
pub record Connection (S : Type 0) : Type 0 where
  pub execute : Text → S → Result String (Unit {0}) × S
  pub insert : MigrationRecord → S → Result String (Unit {0}) × S
  pub rows : S → List MigrationRecord

-- What else the module calls: the digest of a file, its text, and the statement that makes the ledger
pub record Reading : Type 0 where
  pub sha256 : Text → String
  pub read_text : Text → Option Text
  pub ledger_ddl : Text

abbrev pub begin_transaction : Text
begin_transaction = codes "BEGIN TRANSACTION"

abbrev pub commit : Text
commit = codes "COMMIT"

abbrev pub rollback : Text
rollback = codes "ROLLBACK"

-- {row[0]: record}.get(id): the last row of an id wins.
unfoldable pub lookup : Text → List MigrationRecord → Option MigrationRecord
lookup id [] = none
lookup id (r ∷ rs) =
    let later = lookup id rs in
    elim later [
      | some found ↦ some found
      | none ↦ if text_eq r.migration_id id then some r else none
    ]

unfoldable pub in_ledger : Text → List MigrationRecord → Bool
unfolding any
in_ledger id ledger = any (λ r. text_eq r.migration_id id) ledger

-- The keys of the ledger's dictionary
unfoldable pub ledger_ids : List MigrationRecord → List Text
ledger_ids [] = []
ledger_ids (r ∷ rs) =
    let rest = ledger_ids rs in if text_in r.migration_id rest then rest else r.migration_id ∷ rest

-- repo_ids[:len(applied)] == applied
unfoldable pub is_prefix : List Text → List Text → Bool
is_prefix [] ids = true
is_prefix (a ∷ applied) [] = false
is_prefix (a ∷ applied) (b ∷ ids) = text_eq a b && is_prefix applied ids

unfoldable pub record_of : Reading → Found → MigrationRecord
record_of reading f = record {
  migration_id = f.migration_id;
  filename = f.entry.name;
  content_hash = reading.sha256 f.entry.bytes;
}

-- The integrity loop, on the record that the ledger has of one file
unfoldable pub intact : Reading → Found → Option MigrationRecord → Result MigrationError (Unit {0})
intact reading f none = ok tt
intact reading f (some r) =
    if not (str_eq r.content_hash (reading.sha256 f.entry.bytes))
    then err (tampered f.entry.name)
    else if not (text_eq r.filename f.entry.name)
    then err (renamed f.migration_id)
    else ok tt

unfoldable pub all_intact :
    Reading → List MigrationRecord → List Found → Result MigrationError (Unit {0})
all_intact reading ledger [] = ok tt
all_intact reading ledger (f ∷ fs) =
    intact reading f (lookup f.migration_id ledger) >>= λ done. all_intact reading ledger fs

unfoldable pub verified :
    Reading → List MigrationRecord → List Found → Result MigrationError (Unit {0})
verified reading ledger files =
    if not (is_prefix (sort_by text_leb (ledger_ids ledger)) (ids_of files))
    then err ledger_gap
    else all_intact reading ledger files

module _ {S : Type 0} where
  -- What follows a call that may raise, on the state that the call leaves
  abbrev pub then_on :
      Result String (Unit {0}) × S
      → (S → Result String (Unit {0}) × S)
      → Result String (Unit {0}) × S
  then_on (err e, s) next = (err e, s)
  then_on (ok done, s) next = next s

  unfoldable pub run_statements : Connection S → List Text → S → Result String (Unit {0}) × S
  run_statements c [] s = (ok tt, s)
  run_statements c (x ∷ xs) s = then_on (c.execute x s) (run_statements c xs)

  -- The try block of one migration
  unfoldable pub transaction :
      Connection S → List Text → MigrationRecord → S → Result String (Unit {0}) × S
  transaction c statements r s =
      then_on (run_statements c statements s) (λ t. then_on (c.insert r t) (c.execute commit))

  -- The except block
  unfoldable pub roll_back :
      Text → Result String (Unit {0}) × S → Result MigrationError (Unit {0}) × S
  roll_back name (err message, s) = (err (database message), s)
  roll_back name (ok done, s) = (err (rolled_back name), s)

  -- What follows the try block
  unfoldable pub ended :
      Connection S → Text → Result String (Unit {0}) × S → Result MigrationError (Unit {0}) × S
  ended c name (err message, s) = roll_back name (c.execute rollback s)
  ended c name (ok done, s) = (ok tt, s)

  -- What follows BEGIN
  unfoldable pub begun :
      Connection S
      → Text
      → List Text
      → MigrationRecord
      → Result String (Unit {0}) × S
      → Result MigrationError (Unit {0}) × S
  begun c name statements r (err message, s) = (err (database message), s)
  begun c name statements r (ok done, s) = ended c name (transaction c statements r s)

  -- One pending migration, from BEGIN to COMMIT or ROLLBACK
  unfoldable pub apply_one :
      Connection S → Text → List Text → MigrationRecord → S → Result MigrationError (Unit {0}) × S
  apply_one c name statements r s = begun c name statements r (c.execute begin_transaction s)

  -- The outcome of a loop over files, with one more record in front
  abbrev pub recorded :
      MigrationRecord
      → Result MigrationError (List MigrationRecord) × S
      → Result MigrationError (List MigrationRecord) × S
  recorded r (err e, s) = (err e, s)
  recorded r (ok rs, s) = (ok (r ∷ rs), s)

  -- The loop over the files
  unfoldable pub apply_files :
      Connection S
      → Reading
      → List MigrationRecord
      → List Found
      → S
      → Result MigrationError (List MigrationRecord) × S
  apply_files c reading ledger [] s = (ok [], s)
  apply_files c reading ledger (f ∷ fs) s = elim (in_ledger f.migration_id ledger) [
    | true ↦ apply_files c reading ledger fs s
    | false ↦ elim (reading.read_text f.entry.bytes) [
      | none ↦ (err (undecodable f.entry.name), s)
      | some sql_text ↦
          let outcome =
            apply_one c f.entry.name (split_statements sql_text) (record_of reading f) s in
          elim outcome.0 [
            | err e ↦ (err e, outcome.1)
            | ok done ↦
                recorded (record_of reading f)
                  (apply_files c reading (record_of reading f ∷ ledger) fs outcome.1)
          ]
    ]
  ]

  unfoldable pub apply_found :
      Connection S
      → Reading
      → Result MigrationError (List Found)
      → S
      → Result MigrationError (List MigrationRecord) × S
  apply_found c reading (err e) s = (err e, s)
  apply_found c reading (ok files) s = elim (verified reading (c.rows s) files) [
    | err e ↦ (err e, s)
    | ok done ↦ apply_files c reading (c.rows s) files s
  ]

  unfoldable pub ledger_made :
      Connection S
      → Reading
      → Option (List DirEntry)
      → Result String (Unit {0}) × S
      → Result MigrationError (List MigrationRecord) × S
  ledger_made c reading directory (err message, s) = (err (database message), s)
  ledger_made c reading directory (ok done, s) =
      apply_found c reading (discover_migrations directory) s

  unfoldable pub apply_migrations :
      Connection S
      → Reading
      → Option (List DirEntry)
      → S
      → Result MigrationError (List MigrationRecord) × S
  apply_migrations c reading directory s =
      ledger_made c reading directory (c.execute reading.ledger_ddl s)
