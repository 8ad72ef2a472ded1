-- ===== src/Migrations/Progress.antt =====
-- The loop of apply_migrations in storage/migrations.py over the files: what it leaves in the ledger,
-- whether it returns or raises.
use a_share_analysis.Common.{
  ◌≡◌, refl, ap, true, false, none, some, List, [], ◌∷◌, ◌++◌, map, Memᴰ, ◌⊎◌, inl, inr, Text,
  Result, ok, err, Bool-cases, Option-cases,
}
use a_share_analysis.Migrations.{
  MigrationRecord, MigrationError, undecodable, Found, split_statements,
}
use a_share_analysis.Migrations.Apply.{
  Connection, Reading, in_ledger, record_of, apply_one, recorded, apply_files,
}
use a_share_analysis.Migrations.Ledger.{Same, Same-refl, gained_more}
use a_share_analysis.Migrations.Transactions.{AllDdl, IsTransactional, apply_one_cases}

-- The files that the loop has to apply
unfoldable pub pending : Reading → List MigrationRecord → List Found → List Found
pending reading ledger [] = []
pending reading ledger (f ∷ fs) = elim (in_ledger f.migration_id ledger) [
  | true ↦ pending reading ledger fs
  | false ↦ f ∷ pending reading (record_of reading f ∷ ledger) fs
]

module _ {S : Type 0} (c : Connection S) (IsDdl : Text → Type 0) where
  -- Every statement of the files leaves the ledger alone.
  abbrev pub ArePlain : Reading → List Found → Type 0
  ArePlain reading files =
      (f : Found) (sql_text : Text)
      → Memᴰ f files
      → reading.read_text f.entry.bytes ≡ some sql_text
      → AllDdl c IsDdl (split_statements sql_text)

  -- The ledger has gained the records of the first of the pending files: of all of them if the call
  -- returned, which are then what it returned, and not of all if it raised.
  pub record Progress (reading : Reading) (todo : List Found) (before : List MigrationRecord)
      (result : Result MigrationError (List MigrationRecord) × S) : Type 0 where
    pub done : List Found
    pub rest : List Found
    pub split : todo ≡ done ++ rest
    pub gained : Same (c.rows result.1) (map (record_of reading) done ++ before)
    pub outcome :
        ((result.0 ≡ ok (map (record_of reading) done)) × (rest ≡ []))
        ⊎ (((e : MigrationError) × (result.0 ≡ err e))
            × ((f : Found) × (fs : List Found) × (rest ≡ f ∷ fs)))

  recorded-Progress :
      (reading : Reading) (f : Found) (todo : List Found) (middle before : List MigrationRecord)
      (result : Result MigrationError (List MigrationRecord) × S)
      → Same middle (record_of reading f ∷ before)
      → Progress reading todo middle result
      → Progress reading (f ∷ todo) before (recorded (record_of reading f) result)
  recorded-Progress reading f todo middle before (ok rs, t) a x = record {
    done = f ∷ x.done;
    rest = x.rest;
    split = ap (λ fs. f ∷ fs) x.split;
    gained = gained_more reading f x.done middle before (c.rows t) a x.gained;
    outcome = elim (x.outcome) [ inl (good, all) ↦ inl (cc good, all) | inr ((e, bad), more) ↦ cc ];
  }
  recorded-Progress reading f todo middle before (err e, t) a x = record {
    done = f ∷ x.done;
    rest = x.rest;
    split = ap (λ fs. f ∷ fs) x.split;
    gained = gained_more reading f x.done middle before (c.rows t) a x.gained;
    outcome = elim (x.outcome) [ inl (good, all) ↦ cc | inr bad ↦ inr bad ];
  }

  stopped_at :
      (reading : Reading) (f : Found) (fs : List Found) (before : List MigrationRecord)
      (result : Result MigrationError (List MigrationRecord) × S)
      → Same (c.rows result.1) before
      → (e : MigrationError) → result.0 ≡ err e
      → Progress reading (f ∷ fs) before result
  stopped_at reading f fs before result same e bad = record {
    done = [];
    rest = f ∷ fs;
    split = refl;
    gained = same;
    outcome = inr ((e, bad), (f, fs, refl));
  }

  module _ (reading : Reading) (ledger : List MigrationRecord) (f : Found) (fs : List Found)
      (s : S) where
    abbrev attempt : Text → Result MigrationError (Unit {0}) × S
    attempt sql_text = apply_one c f.entry.name (split_statements sql_text) (record_of reading f) s

    pending-known :
        in_ledger f.migration_id ledger ≡ true
        → pending reading ledger (f ∷ fs) ≡ pending reading ledger fs
    unfolding pending
    pending-known e = rw (e, pending) refl

    pending-new :
        in_ledger f.migration_id ledger ≡ false
        → pending reading ledger (f ∷ fs) ≡ f ∷ pending reading (record_of reading f ∷ ledger) fs
    unfolding pending
    pending-new e = rw (e, pending) refl

    apply_files-known :
        in_ledger f.migration_id ledger ≡ true
        → apply_files c reading ledger (f ∷ fs) s ≡ apply_files c reading ledger fs s
    unfolding apply_files
    apply_files-known e = rw (e, apply_files) refl

    apply_files-unread :
        in_ledger f.migration_id ledger ≡ false
        → reading.read_text f.entry.bytes ≡ none
        → apply_files c reading ledger (f ∷ fs) s ≡ (err (undecodable f.entry.name), s)
    unfolding apply_files
    apply_files-unread e u = rw (e, u, apply_files) refl

    apply_files-applied :
        (sql_text : Text)
        → in_ledger f.migration_id ledger ≡ false
        → reading.read_text f.entry.bytes ≡ some sql_text
        → (attempt sql_text).0 ≡ ok tt
        → apply_files c reading ledger (f ∷ fs) s
          ≡ recorded
              (record_of reading f)
              (apply_files c reading (record_of reading f ∷ ledger) fs (attempt sql_text).1)
    unfolding apply_files
    apply_files-applied sql_text e u good = rw (e, u, good, apply_files) refl

    apply_files-failed :
        (sql_text : Text) (x : MigrationError)
        → in_ledger f.migration_id ledger ≡ false
        → reading.read_text f.entry.bytes ≡ some sql_text
        → (attempt sql_text).0 ≡ err x
        → apply_files c reading ledger (f ∷ fs) s ≡ (err x, (attempt sql_text).1)
    unfolding apply_files
    apply_files-failed sql_text x e u bad = rw (e, u, bad, apply_files) refl

  pub apply_files-Progress :
      (laws : IsTransactional c IsDdl) (reading : Reading) (files : List Found)
      (ledger : List MigrationRecord) (s : S)
      → ArePlain reading files
      → Progress reading
          (pending reading ledger files)
          (c.rows s)
          (apply_files c reading ledger files s)
  unfolding pending apply_files
  apply_files-Progress laws reading [] ledger s plain = record {
    done = [];
    rest = [];
    split = refl;
    gained = Same-refl (c.rows s);
    outcome = inl (refl, refl);
  }
  apply_files-Progress laws reading (f ∷ fs) ledger s plain =
      let plain' =
        λ (g : Found) (t : Text) (m : Memᴰ g fs) (r : reading.read_text g.entry.bytes ≡ some t).
          plain g t (Memᴰ.tail m) r in
      elim (Bool-cases (in_ledger f.migration_id ledger)) [
        | inl e ↦
            rw (pending-known reading ledger f fs s e, apply_files-known reading ledger f fs s e)
              (apply_files-Progress laws reading fs ledger s plain')
        | inr e ↦ elim (Option-cases (reading.read_text f.entry.bytes)) [
          | inl u ↦
              rw (pending-new reading ledger f fs s e, apply_files-unread reading ledger f fs s e u)
                (stopped_at reading f _ (c.rows s) _ (Same-refl (c.rows s))
                  (undecodable f.entry.name) refl)
          | inr (sql_text, u) ↦
              elim (apply_one_cases c IsDdl laws s f.entry.name (split_statements sql_text)
                (record_of reading f) (plain f sql_text (Memᴰ.head refl) u)) [
                  | inl (good, same) ↦
                      rw
                        (
                          pending-new reading ledger f fs s e,
                          apply_files-applied reading ledger f fs s sql_text e u good,
                        )
                        (recorded-Progress reading f _ _ (c.rows s) _ same (
                          apply_files-Progress laws reading fs (record_of reading f ∷ ledger)
                            (attempt reading ledger f fs s sql_text).1 plain'))
                  | inr (same, (x, bad)) ↦
                      rw
                        (
                          pending-new reading ledger f fs s e,
                          apply_files-failed reading ledger f fs s sql_text x e u bad,
                        )
                        (stopped_at reading f _ (c.rows s) _ same x refl)
                ]
        ]
      ]
