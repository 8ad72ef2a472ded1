-- ===== src/Migrations/Ledger.antt =====
-- Ledgers of storage/migrations.py compared as sets of records.
use a_share_analysis.Common.{List, [], ◌∷◌, ◌++◌, map, Memᴰ, Memᴰ-cons, ◌↔◌, inl, inr}
use a_share_analysis.Migrations.{MigrationRecord, Found}
use a_share_analysis.Migrations.Apply.{Reading, record_of}

-- The same records, in any order
abbrev pub Same : List MigrationRecord → List MigrationRecord → Type 0
Same rs ts = (z : MigrationRecord) → Memᴰ z rs ↔ Memᴰ z ts

pub Same-refl : (rs : List MigrationRecord) → Same rs rs
Same-refl rs z = (λ m. m, λ m. m)

pub Same-trans : {rs ts us : List MigrationRecord} → Same rs ts → Same ts us → Same rs us
Same-trans a b z = (λ m. (b z).0 ((a z).0 m), λ m. (a z).1 ((b z).1 m))

pub Same-cons :
    {rs ts : List MigrationRecord} (r : MigrationRecord) → Same rs ts → Same (r ∷ rs) (r ∷ ts)
Same-cons r a z = (
  (λ m. elim (Memᴰ-cons m) [ inl e ↦ Memᴰ.head e | inr n ↦ Memᴰ.tail ((a z).0 n) ]),
  λ m. elim (Memᴰ-cons m) [ inl e ↦ Memᴰ.head e | inr n ↦ Memᴰ.tail ((a z).1 n) ],
)

pub Same-append :
    {rs ts : List MigrationRecord} (xs : List MigrationRecord)
    → Same rs ts
    → Same (xs ++ rs) (xs ++ ts)
Same-append [] a = a
Same-append (x ∷ xs) a = Same-cons x (Same-append xs a)

Same-swap : (r x : MigrationRecord) (rs : List MigrationRecord) → Same (x ∷ r ∷ rs) (r ∷ x ∷ rs)
Same-swap r x rs z = (swap r x, swap x r)
  where
    swap : (a b : MigrationRecord) → Memᴰ z (b ∷ a ∷ rs) → Memᴰ z (a ∷ b ∷ rs)
    swap a b m = elim (Memᴰ-cons m) [
      | inl e ↦ Memᴰ.tail (Memᴰ.head e)
      | inr n ↦ elim (Memᴰ-cons n) [ inl e ↦ Memᴰ.head e | inr o ↦ Memᴰ.tail (Memᴰ.tail o) ]
    ]

Same-middle :
    (xs : List MigrationRecord) (r : MigrationRecord) (rs : List MigrationRecord)
    → Same (xs ++ r ∷ rs) (r ∷ xs ++ rs)
Same-middle [] r rs = Same-refl (r ∷ rs)
Same-middle (x ∷ xs) r rs =
    Same-trans (Same-cons x (Same-middle xs r rs)) (Same-swap r x (xs ++ rs))

pub gained_more :
    (reading : Reading) (f : Found) (done : List Found) (middle before after : List MigrationRecord)
    → Same middle (record_of reading f ∷ before)
    → Same after (map (record_of reading) done ++ middle)
    → Same after (record_of reading f ∷ map (record_of reading) done ++ before)
gained_more reading f done middle before after a gained = Same-trans gained (
    Same-trans (Same-append (map (record_of reading) done) a)
      (Same-middle (map (record_of reading) done) (record_of reading f) before))
