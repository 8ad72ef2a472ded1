-- ===== src/Samples/Migrations.antt =====
-- Two migrations over a small database, the second of which fails and is rolled back.
use a_share_analysis.Common.{
  ◌≡◌, refl, sym, ap, ◌∙◌, subst, String, true, Option, none, some, List, [], ◌∷◌, ◌⊎◌, inl, inr,
  starts_with, lower, is_digit, sort_by, text_leb, text_in, any, decimal, keep, drop_space,
  is_space, strip, Memᴰ, Memᴰ-cons, Text, codes, text_eq, Result, ok, err, if◌then◌else◌,
  ok_injective,
}
use a_share_analysis.Migrations.{
  DirEntry, MigrationRecord, Found, discover_migrations, split_statements, find_migrations, is_sql,
  migration_name, is_name_body, is_name_char, is_name_rest, checked_sequence, has_duplicate, ids_of,
  check_sequence, split_semicolons, join_lines, effective_lines, split_lines, before_comment,
}
use a_share_analysis.Migrations.Apply.{
  Connection, Reading, begin_transaction, commit, rollback, apply_migrations,
}
use a_share_analysis.Migrations.Ledger.{Same}
use a_share_analysis.Migrations.Transactions.{
  Within, opened, ran, inserted, commit_failed, IsTransactional,
}
use a_share_analysis.Migrations.Progress.{ArePlain}
use a_share_analysis.Migrations.Atomic.{Settled, apply_migrations-Settled}

-- The committed rows, and those of the open transaction
abbrev Tables : Type 0
Tables = List MigrationRecord × Option (List MigrationRecord)

data Statement : Type 0 where
  begins commits rolls_back broken other : Statement

unfoldable read : Text → Statement
read x =
    if text_eq x begin_transaction
    then begins
    else if text_eq x commit
    then commits
    else if text_eq x rollback
    then rolls_back
    else if text_eq x (codes "BROKEN")
    then broken
    else other

unfoldable perform : Statement → Tables → Result String (Unit {0}) × Tables
perform begins (rs, none) = (ok tt, (rs, some rs))
perform begins (rs, some ws) = (err "in a transaction", (rs, some ws))
perform commits (rs, none) = (err "no transaction", (rs, none))
perform commits (rs, some ws) = (ok tt, (ws, none))
perform rolls_back (rs, none) = (err "no transaction", (rs, none))
perform rolls_back (rs, some ws) = (ok tt, (rs, none))
perform broken s = (err "syntax error", s)
perform other s = (ok tt, s)

unfoldable add : MigrationRecord → Tables → Result String (Unit {0}) × Tables
add r (rs, none) = (ok tt, (r ∷ rs, none))
add r (rs, some ws) = (ok tt, (rs, some (r ∷ ws)))

unfoldable visible : Tables → List MigrationRecord
visible (rs, none) = rs
visible (rs, some ws) = ws

abbrev tables : Connection Tables
tables = record { execute = λ x. perform (read x); insert = add; rows = visible }

abbrev IsDdl : Text → Type 0
IsDdl x = (read x ≡ other) ⊎ (read x ≡ broken)

Same-here : (rs : List MigrationRecord) → Same rs rs
Same-here rs z = (λ m. m, λ m. m)

state-perform : (x : Text) (s : Tables) → IsDdl x → (perform (read x) s).1 ≡ s
unfolding perform
state-perform x s (inl e) = rw e refl
state-perform x s (inr e) = rw e refl

state-begin : (s : Tables) → visible (perform (read begin_transaction) s).1 ≡ visible s
unfolding perform read text_eq visible
state-begin (rs, none) = refl
state-begin (rs, some ws) = refl

state-commit : (s t : Tables) → perform (read commit) s ≡ (ok tt, t) → visible t ≡ visible s
unfolding perform read text_eq visible
state-commit (rs, none) t h = cc
state-commit (rs, some ws) t h = ap (λ p. visible p.1) (sym h)

-- Inside a transaction, the committed rows are those of the state in which it began.
Within-cases :
    (s t : Tables)
    → Within tables IsDdl s t
    → (ws : List MigrationRecord) × (t ≡ (visible s, some ws))
unfolding perform read text_eq visible add
Within-cases (rs, none) t (opened e) = (rs, ap (λ p. p.1) (sym e))
Within-cases (rs, some ws) t (opened e) = cc
Within-cases s t (ran {t = u} x d w e) =
    let (ws, q) = Within-cases s u w in (ws, ap (λ p. p.1) (sym e) ∙ state-perform x u d ∙ q)
Within-cases s t (inserted {t = u} r w e) =
    let (ws, q) = Within-cases s u w in (r ∷ ws, ap (λ p. p.1) (sym e) ∙ ap (λ y. (add r y).1) q)
Within-cases s t (commit_failed {t = u} w e) =
    let (ws, q) = Within-cases s u w in
    cc (ap (λ y. (perform (read commit) y).0) q, ap (λ p. p.0) e)

state-rollback :
    (s t : Tables) → Within tables IsDdl s t → visible (perform (read rollback) t).1 ≡ visible s
unfolding perform read text_eq
state-rollback s t w =
    let (ws, q) = Within-cases s t w in
    ap (λ y. visible (perform (read rollback) y).1) q ∙ unfold visible in refl

Same-of_eq : {rs ts : List MigrationRecord} → rs ≡ ts → Same rs ts
Same-of_eq {rs} e = subst (Same rs) e (Same-here rs)

visible-add : (r : MigrationRecord) (s : Tables) → visible (add r s).1 ≡ r ∷ visible s
unfolding visible add
visible-add r (rs, none) = refl
visible-add r (rs, some ws) = refl

tables-IsTransactional : IsTransactional tables IsDdl
tables-IsTransactional = record {
  begin_keeps = λ {s} e. Same-of_eq (ap (λ p. visible p.1) (sym e) ∙ state-begin s);
  ddl_keeps =
      λ {s} x d e. Same-of_eq (ap (λ p. visible p.1) (sym e) ∙ ap visible (state-perform x s d));
  insert_adds = λ {s} r e. Same-of_eq (ap (λ p. visible p.1) (sym e) ∙ visible-add r s);
  commit_keeps = λ {s} {t} e. Same-of_eq (state-commit s t e);
  rollback_restores =
      λ {s} {t} w e. Same-of_eq (ap (λ p. visible p.1) (sym e) ∙ state-rollback s t w);
}

abbrev reading : Reading
reading = record {
  sha256 = λ t. "d1";
  read_text = λ t. some t;
  ledger_ddl = codes "CREATE TABLE IF NOT EXISTS meta_schema_version";
}

abbrev file : String → String → DirEntry
file name sql = record { is_file = true; name = codes name; bytes = codes sql }

abbrev first_sql : String
first_sql = "-- days\nCREATE TABLE days;"

abbrev second_sql : String
second_sql = "CREATE TABLE bars; -- bars\nBROKEN;"

abbrev entries : List DirEntry
entries = file "002_bars.sql" second_sql ∷ file "README.md" "" ∷ file "001_days.sql" first_sql ∷ []

abbrev files : List Found
files =
    record { migration_id = codes "001"; entry = file "001_days.sql" first_sql }
    ∷ record { migration_id = codes "002"; entry = file "002_bars.sql" second_sql }
    ∷ []

files_found : discover_migrations (some entries) ≡ ok files
unfolding discover_migrations find_migrations is_sql starts_with lower migration_name is_digit
    is_name_body is_name_char is_name_rest text_eq checked_sequence has_duplicate ids_of sort_by
    text_leb text_in check_sequence any decimal
files_found = refl

first_statements : split_statements (codes first_sql) ≡ codes "CREATE TABLE days" ∷ []
unfolding split_statements keep split_semicolons join_lines effective_lines split_lines starts_with
    drop_space is_space before_comment text_eq strip
first_statements = refl

second_statements :
    split_statements (codes second_sql) ≡ codes "CREATE TABLE bars" ∷ codes "BROKEN" ∷ []
unfolding split_statements keep split_semicolons join_lines effective_lines split_lines starts_with
    drop_space is_space before_comment text_eq strip
second_statements = refl

IsDdl-statements :
    (IsDdl (codes "CREATE TABLE days")) × IsDdl (codes "CREATE TABLE bars") × IsDdl (codes "BROKEN")
unfolding read text_eq
IsDdl-statements = (inl refl, inl refl, inr refl)

in_first : (x : Text) → Memᴰ x (split_statements (codes first_sql)) → IsDdl x
in_first x n = elim (Memᴰ-cons (subst (Memᴰ x) first_statements n)) [
  | inl e ↦ subst IsDdl (sym e) IsDdl-statements.0
  | inr never ↦ elim never [ ]
]

in_second : (x : Text) → Memᴰ x (split_statements (codes second_sql)) → IsDdl x
in_second x n = elim (Memᴰ-cons (subst (Memᴰ x) second_statements n)) [
  | inl e ↦ subst IsDdl (sym e) IsDdl-statements.1
  | inr later ↦ elim (Memᴰ-cons later) [
    | inl e ↦ subst IsDdl (sym e) IsDdl-statements.2
    | inr never ↦ elim never [ ]
  ]
]

plain :
    (found : List Found)
    → discover_migrations (some entries) ≡ ok found
    → ArePlain tables IsDdl reading found
plain found e f sql_text m text x n =
    elim (Memᴰ-cons (subst (Memᴰ f) (ok_injective (sym e ∙ files_found)) m)) [
      | inl same ↦ in_first x (subst (λ t. Memᴰ x (split_statements t)) (cc (same, text)) n)
      | inr later ↦ elim (Memᴰ-cons later) [
        | inl same ↦ in_second x (subst (λ t. Memᴰ x (split_statements t)) (cc (same, text)) n)
        | inr never ↦ elim never [ ]
      ]
    ]

made : read reading.ledger_ddl ≡ other
unfolding read text_eq
made = refl

apply_migrations-Settled_example :
    Settled tables IsDdl reading
      (some entries)
      []
      (apply_migrations tables reading (some entries) ([], none))
unfolding visible
apply_migrations-Settled_example =
    apply_migrations-Settled tables IsDdl tables-IsTransactional reading (some entries) ([], none)
      (λ t outcome e. Same-of_eq (
        ap (λ p. visible p.1) (sym e)
        ∙ ap visible (state-perform reading.ledger_ddl ([], none) (inl made))))
      plain
