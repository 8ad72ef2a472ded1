-- ===== src/Migrations.antt =====
-- storage/migrations.py: the numbered SQL files of a directory, as discover_migrations reads them,
-- and the statements of a file. Digits and white space are those of ASCII.
pub mod Apply
pub mod Ledger
pub mod Transactions
pub mod Progress
pub mod Atomic
use a_share_analysis.Common.{
  ℕ, suc, ◌+◌, String, Bool, true, false, not, ◌&&◌, ◌||◌, Option, none, some, List, [], ◌∷◌, ◌++◌,
  map, keep, any, reverse, leb, ltb, ◌==◌, length, Text, codes, text_eq, text_in, text_leb, lower,
  strip, is_space, is_digit, decimal, starts_with, has_part, drop_space, sort_by, Result, ok, err,
  ◌>>=◌, if◌then◌else◌,
}

-- An entry of the migrations directory
pub record DirEntry : Type 0 where
  pub is_file : Bool
  pub name : Text
  pub bytes : Text

pub record MigrationRecord : Type 0 where
  pub migration_id : Text
  pub filename : Text
  pub content_hash : String

-- The errors of the module, and what else can escape: an exception of the database, and a file that
-- is no UTF-8
pub data MigrationError : Type 0 where
  directory_not_found duplicate_ids ledger_gap : MigrationError
  naming : (name : Text) → MigrationError
  sequence_gap : (expected : ℕ) (actual : Text) → MigrationError
  tampered : (name : Text) → MigrationError
  renamed : (migration_id : Text) → MigrationError
  rolled_back : (name : Text) → MigrationError
  database : (message : String) → MigrationError
  undecodable : (name : Text) → MigrationError

-- The letters of [a-z0-9_]
unfoldable pub is_name_char : ℕ → Bool
unfolding is_digit
is_name_char c = leb b'a' c && leb c b'z' || is_digit c || c == b'_'

-- [a-z0-9_]*\.sql$, where the end may have a line feed before it
unfoldable pub is_name_rest : Text → Bool
unfolding is_name_char
is_name_rest [] = false
is_name_rest (c ∷ s) =
    let later = is_name_rest s in
    if is_name_char c
    then later
    else text_eq (c ∷ s) (codes ".sql") || text_eq (c ∷ s) (codes ".sql\n")

unfoldable pub is_name_body : Text → Bool
is_name_body [] = false
is_name_body (c ∷ s) = is_name_char c && is_name_rest s

-- _MIGRATION_NAME.match(name).group(1)
unfoldable pub migration_name : Text → Option Text
migration_name (a ∷ b ∷ c ∷ d ∷ s) =
    if is_digit a && is_digit b && is_digit c && d == b'_' && is_name_body s
    then some (a ∷ b ∷ c ∷ [])
    else none
migration_name _ = none

-- path.suffix.lower() == ".sql": the name goes on before its last dot
unfoldable pub is_sql : Text → Bool
is_sql name = ltb 4 (length name) && starts_with (reverse (lower name)) (reverse (codes ".sql"))

-- A migration file with the id of its name
pub record Found : Type 0 where
  pub migration_id : Text
  pub entry : DirEntry

-- The loop over the directory
unfoldable pub find_migrations : List DirEntry → Result MigrationError (List Found)
find_migrations [] = ok []
find_migrations (e ∷ es) =
    let rest = find_migrations es in
    if not (e.is_file && is_sql e.name) then rest else elim (migration_name e.name) [
      | none ↦ err (naming e.name)
      | some id ↦ rest >>= λ found. ok (record { migration_id = id; entry = e } ∷ found)
    ]

unfoldable pub has_duplicate : List Text → Bool
has_duplicate [] = false
has_duplicate (x ∷ xs) = text_in x xs || has_duplicate xs

-- The ids must be numbered from `expected` on.
unfoldable pub check_sequence : ℕ → List Found → Result MigrationError (Unit {0})
check_sequence expected [] = ok tt
check_sequence expected (f ∷ fs) =
    let rest = check_sequence (suc expected) fs in
    if not (decimal 0 f.migration_id == expected)
    then err (sequence_gap expected f.migration_id)
    else rest

unfoldable pub ids_of : List Found → List Text
ids_of fs = map (λ f. f.migration_id) fs

-- The checks of discover_migrations on the sorted files
unfoldable pub checked_sequence : List Found → Result MigrationError (List Found)
checked_sequence sorted =
    if has_duplicate (ids_of sorted)
    then err duplicate_ids
    else check_sequence 1 sorted >>= λ done. ok sorted

-- discover_migrations; nothing stands for a path that is no directory.
unfoldable pub discover_migrations : Option (List DirEntry) → Result MigrationError (List Found)
discover_migrations none = err directory_not_found
discover_migrations (some entries) = find_migrations entries >>= λ found.
    checked_sequence (sort_by (λ f g. text_leb f.migration_id g.migration_id) found)

-- str.splitlines() on ASCII, with the line begun so far; a carriage return and a line feed are one
-- break, and a break at the end begins no line.
is_break : ℕ → Bool
is_break c = leb 10 c && leb c 13 || leb 28 c && leb c 30

abbrev after_return : ℕ → Text → Bool
after_return c (d ∷ s) = c == 13 && d == 10
after_return c [] = false

unfoldable pub split_lines : Text → Text → List Text
unfolding is_break
split_lines [] [] = []
split_lines (b ∷ line) [] = reverse (b ∷ line) ∷ []
split_lines line (c ∷ s) = elim (after_return c s) [
  | true ↦ split_lines line s
  | false ↦ elim (is_break c) [
    | true ↦ reverse line ∷ split_lines [] s
    | false ↦ split_lines (c ∷ line) s
  ]
]

-- line[:line.find(" -- ")], the whole line without that part
unfoldable pub before_comment : Text → Text
before_comment [] = []
before_comment (c ∷ s) =
    let rest = before_comment s in if starts_with (c ∷ s) (codes " -- ") then [] else c ∷ rest

-- The lines that are no comments, joined by line feeds
unfoldable pub effective_lines : List Text → List Text
effective_lines [] = []
effective_lines (line ∷ lines) =
    let rest = effective_lines lines in
    if starts_with (drop_space line) (codes "--") then rest else before_comment line ∷ rest

unfoldable pub join_lines : List Text → Text
join_lines [] = []
join_lines (line ∷ []) = line
join_lines (line ∷ other ∷ lines) = line ++ (10 ∷ join_lines (other ∷ lines))

-- text.split(";"), with the statement begun so far
unfoldable pub split_semicolons : Text → Text → List Text
split_semicolons part [] = reverse part ∷ []
split_semicolons part (c ∷ s) = elim (c == b';') [
  | true ↦ reverse part ∷ split_semicolons [] s
  | false ↦ split_semicolons (c ∷ part) s
]

unfoldable pub split_statements : Text → List Text
split_statements sql_text =
    keep (λ s. not (text_eq s []))
      (map strip (split_semicolons [] (join_lines (effective_lines (split_lines [] sql_text)))))
