-- ===== src/TradingRule/Resolve.antt =====
-- Point-in-time resolution of one rule: TradingRuleBook.resolve, resolve_limit_regime and what they
-- call, in spike/trading_rule.py.
pub mod Candidates
pub mod Preferred
pub mod Regime
pub mod Windows
pub mod Sound
pub mod Pit
pub mod Once
pub mod Answers
use a_share_analysis.Common.{
  ℕ, String, Bool, true, false, not, ◌&&◌, ◌||◌, Option, none, some, List, [], ◌∷◌, ◌++◌, Result,
  ok, err, ◌>>=◌, ◌>>◌, guard, any, keep, leb, ◌==◌, str_eq, Text, codes, strip, upper, text_in,
  if◌then◌else◌,
}
use a_share_analysis.TradingRule.Decimals.{Decimal}
use a_share_analysis.TradingRule.Dates.{
  RuleUnresolved, listing_context_missing, no_listing_age_rule, ambiguous, no_limit_regime,
  unknown_exchange, no_matching_rule, no_st_rule, DateValue, number, yyyymmdd, first_n_sessions,
}
use a_share_analysis.TradingRule.Rows.{TradingRuleRow, TradingRuleBook, string_in}

-- A rule resolved for a symbol and a day
pub record TradingRule : Type 0 where
  pub rule_id : String
  pub exchange : Text
  pub code : Text
  pub board : String
  pub effective_from : ℕ
  pub effective_to : ℕ
  pub up_rate : Decimal
  pub down_rate : Decimal
  pub tick_size : Decimal
  pub rounding_mode : String
  pub listing_age_rule : String
  pub source_ref : Text
  pub source_version : String
  pub review_status : String
  pub first_n_session : Bool

-- _to_rule
abbrev pub to_rule :
    TradingRuleBook → TradingRuleRow → (exch code : Text) → (first_n : Bool) → TradingRule
to_rule book row exch code first_n = record {
  rule_id = row.rule_id;
  exchange = exch;
  code = code;
  board = row.board;
  effective_from = row.effective_from;
  effective_to = row.effective_to;
  up_rate = row.up_rate;
  down_rate = row.down_rate;
  tick_size = row.tick_size;
  rounding_mode = row.rounding_mode;
  listing_age_rule = row.listing_age_rule;
  source_ref = row.source_ref;
  source_version = book.source_version;
  review_status = book.review_status;
  first_n_session = first_n;
}

-- _pattern_match: `x` stands for any character, and the lengths agree
unfoldable pub pattern_match : (pattern bare_code : Text) → Bool
pattern_match [] [] = true
pattern_match (p ∷ ps) (c ∷ cs) = (p == b'x' || p == c) && pattern_match ps cs
pattern_match _ _ = false

-- bare.rsplit(".", 1): the texts before and behind the last point, if there is one
rsplit : Text → Option (Text × Text)
rsplit [] = none
rsplit (c ∷ s) = elim (rsplit s) [
  | some (a, b) ↦ some (c ∷ a, b)
  | none ↦ if c == b'.' then some ([], s) else none
]

-- The bare code and the suffix of a code
unfoldable pub split_code : Text → Text × Text
unfolding strip upper rsplit
split_code code =
    let bare = strip code in
    elim (rsplit bare) [ none ↦ (bare, []) | some (a, b) ↦ (a, upper (strip b)) ]

-- `str(exchange).strip().upper() if exchange else suffix`
unfoldable pub exchange_or : (exchange suffix : Text) → Text
unfolding strip upper
exchange_or [] suffix = suffix
exchange_or exchange suffix = upper (strip exchange)

abbrev pub known_exchanges : List Text
known_exchanges = codes "SH" ∷ codes "SZ" ∷ codes "BJ" ∷ []

-- the condition of a candidate
unfoldable pub is_candidate : (exch bare : Text) → (day : ℕ) → TradingRuleRow → Bool
unfolding text_in any pattern_match
is_candidate exch bare day r =
    text_in exch r.exchanges
    && any (λ p. pattern_match p bare) r.code_patterns
    && leb r.effective_from day
    && leb day r.effective_to

unfoldable pub is_specific : Bool → TradingRuleRow → Bool
is_specific is_st r = elim r.st_state [ none ↦ false | some b ↦ b && is_st || not b && not is_st ]

unfoldable pub is_agnostic : TradingRuleRow → Bool
is_agnostic r = elim r.st_state [ none ↦ true | some b ↦ false ]

-- the loop that lists the age rules in the order of their first candidates
age_order : List String → List TradingRuleRow → List String
unfolding string_in
age_order seen [] = seen
age_order seen (r ∷ rules) =
    age_order (if string_in r.listing_age_rule seen then seen else seen ++ r.listing_age_rule ∷ [])
      rules

unfoldable pub has_age : String → TradingRuleRow → Bool
has_age age r = str_eq r.listing_age_rule age

-- `specific_for_age or any_for_age`
pub or_else {ℓ} : {A : Type ℓ} → List A → List A → List A
or_else [] ys = ys
or_else (x ∷ xs) ys = x ∷ xs

unfoldable pub rows_of_age :
    (specific agnostic : List TradingRuleRow) → String → List TradingRuleRow
unfolding or_else keep has_age
rows_of_age specific agnostic age =
    or_else (keep (has_age age) specific) (keep (has_age age) agnostic)

rows_of_ages : (specific agnostic : List TradingRuleRow) → List String → List TradingRuleRow
unfolding rows_of_age
rows_of_ages specific agnostic [] = []
rows_of_ages specific agnostic (age ∷ ages) =
    rows_of_age specific agnostic age ++ rows_of_ages specific agnostic ages

-- The rows that the candidates leave for an ST state
unfoldable pub select_state : Bool → List TradingRuleRow → List TradingRuleRow
unfolding keep is_specific is_agnostic age_order rows_of_ages
select_state is_st candidates =
    rows_of_ages (keep (is_specific is_st) candidates) (keep is_agnostic candidates)
      (age_order [] candidates)

pub record Selection : Type 0 where
  pub selected : List TradingRuleRow
  pub day : ℕ
  pub exch : Text
  pub bare : Text

-- `if not rows: raise e`
unfoldable pub some_rows :
    List TradingRuleRow → RuleUnresolved → Result RuleUnresolved (List TradingRuleRow)
some_rows [] e = err e
some_rows (r ∷ rows) e = ok (r ∷ rows)

-- _select_candidates
unfoldable pub select_candidates :
    TradingRuleBook
    → (exchange code : Text) → (trade_date : DateValue) → (is_st : Bool)
    → Result RuleUnresolved Selection
select_candidates book exchange code trade_date is_st = do
  let (bare, suffix) = split_code code
  let exch = exchange_or exchange suffix
  guard (text_in exch known_exchanges) unknown_exchange
  day ← yyyymmdd trade_date
  candidates ← some_rows (keep (is_candidate exch bare day) book.rules) no_matching_rule
  selected ← some_rows (select_state is_st candidates) no_st_rule
  ok (record { selected = selected; day = day; exch = exch; bare = bare })

-- exactly one row must be left
unfoldable pub the_row : RuleUnresolved → List TradingRuleRow → Result RuleUnresolved TradingRuleRow
the_row e [] = err e
the_row e (r ∷ []) = ok r
the_row e (r ∷ s ∷ rows) = err ambiguous

unfoldable pub resolve_limit_regime :
    TradingRuleBook
    → (exchange code : Text) → (trade_date : DateValue) → (is_st : Bool)
    → Result RuleUnresolved TradingRule
resolve_limit_regime book exchange code trade_date is_st = do
  s ← select_candidates book exchange code trade_date is_st
  row ← the_row no_limit_regime (keep (has_age "NONE") s.selected)
  ok (to_rule book row s.exch s.bare false)

unfoldable pub is_ipo_rule : TradingRuleRow → Bool
unfolding has_age
is_ipo_rule r = has_age "IPO_DAY_44_36" r || has_age "IPO_DAY_NO_LIMIT" r

-- The rows on a day that is no listing day with an IPO rule
unfoldable pub rows_by_sessions :
    List TradingRuleRow
    → (day : ℕ) → (listing_date : DateValue) → (calendar : List ℕ)
    → Result RuleUnresolved (List TradingRuleRow × Bool)
rows_by_sessions rows day listing_date calendar = do
  first_n ← first_n_sessions (number day) listing_date calendar 5
  ok (
      if first_n && any (has_age "FIRST_5_DAYS_NO_LIMIT") rows
      then (keep (has_age "FIRST_5_DAYS_NO_LIMIT") rows, true)
      else (keep (has_age "NONE") rows, false))

-- The rows for a listing age, and whether they are a first-N rule, once the context is at hand
unfoldable pub rows_by_age :
    List TradingRuleRow
    → (day : ℕ) → (listing_date : DateValue) → (calendar : List ℕ)
    → Result RuleUnresolved (List TradingRuleRow × Bool)
rows_by_age rows day listing_date calendar = do
  listed ← yyyymmdd listing_date
  if listed == day && any is_ipo_rule rows
      then ok (keep is_ipo_rule rows, true)
      else rows_by_sessions rows day listing_date calendar

-- the branch on `any(rule != "NONE" for rule in age_rules)`; no calendar is the empty one
unfoldable pub narrow :
    List TradingRuleRow
    → (day : ℕ) → (listing_date : Option DateValue) → (calendar : List ℕ)
    → Result RuleUnresolved (List TradingRuleRow × Bool)
narrow rows day none calendar =
    if any (λ r. not (has_age "NONE" r)) rows
    then err listing_context_missing
    else ok (keep (has_age "NONE") rows, false)
narrow rows day (some listing_date) [] =
    if any (λ r. not (has_age "NONE" r)) rows
    then err listing_context_missing
    else ok (keep (has_age "NONE") rows, false)
narrow rows day (some listing_date) (d ∷ calendar) =
    if any (λ r. not (has_age "NONE" r)) rows
    then rows_by_age rows day listing_date (d ∷ calendar)
    else ok (keep (has_age "NONE") rows, false)

unfoldable pub resolve :
    TradingRuleBook
    → (exchange code : Text) → (trade_date : DateValue) → (is_st : Bool)
    → (listing_date : Option DateValue) → (calendar : List ℕ) → Result RuleUnresolved TradingRule
resolve book exchange code trade_date is_st listing_date calendar = do
  s ← select_candidates book exchange code trade_date is_st
  (rows, first_n) ← narrow s.selected s.day listing_date calendar
  row ← the_row no_listing_age_rule rows
  ok (to_rule book row s.exch s.bare first_n)

-- What a run of `resolve` or `resolve_limit_regime` computes with
unfoldable pub resolving : Unit {0}
unfolding split_code exchange_or text_in yyyymmdd keep any is_candidate some_rows select_state
    select_candidates has_age the_row first_n_sessions rows_by_sessions is_ipo_rule rows_by_age
    narrow resolve_limit_regime resolve
resolving = tt
