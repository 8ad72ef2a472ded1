-- ===== src/Samples/Rules.antt =====
-- The rule book of the trading rules at a concrete book: two rows of the main board and one of an
-- IPO window, for one code.
use a_share_analysis.Common.{
  ℕ, ◌≤◌, ◌≡◌, refl, ◌≢◌, ◌↔◌, String, Bool, true, false, Option, none, some, List, [], ◌∷◌, ok,
  ◌>>=◌, Text, codes, arith, any, Memᴰ, err, ◌⊎◌, inl, text_in,
}
use a_share_analysis.TradingRule.Decimals.{Decimal, is_positive, quantize}
use a_share_analysis.TradingRule.Decimals.Units.{IsRate}
use a_share_analysis.TradingRule.Dates.{ambiguous, number, yyyymmdd, first_n_sessions, day_in}
use a_share_analysis.TradingRule.Dates.Sessions.{
  first_n_sessions_counts, first_n_sessions_same_days, sessions_on,
}
use a_share_analysis.TradingRule.Rows.{TradingRuleRow, TradingRuleBook, validate, trading_rule_book}
use a_share_analysis.TradingRule.Rows.Valid.{AllSound, validate_iff, trading_rule_book-AllSound}
use a_share_analysis.TradingRule.Resolve.{
  TradingRule, to_rule, resolve, resolve_limit_regime, resolving, is_candidate, is_specific,
  known_exchanges, split_code, exchange_or,
}
use a_share_analysis.TradingRule.Resolve.Regime.{IsTheRow, Applies}
use a_share_analysis.TradingRule.Resolve.Candidates.{is_candidate-IsInForce}
use a_share_analysis.TradingRule.Resolve.Answers.{resolve_limit_regime_answers}
use a_share_analysis.TradingRule.Resolve.Sound.{IsPlain, resolve_limit_regime_sound}
use a_share_analysis.TradingRule.Resolve.Pit.{Resolved, resolve_sound}
use a_share_analysis.TradingRule.Limits.{limit_prices}
use a_share_analysis.TradingRule.Limits.Bracket.{
  IsPrice, upper_digits, lower_digits, limit_prices_bracket, limit_prices_ignore_tick_digits,
}

abbrev cents : ℕ → Decimal
cents n = record { negative = false; digits = n; scale = 2 }

abbrev row_of : (rule_id listing_age_rule : String) → Option Bool → (rate : ℕ) → TradingRuleRow
row_of rule_id listing_age_rule st_state rate = record {
  rule_id = rule_id;
  board = "MAIN";
  exchanges = codes "SH" ∷ [];
  code_patterns = codes "60xxxx" ∷ [];
  effective_from = 20200101;
  effective_to = 20301231;
  st_state = st_state;
  listing_age_rule = listing_age_rule;
  up_rate = cents rate;
  down_rate = cents rate;
  tick_size = cents 1;
  rounding_mode = "ROUND_HALF_UP";
  source_ref = codes "SSE 3.3.13";
}

abbrev plain_row : TradingRuleRow
plain_row = row_of "main" "NONE" (some false) 10

abbrev rows : List TradingRuleRow
rows =
    plain_row
    ∷ row_of "main-st" "NONE" (some true) 5
    ∷ row_of "main-ipo" "FIRST_5_DAYS_NO_LIMIT" none 0
    ∷ []

abbrev book : TradingRuleBook
book = record { rules = rows; source_version = "v1"; review_status = "REVIEWED" }

abbrev code : Text
code = codes "600000.sh"

abbrev calendar : List ℕ
calendar =
    20240108 ∷ 20240102 ∷ 20240103 ∷ 20240104 ∷ 20240105 ∷ 20240109 ∷ 20240110 ∷ 20240102 ∷ []

first_n_sessions_counts_example :
    first_n_sessions (number 20240109) (number 20240102) calendar 5 ≡ (
      yyyymmdd (number 20240109) >>= λ day.
      yyyymmdd (number 20240102) >>= λ listed. sessions_on day listed calendar 5)
first_n_sessions_counts_example =
    first_n_sessions_counts (number 20240109) (number 20240102) calendar 5

same_in_first_n_sessions_same_days :
    (d : ℕ) → day_in d (20240103 ∷ 20240102 ∷ 20240103 ∷ []) ≡ day_in d (20240102 ∷ 20240103 ∷ [])
unfolding day_in any
same_in_first_n_sessions_same_days d = ground arith

first_n_sessions_same_days_example :
    first_n_sessions (number 20240103) (number 20240102) (20240103 ∷ 20240102 ∷ 20240103 ∷ []) 5
    ≡ first_n_sessions (number 20240103) (number 20240102) (20240102 ∷ 20240103 ∷ []) 5
first_n_sessions_same_days_example =
    first_n_sessions_same_days (number 20240103) (number 20240102)
      (20240103 ∷ 20240102 ∷ 20240103 ∷ []) (20240102 ∷ 20240103 ∷ []) 5
      same_in_first_n_sessions_same_days

validate_iff_example : (validate rows ≡ []) ↔ ((rows ≢ []) × AllSound [] rows)
validate_iff_example = validate_iff rows

built_in_trading_rule_book_AllSound : trading_rule_book rows "v1" "REVIEWED" ≡ ok book
unfolding trading_rule_book
built_in_trading_rule_book_AllSound = refl

trading_rule_book-AllSound_example : AllSound [] book.rules
trading_rule_book-AllSound_example =
    trading_rule_book-AllSound rows "v1" "REVIEWED" built_in_trading_rule_book_AllSound

abbrev rule : TradingRule
rule = to_rule book plain_row (codes "SH") (codes "600000") false

resolved_in_resolve_limit_regime_sound :
    resolve_limit_regime book [] code (number 20240109) false ≡ ok rule
unfolding resolving
resolved_in_resolve_limit_regime_sound = refl

resolve_limit_regime_sound_example :
    IsTheRow book [] code (number 20240109) false false IsPlain rule
resolve_limit_regime_sound_example =
    resolve_limit_regime_sound book [] code (number 20240109) false rule
      resolved_in_resolve_limit_regime_sound

resolved_in_resolve_sound :
    resolve book [] code (number 20240109) false (some (number 20240102)) calendar ≡ ok rule
unfolding resolving
resolved_in_resolve_sound = refl

resolve_sound_example :
    Resolved book [] code (number 20240109) false calendar rule (some (number 20240102))
resolve_sound_example =
    resolve_sound book [] code (number 20240109) false (some (number 20240102)) calendar rule
      resolved_in_resolve_sound

tick_in_limit_prices_bracket : is_positive (cents 1) ≡ true
unfolding is_positive
tick_in_limit_prices_bracket = refl

up_in_limit_prices_bracket : IsRate (cents 10)
up_in_limit_prices_bracket = (λ h. cc, omega arith)

limit_prices_bracket_example :
    IsPrice (upper_digits rule (cents 1033)) 4 (cents 1) (limit_prices rule (cents 1033)).0
    × IsPrice (lower_digits rule (cents 1033)) 4 (cents 1) (limit_prices rule (cents 1033)).1
    × ((limit_prices rule (cents 1033)).1.digits ≤ (quantize (cents 1033) (cents 1)).digits)
    × ((quantize (cents 1033) (cents 1)).digits ≤ (limit_prices rule (cents 1033)).0.digits)
limit_prices_bracket_example =
    limit_prices_bracket rule (cents 1033) tick_in_limit_prices_bracket up_in_limit_prices_bracket
      up_in_limit_prices_bracket refl

positive_in_limit_prices_ignore_tick_digits : is_positive (cents 1) ≡ true
unfolding is_positive
positive_in_limit_prices_ignore_tick_digits = refl

positive'_in_limit_prices_ignore_tick_digits : is_positive (cents 5) ≡ true
unfolding is_positive
positive'_in_limit_prices_ignore_tick_digits = refl

limit_prices_ignore_tick_digits_example :
    limit_prices (record rule { tick_size = cents 5 }) (cents 1033) ≡ limit_prices rule (cents 1033)
limit_prices_ignore_tick_digits_example =
    limit_prices_ignore_tick_digits rule (cents 5) (cents 1033)
      positive_in_limit_prices_ignore_tick_digits positive'_in_limit_prices_ignore_tick_digits refl

plain_row-Applies : Applies book (codes "SH") (codes "600000") 20240109 false plain_row
unfolding resolving is_specific is_candidate
plain_row-Applies = record {
  listed = Memᴰ.head refl;
  in_force = is_candidate-IsInForce (codes "SH") (codes "600000") 20240109 plain_row refl;
  state = inl refl;
}

known_in_resolve_limit_regime_answers : text_in (codes "SH") known_exchanges ≡ true
unfolding text_in any
known_in_resolve_limit_regime_answers = refl

dated_in_resolve_limit_regime_answers : yyyymmdd (number 20240109) ≡ ok 20240109
unfolding yyyymmdd
dated_in_resolve_limit_regime_answers = refl

rows-AllSound : AllSound [] rows
rows-AllSound = trading_rule_book-AllSound rows "v1" "REVIEWED" built_in_trading_rule_book_AllSound

resolve_limit_regime_answers_example :
    (((r : TradingRuleRow)
        → Applies book (codes "SH") (codes "600000") 20240109 false r
        → IsPlain r
        → r ≡ plain_row)
      × (resolve_limit_regime book [] code (number 20240109) false ≡ ok rule))
    ⊎ ((other : TradingRuleRow) × Applies book (codes "SH") (codes "600000") 20240109 false other
        × IsPlain other
        × (other.rule_id ≢ plain_row.rule_id)
        × (resolve_limit_regime book [] code (number 20240109) false ≡ err ambiguous))
unfolding split_code exchange_or
resolve_limit_regime_answers_example =
    resolve_limit_regime_answers book [] code (number 20240109) false 20240109 plain_row
      rows-AllSound known_in_resolve_limit_regime_answers dated_in_resolve_limit_regime_answers
      plain_row-Applies refl
