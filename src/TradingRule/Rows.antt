-- ===== src/TradingRule/Rows.antt =====
-- The rule rows of spike/trading_rule.py and their validation. A problem that validate reports is a
-- value with the row's id, in place of the formatted text.
pub mod Checks
pub mod Valid
use a_share_analysis.Common.{
  ℕ, String, Bool, true, false, not, ◌&&◌, ◌||◌, Option, none, some, List, [], ◌∷◌, ◌++◌, Result,
  ok, err, any, ltb, str_eq, Text, codes, strip, lower, text_eq, ◌==◌, has_part, if◌then◌else◌,
}
use a_share_analysis.TradingRule.Decimals.{Decimal, whole, decimal_leb, is_positive}

pub record TradingRuleRow : Type 0 where
  pub rule_id : String
  pub board : String
  pub exchanges : List Text
  pub code_patterns : List Text
  pub effective_from : ℕ
  pub effective_to : ℕ
  pub st_state : Option Bool
  pub listing_age_rule : String
  pub up_rate : Decimal
  pub down_rate : Decimal
  pub tick_size : Decimal
  pub rounding_mode : String
  pub source_ref : Text

-- _LISTING_AGE_RULES, _ROUNDING_MODES
abbrev pub listing_age_rules : List String
listing_age_rules = "NONE" ∷ "FIRST_5_DAYS_NO_LIMIT" ∷ "IPO_DAY_44_36" ∷ "IPO_DAY_NO_LIMIT" ∷ []

abbrev pub rounding_modes : List String
rounding_modes = "ROUND_HALF_UP" ∷ []

-- _UNRESOLVED_SOURCE_MARKERS
abbrev pub unresolved_source_markers : List Text
unresolved_source_markers =
    codes "to be checked" ∷ codes "todo" ∷ codes "tbd" ∷ codes "待确认" ∷ codes "待核" ∷ []

-- x in xs, for strings
unfoldable pub string_in : String → List String → Bool
unfolding any
string_in s l = any (λ t. str_eq t s) l

-- the loop over the markers, which stops at the first that occurs
pub first_marker : Text → List Text → Option Text
unfolding has_part
first_marker source [] = none
first_marker source (m ∷ markers) =
    let later = first_marker source markers in if has_part m source then some m else later

pub data Problem : Type 0 where
  duplicate_rule_id empty_exchanges empty_code_patterns window_reversed : String → Problem
  up_rate_out_of_range down_rate_out_of_range tick_size_not_positive : String → Problem
  unknown_listing_age_rule unknown_rounding_mode : String → Problem
  unresolved_marker : String → Text → Problem
  no_rules_loaded : Problem

-- `if test: problems.append(problem)`, for each test in turn
pub reported : List (Bool × Problem) → List Problem
reported [] = []
reported ((b, p) ∷ tests) = let later = reported tests in if b then p ∷ later else later

unfoldable pub is_nil {ℓ} : {A : Type ℓ} → List A → Bool
is_nil [] = true
is_nil (x ∷ xs) = false

-- Decimal(0) <= rate <= Decimal(1)
unfoldable pub in_unit : Decimal → Bool
unfolding decimal_leb
in_unit rate = decimal_leb (whole 0) rate && decimal_leb rate (whole 1)

-- the body of the loop of validate, up to the markers
row_tests : List String → TradingRuleRow → List (Bool × Problem)
row_tests seen r =
    (string_in r.rule_id seen, duplicate_rule_id r.rule_id)
    ∷ (is_nil r.exchanges, empty_exchanges r.rule_id)
    ∷ (is_nil r.code_patterns, empty_code_patterns r.rule_id)
    ∷ (ltb r.effective_to r.effective_from, window_reversed r.rule_id)
    ∷ (not (in_unit r.up_rate), up_rate_out_of_range r.rule_id)
    ∷ (not (in_unit r.down_rate), down_rate_out_of_range r.rule_id)
    ∷ (not (is_positive r.tick_size), tick_size_not_positive r.rule_id)
    ∷ (not (string_in r.listing_age_rule listing_age_rules), unknown_listing_age_rule r.rule_id)
    ∷ (not (string_in r.rounding_mode rounding_modes), unknown_rounding_mode r.rule_id)
    ∷ []

pub marker_problems : String → Option Text → List Problem
marker_problems rule_id none = []
marker_problems rule_id (some m) = unresolved_marker rule_id m ∷ []

row_problems : List String → TradingRuleRow → List Problem
unfolding row_tests reported first_marker marker_problems string_in is_nil in_unit is_positive lower
row_problems seen r =
    reported (row_tests seen r)
    ++ marker_problems r.rule_id (first_marker (lower r.source_ref) unresolved_source_markers)

rules_problems : List String → List TradingRuleRow → List Problem
unfolding row_problems
rules_problems seen [] = []
rules_problems seen (r ∷ rules) = row_problems seen r ++ rules_problems (r.rule_id ∷ seen) rules

-- TradingRuleBook.validate
unfoldable pub validate : List TradingRuleRow → List Problem
unfolding rules_problems is_nil
validate rules = rules_problems [] rules ++ (if is_nil rules then no_rules_loaded ∷ [] else [])

pub record TradingRuleBook : Type 0 where
  pub rules : List TradingRuleRow
  pub source_version : String
  pub review_status : String

-- TradingRuleBook(...): the constructor raises ValueError with the problems that validate finds.
unfoldable pub trading_rule_book :
    (rules : List TradingRuleRow) (source_version review_status : String)
    → Result (List Problem) TradingRuleBook
unfolding validate is_nil
trading_rule_book rules source_version review_status =
    let problems = validate rules in
    if is_nil problems
    then ok
        (record { rules = rules; source_version = source_version; review_status = review_status })
    else err problems

-- The raw st_state of a rule entry: absent, a bool, or anything else by its text.
pub data StValue : Type 0 where
  missing : StValue
  flag : Bool → StValue
  words : Text → StValue

-- _parse_st_state: a rule's state, None for any state, or the ValueError with the raw text
unfoldable pub parse_st_state : StValue → Result Text (Option Bool)
unfolding strip lower text_eq
parse_st_state missing = ok none
parse_st_state (flag b) = ok (some b)
parse_st_state (words raw) =
    let lowered = lower (strip raw) in
    if text_eq lowered (codes "any")
    then ok none
    else if text_eq lowered (codes "true")
    then ok (some true)
    else if text_eq lowered (codes "false")
    then ok (some false)
    else err raw
