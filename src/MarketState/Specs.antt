-- ===== src/MarketState/Specs.antt =====
-- The declarations of state/registry.py: the four descriptive states of the V1 set and the set itself.
use a_share_analysis.Common.{String, List, [], ◌∷◌}

-- Literal["SUPPORTED", "BLOCKED"]
pub data Eligibility : Type 0 where
  supported blocked : Eligibility

pub record StateSpec : Type 0 where
  pub state_name : String
  pub output_enum : List String
  pub required_feature_inputs : List String
  pub rule_id : String
  pub threshold_policy : String
  pub missingness_policy : String
  pub availability_rule : String
  pub interpretation : String
  pub non_predictive_statement : String
  pub eligibility : Eligibility

pub record StateSet : Type 0 where
  pub state_set_id : String
  pub state_set_version : String
  pub state_registry_version : String
  pub contract_version : String
  pub states : List StateSpec

abbrev pub supported_state_names : List String
supported_state_names =
    "return_center_state" ∷ "daily_participation_state" ∷ "trend_participation_state"
    ∷ "market_structure_state" ∷ []

abbrev pub return_center_spec : StateSpec
return_center_spec = record {
  state_name = "return_center_state";
  output_enum = "POSITIVE_CENTER" ∷ "NEGATIVE_CENTER" ∷ "MIXED_CENTER" ∷ "UNKNOWN" ∷ [];
  required_feature_inputs = "mean_raw_return_observed" ∷ "median_raw_return_observed" ∷ [];
  rule_id = "RETURN_CENTER_SIGN_CONSENSUS";
  threshold_policy = "SIGN_WITH_ZERO_AS_MIXED";
  missingness_policy = "NULL_TO_UNKNOWN_WITH_STATE_INPUT_NULL";
  availability_rule = "SOURCE_FEATURE_ROW_AVAILABLE_AT";
  interpretation =
      "Observed cross-sectional return center has a positive, negative, or mixed sign.";
  non_predictive_statement =
      "This describes the observed Feature row and does not forecast a future return.";
  eligibility = supported;
}

abbrev pub daily_participation_spec : StateSpec
daily_participation_spec = record {
  state_name = "daily_participation_state";
  output_enum = "ADVANCE_DOMINANT" ∷ "DECLINE_DOMINANT" ∷ "BALANCED" ∷ "UNKNOWN" ∷ [];
  required_feature_inputs =
      "valid_raw_return_count" ∷ "advancer_count" ∷ "decliner_count" ∷ "unchanged_count" ∷ [];
  rule_id = "DAILY_ADVANCE_DECLINE_DOMINANCE";
  threshold_policy = "EXACT_COUNT_DOMINANCE";
  missingness_policy = "NULL_TO_UNKNOWN_WITH_STATE_INPUT_NULL";
  availability_rule = "SOURCE_FEATURE_ROW_AVAILABLE_AT";
  interpretation =
      "Observed valid daily returns are dominated by advancing, declining, or equal counts.";
  non_predictive_statement =
      "This describes participation in the observed universe and is not a trading signal.";
  eligibility = supported;
}

abbrev pub trend_participation_spec : StateSpec
trend_participation_spec = record {
  state_name = "trend_participation_state";
  output_enum = "BROAD_POSITIVE" ∷ "BROAD_NEGATIVE" ∷ "MIXED" ∷ "UNKNOWN" ∷ [];
  required_feature_inputs =
      "valid_ma20_count" ∷ "pct_above_ma20_observed" ∷ "valid_mom20_count"
      ∷ "pct_positive_mom20_observed" ∷ [];
  rule_id = "TREND_PARTICIPATION_MAJORITY";
  threshold_policy = "MAJORITY_AT_HALF_BOUNDARY";
  missingness_policy = "NULL_OR_EMPTY_TO_UNKNOWN";
  availability_rule = "SOURCE_FEATURE_ROW_AVAILABLE_AT";
  interpretation =
      "Observed securities with comparable 20-observation trend evidence are mostly positive, negative, or mixed.";
  non_predictive_statement =
      "This describes current observed trend participation and is not a future-regime prediction.";
  eligibility = supported;
}

abbrev pub market_structure_spec : StateSpec
market_structure_spec = record {
  state_name = "market_structure_state";
  output_enum =
      "BROAD_ADVANCE" ∷ "BROAD_DECLINE" ∷ "POSITIVE_MIXED_PARTICIPATION"
      ∷ "NEGATIVE_MIXED_PARTICIPATION" ∷ "MIXED" ∷ "UNKNOWN" ∷ [];
  required_feature_inputs =
      "return_center_state" ∷ "daily_participation_state" ∷ "trend_participation_state" ∷ [];
  rule_id = "EXACT_STATE_COMPOSITION";
  threshold_policy = "EXACT_ENUM_COMPOSITION";
  missingness_policy = "UNKNOWN_DIMENSION_TO_UNKNOWN";
  availability_rule = "MAX_CONSUMED_STATE_INPUT_AVAILABILITY";
  interpretation = "The first three descriptive State dimensions are jointly aligned or mixed.";
  non_predictive_statement =
      "This is an exact descriptive composition and does not predict price direction.";
  eligibility = supported;
}

-- _CANONICAL_SPECS
abbrev pub canonical_specs : List StateSpec
canonical_specs =
    return_center_spec ∷ daily_participation_spec ∷ trend_participation_spec ∷ market_structure_spec
    ∷ []

-- _STATE_SET
abbrev pub v1_state_set : StateSet
v1_state_set = record {
  state_set_id = "market-state-descriptive-v1";
  state_set_version = "1";
  state_registry_version = "state-registry-v1";
  contract_version = "state-v1";
  states = canonical_specs;
}
