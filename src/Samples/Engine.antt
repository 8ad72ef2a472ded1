-- ===== src/Samples/Engine.antt =====
-- The State engine at a concrete Feature run of two days.
use a_share_analysis.Common.{
  ℕ, String, ◌≡◌, refl, some, List, [], ◌∷◌, Result, ok, err, Text, codes, Memᴰ,
}
use a_share_analysis.MarketState.Inputs.{Detail, StateError}
use a_share_analysis.MarketState.Rules.{
  Finding, return_center, daily_participation, trend_participation,
}
use a_share_analysis.MarketState.Structure.{market_structure, dimension}
use a_share_analysis.MarketState.Structure.Composed.{Structure, of_labels, market_structure_cases}
use a_share_analysis.MarketState.Specs.{v1_state_set}
use a_share_analysis.MarketState.Registry.{compiling}
use a_share_analysis.MarketState.Engine.{
  MarketRow, FeatureRun, Digests, StateRow, validate_row_identity, ordered_rows, run_handler,
  run_entries,
}
use a_share_analysis.MarketState.Engine.Run.{
  planned, state_row, compute_row, compute_rows, compute_state_set,
}
use a_share_analysis.MarketState.Engine.Entries.{IsLabelled}
use a_share_analysis.MarketState.Engine.Labelled.{AllFresh, compute_state_set-IsLabelled}
use a_share_analysis.Samples.State.{thousandths, market_row}

market_structure_cases_example :
    (label : String) × (market_structure (of_labels "POSITIVE_CENTER" "BALANCED" "MIXED")
      ≡ ok label)
    × Structure "POSITIVE_CENTER" "BALANCED" "MIXED" label
market_structure_cases_example = market_structure_cases "POSITIVE_CENTER" "BALANCED" "MIXED"

abbrev row_of_day : ℕ → MarketRow thousandths
row_of_day day = record {
  trade_date = some day;
  feature_available_at = some 77;
  source_snapshot_id = some "snapshot-1";
  feature_set_id = some "features-1";
  input_lineage_hash =
      some (codes "0123456789abcdef0123456789abcdef0123456789abcdef0123456789abcdef");
  universe_rule_id = some "observed";
  cells = market_row;
}

abbrev feature_run : FeatureRun thousandths
feature_run = record {
  feature_run_id = "run-1";
  snapshot_id = "snapshot-1";
  canonical_run_id = "canonical-1";
  feature_set_id = "features-1";
  market_rows = row_of_day 20240103 ∷ row_of_day 20240102 ∷ [];
}

abbrev digests : Digests thousandths
digests = record {
  registry_hash = λ s. codes "r";
  lineage_hash = λ l. codes l.source_feature_run_id;
}

abbrev no_json : Detail → Text
no_json d = []

abbrev computed : Result StateError (List (StateRow thousandths) × List Finding)
computed = compute_state_set thousandths digests no_json feature_run "state-1" v1_state_set

abbrev rows_of :
    Result StateError (List (StateRow thousandths) × List Finding)
    → List (StateRow thousandths) × List Finding
rows_of (ok p) = p
rows_of (err e) = ([], [])

computed_returns : computed ≡ ok (rows_of computed)
unfolding compute_state_set compiling planned ordered_rows compute_rows compute_row
    validate_row_identity run_entries run_handler return_center daily_participation
    trend_participation market_structure dimension state_row
computed_returns = refl

compute_state_set-IsLabelled_example :
    (v1_state_set ≡ v1_state_set)
    × AllFresh thousandths [] (rows_of computed).0
    × ((r : StateRow thousandths)
        → Memᴰ r (rows_of computed).0
        → IsLabelled thousandths feature_run r)
compute_state_set-IsLabelled_example =
    compute_state_set-IsLabelled thousandths digests no_json feature_run "state-1" v1_state_set
      (rows_of computed).0 (rows_of computed).1 computed_returns
