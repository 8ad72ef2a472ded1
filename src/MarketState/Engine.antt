-- ===== src/MarketState/Engine.antt =====
-- compute_state_set of state/engine.py and the checks of a Feature market row. A date is the number
-- of its day, an aware datetime the number of its instant. The digests over JSON texts are
-- parameters: they are calls of hashlib and json.
pub mod Run
pub mod Rows
pub mod Entries
pub mod Labelled
use a_share_analysis.Common.{
  ℕ, String, Bool, true, false, not, ◌&&◌, Option, none, some, List, [], ◌∷◌, ◌++◌, map, Result, ok,
  err, ◌>>=◌, ◌>>◌, guard, any, ltb, leb, length, ◌==◌, str_eq, Text, if◌then◌else◌,
}
use a_share_analysis.MarketState.Inputs.{
  Floats, Value, Cells, StateError, trade_date_not_a_date, available_at_not_aware, foreign_snapshot,
  foreign_feature_set, lineage_not_a_hash, universe_rule_missing, duplicate_trade_date,
  rule_unavailable,
}
use a_share_analysis.MarketState.Rules.{
  Finding, Outcome, return_center, daily_participation, trend_participation,
}
use a_share_analysis.MarketState.Structure.{Dimensions, dimension, market_structure}
use a_share_analysis.MarketState.Specs.{StateSpec, StateSet}
use a_share_analysis.MarketState.Registry
use a_share_analysis.MarketState.Registry.{
  StateHandler, StateExecutionSpec, StateExecutionPlan, StateRegistryError,
  compile_state_execution_plan,
}

-- STATE_EVIDENCE_FEATURES
abbrev pub state_evidence_features : List String
state_evidence_features =
    "observed_security_count" ∷ "valid_raw_return_count" ∷ "advancer_count" ∷ "decliner_count"
    ∷ "unchanged_count" ∷ "advancer_ratio_observed" ∷ "mean_raw_return_observed"
    ∷ "median_raw_return_observed" ∷ "valid_ma20_count" ∷ "pct_above_ma20_observed"
    ∷ "valid_mom20_count" ∷ "pct_positive_mom20_observed" ∷ []

-- `if the entry is not of its type: raise e`
abbrev pub entry_or {ℓ} : {A : Type ℓ} → Option A → StateError → Result StateError A
entry_or none e = err e
entry_or (some a) e = ok a

pub record RowIdentity : Type 0 where
  pub trade_date : ℕ
  pub available_at : ℕ
  pub source_snapshot_id : String
  pub universe_rule_id : String

module _ (fl : Floats) where
  -- An entry of the row is none where it is not of the type that the checks ask for.
  pub record MarketRow : Type 0 where
    pub trade_date : Option ℕ
    pub feature_available_at : Option ℕ
    pub source_snapshot_id : Option String
    pub feature_set_id : Option String
    pub input_lineage_hash : Option Text
    pub universe_rule_id : Option String
    pub cells : Cells fl

  pub record FeatureRun : Type 0 where
    pub feature_run_id : String
    pub snapshot_id : String
    pub canonical_run_id : String
    pub feature_set_id : String
    pub market_rows : List MarketRow

  -- What state_input_lineage_hash digests
  pub record LineageInput : Type 0 where
    pub source_feature_run_id : String
    pub trade_date : ℕ
    pub source_feature_input_lineage_hash : Text
    pub source_feature_available_at : ℕ
    pub evidence : List (String × Value fl)
    pub state_registry_version : String
    pub state_registry_hash : Text
    pub state_rule_ids : List String

  pub record Digests : Type 0 where
    pub registry_hash : StateSet → Text
    pub lineage_hash : LineageInput → Text

  pub record StateRow : Type 0 where
    pub trade_date : ℕ
    pub source_feature_run_id : String
    pub source_snapshot_id : String
    pub source_canonical_run_id : String
    pub state_run_id : String
    pub state_set_id : String
    pub state_contract_version : String
    pub state_available_at : ℕ
    pub source_feature_input_lineage_hash : Text
    pub universe_rule_id : String
    pub evidence : List (String × Value fl)
    pub return_center_state : String
    pub daily_participation_state : String
    pub trend_participation_state : String
    pub market_structure_state : String
    pub input_lineage_hash : Text

  -- _validate_row_identity, with the lineage hash that it has checked
  unfoldable pub validate_row_identity :
      MarketRow → FeatureRun → Result StateError (RowIdentity × Text)
  validate_row_identity row run = do
    trade_date ← entry_or row.trade_date trade_date_not_a_date
    available_at ← entry_or row.feature_available_at available_at_not_aware
    source_snapshot_id ← entry_or row.source_snapshot_id foreign_snapshot
    guard (str_eq source_snapshot_id run.snapshot_id) foreign_snapshot
    feature_set_id ← entry_or row.feature_set_id foreign_feature_set
    guard (str_eq feature_set_id run.feature_set_id) foreign_feature_set
    lineage ← entry_or row.input_lineage_hash lineage_not_a_hash
    guard (length lineage == 64) lineage_not_a_hash
    universe_rule_id ← entry_or row.universe_rule_id universe_rule_missing
    guard (not (str_eq universe_rule_id "")) universe_rule_missing
    let identity : RowIdentity = record {
      trade_date = trade_date;
      available_at = available_at;
      source_snapshot_id = source_snapshot_id;
      universe_rule_id = universe_rule_id;
    }
    ok (identity, lineage)

  -- sorted(..., key=_trade_date_key): the keys are read first, and the sort is stable
  keyed : List MarketRow → Result StateError (List (ℕ × MarketRow))
  keyed [] = ok []
  keyed (row ∷ rows) = do
    key ← entry_or row.trade_date trade_date_not_a_date
    rest ← keyed rows
    ok ((key, row) ∷ rest)

  insert_row : ℕ × MarketRow → List (ℕ × MarketRow) → List (ℕ × MarketRow)
  insert_row r [] = r ∷ []
  insert_row r (s ∷ rows) =
      let later = insert_row r rows in if leb r.0 s.0 then r ∷ s ∷ rows else s ∷ later

  sort_rows : List (ℕ × MarketRow) → List (ℕ × MarketRow)
  unfolding insert_row
  sort_rows [] = []
  sort_rows (r ∷ rows) = insert_row r (sort_rows rows)

  unfoldable pub ordered_rows : List MarketRow → Result StateError (List MarketRow)
  unfolding keyed sort_rows
  ordered_rows rows = do pairs ← keyed rows; ok (map (λ p. p.1) (sort_rows pairs))

  structure_outcome : Result StateError String → Outcome
  structure_outcome r = r >>= λ label. ok (label, [])

  -- one entry of the plan: _market_structure on the labels so far, or the rule of its handler
  unfoldable pub run_handler : StateHandler → Cells fl → ℕ → Dimensions → Outcome
  unfolding structure_outcome
  run_handler Registry.return_center row trade_date dimensions = return_center fl row trade_date
  run_handler Registry.daily_participation row trade_date dimensions =
      daily_participation fl row trade_date
  run_handler Registry.trend_participation row trade_date dimensions =
      trend_participation fl row trade_date
  run_handler Registry.market_structure row trade_date dimensions =
      structure_outcome (market_structure dimensions)

  -- the loop over plan.entries
  unfoldable pub run_entries :
      List StateExecutionSpec
      → Cells fl
      → ℕ
      → Dimensions
      → List Finding
      → Result StateError (Dimensions × List Finding)
  run_entries [] row trade_date dimensions findings = ok (dimensions, findings)
  run_entries (e ∷ entries) row trade_date dimensions findings = do
    (label, found) ← run_handler e.handler row trade_date dimensions
    run_entries entries row trade_date ((e.spec.state_name, label) ∷ dimensions) (findings ++ found)
