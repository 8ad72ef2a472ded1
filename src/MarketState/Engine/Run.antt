-- ===== src/MarketState/Engine/Run.antt =====
-- The loop of compute_state_set in state/engine.py over the rows of a Feature run.
use a_share_analysis.Common.{
  ℕ, String, Bool, not, ◌&&◌, ◌||◌, List, [], ◌∷◌, ◌++◌, map, Result, ok, err, ◌>>=◌, ◌>>◌, guard,
  any, ltb, ◌==◌, Text, codes, text_leb, if◌then◌else◌,
}
use a_share_analysis.MarketState.Inputs.{
  Floats, Value, Cells, Detail, StateError, duplicate_trade_date, rule_unavailable,
}
use a_share_analysis.MarketState.Rules.{Finding}
use a_share_analysis.MarketState.Structure.{Dimensions, dimension}
use a_share_analysis.MarketState.Specs.{StateSet}
use a_share_analysis.MarketState.Registry.{
  StateExecutionPlan, StateRegistryError, compile_state_execution_plan,
}
use a_share_analysis.MarketState.Engine.{
  state_evidence_features, RowIdentity, MarketRow, FeatureRun, Digests, StateRow,
  validate_row_identity, ordered_rows, run_entries,
}

-- `raise StateEngineError(...) from exc`
unfoldable pub planned :
    Result StateRegistryError StateExecutionPlan → Result StateError StateExecutionPlan
planned (ok plan) = ok plan
planned (err e) = err rule_unavailable

text_same : Text → Text → Bool
unfolding text_leb
text_same s t = text_leb s t && text_leb t s

-- The order of the key (trade_date, state_name, finding_class, detail_json)
unfoldable pub finding_leb : (Detail → Text) → Finding → Finding → Bool
unfolding text_leb text_same
finding_leb detail_json f g =
    let names_same = text_same (codes f.state_name) (codes g.state_name) in
    let classes_same = text_same (codes f.finding_class) (codes g.finding_class) in
    ltb f.trade_date g.trade_date
    || (f.trade_date == g.trade_date
        && ((not names_same && text_leb (codes f.state_name) (codes g.state_name))
            || (names_same
                && ((not classes_same && text_leb (codes f.finding_class) (codes g.finding_class))
                    || (classes_same && text_leb (detail_json f.detail) (detail_json g.detail))))))

insert_finding : (Detail → Text) → Finding → List Finding → List Finding
unfolding finding_leb
insert_finding detail_json f [] = f ∷ []
insert_finding detail_json f (g ∷ findings) =
    let later = insert_finding detail_json f findings in
    if finding_leb detail_json f g then f ∷ g ∷ findings else g ∷ later

-- findings.sort(key=...)
pub sort_findings : (Detail → Text) → List Finding → List Finding
unfolding insert_finding
sort_findings detail_json [] = []
sort_findings detail_json (f ∷ findings) =
    insert_finding detail_json f (sort_findings detail_json findings)

module _ (fl : Floats) (digests : Digests fl) where
  -- The arguments of compute_state_set, with the compiled plan
  pub record Job : Type 0 where
    pub feature_run : FeatureRun fl
    pub state_run_id : String
    pub state_set : StateSet
    pub plan : StateExecutionPlan

  -- the state row of a market row, once its labels are there
  unfoldable pub state_row :
      Job → Cells fl → RowIdentity × Text → Dimensions → Result StateError (StateRow fl)
  state_row job row (identity, lineage) dimensions = do
    center ← dimension dimensions "return_center_state"
    daily ← dimension dimensions "daily_participation_state"
    trend ← dimension dimensions "trend_participation_state"
    structure ← dimension dimensions "market_structure_state"
    let evidence : List (String × Value fl) = map (λ name. (name, row name)) state_evidence_features
    ok (record {
      trade_date = identity.trade_date;
      source_feature_run_id = job.feature_run.feature_run_id;
      source_snapshot_id = identity.source_snapshot_id;
      source_canonical_run_id = job.feature_run.canonical_run_id;
      state_run_id = job.state_run_id;
      state_set_id = job.state_set.state_set_id;
      state_contract_version = job.state_set.contract_version;
      state_available_at = identity.available_at;
      source_feature_input_lineage_hash = lineage;
      universe_rule_id = identity.universe_rule_id;
      evidence = evidence;
      return_center_state = center;
      daily_participation_state = daily;
      trend_participation_state = trend;
      market_structure_state = structure;
      input_lineage_hash = digests.lineage_hash (record {
        source_feature_run_id = job.feature_run.feature_run_id;
        trade_date = identity.trade_date;
        source_feature_input_lineage_hash = lineage;
        source_feature_available_at = identity.available_at;
        evidence = evidence;
        state_registry_version = job.state_set.state_registry_version;
        state_registry_hash = digests.registry_hash job.state_set;
        state_rule_ids = map (λ e. e.spec.rule_id) job.plan.entries;
      });
    })

  -- the body of the loop: the seen dates go in, the row and its findings come out
  unfoldable pub compute_row :
      Job → List ℕ → MarketRow fl → Result StateError (StateRow fl × List Finding)
  unfolding any
  compute_row job seen row = do
    checked ← validate_row_identity fl row job.feature_run
    guard (not (any (λ d. d == checked.0.trade_date) seen)) duplicate_trade_date
    (dimensions, findings) ← run_entries fl job.plan.entries row.cells checked.0.trade_date [] []
    computed ← state_row job row.cells checked dimensions
    ok (computed, findings)

  unfoldable pub compute_rows :
      Job → List ℕ → List (MarketRow fl) → Result StateError (List (StateRow fl) × List Finding)
  compute_rows job seen [] = ok ([], [])
  compute_rows job seen (row ∷ rows) = do
    (computed, findings) ← compute_row job seen row
    (later, found) ← compute_rows job (computed.trade_date ∷ seen) rows
    ok (computed ∷ later, findings ++ found)

  -- ComputedStateSet, the state rows and the findings
  unfoldable pub compute_state_set :
      (detail_json : Detail → Text)
      → FeatureRun fl
      → (state_run_id : String) → StateSet
      → Result StateError (List (StateRow fl) × List Finding)
  compute_state_set detail_json feature_run state_run_id state_set = do
    plan ← planned (compile_state_execution_plan state_set)
    rows ← ordered_rows fl feature_run.market_rows
    let job : Job = record {
      feature_run = feature_run;
      state_run_id = state_run_id;
      state_set = state_set;
      plan = plan;
    }
    (computed, findings) ← compute_rows job [] rows
    ok (computed, sort_findings detail_json findings)
