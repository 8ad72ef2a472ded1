-- ===== src/MarketState/Engine/Entries.antt =====
-- What the entries of the V1 plan leave behind for a market row, for state/engine.py.
use a_share_analysis.Common.{
  ℕ, String, ◌≡◌, sym, ◌∙◌, ap, subst, some, List, [], ◌∷◌, ok, ◌>>=◌, >>=-eq-ok, ok_injective,
  Memᴰ,
}
use a_share_analysis.MarketState.Inputs.{Floats, Cells}
use a_share_analysis.MarketState.Rules.{
  Finding, return_center, daily_participation, trend_participation,
}
use a_share_analysis.MarketState.Structure.{Dimensions, market_structure}
use a_share_analysis.MarketState.Structure.Composed.{Structure, of_labels, market_structure_cases}
use a_share_analysis.MarketState.Registry.Exact.{v1_plan}
use a_share_analysis.MarketState.Engine.{MarketRow, FeatureRun, StateRow, run_handler, run_entries}

module _ (fl : Floats) where
  -- The row comes from a checked row of the run, and its labels are the answers of the four rules.
  pub record IsLabelled (run : FeatureRun fl) (r : StateRow fl) : Type 0 where
    pub source : MarketRow fl
    pub listed : Memᴰ source run.market_rows
    pub of_day : source.trade_date ≡ some r.trade_date
    pub of_snapshot : source.source_snapshot_id ≡ some run.snapshot_id
    pub of_feature_set : source.feature_set_id ≡ some run.feature_set_id
    pub lineage : source.input_lineage_hash ≡ some r.source_feature_input_lineage_hash
    pub center_found : List Finding
    pub center :
        return_center fl source.cells r.trade_date ≡ ok (r.return_center_state, center_found)
    pub daily_found : List Finding
    pub daily :
        daily_participation fl source.cells r.trade_date
        ≡ ok (r.daily_participation_state, daily_found)
    pub trend_found : List Finding
    pub trend :
        trend_participation fl source.cells r.trade_date
        ≡ ok (r.trend_participation_state, trend_found)
    pub structure :
        Structure r.return_center_state r.daily_participation_state r.trend_participation_state
          r.market_structure_state

  market_structure-Structure :
      (c d t : String) {label : String}
      → market_structure (of_labels c d t) ≡ ok label
      → Structure c d t label
  market_structure-Structure c d t h =
      let (found, e, p) = market_structure_cases c d t in
      subst (Structure c d t) (ok_injective (sym e ∙ h)) p

  -- What the V1 entries have done
  pub record Ran (cells : Cells fl) (day : ℕ) (dimensions : Dimensions) : Type 0 where
    pub center : String
    pub center_found : List Finding
    pub center_is : return_center fl cells day ≡ ok (center, center_found)
    pub daily : String
    pub daily_found : List Finding
    pub daily_is : daily_participation fl cells day ≡ ok (daily, daily_found)
    pub trend : String
    pub trend_found : List Finding
    pub trend_is : trend_participation fl cells day ≡ ok (trend, trend_found)
    pub structure : String
    pub structure_is : Structure center daily trend structure
    pub dimensions_are :
        dimensions ≡ ("market_structure_state", structure) ∷ of_labels center daily trend

  pub run_entries-Ran :
      (cells : Cells fl) (day : ℕ) {out : Dimensions × List Finding}
      → run_entries fl v1_plan.entries cells day [] [] ≡ ok out
      → Ran cells day out.0
  unfolding run_entries run_handler
  run_entries-Ran cells day h =
      let (c, e0, h0) = >>=-eq-ok (return_center fl cells day) _ h in
      let (d, e1, h1) = >>=-eq-ok (daily_participation fl cells day) _ h0 in
      let (t, e2, h2) = >>=-eq-ok (trend_participation fl cells day) _ h1 in
      let (s, e3, h3) =
        >>=-eq-ok (market_structure (of_labels c.0 d.0 t.0) >>= λ label. ok (label, [])) _ h2 in
      let (label, e4, h4) = >>=-eq-ok (market_structure (of_labels c.0 d.0 t.0)) _ e3 in
      record {
        center = c.0;
        center_found = c.1;
        center_is = e0;
        daily = d.0;
        daily_found = d.1;
        daily_is = e1;
        trend = t.0;
        trend_found = t.1;
        trend_is = e2;
        structure = s.0;
        structure_is =
            market_structure-Structure c.0 d.0 t.0
              (e4 ∙ ap (λ (p : String × List Finding). ok p.0) (ok_injective h4));
        dimensions_are = ap (λ (p : Dimensions × List Finding). p.0) (sym (ok_injective h3));
      }
