-- ===== src/MarketState/Engine/Labelled.antt =====
-- What a computed state row of state/engine.py rests on.
use a_share_analysis.Common.{
  ℕ, String, ◌≡◌, refl, sym, ◌∙◌, ap, subst, inl, inr, Bool, true, false, not, some, List, [], ◌∷◌,
  Result, ok, err, guard, >>=-eq-ok, guard-eq-ok, ok_injective, any, ◌==◌, Text, Memᴰ, Memᴰ-cons,
}
use a_share_analysis.MarketState.Inputs.{Floats, Cells, Detail, duplicate_trade_date}
use a_share_analysis.MarketState.Rules.{Finding}
use a_share_analysis.MarketState.Structure.{Dimensions, dimension}
use a_share_analysis.MarketState.Structure.Composed.{of_labels}
use a_share_analysis.MarketState.Specs.{StateSet, v1_state_set}
use a_share_analysis.MarketState.Registry.{
  StateExecutionPlan, StateRegistryError, compile_state_execution_plan,
}
use a_share_analysis.MarketState.Registry.Exact.{v1_plan, compile_iff}
use a_share_analysis.MarketState.Engine.{
  RowIdentity, MarketRow, FeatureRun, Digests, StateRow, validate_row_identity, ordered_rows,
  run_entries,
}
use a_share_analysis.MarketState.Engine.Run.{
  planned, Job, state_row, compute_row, compute_rows, compute_state_set,
}
use a_share_analysis.MarketState.Engine.Rows.{
  mem_of-ordered_rows, Identified, validate_row_identity-Identified,
}
use a_share_analysis.MarketState.Engine.Entries.{IsLabelled, Ran, run_entries-Ran}

false_of_not : {b : Bool} → not b ≡ true → b ≡ false
false_of_not {b = true} h = cc
false_of_not {b = false} h = refl

planned-eq-ok :
    (r : Result StateRegistryError StateExecutionPlan) {plan : StateExecutionPlan}
    → planned r ≡ ok plan
    → r ≡ ok plan
unfolding planned
planned-eq-ok (ok p) h = cc (ok_injective h)
planned-eq-ok (err e) h = cc

-- No date is seen twice.
abbrev pub AllFresh : (fl : Floats) → List ℕ → List (StateRow fl) → Type 0
AllFresh fl seen [] = Unit
AllFresh fl seen (r ∷ rows) =
    (any (λ d. d == r.trade_date) seen ≡ false) × AllFresh fl (r.trade_date ∷ seen) rows

module _ (fl : Floats) (digests : Digests fl) where
  -- What of its inputs a state row shows
  record Shown (identity : RowIdentity) (lineage : Text) (c d t s : String) (r : StateRow fl)
      : Type 0 where
    day : r.trade_date ≡ identity.trade_date
    lineage_is : r.source_feature_input_lineage_hash ≡ lineage
    center : r.return_center_state ≡ c
    daily : r.daily_participation_state ≡ d
    trend : r.trend_participation_state ≡ t
    structure : r.market_structure_state ≡ s

  state_row-Shown :
      (job : Job fl digests) (cells : Cells fl) (identity : RowIdentity) (lineage : Text)
      (c d t s : String) {r : StateRow fl}
      → state_row fl digests job cells
          (identity, lineage)
          (("market_structure_state", s) ∷ of_labels c d t)
        ≡ ok r
      → Shown identity lineage c d t s r
  unfolding state_row dimension
  state_row-Shown job cells identity lineage c d t s h =
      subst (Shown identity lineage c d t s) (ok_injective h) (record {
        day = refl;
        lineage_is = refl;
        center = refl;
        daily = refl;
        trend = refl;
        structure = refl;
      })

  IsLabelled-of :
      (run : FeatureRun fl) (source : MarketRow fl) (identity : RowIdentity) (lineage : Text)
      {dimensions : Dimensions} {r : StateRow fl}
      → Memᴰ source run.market_rows
      → Identified fl source run (identity, lineage)
      → (ran : Ran fl source.cells identity.trade_date dimensions)
      → Shown identity lineage ran.center ran.daily ran.trend ran.structure r
      → IsLabelled fl run r
  IsLabelled-of run source identity lineage m checked ran shown = record {
    source = source;
    listed = m;
    of_day = checked.of_day ∙ ap some (sym shown.day);
    of_snapshot = checked.of_snapshot;
    of_feature_set = checked.of_feature_set;
    lineage = checked.lineage ∙ ap some (sym shown.lineage_is);
    center_found = ran.center_found;
    center = rw (shown.day, shown.center) ran.center_is;
    daily_found = ran.daily_found;
    daily = rw (shown.day, shown.daily) ran.daily_is;
    trend_found = ran.trend_found;
    trend = rw (shown.day, shown.trend) ran.trend_is;
    structure = rw (shown.center, shown.daily, shown.trend, shown.structure) ran.structure_is;
  }

  compute_row-IsLabelled :
      (job : Job fl digests) (seen : List ℕ) (source : MarketRow fl)
      {out : StateRow fl × List Finding}
      → job.plan ≡ v1_plan
      → Memᴰ source job.feature_run.market_rows
      → compute_row fl digests job seen source ≡ ok out
      → IsLabelled fl job.feature_run out.0 × (any (λ d. d == out.0.trade_date) seen ≡ false)
  unfolding compute_row
  compute_row-IsLabelled job seen source plan_is m h =
      let (checked, e0, h0) = >>=-eq-ok (validate_row_identity fl source job.feature_run) _ h in
      let (u, e1, h1) =
        >>=-eq-ok (guard (not (any (λ d. d == checked.0.trade_date) seen)) duplicate_trade_date) _
          h0 in
      let (ran, e2, h2) =
        >>=-eq-ok (run_entries fl job.plan.entries source.cells checked.0.trade_date [] []) _ h1 in
      let (r, e3, h3) = >>=-eq-ok (state_row fl digests job source.cells checked ran.0) _ h2 in
      let v1_run =
        ap
          (λ (p : StateExecutionPlan).
            run_entries fl p.entries source.cells checked.0.trade_date [] [])
          (sym plan_is)
        ∙ e2 in
      let did = run_entries-Ran fl source.cells checked.0.trade_date v1_run in
      let shown =
        state_row-Shown job source.cells checked.0 checked.1 did.center did.daily did.trend
          did.structure
          (ap (state_row fl digests job source.cells checked) (sym did.dimensions_are) ∙ e3) in
      let out_is = ap (λ (p : StateRow fl × List Finding). p.0) (ok_injective h3) in
      let fresh : any (λ d. d == checked.0.trade_date) seen ≡ false =
        false_of_not (guard-eq-ok _ duplicate_trade_date e1) in
      (
        subst (IsLabelled fl job.feature_run) out_is (
            IsLabelled-of job.feature_run source checked.0 checked.1 m
              (validate_row_identity-Identified fl source job.feature_run e0) did shown),
        subst (λ (x : StateRow fl). any (λ d. d == x.trade_date) seen ≡ false) out_is
            (subst (λ day. any (λ d. d == day) seen ≡ false) (sym shown.day) fresh),
      )

  compute_rows-IsLabelled :
      (job : Job fl digests) (seen : List ℕ) (sources : List (MarketRow fl))
      {out : List (StateRow fl) × List Finding}
      → job.plan ≡ v1_plan
      → ((source : MarketRow fl) → Memᴰ source sources → Memᴰ source job.feature_run.market_rows)
      → compute_rows fl digests job seen sources ≡ ok out
      → AllFresh fl seen out.0
        × ((r : StateRow fl) → Memᴰ r out.0 → IsLabelled fl job.feature_run r)
  unfolding compute_rows
  compute_rows-IsLabelled job seen [] {out} plan_is within h =
      subst
        (λ (p : List (StateRow fl) × List Finding).
          AllFresh fl seen p.0 × ((r : StateRow fl) → Memᴰ r p.0 → IsLabelled fl job.feature_run r))
        (ok_injective h) (tt, λ r m. elim m [ ])
  compute_rows-IsLabelled job seen (source ∷ sources) {out} plan_is within h =
      let (x, e0, h0) = >>=-eq-ok (compute_row fl digests job seen source) _ h in
      let (y, e1, h1) =
        >>=-eq-ok (compute_rows fl digests job (x.0.trade_date ∷ seen) sources) _ h0 in
      let (labelled, fresh) =
        compute_row-IsLabelled job seen source plan_is (within source (Memᴰ.head refl)) e0 in
      let (all_fresh, all_labelled) =
        compute_rows-IsLabelled job (x.0.trade_date ∷ seen) sources plan_is
          (λ s m. within s (Memᴰ.tail m)) e1 in
      subst
        (λ (p : List (StateRow fl) × List Finding).
          AllFresh fl seen p.0 × ((r : StateRow fl) → Memᴰ r p.0 → IsLabelled fl job.feature_run r))
        (ok_injective h1)
        (
          (fresh, all_fresh),
          λ r m. elim (Memᴰ-cons m) [
            | inl same ↦ subst (IsLabelled fl job.feature_run) (sym same) labelled
            | inr n ↦ all_labelled r n
          ],
        )

-- If compute_state_set returns, the state set is the V1 set, no date has two state rows, and each
-- state row comes from a checked row of the run, for its day: its first three labels are what the
-- three rules answer on that row, and its fourth is their composition.
pub compute_state_set-IsLabelled :
    (fl : Floats) (digests : Digests fl) (detail_json : Detail → Text) (run : FeatureRun fl)
    (state_run_id : String) (state_set : StateSet) (rows : List (StateRow fl))
    (findings : List Finding)
    → compute_state_set fl digests detail_json run state_run_id state_set ≡ ok (rows, findings)
    → (state_set ≡ v1_state_set)
      × AllFresh fl [] rows
      × ((r : StateRow fl) → Memᴰ r rows → IsLabelled fl run r)
unfolding compute_state_set
compute_state_set-IsLabelled fl digests detail_json run state_run_id state_set rows findings h =
    let (plan, e0, h0) = >>=-eq-ok (planned (compile_state_execution_plan state_set)) _ h in
    let (sources, e1, h1) = >>=-eq-ok (ordered_rows fl run.market_rows) _ h0 in
    let (set_is, plan_is) = (compile_iff state_set plan).0 (planned-eq-ok _ e0) in
    let job : Job fl digests = record {
      feature_run = run;
      state_run_id = state_run_id;
      state_set = state_set;
      plan = plan;
    } in
    let (out, e2, h2) = >>=-eq-ok (compute_rows fl digests job [] sources) _ h1 in
    let rows_are : out.0 ≡ rows =
      ap (λ (p : List (StateRow fl) × List Finding). p.0) (ok_injective h2) in
    let (fresh, labelled) =
      compute_rows-IsLabelled fl digests job [] sources plan_is
        (λ s m. mem_of-ordered_rows fl run.market_rows s e1 m) e2 in
    (
      set_is,
      subst (AllFresh fl []) rows_are fresh,
      λ r m. labelled r (subst (Memᴰ r) (sym rows_are) m),
    )
