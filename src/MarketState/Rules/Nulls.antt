-- ===== src/MarketState/Rules/Nulls.antt =====
-- The UNKNOWN that the rules of state/engine.py answer where a cell that they need is empty.
use a_share_analysis.Common.{
  ℕ, String, ◌≡◌, refl, sym, ap, ◌↔◌, List, [], ◌∷◌, ok, ok_injective, Memᴰ, mem_of-keep, mem-keep,
}
use a_share_analysis.MarketState.Inputs.{Floats, Cells, null, is_null, null_inputs}
use a_share_analysis.MarketState.Inputs.Reads.{is_null_iff}
use a_share_analysis.MarketState.Rules.{Finding, Outcome, null_names}

-- A single finding of the day, for the state and of the class
pub record Reports (trade_date : ℕ) (state class : String) (fs : List Finding) : Type 0 where
  pub finding : Finding
  pub single : fs ≡ finding ∷ []
  pub of_state : finding.state_name ≡ state
  pub of_class : finding.finding_class ≡ class
  pub of_day : finding.trade_date ≡ trade_date

module _ (fl : Floats) (row : Cells fl) (trade_date : ℕ) where
  -- The answer is UNKNOWN for empty cells: the finding lists exactly those of the names whose cells
  -- are empty, and there is one.
  pub record Nulled (state : String) (names : List String) (label : String) (fs : List Finding)
      : Type 0 where
    pub unknown : label ≡ "UNKNOWN"
    pub report : Reports trade_date state "STATE_INPUT_NULL" fs
    pub missing : List String
    pub detail : report.finding.detail ≡ null_inputs missing
    pub exactly : (n : String) → Memᴰ n missing ↔ (Memᴰ n names × (row n ≡ null))
    pub some_missing : (n : String) × Memᴰ n missing

  missing_iff :
      (names : List String) (n : String)
      → Memᴰ n (null_names fl row names) ↔ (Memᴰ n names × (row n ≡ null))
  unfolding null_names
  missing_iff names n = (
    λ m.
        let (o, e) = mem_of-keep (λ x. is_null fl (row x)) n names m in
        (o, (is_null_iff fl (row n)).0 e),
    λ (m, e). mem-keep (λ x. is_null fl (row x)) n names m ((is_null_iff fl (row n)).1 e),
  )

  pub Nulled-of :
      (state : String) (names : List String) (n : String) {label : String} {fs : List Finding}
      → Memᴰ n names
      → row n ≡ null
      → ◌≡◌ {A = Outcome}
          (ok (
            "UNKNOWN",
            (record {
              trade_date = trade_date;
              state_name = state;
              finding_class = "STATE_INPUT_NULL";
              detail = null_inputs (null_names fl row names);
            })
                ∷ [],
          ))
          (ok (label, fs))
      → Nulled state names label fs
  Nulled-of state names n m e h = record {
    unknown = sym (ap (λ p. p.0) (ok_injective h));
    report = record {
      finding = record {
        trade_date = trade_date;
        state_name = state;
        finding_class = "STATE_INPUT_NULL";
        detail = null_inputs (null_names fl row names);
      };
      single = sym (ap (λ p. p.1) (ok_injective h));
      of_state = refl;
      of_class = refl;
      of_day = refl;
    };
    missing = null_names fl row names;
    detail = refl;
    exactly = missing_iff names;
    some_missing = (n, (missing_iff names n).1 (m, e));
  }
