-- ===== src/MarketState/Inputs.antt =====
-- What the rules of state/engine.py read from a Feature market row, and what they may raise.
pub mod Reads
use a_share_analysis.Common.{
  ℕ, String, Bool, true, false, Option, none, some, List, Result, ok, err, ℤ, if◌then◌else◌,
}

-- Python's float: a parameter of the engine, with the operations that it applies to floats. `of_int`
-- is float(n), with none for its OverflowError; `divide` is the true division of two ints.
pub record Floats : Type 1 where
  pub Float : Type 0
  pub is_finite : Float → Bool
  pub of_int : ℤ → Option Float
  pub divide : (numerator denominator : ℕ) → Float
  pub lt : Float → Float → Bool
  pub eq : Float → Float → Bool
  pub zero_float : Float
  pub half_float : Float
  pub one_float : Float

-- The details that a finding carries, before canonical_json prints them
pub data Detail : Type 0 where
  null_inputs : List String → Detail
  empty_input : String → ℤ → Detail
  empty_inputs : List String → Detail

pub data StateError : Type 0 where
  invalid_numeric_type non_finite float_overflow invalid_count_type : String → StateError
  counts_negative count_invariant_violated ratio_mismatch ratio_out_of_range : StateError
  trade_date_not_a_date available_at_not_aware foreign_snapshot foreign_feature_set : StateError
  lineage_not_a_hash universe_rule_missing duplicate_trade_date unknown_dimension : StateError
  rule_unavailable : StateError

module _ (fl : Floats) where
  open fl use {Float, is_finite, of_int}

  -- A cell of a row: None, a bool, an int, a float, or anything else
  pub data Value : Type 0 where
    null other : Value
    boolean : Bool → Value
    integer : ℤ → Value
    real : Float → Value

  -- row.get: a missing cell is None
  abbrev pub Cells : Type 0
  Cells = String → Value

  finite : String → Float → Result StateError (Option Float)
  finite name f = if is_finite f then ok (some f) else err (non_finite name)

  float_of : String → Option Float → Result StateError (Option Float)
  unfolding finite
  float_of name none = err (float_overflow name)
  float_of name (some f) = finite name f

  number_of : String → Value → Result StateError (Option Float)
  unfolding float_of
  number_of name null = ok none
  number_of name other = err (invalid_numeric_type name)
  number_of name (boolean b) = err (invalid_numeric_type name)
  number_of name (integer n) = float_of name (of_int n)
  number_of name (real f) = finite name f

  -- _number
  unfoldable pub number : Cells → String → Result StateError (Option Float)
  unfolding number_of
  number row name = number_of name (row name)

  count_of : String → Value → Result StateError (Option ℤ)
  count_of name null = ok none
  count_of name (integer n) = ok (some n)
  count_of name _ = err (invalid_count_type name)

  -- _count
  unfoldable pub count : Cells → String → Result StateError (Option ℤ)
  unfolding count_of
  count row name = count_of name (row name)

  unfoldable pub is_null : Value → Bool
  is_null null = true
  is_null _ = false
