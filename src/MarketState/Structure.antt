-- ===== src/MarketState/Structure.antt =====
-- The fourth rule of state/engine.py, _market_structure, over the labels of the other three.
pub mod Composed
use a_share_analysis.Common.{
  String, Bool, true, false, ◌&&◌, ◌||◌, List, [], ◌∷◌, Result, ok, err, ◌>>=◌, str_eq,
  if◌then◌else◌,
}
use a_share_analysis.MarketState.Inputs.{StateError, unknown_dimension}

-- The dict of the labels so far, the newest first
abbrev pub Dimensions : Type 0
Dimensions = List (String × String)

-- dimensions[name]
unfoldable pub dimension : Dimensions → String → Result StateError String
dimension [] name = err unknown_dimension
dimension ((n, label) ∷ rest) name =
    let older = dimension rest name in if str_eq n name then ok label else older

-- the generator under any(): it stops at the first UNKNOWN
unfoldable pub any_unknown : Dimensions → List String → Result StateError Bool
unfolding dimension
any_unknown dimensions [] = ok false
any_unknown dimensions (name ∷ names) = do
  label ← dimension dimensions name
  let later = any_unknown dimensions names
  if str_eq label "UNKNOWN" then ok true else later

unfoldable pub structure_label : (center daily trend : String) → String
structure_label center daily trend =
    if str_eq center "POSITIVE_CENTER"
      && str_eq daily "ADVANCE_DOMINANT"
      && str_eq trend "BROAD_POSITIVE"
    then "BROAD_ADVANCE"
    else if str_eq center "NEGATIVE_CENTER"
        && str_eq daily "DECLINE_DOMINANT"
        && str_eq trend "BROAD_NEGATIVE"
    then "BROAD_DECLINE"
    else if str_eq center "POSITIVE_CENTER"
    then "POSITIVE_MIXED_PARTICIPATION"
    else if str_eq center "NEGATIVE_CENTER"
    then "NEGATIVE_MIXED_PARTICIPATION"
    else "MIXED"

-- the tests behind any()
unfoldable pub known_structure : Dimensions → Result StateError String
unfolding dimension structure_label
known_structure dimensions = do
  center ← dimension dimensions "return_center_state"
  daily ← dimension dimensions "daily_participation_state"
  trend ← dimension dimensions "trend_participation_state"
  ok (structure_label center daily trend)

abbrev pub composed_names : List String
composed_names =
    "return_center_state" ∷ "daily_participation_state" ∷ "trend_participation_state" ∷ []

structure_after : Dimensions → Bool → Result StateError String
unfolding known_structure
structure_after dimensions true = ok "UNKNOWN"
structure_after dimensions false = known_structure dimensions

unfoldable pub market_structure : Dimensions → Result StateError String
unfolding any_unknown structure_after
market_structure dimensions = do
  unknown ← any_unknown dimensions composed_names
  structure_after dimensions unknown
