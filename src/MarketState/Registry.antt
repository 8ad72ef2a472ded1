-- ===== src/MarketState/Registry.antt =====
-- The compiler of state/registry.py, which accepts the V1 set alone. The isinstance checks of its
-- arguments are the types; hashes and as_dict are left out.
pub mod Exact
use a_share_analysis.Common.{
  ℕ, ◌+◌, String, Bool, true, false, not, ◌&&◌, Option, none, some, List, [], ◌∷◌, map, Result, ok,
  err, ◌>>=◌, ◌>>◌, guard, any, length, ◌==◌, str_eq, if◌then◌else◌,
}
use a_share_analysis.MarketState.Specs.{
  Eligibility, supported, blocked, StateSpec, StateSet, supported_state_names, canonical_specs,
  v1_state_set,
}

pub data StateHandler : Type 0 where
  return_center daily_participation trend_participation market_structure : StateHandler

pub record StateExecutionSpec : Type 0 where
  pub spec : StateSpec
  pub handler : StateHandler

pub record StateExecutionPlan : Type 0 where
  pub state_set : StateSet
  pub entries : List StateExecutionSpec

-- Every StateRegistryError that the module raises
pub data StateRegistryError : Type 0 where
  not_v1_metadata not_v1_names wrong_number duplicate_declarations : StateRegistryError
  undeclared unsupported_declaration no_handler : String → StateRegistryError
  plan_not_v1 handler_not_unique unregistered_set : StateRegistryError

-- _STATE_BY_NAME.get(name)
spec_by_name : String → List StateSpec → Option StateSpec
spec_by_name name [] = none
spec_by_name name (s ∷ specs) =
    let later = spec_by_name name specs in if str_eq s.state_name name then some s else later

-- _STATE_HANDLER_BY_RULE.get(rule_id)
handler_by_rule : String → Option StateHandler
handler_by_rule rule_id =
    if str_eq rule_id "RETURN_CENTER_SIGN_CONSENSUS"
    then some return_center
    else if str_eq rule_id "DAILY_ADVANCE_DECLINE_DOMINANCE"
    then some daily_participation
    else if str_eq rule_id "TREND_PARTICIPATION_MAJORITY"
    then some trend_participation
    else if str_eq rule_id "EXACT_STATE_COMPOSITION"
    then some market_structure
    else none

-- tuple equality of strings
unfoldable pub strings_eq : List String → List String → Bool
strings_eq [] [] = true
strings_eq (a ∷ s) (b ∷ t) = str_eq a b && strings_eq s t
strings_eq _ _ = false

abbrev eligibility_eq : Eligibility → Eligibility → Bool
eligibility_eq supported supported = true
eligibility_eq blocked blocked = true
eligibility_eq _ _ = false

-- StateSpec.__eq__
unfoldable pub spec_eq : StateSpec → StateSpec → Bool
unfolding strings_eq
spec_eq s t =
    str_eq s.state_name t.state_name
    && strings_eq s.output_enum t.output_enum
    && strings_eq s.required_feature_inputs t.required_feature_inputs
    && str_eq s.rule_id t.rule_id
    && str_eq s.threshold_policy t.threshold_policy
    && str_eq s.missingness_policy t.missingness_policy
    && str_eq s.availability_rule t.availability_rule
    && str_eq s.interpretation t.interpretation
    && str_eq s.non_predictive_statement t.non_predictive_statement
    && eligibility_eq s.eligibility t.eligibility

-- len(set(names))
pub distinct_strings : List String → ℕ
unfolding any
distinct_strings [] = 0
distinct_strings (a ∷ l) =
    let rest = distinct_strings l in if any (λ b. str_eq b a) l then rest else rest + 1

abbrev handler_eq : StateHandler → StateHandler → Bool
handler_eq return_center return_center = true
handler_eq daily_participation daily_participation = true
handler_eq trend_participation trend_participation = true
handler_eq market_structure market_structure = true
handler_eq _ _ = false

-- len({entry.handler for entry in entries})
pub distinct_handlers : List StateExecutionSpec → ℕ
unfolding any
distinct_handlers [] = 0
distinct_handlers (e ∷ l) =
    let rest = distinct_handlers l in
    if any (λ f. handler_eq f.handler e.handler) l then rest else rest + 1

with_handler : StateSpec → Option StateHandler → Result StateRegistryError StateExecutionSpec
with_handler spec none = err (no_handler spec.state_name)
with_handler spec (some h) = ok (record { spec = spec; handler = h })

against_canonical : StateSpec → Option StateSpec → Result StateRegistryError StateExecutionSpec
unfolding spec_eq handler_by_rule with_handler
against_canonical spec none = err (undeclared spec.state_name)
against_canonical spec (some canonical) =
    if spec_eq spec canonical
    then with_handler spec (handler_by_rule spec.rule_id)
    else err (unsupported_declaration spec.state_name)

-- the body of the loop over the declarations
compile_entry : StateSpec → Result StateRegistryError StateExecutionSpec
unfolding spec_by_name against_canonical
compile_entry spec = against_canonical spec (spec_by_name spec.state_name canonical_specs)

pub compile_entries : List StateSpec → Result StateRegistryError (List StateExecutionSpec)
unfolding compile_entry
compile_entries [] = ok []
compile_entries (s ∷ specs) = do
  entry ← compile_entry s
  entries ← compile_entries specs
  ok (entry ∷ entries)

unfoldable pub is_v1_metadata : StateSet → Bool
is_v1_metadata s =
    str_eq s.state_set_id "market-state-descriptive-v1"
    && str_eq s.state_set_version "1"
    && str_eq s.state_registry_version "state-registry-v1"
    && str_eq s.contract_version "state-v1"

unfoldable pub compile_state_execution_plan :
    StateSet → Result StateRegistryError StateExecutionPlan
compile_state_execution_plan s = do
  guard (is_v1_metadata s) not_v1_metadata
  guard (strings_eq (map (λ t. t.state_name) s.states) supported_state_names) not_v1_names
  guard (length s.states == length canonical_specs) wrong_number
  guard (distinct_strings (map (λ t. t.state_name) s.states) == length s.states)
      duplicate_declarations
  entries ← compile_entries s.states
  guard (strings_eq (map (λ e. e.spec.state_name) entries) supported_state_names) plan_not_v1
  guard (distinct_handlers entries == length entries) handler_not_unique
  ok (record { state_set = s; entries = entries })

unfoldable pub get_state_set : String → Result StateRegistryError StateSet
get_state_set state_set_id =
    if str_eq state_set_id "market-state-descriptive-v1"
    then ok v1_state_set
    else err unregistered_set

-- What a run of the compiler computes with
unfoldable pub compiling : Unit {0}
unfolding is_v1_metadata strings_eq distinct_strings compile_entries distinct_handlers
    compile_state_execution_plan
compiling = tt
