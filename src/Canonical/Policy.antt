-- ===== src/Canonical/Policy.antt =====
-- canonical/source_policy.py: the selection policy of each canonical domain.
use a_share_analysis.Common.{
  String, Bool, false, ℕ, List, [], ◌∷◌, map, Option, none, some, str_eq, if◌then◌else◌,
}

pub record CanonicalSourcePolicy : Type 0 where
  pub domain : String
  pub priority_providers : List String
  pub allowed_fallback_providers : List String
  pub partial_run_allowed : Bool
  pub reconciliation : String
  pub tolerance_rule_id : String
  pub tolerance_rule_version : String
  pub identity_missing_max : ℕ
  pub conflict_action : String
  pub required_evidence_class : String

abbrev pub source_policy_version : String
source_policy_version = "source-policy-v1"

-- CanonicalSourcePolicy(domain=domain) with the defaults of its fields
abbrev pub default_policy : String → CanonicalSourcePolicy
default_policy domain = record {
  domain = domain;
  priority_providers = "amazingdata" ∷ [];
  allowed_fallback_providers = [];
  partial_run_allowed = false;
  reconciliation = "SINGLE_SOURCE_EXACT";
  tolerance_rule_id = "exact-v1";
  tolerance_rule_version = "1";
  identity_missing_max = 0;
  conflict_action = "BLOCK";
  required_evidence_class = "PROVIDER_NORMALIZED_VERIFIED";
}

abbrev pub source_policies : List CanonicalSourcePolicy
source_policies =
    map default_policy
      ("trade_calendar" ∷ "daily_bar" ∷ "security_status" ∷ "limit_price" ∷ "adj_factor" ∷ [])

policy_in : String → List CanonicalSourcePolicy → Option CanonicalSourcePolicy
policy_in domain [] = none
policy_in domain (p ∷ ps) =
    let later = policy_in domain ps in if str_eq p.domain domain then some p else later

-- Nothing stands for the KeyError.
unfoldable pub source_policy_for : String → Option CanonicalSourcePolicy
unfolding policy_in
source_policy_for domain = policy_in domain source_policies
