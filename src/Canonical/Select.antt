-- ===== src/Canonical/Select.antt =====
-- canonical/canonicalizer.py: the candidates of a canonical domain, the filter by their moment of
-- availability, and the selection of one row for each key. Texts over JSON are made by arguments,
-- moments are numbers, and a reason that only formats a run's id carries the id.
use a_share_analysis.Common.{
  ℕ, suc, String, Bool, true, false, not, ◌&&◌, Option, none, List, [], ◌∷◌, keep, any, leb, length,
  str_eq, Text, text_eq, text_leb, codes, lex, if◌then◌else◌,
}
use a_share_analysis.Canonical.Policy.{CanonicalSourcePolicy, source_policy_version}

-- The JSON texts of a payload and of a key
pub record Json (P : Type 0) : Type 0 where
  pub payload_json : P → Text
  pub key_json : List String → Text

-- The fields of an InputRunSeal that the selection reads
pub record InputRunSeal : Type 0 where
  pub run_id : String
  pub provider : String
  pub raw_request_id : String
  pub raw_evidence_hash : String
  pub mapper_identity : String
  pub normalized_manifest_hash : String

pub data IdentityStatus : Type 0 where
  resolved_not_required resolved missing : IdentityStatus

pub record Candidate (P : Type 0) : Type 0 where
  pub domain : String
  pub key : List String
  pub key_text : Text
  pub identity_status : IdentityStatus
  pub security_id : Option String
  pub trade_date : ℕ
  pub payload : P
  pub provider : String
  pub seal : InputRunSeal
  pub output_name : String
  pub ordinal : ℕ
  pub row_identity : String
  pub available_at : ℕ
  pub received_at : ℕ
  pub run_manifest_hash : String

pub data DecisionClass : Type 0 where
  selected equivalent_merged excluded_future : DecisionClass

pub data Reason : Type 0 where
  policy_winner after_as_of : Reason
  equal_values : (winner_run : String) → Reason

pub record Decision : Type 0 where
  pub canonical_domain : String
  pub canonical_key : Text
  pub decision_class : DecisionClass
  pub provider : String
  pub source_normalization_run_id : String
  pub source_row_ordinal : ℕ
  pub available_at : ℕ
  pub reason : Reason

-- The detail of a finding, by its class
pub data Detail (P : Type 0) : Type 0 where
  source_conflict :
      (winner_run : String) (winner_values : P) (conflicting_run : String) (conflicting_values : P)
      (tolerance : String)
      → Detail P
  duplicate_canonical_key : (output_name : String) → Detail P
  required_domain_missing required_domain_unavailable : Detail P
  identity_missing : (count identity_missing_max : ℕ) → Detail P

pub record CanonicalFinding (P : Type 0) : Type 0 where
  pub canonical_domain : String
  pub canonical_key : Text
  pub detail : Detail P
  pub provider : Option String
  pub source_normalization_run_id : Option String
  pub blocking : Bool

-- A row of the output. It has a security id if its domain requires one.
pub record CanonicalRow (P : Type 0) : Type 0 where
  pub canonical_domain : String
  pub canonical_key : Text
  pub security_id : Option String
  pub payload : P
  pub trade_date : ℕ
  pub available_at : ℕ
  pub ingested_at : ℕ
  pub availability_basis : String
  pub availability_policy_version : String
  pub selected_provider : String
  pub source_normalization_run_id : String
  pub source_output_name : String
  pub source_row_ordinal : ℕ
  pub source_row_identity_hash : String
  pub source_raw_request_id : String
  pub source_raw_evidence_hash : String
  pub source_mapper_identity : String
  pub source_policy : String
  pub canonical_contract_version : String

abbrev pub is_missing : IdentityStatus → Bool
is_missing missing = true
is_missing _ = false

unfoldable pub key_eq : List String → List String → Bool
key_eq [] [] = true
key_eq (a ∷ k) (b ∷ l) = str_eq a b && key_eq k l
key_eq _ _ = false

-- {p: i for i, p in enumerate(providers)}.get(provider, default), counted from i: the last wins
priority_from : List String → ℕ → String → ℕ → ℕ
priority_from [] i provider index = index
priority_from (p ∷ ps) i provider index =
    priority_from ps (suc i) provider (if str_eq p provider then i else index)

unfoldable pub priority : CanonicalSourcePolicy → String → ℕ
unfolding priority_from
priority policy provider =
    priority_from policy.priority_providers 0 provider (length policy.priority_providers)

module _ {P : Type 0} where
  -- The order of the selection: priority of the provider, manifest hash, ordinal
  unfoldable pub preferred : CanonicalSourcePolicy → Candidate P → Candidate P → Bool
  unfolding lex
  preferred policy =
      lex (λ c d. leb (priority policy c.provider) (priority policy d.provider))
        (lex (λ c d. text_leb (codes c.run_manifest_hash) (codes d.run_manifest_hash))
          (λ c d. leb c.ordinal d.ordinal))

  unfoldable pub is_usable : Candidate P → Bool
  is_usable c = not (is_missing c.identity_status)

  -- The keys of by_key, in the order of their first candidate
  unfoldable pub keys_from : List (List String) → List (Candidate P) → List (List String)
  unfolding any key_eq
  keys_from seen [] = []
  keys_from seen (c ∷ cs) = elim (any (key_eq c.key) seen) [
    | true ↦ keys_from seen cs
    | false ↦ c.key ∷ keys_from (c.key ∷ seen) cs
  ]

  -- by_key[key]
  unfoldable pub group : List (Candidate P) → List String → List (Candidate P)
  unfolding keep key_eq
  group cs key = keep (λ c. key_eq c.key key) cs

  unfoldable pub payload_equal : Json P → Candidate P → Candidate P → Bool
  payload_equal j a b = text_eq (j.payload_json a.payload) (j.payload_json b.payload)

  unfoldable pub decision : String → Candidate P → DecisionClass → Reason → Decision
  decision domain c decision_class reason = record {
    canonical_domain = domain;
    canonical_key = c.key_text;
    decision_class = decision_class;
    provider = c.provider;
    source_normalization_run_id = c.seal.run_id;
    source_row_ordinal = c.ordinal;
    available_at = c.available_at;
    reason = reason;
  }

  unfoldable pub canonical_row :
      String → (requires_security_identity : Bool) → Candidate P → CanonicalRow P
  canonical_row domain requires_security_identity c = record {
    canonical_domain = domain;
    canonical_key = c.key_text;
    security_id = if requires_security_identity then c.security_id else none;
    payload = c.payload;
    trade_date = c.trade_date;
    available_at = c.available_at;
    ingested_at = c.received_at;
    availability_basis = "OBSERVED_AT_INGEST";
    availability_policy_version = "availability-v1";
    selected_provider = c.provider;
    source_normalization_run_id = c.seal.run_id;
    source_output_name = c.output_name;
    source_row_ordinal = c.ordinal;
    source_row_identity_hash = c.row_identity;
    source_raw_request_id = c.seal.raw_request_id;
    source_raw_evidence_hash = c.seal.raw_evidence_hash;
    source_mapper_identity = c.seal.mapper_identity;
    source_policy = source_policy_version;
    canonical_contract_version = "cr3-v1";
  }
