-- ===== src/Canonical/Run.antt =====
-- canonical/canonicalizer.py: _select over the usable candidates of a domain, the pass over one
-- domain of a canonical run, and the status of the run.
use a_share_analysis.Common.{
  ℕ, String, Bool, true, false, not, ◌&&◌, none, some, List, [], ◌∷◌, ◌++◌, keep, any, leb, ltb,
  length, str_eq, Text, text_eq, text_leb, sort_by, if◌then◌else◌,
}
use a_share_analysis.Canonical.Policy.{CanonicalSourcePolicy}
use a_share_analysis.Canonical.Select.{
  Json, Candidate, selected, equivalent_merged, excluded_future, policy_winner, after_as_of,
  equal_values, Decision, Detail, source_conflict, duplicate_canonical_key, required_domain_missing,
  required_domain_unavailable, identity_missing, CanonicalFinding, CanonicalRow, preferred,
  is_usable, keys_from, group, payload_equal, decision, canonical_row,
}

-- What the pass over a domain adds to a run
pub record Selection (P : Type 0) : Type 0 where
  pub rows : List (CanonicalRow P)
  pub decisions : List Decision
  pub findings : List (CanonicalFinding P)

-- A domain and what _select reads of its spec and its policy
pub record DomainPass : Type 0 where
  pub domain : String
  pub requires_security_identity : Bool
  pub policy : CanonicalSourcePolicy

unfoldable pub marker_eq : String × Text → String × Text → Bool
marker_eq a b = str_eq a.0 b.0 && text_eq a.1 b.1

module _ {P : Type 0} where
  abbrev pub nothing : Selection P
  nothing = record { rows = []; decisions = []; findings = [] }

  abbrev pub and_then : Selection P → Selection P → Selection P
  and_then s t = record {
    rows = s.rows ++ t.rows;
    decisions = s.decisions ++ t.decisions;
    findings = s.findings ++ t.findings;
  }

  unfoldable pub conflict_of : DomainPass → Candidate P → Candidate P → CanonicalFinding P
  conflict_of p winner other = record {
    canonical_domain = p.domain;
    canonical_key = winner.key_text;
    detail =
        source_conflict winner.seal.run_id winner.payload other.seal.run_id other.payload
          p.policy.tolerance_rule_id;
    provider = some other.provider;
    source_normalization_run_id = some other.seal.run_id;
    blocking = true;
  }

  -- One candidate beside the winner of its key
  unfoldable pub compared : Json P → DomainPass → Candidate P → Candidate P → Selection P
  unfolding payload_equal decision conflict_of
  compared j p winner other =
      if payload_equal j winner other
      then record {
        rows = [];
        decisions =
            decision p.domain other equivalent_merged (equal_values winner.seal.run_id) ∷ [];
        findings = [];
      }
      else record { rows = []; decisions = []; findings = conflict_of p winner other ∷ [] }

  unfoldable pub compare_all : Json P → DomainPass → Candidate P → List (Candidate P) → Selection P
  compare_all j p winner [] = nothing
  compare_all j p winner (other ∷ others) =
      and_then (compared j p winner other) (compare_all j p winner others)

  -- The loop's body on one sorted group; a key of by_key has a group that is not empty.
  unfoldable pub settle_group : Json P → DomainPass → List (Candidate P) → Selection P
  settle_group j p [] = nothing
  settle_group j p (winner ∷ others) = and_then (compare_all j p winner others) (record {
    rows = canonical_row p.domain p.requires_security_identity winner ∷ [];
    decisions = decision p.domain winner selected policy_winner ∷ [];
    findings = [];
  })

  unfoldable pub sorted_group : DomainPass → List (Candidate P) → List String → List (Candidate P)
  sorted_group p usable key = sort_by (preferred p.policy) (group usable key)

  unfoldable pub settle_keys :
      Json P → DomainPass → List (Candidate P) → List (List String) → Selection P
  settle_keys j p usable [] = nothing
  settle_keys j p usable (key ∷ keys) =
      and_then (settle_group j p (sorted_group p usable key)) (settle_keys j p usable keys)

  abbrev pub marker : Candidate P → String × Text
  marker c = (c.seal.run_id, c.key_text)

  unfoldable pub duplicate_of : DomainPass → Candidate P → CanonicalFinding P
  duplicate_of p c = record {
    canonical_domain = p.domain;
    canonical_key = c.key_text;
    detail = duplicate_canonical_key c.output_name;
    provider = some c.provider;
    source_normalization_run_id = some c.seal.run_id;
    blocking = true;
  }

  -- The loop over `seen`
  unfoldable pub duplicates :
      DomainPass → List (String × Text) → List (Candidate P) → List (CanonicalFinding P)
  duplicates p seen [] = []
  duplicates p seen (c ∷ cs) = elim (any (marker_eq (marker c)) seen) [
    | true ↦ duplicate_of p c ∷ duplicates p seen cs
    | false ↦ duplicates p (marker c ∷ seen) cs
  ]

  unfoldable pub sorted_keys : Json P → List (Candidate P) → List (List String)
  sorted_keys j usable =
      sort_by (λ k l. text_leb (j.key_json k) (j.key_json l)) (keys_from [] usable)

  -- _select
  unfoldable pub select : Json P → DomainPass → List (Candidate P) → Selection P
  select j p candidates =
      let usable = keep is_usable candidates in
      let settled = settle_keys j p usable (sorted_keys j usable) in
      record settled { findings = settled.findings ++ duplicates p [] usable }

  abbrev pub is_available : ℕ → Candidate P → Bool
  is_available as_of c = leb c.available_at as_of

  unfoldable pub excluded : DomainPass → ℕ → List (Candidate P) → List Decision
  excluded p as_of [] = []
  excluded p as_of (c ∷ cs) =
      let rest = excluded p as_of cs in
      if is_available as_of c then rest else decision p.domain c excluded_future after_as_of ∷ rest

  unfoldable pub domain_finding : DomainPass → Detail P → Bool → CanonicalFinding P
  domain_finding p detail blocking = record {
    canonical_domain = p.domain;
    canonical_key = [];
    detail = detail;
    provider = none;
    source_normalization_run_id = none;
    blocking = blocking;
  }

  abbrev pub is_nil : List (Candidate P) → Bool
  is_nil [] = true
  is_nil (c ∷ cs) = false

  -- The precedence of the findings on the inputs of a domain: whether a run of the domain was
  -- discovered, and whether one of them is healthy
  unfoldable pub input_findings :
      DomainPass → (eligible healthy : Bool) → List (Candidate P) → List (CanonicalFinding P)
  input_findings p eligible healthy available =
      if not eligible
      then domain_finding p required_domain_missing true ∷ []
      else if not healthy
      then []
      else if is_nil available
      then domain_finding p required_domain_unavailable true ∷ []
      else []

  unfoldable pub missing_count : List (Candidate P) → ℕ
  missing_count cs = length (keep (λ c. not (is_usable c)) cs)

  unfoldable pub missing_findings : DomainPass → ℕ → List (CanonicalFinding P)
  missing_findings p missing =
      if leb missing 0
      then []
      else domain_finding p (identity_missing missing p.policy.identity_missing_max)
          (ltb p.policy.identity_missing_max missing)
        ∷ []

  -- The pass over one requested domain, with the finding on missing identities that follows it
  unfoldable pub domain_pass :
      Json P → DomainPass → (as_of : ℕ) (eligible healthy : Bool) → List (Candidate P) → Selection P
  domain_pass j p as_of eligible healthy candidates =
      let available = keep (is_available as_of) candidates in
      let chosen = select j p available in
      record {
        rows = chosen.rows;
        decisions = excluded p as_of candidates ++ chosen.decisions;
        findings =
            input_findings p eligible healthy available
            ++ chosen.findings
            ++ missing_findings p (missing_count available);
      }

  unfoldable pub is_blocking : CanonicalFinding P → Bool
  is_blocking f = f.blocking

  -- Whether _status_error_from_findings answers SUCCESS
  unfoldable pub is_success : List (CanonicalFinding P) → Bool
  is_success findings = not (any is_blocking findings)
