-- ===== src/Canonical/Domains.antt =====
-- The lookups of canonical/eligibility.py, and its key builders. A row is what str() makes of the
-- entries that it has.
pub mod Keys
use a_share_analysis.Common.{
  String, Bool, true, false, Option, none, some, List, [], ◌∷◌, map, keep, Result, ok, err, ◌>>=◌,
  str_eq, if◌then◌else◌,
}
use a_share_analysis.Canonical.Matrix.{
  DomainEligibility, canonical_supported, auxiliary_only, blocked_pending_semantics, not_applicable,
  CanonicalDomainSpec, domain_specs,
}

-- KeyError: an unknown domain, or a row without the entry
pub data KeyError : Type 0 where
  unknown_domain missing_entry : String → KeyError

-- _INDEX.get(domain); the domains of the matrix differ
unfoldable pub spec_in : String → List CanonicalDomainSpec → Option CanonicalDomainSpec
spec_in domain [] = none
spec_in domain (s ∷ specs) =
    let later = spec_in domain specs in if str_eq s.domain domain then some s else later

unfoldable pub found : String → Option CanonicalDomainSpec → Result KeyError CanonicalDomainSpec
found domain none = err (unknown_domain domain)
found domain (some s) = ok s

unfoldable pub domain_spec : String → Result KeyError CanonicalDomainSpec
domain_spec domain = found domain (spec_in domain domain_specs)

unfoldable pub is_supported : CanonicalDomainSpec → Bool
is_supported s = elim s.eligibility [
  | canonical_supported ↦ true
  | auxiliary_only ↦ false
  | blocked_pending_semantics ↦ false
  | not_applicable ↦ false
]

unfoldable pub supported_domains : List String
unfolding keep is_supported
supported_domains = map (λ s. s.domain) (keep is_supported domain_specs)

abbrev pub Row : Type 0
Row = String → Option String

abbrev pub KeyBuilder : Type 0
KeyBuilder = Row → Option String → Result KeyError (List String)

entry_of : String → Option String → Result KeyError String
entry_of name none = err (missing_entry name)
entry_of name (some s) = ok s

-- str(row[name])
unfoldable pub entry : Row → String → Result KeyError String
unfolding entry_of
entry row name = entry_of name (row name)

-- str(security_id)
unfoldable pub id_text : Option String → String
id_text none = "None"
id_text (some id) = id

-- _calendar_key
unfoldable pub calendar_key : KeyBuilder
unfolding entry
calendar_key row security_id = do
  market ← entry row "market"
  trade_date ← entry row "trade_date"
  ok (market ∷ trade_date ∷ [])

-- _bar_key
unfoldable pub bar_key : KeyBuilder
unfolding entry id_text
bar_key row security_id = do
  trade_date ← entry row "trade_date"
  ok (id_text security_id ∷ trade_date ∷ [])

-- _factor_key
unfoldable pub factor_key : KeyBuilder
unfolding entry id_text
factor_key row security_id = do
  ex_date ← entry row "ex_date"
  factor_type ← entry row "factor_type"
  ok (id_text security_id ∷ ex_date ∷ factor_type ∷ [])

-- KEY_BUILDERS
unfoldable pub key_builder : String → Option KeyBuilder
key_builder domain =
    if str_eq domain "trade_calendar"
    then some calendar_key
    else if str_eq domain "daily_bar"
    then some bar_key
    else if str_eq domain "security_status"
    then some bar_key
    else if str_eq domain "limit_price"
    then some bar_key
    else if str_eq domain "adj_factor"
    then some factor_key
    else none
