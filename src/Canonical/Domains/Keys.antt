-- ===== src/Canonical/Domains/Keys.antt =====
-- Which key a row of a domain gets, in canonical/eligibility.py.
use a_share_analysis.Common.{
  String, ◌≡◌, refl, sym, ◌⊎◌, inl, inr, true, false, Option, none, some, List, [], ◌∷◌, Result, ok,
  ◌>>=◌, Result-cases, subst, Memᴰ, Memᴰ-cons, str_eq, if◌then◌else◌,
}
use a_share_analysis.Canonical.Matrix.{CanonicalDomainSpec, domain_specs}
use a_share_analysis.Canonical.Domains.{
  KeyError, is_supported, Row, KeyBuilder, entry, id_text, calendar_key, bar_key, factor_key,
  key_builder,
}

-- The row's values at the fields, in order; the security id is not taken from the row.
pub part : Row → Option String → String → Result KeyError String
part row id name = if str_eq name "security_id" then ok (id_text id) else entry row name

pub parts : Row → Option String → List String → Result KeyError (List String)
unfolding part
parts row id [] = ok []
parts row id (name ∷ names) = do
  value ← part row id name
  values ← parts row id names
  ok (value ∷ values)

module _ (row : Row) (id : Option String) where
  calendar_key-parts : calendar_key row id ≡ parts row id ("market" ∷ "trade_date" ∷ [])
  unfolding calendar_key parts
  calendar_key-parts = elim (Result-cases (entry row "market")) [
    | inl (a, e) ↦ elim (Result-cases (entry row "trade_date")) [
      | inl (b, f) ↦ rw (e, f) refl
      | inr (b, f) ↦ rw (e, f) refl
    ]
    | inr (a, e) ↦ rw e refl
  ]

  bar_key-parts : bar_key row id ≡ parts row id ("security_id" ∷ "trade_date" ∷ [])
  unfolding bar_key parts
  bar_key-parts = elim (Result-cases (entry row "trade_date")) [
    | inl (b, f) ↦ rw f refl
    | inr (b, f) ↦ rw f refl
  ]

  factor_key-parts :
      factor_key row id ≡ parts row id ("security_id" ∷ "ex_date" ∷ "factor_type" ∷ [])
  unfolding factor_key parts
  factor_key-parts = elim (Result-cases (entry row "ex_date")) [
    | inl (a, e) ↦ elim (Result-cases (entry row "factor_type")) [
      | inl (b, f) ↦ rw (e, f) refl
      | inr (b, f) ↦ rw (e, f) refl
    ]
    | inr (a, e) ↦ rw e refl
  ]

-- A supported row has a builder of the keys at its key fields, any other row has none.
abbrev pub KeyCase : CanonicalDomainSpec → Type 0
KeyCase s =
    ((is_supported s ≡ true)
      × ((build : KeyBuilder) × (key_builder s.domain ≡ some build)
          × ((row : Row) (id : Option String) → build row id ≡ parts row id s.key_fields)))
    ⊎ ((is_supported s ≡ false) × (key_builder s.domain ≡ none))

data Every : List CanonicalDomainSpec → Type 0 where
  no_more : Every []
  both :
      {s : CanonicalDomainSpec} {specs : List CanonicalDomainSpec}
      → KeyCase s
      → Every specs
      → Every (s ∷ specs)

abbrev drop_five : List CanonicalDomainSpec → List CanonicalDomainSpec
drop_five (a ∷ b ∷ c ∷ d ∷ e ∷ specs) = specs
drop_five specs = specs

Every-mem :
    (specs : List CanonicalDomainSpec) (s : CanonicalDomainSpec)
    → Every specs
    → Memᴰ s specs
    → KeyCase s
Every-mem [] s all m = elim m [ ]
Every-mem (t ∷ specs) s (both here later) m = elim (Memᴰ-cons m) [
  | inl e ↦ subst KeyCase (sym e) here
  | inr n ↦ Every-mem specs s later n
]

-- A domain of the matrix has a key builder exactly if it is supported, and the key of a row is the
-- row's values at the declared key fields in their order, or the first of them that is missing.
pub key_builder_cases : (s : CanonicalDomainSpec) → Memᴰ s domain_specs → KeyCase s
unfolding key_builder is_supported
key_builder_cases s = Every-mem domain_specs s (
    both (inl (refl, (calendar_key, refl, calendar_key-parts))) (
      both (inl (refl, (bar_key, refl, bar_key-parts))) (
        both (inl (refl, (bar_key, refl, bar_key-parts))) (
          both (inl (refl, (bar_key, refl, bar_key-parts)))
            (both (inl (refl, (factor_key, refl, factor_key-parts))) rest)))))
  where
    rest : Every (drop_five domain_specs)
    rest = both (inr (refl, refl)) (
        both (inr (refl, refl)) (
          both (inr (refl, refl)) (
            both (inr (refl, refl)) (
              both (inr (refl, refl)) (
                both (inr (refl, refl))
                  (both (inr (refl, refl)) (both (inr (refl, refl)) no_more)))))))
