-- ===== src/MarketState/Registry/Exact.antt =====
-- What the compiler of state/registry.py accepts.
use a_share_analysis.Common.{
  String, ◌≡◌, refl, sym, ◌∙◌, ap, ◌↔◌, true, Option, none, some, List, [], ◌∷◌, map, ok, guard,
  >>=-eq-ok, guard-eq-ok, ok_injective, arith, Bool-cases, inl, inr, str_eq, eq_iff, length, ◌==◌,
}
use a_share_analysis.MarketState.Specs.{
  Eligibility, supported, blocked, StateSpec, StateSet, return_center_spec,
  daily_participation_spec, trend_participation_spec, market_structure_spec, supported_state_names,
  canonical_specs, v1_state_set,
}
use a_share_analysis.MarketState.Registry.{
  StateHandler, return_center, daily_participation, trend_participation, market_structure,
  StateExecutionSpec, StateExecutionPlan, spec_by_name, handler_by_rule, with_handler,
  against_canonical, strings_eq, eligibility_eq, spec_eq, compile_entry, compile_entries,
  is_v1_metadata, distinct_strings, distinct_handlers, compile_state_execution_plan, compiling,
  not_v1_metadata, not_v1_names, wrong_number, duplicate_declarations, plan_not_v1,
  handler_not_unique,
}

str_eq-eq : (a b : String) → str_eq a b ≡ true → a ≡ b
str_eq-eq a b h = (eq_iff a b).0 h

strings_eq-eq : (s t : List String) → strings_eq s t ≡ true → s ≡ t
unfolding strings_eq
strings_eq-eq [] [] h = refl
strings_eq-eq [] (b ∷ t) h = cc
strings_eq-eq (a ∷ s) [] h = cc
strings_eq-eq (a ∷ s) (b ∷ t) h =
    let p : a ≡ b = str_eq-eq a b (ground arith) in
    let q : s ≡ t = strings_eq-eq s t (ground arith) in cc

eligibility_eq-eq : (a b : Eligibility) → eligibility_eq a b ≡ true → a ≡ b
eligibility_eq-eq supported supported h = refl
eligibility_eq-eq blocked blocked h = refl
eligibility_eq-eq supported blocked h = cc
eligibility_eq-eq blocked supported h = cc

spec_eq-eq : (s t : StateSpec) → spec_eq s t ≡ true → s ≡ t
unfolding spec_eq
spec_eq-eq s t h =
    let p0 : s.state_name ≡ t.state_name = str_eq-eq _ _ (ground arith) in
    let p1 : s.output_enum ≡ t.output_enum = strings_eq-eq _ _ (ground arith) in
    let p2 : s.required_feature_inputs ≡ t.required_feature_inputs =
      strings_eq-eq _ _ (ground arith) in
    let p3 : s.rule_id ≡ t.rule_id = str_eq-eq _ _ (ground arith) in
    let p4 : s.threshold_policy ≡ t.threshold_policy = str_eq-eq _ _ (ground arith) in
    let p5 : s.missingness_policy ≡ t.missingness_policy = str_eq-eq _ _ (ground arith) in
    let p6 : s.availability_rule ≡ t.availability_rule = str_eq-eq _ _ (ground arith) in
    let p7 : s.interpretation ≡ t.interpretation = str_eq-eq _ _ (ground arith) in
    let p8 : s.non_predictive_statement ≡ t.non_predictive_statement =
      str_eq-eq _ _ (ground arith) in
    let p9 : s.eligibility ≡ t.eligibility = eligibility_eq-eq _ _ (ground arith) in cc

with_handler-eq-ok :
    (spec : StateSpec) (o : Option StateHandler) {e : StateExecutionSpec}
    → with_handler spec o ≡ ok e
    → (e.spec ≡ spec) × (o ≡ some e.handler)
unfolding with_handler
with_handler-eq-ok spec none h = cc
with_handler-eq-ok spec (some x) h = (cc (ok_injective h), cc (ok_injective h))

against_canonical-eq-ok :
    (spec : StateSpec) (o : Option StateSpec) {e : StateExecutionSpec}
    → against_canonical spec o ≡ ok e
    → (o ≡ some spec) × (e.spec ≡ spec) × (handler_by_rule spec.rule_id ≡ some e.handler)
unfolding against_canonical
against_canonical-eq-ok spec none h = cc
against_canonical-eq-ok spec (some c) h = elim (Bool-cases (spec_eq spec c)) [
  | inr f ↦ cc (rw f at h)
  | inl f ↦
      let (p, q) = with_handler-eq-ok spec (handler_by_rule spec.rule_id) (rw f at h) in
      (cc (spec_eq-eq spec c f), p, q)
]

compile_entry-eq-ok :
    (spec : StateSpec) {e : StateExecutionSpec}
    → compile_entry spec ≡ ok e
    → (spec_by_name spec.state_name canonical_specs ≡ some spec)
      × (e.spec ≡ spec)
      × (handler_by_rule spec.rule_id ≡ some e.handler)
unfolding compile_entry
compile_entry-eq-ok spec h =
    against_canonical-eq-ok spec (spec_by_name spec.state_name canonical_specs) h

abbrev entry_of : StateSpec → StateHandler → StateExecutionSpec
entry_of spec handler = record { spec = spec; handler = handler }

abbrev v1_entries : List StateExecutionSpec
v1_entries =
    entry_of return_center_spec return_center
    ∷ entry_of daily_participation_spec daily_participation
    ∷ entry_of trend_participation_spec trend_participation
    ∷ entry_of market_structure_spec market_structure
    ∷ []

-- The plan of the V1 set: its four declarations in order, each with its own handler.
abbrev pub v1_plan : StateExecutionPlan
v1_plan = record { state_set = v1_state_set; entries = v1_entries }

-- A declaration with the name of a canonical one is that one, and gets its handler.
entry_exact :
    (spec canonical : StateSpec) (handler : StateHandler) {e : StateExecutionSpec}
    → spec_by_name canonical.state_name canonical_specs ≡ some canonical
    → handler_by_rule canonical.rule_id ≡ some handler
    → spec.state_name ≡ canonical.state_name
    → compile_entry spec ≡ ok e
    → (spec ≡ canonical) × (e ≡ entry_of canonical handler)
entry_exact spec canonical handler {e} found handled named h =
    let (p, q, r) = compile_entry-eq-ok spec h in
    let same : spec ≡ canonical = cc (rw named at p) in
    let same_handler : e.handler ≡ handler = cc in (same, cc)

compile_entries_cons :
    (s : StateSpec) (specs : List StateSpec) {out : List StateExecutionSpec}
    → compile_entries (s ∷ specs) ≡ ok out
    → (e : StateExecutionSpec) × (es : List StateExecutionSpec) × (compile_entry s ≡ ok e)
      × (compile_entries specs ≡ ok es)
      × (out ≡ e ∷ es)
unfolding compile_entries
compile_entries_cons s specs h =
    let (e, p, h1) = >>=-eq-ok (compile_entry s) _ h in
    let (es, q, h2) = >>=-eq-ok (compile_entries specs) _ h1 in (e, es, p, q, sym (ok_injective h2))

compile_entries_nil : {out : List StateExecutionSpec} → compile_entries [] ≡ ok out → out ≡ []
unfolding compile_entries
compile_entries_nil h = sym (ok_injective h)

v1_of_names :
    (specs : List StateSpec) {out : List StateExecutionSpec}
    → map (λ t. t.state_name) specs ≡ supported_state_names
    → compile_entries specs ≡ ok out
    → (specs ≡ canonical_specs) × (out ≡ v1_entries)
unfolding spec_by_name handler_by_rule
v1_of_names [] n h = cc
v1_of_names (a ∷ []) n h = cc
v1_of_names (a ∷ b ∷ []) n h = cc
v1_of_names (a ∷ b ∷ c ∷ []) n h = cc
v1_of_names (a ∷ b ∷ c ∷ d ∷ x ∷ specs) n h = cc
v1_of_names (a ∷ b ∷ c ∷ d ∷ []) n h =
    let (ea, e1, pa, h1, oa) = compile_entries_cons a (b ∷ c ∷ d ∷ []) h in
    let (eb, e2, pb, h2, ob) = compile_entries_cons b (c ∷ d ∷ []) h1 in
    let (ec, e3, pc, h3, oc) = compile_entries_cons c (d ∷ []) h2 in
    let (ed, e4, pd, h4, od) = compile_entries_cons d [] h3 in
    let oe = compile_entries_nil h4 in
    let (sa, ta) = entry_exact a return_center_spec return_center refl refl (cc) pa in
    let (sb, tb) = entry_exact b daily_participation_spec daily_participation refl refl (cc) pb in
    let (sc, tc) = entry_exact c trend_participation_spec trend_participation refl refl (cc) pc in
    let (sd, td) = entry_exact d market_structure_spec market_structure refl refl (cc) pd in
    (cc, cc)

is_v1_metadata-eq :
    (s : StateSet) → is_v1_metadata s ≡ true → s.states ≡ canonical_specs → s ≡ v1_state_set
unfolding is_v1_metadata
is_v1_metadata-eq s h e =
    let p0 = str_eq-eq s.state_set_id "market-state-descriptive-v1" (ground arith) in
    let p1 = str_eq-eq s.state_set_version "1" (ground arith) in
    let p2 = str_eq-eq s.state_registry_version "state-registry-v1" (ground arith) in
    let p3 = str_eq-eq s.contract_version "state-v1" (ground arith) in cc

abbrev names : StateSet → List String
names s = map (λ t. t.state_name) s.states

v1_compiles : compile_state_execution_plan v1_state_set ≡ ok v1_plan
unfolding compiling
v1_compiles = refl

-- The compiler accepts the V1 state set and no other, and its plan is always the four V1
-- declarations in their order, each with its own rule handler.
pub compile_iff :
    (s : StateSet) (plan : StateExecutionPlan)
    → (compile_state_execution_plan s ≡ ok plan) ↔ ((s ≡ v1_state_set) × (plan ≡ v1_plan))
unfolding compile_state_execution_plan
compile_iff s plan = (
  λ h.
      let (u0, g0, h0) = >>=-eq-ok (guard (is_v1_metadata s) not_v1_metadata) _ h in
      let (u1, g1, h1) =
        >>=-eq-ok (guard (strings_eq (names s) supported_state_names) not_v1_names) _ h0 in
      let (u2, g2, h2) =
        >>=-eq-ok (guard (length s.states == length canonical_specs) wrong_number) _ h1 in
      let (u3, g3, h3) =
        >>=-eq-ok (guard (distinct_strings (names s) == length s.states) duplicate_declarations) _
          h2 in
      let (entries, g4, h4) = >>=-eq-ok (compile_entries s.states) _ h3 in
      let (u5, g5, h5) =
        >>=-eq-ok
          (guard (strings_eq (map (λ e. e.spec.state_name) entries) supported_state_names)
            plan_not_v1)
          _ h4 in
      let (u6, g6, h6) =
        >>=-eq-ok (guard (distinct_handlers entries == length entries) handler_not_unique) _ h5 in
      let (states_are, entries_are) =
        v1_of_names s.states (strings_eq-eq _ _ (guard-eq-ok _ _ g1)) g4 in
      let set_is : s ≡ v1_state_set = is_v1_metadata-eq s (guard-eq-ok _ _ g0) states_are in
      (set_is, sym (ok_injective h6) ∙ cc (set_is, entries_are)),
  λ p. rw p.0 (v1_compiles ∙ ap ok (sym p.1)),
)
