-- ===== src/Gates/Calls.antt =====
-- How many provider calls a verdict of providers/runtime_gates.py counts, against the exchanges that
-- its probe has made.
use a_share_analysis.Common.{
  ◌≡◌, true, refl, ap, sym, ◌⊎◌, ℕ, ◌+◌, String, Bool, none, some, ok, arith, ok_injective,
  Bool-cases, inl, inr, Result-cases, ◌&&◌, has_part, codes,
}
use a_share_analysis.Gates.{permission, is_pass, GateKind, GateResult, gate_result}
use a_share_analysis.Gates.Checks.{
  ProviderExchange, ProbeOutcome, returned, raised, escaped, probe_result, exchange_result, denied,
  denied_answer, cache_metadata_result, freshness_result,
}

-- The exchanges that a probe has made
unfoldable pub exchanges : ProbeOutcome → ℕ
exchanges (returned e) = 1
exchanges (raised message (some e)) = 1
exchanges _ = 0

calls-exchange_result :
    (kind : GateKind) (e : ProviderExchange) → (exchange_result kind e).provider_calls_fired ≡ 1
unfolding exchange_result gate_result
calls-exchange_result kind e = refl

pub calls-probe_result :
    (kind : GateKind) (o : ProbeOutcome) (r : GateResult)
    → probe_result kind o ≡ ok r
    → r.provider_calls_fired ≡ exchanges o
unfolding exchanges probe_result gate_result
calls-probe_result kind (returned x) r e = cc (calls-exchange_result kind x, ok_injective e)
calls-probe_result kind (raised message (some x)) r e =
    cc (calls-exchange_result kind x, ok_injective e)
calls-probe_result kind (raised message none) r e =
    ap (λ x. x.provider_calls_fired) (sym (ok_injective e))
calls-probe_result kind (escaped message) r e = cc

pub calls-cache_metadata_result :
    (ref : String) (answer : Bool × String)
    → (cache_metadata_result ref answer).provider_calls_fired ≡ 0
unfolding cache_metadata_result gate_result
calls-cache_metadata_result ref answer = refl

pub calls-freshness_result :
    (data_as_of required_as_of ref : String)
    → (freshness_result data_as_of required_as_of ref).provider_calls_fired ≡ 0
unfolding freshness_result gate_result
calls-freshness_result data_as_of required_as_of ref = ground arith

-- The verdict that a denial replaces: it passed, and its reason speaks of an entitlement denial.
abbrev pub IsDenied : GateResult → Type 0
IsDenied r =
    (is_pass r.status ≡ true) × (has_part (codes "entitlement denial") (codes r.reason) ≡ true)

-- A denial hides the call of its exchange; every other verdict stays as it is.
calls-denied :
    (r : GateResult)
    → ((denied r).provider_calls_fired ≡ r.provider_calls_fired)
      ⊎ (((denied r).provider_calls_fired ≡ 0) × IsDenied r)
unfolding denied gate_result
calls-denied r =
    elim (Bool-cases (is_pass r.status && has_part (codes "entitlement denial") (codes r.reason))) [
      | inl e ↦ inr (rw e refl, (ground arith, ground arith))
      | inr e ↦ inl (rw e refl)
    ]

-- A probe's answer that passes comes of exactly one exchange.
passed_once :
    (kind : GateKind) (o : ProbeOutcome) (r : GateResult)
    → probe_result kind o ≡ ok r
    → is_pass r.status ≡ true
    → exchanges o ≡ 1
unfolding exchanges probe_result gate_result
passed_once kind (returned x) r e p = refl
passed_once kind (raised message (some x)) r e p = refl
passed_once kind (raised message none) r e p = cc (ap (λ x. is_pass x.status) (ok_injective e), p)
passed_once kind (escaped message) r e p = cc

-- The probe of the permission gate gives a verdict that is denied.
pub record DeniedProbe (o : ProbeOutcome) : Type 0 where
  pub verdict : GateResult
  pub answered : probe_result permission o ≡ ok verdict
  pub denial : IsDenied verdict

pub calls-denied_answer :
    (o : ProbeOutcome) (r : GateResult)
    → denied_answer (probe_result permission o) ≡ ok r
    → (r.provider_calls_fired ≡ exchanges o)
      ⊎ ((r.provider_calls_fired + 1 ≡ exchanges o) × DeniedProbe o)
unfolding denied_answer
calls-denied_answer o r e = elim (Result-cases (probe_result permission o)) [
  | inr (x, f) ↦ cc (rw f at e)
  | inl (q, f) ↦
      let same : (denied q).provider_calls_fired ≡ r.provider_calls_fired =
        ap (λ x. x.provider_calls_fired) (ok_injective (rw f at e)) in
      elim (calls-denied q) [
        | inl kept ↦ inl (omega (arith, same, kept, calls-probe_result permission o q f))
        | inr (hidden, d) ↦ inr (
          omega (arith, same, hidden, passed_once permission o q f d.0),
          record { verdict = q; answered = f; denial = d },
        )
      ]
]
