-- ===== src/Gates/Counts.antt =====
-- The counters of fired provider calls in providers/runtime_gates.py, against a count that the
-- provider itself keeps in its state.
use a_share_analysis.Common.{
  ◌≡◌, ◌∙◌, subst, ap, sym, ◌⊎◌, ℕ, ◌+◌, String, Bool, Option, List, [], ◌∷◌, ok, arith,
  ok_injective, inl, inr,
}
use a_share_analysis.Lifecycle.{SdkLifecycle}
use a_share_analysis.Gates.{
  auth_account, endpoint_available, cache_metadata, freshness_asof, business_data, GateKind,
  GateResult, GateReport, GateCheck, evaluate, calls_of, total_provider_calls_fired,
}
use a_share_analysis.Gates.Checks.{
  ProbeOutcome, AccountClaim, auth_account_gate, permission_gate, endpoint_available_gate,
  cache_metadata_gate, freshness_asof_gate, business_data_gate, fire_probe, cache_metadata_result,
  freshness_result, auth_account_result,
}
use a_share_analysis.Gates.Stops.{Ran, finished, went_on, stopped, evaluate_iff}
use a_share_analysis.Gates.Session.{calls-skipped, calls-auth_account_result}
use a_share_analysis.Gates.Calls.{
  exchanges, DeniedProbe, calls-probe_result, calls-cache_metadata_result, calls-freshness_result,
  calls-denied_answer,
}

module _ {W : Type 0} (fired : W → ℕ) where
  -- The provider counts the exchanges of a probe.
  abbrev pub Counts : (W → ProbeOutcome × W) → Type 0
  Counts probe = (w : W) → fired (probe w).1 ≡ fired w + exchanges (probe w).0

  -- A gate's verdict counts the calls that it made.
  abbrev Counted : GateCheck W → Type 0
  Counted check =
      (w v : W) (r : GateResult)
      → check.evaluate w ≡ (ok r, v)
      → fired v ≡ fired w + r.provider_calls_fired

  data AllCounted : List (GateCheck W) → Type 0 where
    no_gates : AllCounted []
    one_more :
        {check : GateCheck W} {checks : List (GateCheck W)}
        → Counted check
        → AllCounted checks
        → AllCounted (check ∷ checks)

  Ran-Counted :
      {w u : W} {checks : List (GateCheck W)} {rs : List GateResult} {b : Option GateKind}
      → AllCounted checks
      → Ran w checks rs b u
      → fired u ≡ fired w + calls_of rs
  unfolding calls_of
  Ran-Counted no_gates finished = omega arith
  Ran-Counted (one_more c cs) (went_on {w = w} {v = v} {r = r} e f m) =
      omega (arith, c w v r e, Ran-Counted {w = v} cs m)
  Ran-Counted (one_more c cs) (stopped {w = w} {v = v} {checks = checks} {r = r} e f) =
      omega (arith, c w v r e, calls-skipped r.kind checks)

  -- The calls that a run counts are those that the provider saw, or one less after a denied probe.
  abbrev pub Agrees : (W → ProbeOutcome × W) → W → W → ℕ → Type 0
  Agrees permitted w u counted =
      (fired u ≡ fired w + counted)
      ⊎ ((fired u ≡ fired w + counted + 1) × DeniedProbe (permitted w).0)

  permission_gate-Agrees :
      (probe : W → ProbeOutcome × W)
      → Counts probe
      → (w v : W) (r : GateResult) → (permission_gate probe).evaluate w ≡ (ok r, v)
      → Agrees probe w v r.provider_calls_fired
  unfolding permission_gate fire_probe
  permission_gate-Agrees probe counts w v r e =
      elim (calls-denied_answer (probe w).0 r (ap (λ x. x.0) e)) [
        | inl same ↦ inl (omega (arith, counts w, ap (λ x. fired x.1) e, same))
        | inr (hidden, d) ↦ inr (omega (arith, counts w, ap (λ x. fired x.1) e, hidden), d)
      ]

  -- A pipeline whose first gate is that of the permission
  Ran-permission :
      (probe : W → ProbeOutcome × W) {w u : W} {checks : List (GateCheck W)} {rs : List GateResult}
      {b : Option GateKind}
      → Counts probe
      → AllCounted checks
      → Ran w (permission_gate probe ∷ checks) rs b u
      → Agrees probe w u (calls_of rs)
  unfolding calls_of
  Ran-permission probe counts cs (went_on {w = w} {v = v} {r = r} e f m) =
      elim (permission_gate-Agrees probe counts w v r e) [
        | inl same ↦ inl (omega (arith, same, Ran-Counted {w = v} cs m))
        | inr (hidden, d) ↦ inr (omega (arith, hidden, Ran-Counted {w = v} cs m), d)
      ]
  Ran-permission probe counts cs (stopped {w = w} {v = v} {checks = checks} {r = r} e f) =
      elim (permission_gate-Agrees probe counts w v r e) [
        | inl same ↦ inl (omega (arith, same, calls-skipped r.kind checks))
        | inr (hidden, d) ↦ inr (omega (arith, hidden, calls-skipped r.kind checks), d)
      ]

  -- A gate before it that leaves the provider alone and counts no calls
  Ran-local :
      (probe : W → ProbeOutcome × W) (kind : GateKind) (verdict : W → GateResult) {w u : W}
      {checks : List (GateCheck W)} {rs : List GateResult} {b : Option GateKind}
      → ((x : W) → (verdict x).provider_calls_fired ≡ 0)
      → Counts probe
      → AllCounted checks
      → Ran w
          (record { kind = kind; evaluate = λ x. (ok (verdict x), x) }
            ∷ permission_gate probe
            ∷ checks)
          rs
          b
          u
      → Agrees probe w u (calls_of rs)
  unfolding calls_of
  Ran-local probe kind verdict quiet counts cs
        (went_on {w = w} {v = v} {u = u} {r = r} {rs = rs} e f m) =
      let none_fired : r.provider_calls_fired ≡ 0 =
        ap (λ x. x.provider_calls_fired) (sym (ok_injective (ap (λ x. x.0) e))) ∙ quiet w in
      let same : v ≡ w = sym (ap (λ x. x.1) e) in
      let rest = Ran-permission probe counts cs m in
      elim (subst (λ x. Agrees probe x u (calls_of rs)) same rest) [
        | inl equal ↦ inl (omega (arith, equal, none_fired))
        | inr (hidden, d) ↦ inr (omega (arith, hidden, none_fired), d)
      ]
  Ran-local probe kind verdict quiet counts cs
        (stopped {w = w} {v = v} {checks = checks} {r = r} e f) =
      inl (
        omega (
          arith,
          ap (λ x. fired x.1) e,
          quiet w,
          ap (λ x. x.provider_calls_fired) (ok_injective (ap (λ x. x.0) e)),
          calls-skipped r.kind checks,
        ))

  local-Counted :
      (kind : GateKind) (verdict : W → GateResult)
      → ((w : W) → (verdict w).provider_calls_fired ≡ 0)
      → Counted (record { kind = kind; evaluate = λ w. (ok (verdict w), w) })
  local-Counted kind verdict quiet w v r e = omega (
    arith,
    ap (λ x. fired x.1) e,
    quiet w,
    ap (λ x. x.provider_calls_fired) (ok_injective (ap (λ x. x.0) e)),
  )

  fire_probe-Counted :
      (kind : GateKind) (probe : W → ProbeOutcome × W)
      → Counts probe
      → Counted (record { kind = kind; evaluate = fire_probe kind probe })
  unfolding fire_probe
  fire_probe-Counted kind probe counts w v r e = omega (
    arith,
    counts w,
    ap (λ x. fired x.1) e,
    calls-probe_result kind (probe w).0 r (ap (λ x. x.0) e),
  )

-- If the provider counts the exchanges of its probes in its state and the pipeline of the six gates
-- reports, then the report counts exactly the calls that the provider saw, or one less if the
-- permission's probe was answered by an exchange that passed with an entitlement denial.
pub calls_counted :
    {W : Type 0} (fired : W → ℕ) (repr : String → String) (lifecycle : W → SdkLifecycle)
    (claim : AccountClaim) (permitted endpoint fetch : W → ProbeOutcome × W)
    (validator : W → Bool × String) (cache_ref data_as_of required_as_of fresh_ref : String)
    (w u : W) (report : GateReport)
    → Counts fired permitted
    → Counts fired endpoint
    → Counts fired fetch
    → evaluate
        (auth_account_gate repr lifecycle claim
          ∷ permission_gate permitted
          ∷ endpoint_available_gate endpoint
          ∷ cache_metadata_gate validator cache_ref
          ∷ freshness_asof_gate data_as_of required_as_of fresh_ref
          ∷ business_data_gate fetch
          ∷ [])
        w
      ≡ (ok report, u)
    → Agrees fired permitted w u (total_provider_calls_fired report)
calls_counted fired repr lifecycle claim permitted endpoint fetch validator cache_ref data_as_of
      required_as_of fresh_ref w u report p q f h =
    unfold auth_account_gate endpoint_available_gate cache_metadata_gate freshness_asof_gate
      business_data_gate total_provider_calls_fired in
    Ran-local fired permitted auth_account (λ x. auth_account_result repr claim (lifecycle x))
      (λ x. calls-auth_account_result repr claim (lifecycle x)) p
      (one_more (fire_probe-Counted fired endpoint_available endpoint q) (
        one_more
          (local-Counted fired cache_metadata (λ x. cache_metadata_result cache_ref (validator x))
            (λ x. calls-cache_metadata_result cache_ref (validator x)))
          (one_more
            (local-Counted fired freshness_asof
              (λ x. freshness_result data_as_of required_as_of fresh_ref)
              (λ x. calls-freshness_result data_as_of required_as_of fresh_ref))
            (one_more (fire_probe-Counted fired business_data fetch f) no_gates))))
      ((evaluate_iff _ w u report).0 h).0
