-- ===== src/Gates/Session.antt =====
-- The session gate of providers/runtime_gates.py at the head of a pipeline, over a lifecycle object
-- of providers/lifecycle.py: what a pipeline that touched the provider has been through.
use a_share_analysis.Common.{
  ◌≡◌, refl, ap, ◌∙◌, subst, String, true, false, ◌≢◌, Option, List, [], ◌∷◌, map, ok, ◌⊎◌, inl,
  inr, Bool-cases, arith, str_eq, eq_iff, ◌||◌,
}
use a_share_analysis.Lifecycle.{SdkLifecycle, new, session_alive, session_ready, state_eq, state_in}
use a_share_analysis.Lifecycle.History.{Call, run}
use a_share_analysis.Lifecycle.Terminal.{HasLogin, IsAlive, alive_needs_login}
use a_share_analysis.Gates.{
  GateKind, GateResult, GateReport, GateCheck, gate_result, blocking, skipped, evaluate, calls_of,
  total_provider_calls_fired, all_pass, all_passed,
}
use a_share_analysis.Gates.Checks.{AccountClaim, auth_account_result, auth_account_gate}
use a_share_analysis.Gates.Stops.{Ran, went_on, stopped, evaluate_iff}

-- What the session gate asks of the account
pub record Proven (claim : AccountClaim) : Type 0 where
  pub parsed : claim.profile_parsed ≡ true
  pub identity :
      (claim.require_production_identity ≡ false)
      ⊎ ((claim.frozen_production_id ≢ "")
          × (claim.account_profile_id ≡ claim.frozen_production_id))

IsAlive-of_test :
    (l : SdkLifecycle)
    → (state_eq l.state session_ready || session_alive l) ≡ true
    → IsAlive l.state
unfolding session_alive state_in
IsAlive-of_test l h = ground arith

module _ (repr : String → String) (claim : AccountClaim) (l : SdkLifecycle) where
  Proven-of_passed :
      (state_eq l.state session_ready || session_alive l) ≡ true
      → blocking (auth_account_result repr claim l) ≡ false
      → Proven claim
  unfolding auth_account_result blocking gate_result
  Proven-of_passed on h =
      let g = rw on at h in
      elim (Bool-cases claim.profile_parsed) [
        | inr unparsed ↦ cc (rw unparsed at g)
        | inl parsed ↦ record {
          parsed = parsed;
          identity = elim (Bool-cases claim.require_production_identity) [
            | inr free ↦ inl free
            | inl bound ↦ inr (
              (λ none_frozen.
                  cc (
                    rw (parsed, bound, (eq_iff claim.frozen_production_id "").1 none_frozen) at g)),
              elim (Bool-cases (str_eq claim.account_profile_id claim.frozen_production_id)) [
                | inl same ↦ (eq_iff claim.account_profile_id claim.frozen_production_id).0 same
                | inr other ↦ elim (Bool-cases (str_eq claim.frozen_production_id "")) [
                  | inl e ↦ cc (rw (parsed, bound, e) at g)
                  | inr e ↦ cc (rw (parsed, bound, e, other) at g)
                ]
              ],
            )
          ];
        }
      ]

auth_account_result-Proven :
    (repr : String → String) (claim : AccountClaim) (l : SdkLifecycle)
    → blocking (auth_account_result repr claim l) ≡ false
    → IsAlive l.state × Proven claim
unfolding auth_account_result blocking gate_result
auth_account_result-Proven repr claim l h =
    elim (Bool-cases (state_eq l.state session_ready || session_alive l)) [
      | inr off ↦ cc (rw off at h)
      | inl on ↦ (IsAlive-of_test l on, Proven-of_passed repr claim l on h)
    ]

pub calls-skipped :
    {W : Type 0} (k : GateKind) (checks : List (GateCheck W))
    → calls_of (map (skipped k) checks) ≡ 0
unfolding calls_of skipped gate_result
calls-skipped k [] = refl
calls-skipped k (c ∷ cs) = omega (arith, calls-skipped k cs)

pub calls-auth_account_result :
    (repr : String → String) (claim : AccountClaim) (l : SdkLifecycle)
    → (auth_account_result repr claim l).provider_calls_fired ≡ 0
unfolding auth_account_result gate_result
calls-auth_account_result repr claim l = ground arith

all_pass-of_blocking :
    (r : GateResult) (rs : List GateResult) → blocking r ≡ true → all_pass (r ∷ rs) ≡ false
unfolding all_pass blocking
all_pass-of_blocking r rs h = ground arith

head_cases :
    {W : Type 0} (check : GateCheck W) (checks : List (GateCheck W)) {w v u : W} {r : GateResult}
    {rs : List GateResult} {b : Option GateKind}
    → check.evaluate w ≡ (ok r, v)
    → Ran w (check ∷ checks) rs b u
    → (blocking r ≡ false)
      ⊎ ((blocking r ≡ true) × (u ≡ v) × (rs ≡ r ∷ map (skipped r.kind) checks))
head_cases check checks known (went_on e f m) = inl (cc (known, e, f))
head_cases check checks known (stopped e f) =
    inr ((cc (known, e, f)), (cc (known, e)), cc (known, e))

-- Nothing has been fired, and the pipeline has not passed.
pub record Untouched (W : Type 0) (before after : W) (report : GateReport) : Type 0 where
  pub same_state : after ≡ before
  pub no_calls : total_provider_calls_fired report ≡ 0
  pub refused : all_passed report ≡ false

-- Let the session's gate stand first in a pipeline, over a lifecycle object driven by any calls from
-- its start. If the pipeline reports, then either it has left the provider's state alone, counts no
-- calls and has not passed, or a login is recorded in the object's history, the profile was parsed,
-- and a production identity, if required, is configured and equals the account's.
pub session_gate_guards :
    {W : Type 0} (repr : String → String) (lifecycle : W → SdkLifecycle) (claim : AccountClaim)
    (checks : List (GateCheck W)) (calls : List Call) (w u : W) (report : GateReport)
    → lifecycle w ≡ run new calls
    → evaluate (auth_account_gate repr lifecycle claim ∷ checks) w ≡ (ok report, u)
    → Untouched W w u report ⊎ (HasLogin (run new calls).history × Proven claim)
session_gate_guards repr lifecycle claim checks calls w u report here h =
    let first = auth_account_result repr claim (lifecycle w) in
    let m = (evaluate_iff (auth_account_gate repr lifecycle claim ∷ checks) w u report).0 h in
    let known : (auth_account_gate repr lifecycle claim).evaluate w ≡ (ok first, w) =
      unfold auth_account_gate in refl in
    elim (head_cases (auth_account_gate repr lifecycle claim) checks known m.0) [
      | inl passed ↦
          let (alive, proven) = auth_account_result-Proven repr claim (lifecycle w) passed in
          inr (alive_needs_login calls (subst (λ l. IsAlive l.state) here alive), proven)
      | inr (stop, same, results) ↦ inl (record {
        same_state = same;
        no_calls =
            unfold total_provider_calls_fired in
            ap calls_of results
            ∙ unfold calls_of in
              omega (
                arith,
                calls-skipped first.kind checks,
                calls-auth_account_result repr claim (lifecycle w),
              );
        refused =
            unfold all_passed in
            cc (all_pass-of_blocking first (map (skipped first.kind) checks) stop, results);
      })
    ]
