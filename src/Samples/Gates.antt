-- ===== src/Samples/Gates.antt =====
-- The gate pipeline at concrete inputs: a provider that counts its calls, denies the permission
-- and would answer the two other probes.
use a_share_analysis.Common.{
  ◌≡◌, refl, ℕ, ◌+◌, String, Bool, true, false, none, some, List, [], ◌∷◌, ◌⊎◌, ok, err, ◌↔◌,
}
use a_share_analysis.Lifecycle.{SdkLifecycle, session_ready, new}
use a_share_analysis.Lifecycle.History.{Call, move, run, perform}
use a_share_analysis.Lifecycle.Terminal.{HasLogin}
use a_share_analysis.Gates.{GateCheck, GateReport, evaluate, total_provider_calls_fired, is_set}
use a_share_analysis.Gates.Checks.{
  ProbeOutcome, returned, raised, ProviderExchange, AccountClaim, auth_account_gate,
  permission_gate, endpoint_available_gate, cache_metadata_gate, freshness_asof_gate,
  business_data_gate, auth_account_result, denied_answer, fire_probe, probe_result, denied,
  exchange_result, exchange_outcome,
}
use a_share_analysis.Gates.Stops.{Ran, evaluate_iff}
use a_share_analysis.Gates.Session.{Untouched, Proven, session_gate_guards}
use a_share_analysis.Gates.Counts.{Agrees, Counts, calls_counted}
use a_share_analysis.Gates.Calls.{exchanges}

-- The number of calls and the lifecycle
abbrev Provider : Type 0
Provider = ℕ × SdkLifecycle

abbrev login : List Call
login = move session_ready "login" "login:1" "t1" ∷ []

abbrev logged_in : Provider
logged_in = (7, run new login)

abbrev exchange : String → ProviderExchange
exchange status = record {
  status = status;
  endpoint = "query_kline";
  row_count = 12;
  error_class = none;
  request_id = "r1";
}

abbrev answers : Provider → ProbeOutcome × Provider
answers (n, l) = (returned (exchange "OK"), (n + 1, l))

abbrev denies : Provider → ProbeOutcome × Provider
denies (n, l) = (raised "no permission" (some (exchange "ERROR")), (n + 1, l))

abbrev claim : AccountClaim
claim = record {
  account_profile_id = "prod-1";
  profile_parsed = true;
  require_production_identity = true;
  frozen_production_id = "prod-1";
}

abbrev quoted : String → String
quoted s = s

abbrev valid : Provider → Bool × String
valid p = (true, "calendar present")

abbrev later_gates : List (GateCheck Provider)
later_gates =
    permission_gate denies
    ∷ endpoint_available_gate answers
    ∷ cache_metadata_gate valid "meta:1"
    ∷ freshness_asof_gate "2026-01-05" "2026-01-05" "cal:1"
    ∷ business_data_gate answers
    ∷ []

abbrev gates : List (GateCheck Provider)
gates = auth_account_gate quoted (λ p. p.1) claim ∷ later_gates

abbrev gate_report : GateReport
gate_report = elim ((evaluate gates logged_in).0) [
  | ok report ↦ report
  | err e ↦ record { results = []; early_stopped = false; blocked_by = none }
]

evaluate_here : evaluate gates logged_in ≡ (ok gate_report, (8, run new login))
unfolding evaluate auth_account_gate auth_account_result run perform permission_gate denied_answer
    fire_probe probe_result denied exchange_result exchange_outcome
evaluate_here = refl

evaluate_iff_example : (evaluate gates logged_in ≡ (ok gate_report, (8, run new login))) ↔ (
    Ran logged_in gates gate_report.results gate_report.blocked_by (8, run new login)
    × (gate_report.early_stopped ≡ is_set gate_report.blocked_by))
evaluate_iff_example = evaluate_iff gates logged_in (8, run new login) gate_report

session_gate_guards_example :
    Untouched Provider logged_in (8, run new login) gate_report
    ⊎ (HasLogin (run new login).history × Proven claim)
session_gate_guards_example =
    session_gate_guards quoted (λ p. p.1) claim later_gates login logged_in (8, run new login)
      gate_report refl evaluate_here

Counts-of_denies : Counts (λ p. p.0) denies
unfolding exchanges
Counts-of_denies p = refl

Counts-of_answers : Counts (λ p. p.0) answers
unfolding exchanges
Counts-of_answers p = refl

calls_counted_example :
    Agrees
      (λ (p : Provider). p.0)
      denies
      logged_in
      (8, run new login)
      (total_provider_calls_fired gate_report)
calls_counted_example =
    calls_counted (λ p. p.0) quoted (λ p. p.1) claim denies answers answers valid "meta:1"
      "2026-01-05" "2026-01-05" "cal:1" logged_in (8, run new login) gate_report Counts-of_denies
      Counts-of_answers Counts-of_answers evaluate_here
