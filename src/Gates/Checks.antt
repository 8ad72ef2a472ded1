-- ===== src/Gates/Checks.antt =====
-- The six gates of providers/runtime_gates.py. A probe acts on the provider's state, and the gate
-- of the session reads the lifecycle object that the state holds when the gate is evaluated.
-- Python's repr of a text and its str of an exception are arguments, or come with the outcome.
use a_share_analysis.Common.{
  ℕ, String, Bool, not, ◌&&◌, ◌||◌, Option, none, some, Result, ok, err, str_eq, concat,
  if◌then◌else◌, codes, text_leb, has_part, show,
}
use a_share_analysis.Lifecycle.{
  SdkLifecycleState, init, sdk_unavailable, load_failed, login_failed, auth_rejected, session_ready,
  subscribe_started, callback_active, unsubscribed, logged_out, SdkLifecycle, state_eq,
  session_alive,
}
use a_share_analysis.Gates.{
  GateKind, auth_account, permission, endpoint_available, cache_metadata, freshness_asof,
  business_data, GateStatus, pass, fail, not_testable, is_pass, GateResult, gate_result, GateCheck,
}

-- The fields of an exchange's envelope that the gates read
pub record ProviderExchange : Type 0 where
  pub status : String
  pub endpoint : String
  pub row_count : ℕ
  pub error_class : Option String
  pub request_id : String

-- What a probe does: it returns an exchange, raises a ProviderError with or without one, or lets
-- another exception escape.
pub data ProbeOutcome : Type 0 where
  returned : ProviderExchange → ProbeOutcome
  raised : (message : String) (exchange : Option ProviderExchange) → ProbeOutcome
  escaped : (message : String) → ProbeOutcome

-- `error_class or "ERROR"`
error_name : Option String → String
error_name none = "ERROR"
error_name (some e) = if str_eq e "" then "ERROR" else e

-- _exchange_outcome, with the reason and the evidence reference
unfoldable pub exchange_outcome : ProviderExchange → GateStatus × String × String
unfolding error_name
exchange_outcome env =
    if str_eq env.status "OK"
    then (
      pass,
      concat env.endpoint (concat " returned " (concat (show env.row_count) " rows")),
      env.request_id,
    )
    else (
      fail,
      concat env.endpoint (concat " failed: " (error_name env.error_class)),
      env.request_id,
    )

unfoldable pub exchange_result : GateKind → ProviderExchange → GateResult
exchange_result kind env =
    let (status, reason, ref) = exchange_outcome env in gate_result kind status reason ref 1

unfoldable pub probe_result : GateKind → ProbeOutcome → Result String GateResult
probe_result kind (returned exchange) = ok (exchange_result kind exchange)
probe_result kind (raised message (some failure)) = ok (exchange_result kind failure)
probe_result kind (raised message none) =
    ok (gate_result kind fail (concat "probe failed before an exchange was created: " message) "" 0)
probe_result kind (escaped message) = err message

-- The value of an SdkLifecycleState
unfoldable pub state_value : SdkLifecycleState → String
state_value init = "INIT"
state_value sdk_unavailable = "SDK_UNAVAILABLE"
state_value load_failed = "LOAD_FAILED"
state_value login_failed = "LOGIN_FAILED"
state_value auth_rejected = "AUTH_REJECTED"
state_value session_ready = "SESSION_READY"
state_value subscribe_started = "SUBSCRIBE_STARTED"
state_value callback_active = "CALLBACK_ACTIVE"
state_value unsubscribed = "UNSUBSCRIBED"
state_value logged_out = "LOGGED_OUT"

-- The fields of an AuthAccountGate beside the lifecycle
pub record AccountClaim : Type 0 where
  pub account_profile_id : String
  pub profile_parsed : Bool
  pub require_production_identity : Bool
  pub frozen_production_id : String

unfoldable pub auth_account_result : (String → String) → AccountClaim → SdkLifecycle → GateResult
auth_account_result repr a l =
    let verdict = λ (status : GateStatus) (reason : String).
      gate_result auth_account status reason a.account_profile_id 0 in
    if state_eq l.state session_ready || session_alive l
    then (if not a.profile_parsed
        then verdict not_testable (
            concat "login succeeded but the logon profile was not parsed - "
              "account identity unprovable (audit P1-08)")
        else if a.require_production_identity && str_eq a.frozen_production_id ""
        then verdict not_testable (
            concat "no frozen production identity configured - "
              (concat "production account truth unprovable (fail closed, " "audit R4-A3.1 P0-03)"))
        else if a.require_production_identity
            && not (str_eq a.account_profile_id a.frozen_production_id)
        then verdict fail (
            concat "account " (
              concat (repr a.account_profile_id) (
                concat " is not the frozen production identity " (
                  concat (repr a.frozen_production_id)
                    " - positive exact match required (audit R4-A3.1 P0-03)"))))
        else verdict pass (
            concat "session "
              (concat (state_value l.state) (concat "; account " a.account_profile_id))))
    else gate_result auth_account fail
        (concat "lifecycle state " (
          concat (state_value l.state) (
            if str_eq l.terminal_reason ""
            then ""
            else concat " (" (concat l.terminal_reason ")"))))
        l.terminal_evidence_ref 0

-- PermissionGate.evaluate after its probe
unfoldable pub denied : GateResult → GateResult
denied r =
    if is_pass r.status && has_part (codes "entitlement denial") (codes r.reason)
    then gate_result permission fail r.reason "" 0
    else r

unfoldable pub denied_answer : Result String GateResult → Result String GateResult
denied_answer (ok r) = ok (denied r)
denied_answer (err e) = err e

unfoldable pub cache_metadata_result : String → Bool × String → GateResult
cache_metadata_result evidence_ref (valid, detail) =
    gate_result cache_metadata (if valid then pass else fail) detail evidence_ref 0

unfoldable pub freshness_result : (data_as_of required_as_of evidence_ref : String) → GateResult
freshness_result data_as_of required_as_of evidence_ref =
    if str_eq data_as_of ""
    then gate_result freshness_asof not_testable "data as-of unknown - freshness unprovable"
        evidence_ref 0
    else if not (text_leb (codes required_as_of) (codes data_as_of))
    then gate_result freshness_asof fail
        (concat "stale: data as-of " (
          concat data_as_of
            (concat " < required " (concat required_as_of " - business-truth PASS is refused"))))
        evidence_ref 0
    else gate_result freshness_asof pass
        (concat "data as-of " (concat data_as_of (concat " satisfies required " required_as_of)))
        evidence_ref 0

module _ {W : Type 0} where
  -- _fire_probe
  unfoldable pub fire_probe : GateKind → (W → ProbeOutcome × W) → W → Result String GateResult × W
  fire_probe kind probe w = let (outcome, v) = probe w in (probe_result kind outcome, v)

  unfoldable pub auth_account_gate :
      (String → String) → (W → SdkLifecycle) → AccountClaim → GateCheck W
  auth_account_gate repr lifecycle claim = record {
    kind = auth_account;
    evaluate = λ w. (ok (auth_account_result repr claim (lifecycle w)), w);
  }

  unfoldable pub permission_gate : (W → ProbeOutcome × W) → GateCheck W
  permission_gate probe = record {
    kind = permission;
    evaluate = λ w. let (answer, v) = fire_probe permission probe w in (denied_answer answer, v);
  }

  unfoldable pub endpoint_available_gate : (W → ProbeOutcome × W) → GateCheck W
  endpoint_available_gate probe = record {
    kind = endpoint_available;
    evaluate = fire_probe endpoint_available probe;
  }

  -- The validator reads local data and the state.
  unfoldable pub cache_metadata_gate : (W → Bool × String) → String → GateCheck W
  cache_metadata_gate validator evidence_ref = record {
    kind = cache_metadata;
    evaluate = λ w. (ok (cache_metadata_result evidence_ref (validator w)), w);
  }

  unfoldable pub freshness_asof_gate :
      (data_as_of required_as_of evidence_ref : String) → GateCheck W
  freshness_asof_gate data_as_of required_as_of evidence_ref = record {
    kind = freshness_asof;
    evaluate = λ w. (ok (freshness_result data_as_of required_as_of evidence_ref), w);
  }

  unfoldable pub business_data_gate : (W → ProbeOutcome × W) → GateCheck W
  business_data_gate fetch = record {
    kind = business_data;
    evaluate = fire_probe business_data fetch;
  }
