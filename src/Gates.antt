-- ===== src/Gates.antt =====
-- providers/runtime_gates.py: the verdicts of the runtime gates, the six gates, and the pipeline
-- that evaluates them with an early stop. A gate acts on a provider's state: evaluate returns its
-- verdict, or the exception that it lets escape, with the state after it.
pub mod Checks
pub mod Stops
pub mod Session
pub mod Calls
pub mod Counts
use a_share_analysis.Common.{
  ℕ, ◌+◌, String, Bool, true, false, not, ◌&&◌, ◌||◌, Option, none, some, List, [], ◌∷◌, ◌++◌,
  Result, ok, err, str_eq, concat, if◌then◌else◌,
}

pub data GateKind : Type 0 where
  auth_account permission endpoint_available cache_metadata freshness_asof business_data : GateKind

pub data GateStatus : Type 0 where
  pass fail not_testable skipped_blocked : GateStatus

-- The value of a GateKind
abbrev pub kind_value : GateKind → String
kind_value auth_account = "AUTH_ACCOUNT"
kind_value permission = "PERMISSION"
kind_value endpoint_available = "ENDPOINT_AVAILABLE"
kind_value cache_metadata = "CACHE_METADATA"
kind_value freshness_asof = "FRESHNESS_ASOF"
kind_value business_data = "BUSINESS_DATA"

abbrev pub is_pass : GateStatus → Bool
is_pass pass = true
is_pass _ = false

pub record GateResult : Type 0 where
  pub kind : GateKind
  pub status : GateStatus
  pub reason : String
  pub evidence_ref : String
  pub provider_calls_fired : ℕ
  pub request_id : String
  pub evidence_uri : String
  pub evidence_hash : String

-- GateResult(kind=..., status=..., reason=..., evidence_ref=..., provider_calls_fired=...) with the
-- defaults of the other fields
unfoldable pub gate_result : GateKind → GateStatus → (reason evidence_ref : String) → ℕ → GateResult
gate_result kind status reason evidence_ref fired = record {
  kind = kind;
  status = status;
  reason = reason;
  evidence_ref = evidence_ref;
  provider_calls_fired = fired;
  request_id = "";
  evidence_uri = "";
  evidence_hash = "";
}

unfoldable pub blocking : GateResult → Bool
blocking r = elim (r.status) [ fail ↦ true | not_testable ↦ true | _ ↦ false ]

unfoldable pub has_persisted_evidence : GateResult → Bool
has_persisted_evidence r = not (str_eq r.evidence_uri "") && not (str_eq r.evidence_hash "")

pub record GateReport : Type 0 where
  pub results : List GateResult
  pub early_stopped : Bool
  pub blocked_by : Option GateKind

unfoldable pub all_pass : List GateResult → Bool
all_pass [] = true
all_pass (r ∷ rs) = is_pass r.status && all_pass rs

unfoldable pub all_passed : GateReport → Bool
unfolding all_pass
all_passed report = all_pass report.results

unfoldable pub calls_of : List GateResult → ℕ
calls_of [] = 0
calls_of (r ∷ rs) = r.provider_calls_fired + calls_of rs

unfoldable pub total_provider_calls_fired : GateReport → ℕ
unfolding calls_of
total_provider_calls_fired report = calls_of report.results

-- A gate: its kind and its evaluate method, on a provider's state. The message is that of an
-- exception which evaluate does not catch.
pub record GateCheck (W : Type 0) : Type 0 where
  pub kind : GateKind
  pub evaluate : W → Result String GateResult × W

-- the verdict of a check that the pipeline does not reach
unfoldable pub skipped : {W : Type 0} → GateKind → GateCheck W → GateResult
unfolding gate_result
skipped blocked_by check =
    gate_result check.kind skipped_blocked
      (concat "early stop: blocked by " (kind_value blocked_by)) "" 0

unfoldable pub blocks : GateResult → Option GateKind
unfolding blocking
blocks r = if blocking r then some r.kind else none

abbrev pub is_set : Option GateKind → Bool
is_set none = false
is_set (some k) = true

-- The loop of RuntimeGatePipeline.evaluate
unfoldable pub evaluate_from :
    {W : Type 0}
    → List (GateCheck W)
    → List GateResult
    → Option GateKind
    → W
    → Result String GateReport × W
unfolding skipped blocks
evaluate_from [] results blocked_by w = (
  ok (record { results = results; early_stopped = is_set blocked_by; blocked_by = blocked_by }),
  w,
)
evaluate_from (check ∷ checks) results (some k) w =
    evaluate_from checks (results ++ skipped k check ∷ []) (some k) w
evaluate_from (check ∷ checks) results none w =
    let (answer, v) = check.evaluate w in
    elim answer [
      | err e ↦ (err e, v)
      | ok r ↦ evaluate_from checks (results ++ r ∷ []) (blocks r) v
    ]

unfoldable pub evaluate : {W : Type 0} → List (GateCheck W) → W → Result String GateReport × W
unfolding evaluate_from
evaluate checks w = evaluate_from checks [] none w

kind_eq : GateKind → GateKind → Bool
kind_eq auth_account auth_account = true
kind_eq permission permission = true
kind_eq endpoint_available endpoint_available = true
kind_eq cache_metadata cache_metadata = true
kind_eq freshness_asof freshness_asof = true
kind_eq business_data business_data = true
kind_eq _ _ = false

status_in : GateKind → List GateResult → Option GateStatus
unfolding kind_eq
status_in kind [] = none
status_in kind (r ∷ rs) =
    let later = status_in kind rs in if kind_eq r.kind kind then some r.status else later

-- Nothing stands for the KeyError.
unfoldable pub status_of : GateReport → GateKind → Option GateStatus
unfolding status_in
status_of report kind = status_in kind report.results
