-- ===== src/Lifecycle.antt =====
-- providers/lifecycle.py: the SDK runtime's state machine. A method that may raise returns the
-- raised error or the new object. The stamp of a recorded transition is an argument, the clock's
-- reading at that moment.
pub mod History
pub mod Terminal
use a_share_analysis.Common.{
  String, Bool, true, false, not, ◌&&◌, List, [], ◌∷◌, ◌++◌, Result, ok, err, any, if◌then◌else◌,
}

-- src/ashare_state/providers/lifecycle.py, SdkLifecycleState
pub data SdkLifecycleState : Type 0 where
  init sdk_unavailable load_failed login_failed auth_rejected : SdkLifecycleState
  session_ready subscribe_started callback_active unsubscribed logged_out : SdkLifecycleState

pub SdkLifecycleState-discrete : Discrete SdkLifecycleState
SdkLifecycleState-discrete = hlevel

abbrev pub state_eq : SdkLifecycleState → SdkLifecycleState → Bool
state_eq init init = true
state_eq sdk_unavailable sdk_unavailable = true
state_eq load_failed load_failed = true
state_eq login_failed login_failed = true
state_eq auth_rejected auth_rejected = true
state_eq session_ready session_ready = true
state_eq subscribe_started subscribe_started = true
state_eq callback_active callback_active = true
state_eq unsubscribed unsubscribed = true
state_eq logged_out logged_out = true
state_eq _ _ = false

-- `state in states`
unfoldable pub state_in : SdkLifecycleState → List SdkLifecycleState → Bool
unfolding any
state_in s states = any (state_eq s) states

-- TERMINAL_LIFECYCLE_STATES
abbrev pub terminal_lifecycle_states : List SdkLifecycleState
terminal_lifecycle_states =
    sdk_unavailable ∷ load_failed ∷ login_failed ∷ auth_rejected ∷ logged_out ∷ []

-- SESSION_ALIVE_STATES
abbrev pub session_alive_states : List SdkLifecycleState
session_alive_states = session_ready ∷ subscribe_started ∷ callback_active ∷ unsubscribed ∷ []

-- _LEGAL_TRANSITIONS.get(state, frozenset())
unfoldable pub legal_transitions : SdkLifecycleState → List SdkLifecycleState
legal_transitions init =
    sdk_unavailable ∷ load_failed ∷ login_failed ∷ auth_rejected ∷ session_ready ∷ []
legal_transitions session_ready = subscribe_started ∷ []
legal_transitions subscribe_started = callback_active ∷ unsubscribed ∷ []
legal_transitions callback_active = unsubscribed ∷ []
legal_transitions unsubscribed = subscribe_started ∷ []
legal_transitions _ = []

-- LifecycleTransition
pub record LifecycleTransition : Type 0 where
  pub from_state : SdkLifecycleState
  pub to_state : SdkLifecycleState
  pub reason : String
  pub evidence_ref : String
  pub at : String

-- The fields of a SdkLifecycle object; `history` grows at its end.
pub record SdkLifecycle : Type 0 where
  pub state : SdkLifecycleState
  pub terminal_reason : String
  pub terminal_evidence_ref : String
  pub history : List LifecycleTransition

-- SdkLifecycle() with the defaults of its fields
abbrev pub new : SdkLifecycle
new = record { state = init; terminal_reason = ""; terminal_evidence_ref = ""; history = [] }

-- What the methods raise: LifecycleTransitionError for LOGGED_OUT by a plain transition and for a
-- jump that is not legal, and ProviderLifecycleTerminalError with the context that it carries.
pub data LifecycleError : Type 0 where
  logged_out_needs_close : LifecycleError
  illegal_transition : (from_state to_state : SdkLifecycleState) → LifecycleError
  runtime_terminal :
      (state : SdkLifecycleState) (terminal_reason terminal_evidence_ref refused_action : String)
      → LifecycleError
  not_session_ready : (state : SdkLifecycleState) (refused_action : String) → LifecycleError

unfoldable pub is_terminal : SdkLifecycle → Bool
unfolding state_in
is_terminal l = state_in l.state terminal_lifecycle_states

unfoldable pub session_alive : SdkLifecycle → Bool
unfolding state_in
session_alive l = state_in l.state session_alive_states

unfoldable pub require_ready : SdkLifecycle → String → Result LifecycleError (Unit {0})
unfolding state_in session_alive
require_ready l action =
    if state_in l.state terminal_lifecycle_states
    then err (runtime_terminal l.state l.terminal_reason l.terminal_evidence_ref action)
    else if not (session_alive l)
    then err (not_session_ready l.state action)
    else ok tt

-- SdkLifecycle._record, at the time `now`
unfoldable pub record_transition :
    SdkLifecycle → SdkLifecycleState → (reason evidence_ref now : String) → SdkLifecycle
unfolding state_in
record_transition l new_state reason evidence_ref now =
    let entry : LifecycleTransition = record {
      from_state = l.state;
      to_state = new_state;
      reason = reason;
      evidence_ref = evidence_ref;
      at = now;
    } in
    let moved = record l { history = l.history ++ entry ∷ []; state = new_state } in
    if state_in new_state terminal_lifecycle_states && not (state_eq new_state logged_out)
    then record moved { terminal_reason = reason; terminal_evidence_ref = evidence_ref }
    else moved

unfoldable pub transition :
    SdkLifecycle
    → SdkLifecycleState
    → (reason evidence_ref now : String) → Result LifecycleError SdkLifecycle
unfolding state_in legal_transitions record_transition
transition l new_state reason evidence_ref now =
    if state_eq new_state logged_out
    then err logged_out_needs_close
    else if not (state_in new_state (legal_transitions l.state))
    then err (illegal_transition l.state new_state)
    else ok (record_transition l new_state reason evidence_ref now)

unfoldable pub close : SdkLifecycle → (reason evidence_ref now : String) → SdkLifecycle
unfolding record_transition
close l reason evidence_ref now =
    if state_eq l.state logged_out
    then l
    else record_transition l logged_out reason evidence_ref now
