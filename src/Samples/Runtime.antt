-- ===== src/Samples/Runtime.antt =====
-- The runtime's lifecycle and its subscriptions at concrete inputs: a login that was refused, and
-- a session whose window was opened, read and closed.
use a_share_analysis.Common.{
  ◌≡◌, ◌≢◌, String, refl, ◌⊎◌, true, false, some, List, [], ◌∷◌, ◌++◌, none, ok, err, any, ◌+◌,
}
use a_share_analysis.Lifecycle.{
  init, login_failed, session_ready, subscribe_started, unsubscribed, SdkLifecycle,
  illegal_transition, runtime_terminal, is_terminal, require_ready, new, state_in, session_alive,
  transition, close, record_transition, legal_transitions,
}
use a_share_analysis.Lifecycle.History.{IsTrail, Call, move, perform, run, run-new-IsTrail}
use a_share_analysis.Lifecycle.Terminal.{terminal_refuses, HasLogin, ready_needs_login}
use a_share_analysis.Subscription
use a_share_analysis.Subscription.{
  from_sdk, from_lifecycle, SubscriptionController, Outcome, done, failed, register,
}
use a_share_analysis.Subscription.Trail.{replay-IsTrail}
use a_share_analysis.Subscription.Closing.{waiting, window_closes}
use a_share_analysis.Subscription.Window.{
  Event, registering, running, callback, unregistering, stopping, replay, replay-unsubscribed,
  register_honest, is_registering, handle,
}

abbrev session : List Call
session =
    move session_ready "login" "login:1" "t1"
    ∷ move login_failed "late" "login:2" "t2"
    ∷ move subscribe_started "window" "sub:1" "t3"
    ∷ []

abbrev broken_login : SdkLifecycle
broken_login = record {
  state = login_failed;
  terminal_reason = "timeout";
  terminal_evidence_ref = "login:7";
  history = [];
}

run-new-IsTrail_example : IsTrail init (run new session).history (run new session).state
run-new-IsTrail_example = run-new-IsTrail session

is_terminal_here_in_terminal_refuses : is_terminal broken_login ≡ true
unfolding is_terminal state_in
is_terminal_here_in_terminal_refuses = refl

terminal_refuses_example :
    (is_terminal (run broken_login session) ≡ true)
    × (require_ready (run broken_login session) "subscribe"
        ≡ err (runtime_terminal (run broken_login session).state "timeout" "login:7" "subscribe"))
terminal_refuses_example =
    terminal_refuses broken_login session "subscribe" is_terminal_here_in_terminal_refuses

ready_in_ready_needs_login : require_ready (run new session) "query" ≡ ok tt
unfolding run perform transition close record_transition legal_transitions state_in require_ready
    session_alive
ready_in_ready_needs_login = refl

ready_needs_login_example : HasLogin (run new session).history
ready_needs_login_example = ready_needs_login session "query" ready_in_ready_needs_login

abbrev closed_window : SubscriptionController
closed_window = record {
  lifecycle = record {
    state = unsubscribed;
    terminal_reason = "";
    terminal_evidence_ref = "";
    history = [];
  };
  late_callbacks = 1;
  orphan_callbacks = 0;
  step_errors = [];
}

abbrev after_window : List Event
after_window =
    callback "t4"
    ∷ unregistering (failed "gone") "t5"
    ∷ callback "t6"
    ∷ stopping (some done) "t7"
    ∷ []

none_registers_in_replay_unsubscribed : any is_registering after_window ≡ false
unfolding any
none_registers_in_replay_unsubscribed = refl

replay-unsubscribed_example :
    ((replay closed_window after_window).lifecycle ≡ closed_window.lifecycle)
    × ((replay closed_window after_window).late_callbacks ≡ 1 + 2)
    × ((replay closed_window after_window).orphan_callbacks ≡ 0)
replay-unsubscribed_example =
    replay-unsubscribed after_window closed_window refl none_registers_in_replay_unsubscribed

abbrev window_events : List Event
window_events =
    registering 3 done "t4"
    ∷ running (some done)
    ∷ callback "t5"
    ∷ unregistering done "t6"
    ∷ callback "t7"
    ∷ []

replay-IsTrail_example :
    IsTrail init
      (replay (Subscription.new (run new session)) window_events).lifecycle.history
      (replay (Subscription.new (run new session)) window_events).lifecycle.state
replay-IsTrail_example = replay-IsTrail session window_events

register_honest_example :
    ((done ≡ done)
      × ((closed_window.lifecycle.state ≡ session_ready)
          ⊎ (closed_window.lifecycle.state ≡ unsubscribed))
      × ((register closed_window 2 done "t8").0 ≡ ok tt)
      × ((register closed_window 2 done "t8").1.lifecycle.state ≡ subscribe_started))
    ⊎ ((t : String) × (done ≡ failed t)
        × (register closed_window 2 done "t8" ≡ (err (from_sdk t), closed_window)))
    ⊎ ((done ≡ done)
        × (closed_window.lifecycle.state ≢ session_ready)
        × (closed_window.lifecycle.state ≢ unsubscribed)
        × (register closed_window 2 done "t8" ≡ (
          err (from_lifecycle (illegal_transition unsubscribed subscribe_started)),
          closed_window,
        )))
register_honest_example = register_honest closed_window 2 done "t8"

abbrev opened_window : SubscriptionController
opened_window = Subscription.new (record {
  state = subscribe_started;
  terminal_reason = "";
  terminal_evidence_ref = "";
  history = [];
})

abbrev refused_end : List Event
refused_end = callback "t5" ∷ unregistering (failed "gone") "t6" ∷ callback "t7" ∷ []

window_closes_example :
    ((handle (replay opened_window refused_end) (stopping none "t8")).0 ≡ ok tt)
    × ((replay opened_window (refused_end ++ stopping none "t8" ∷ [])).lifecycle.state
        ≡ unsubscribed)
window_closes_example = window_closes opened_window refused_end (stopping none "t8") waiting refl
