-- ===== src/Subscription.antt =====
-- providers/amazingdata/subscription.py: SubscriptionController over the lifecycle. What the SDK's
-- own calls answer is an argument: each operation takes the outcome of the SDK call that it makes.
-- A callback that the SDK fires during such a call counts as one before it, since an operation
-- changes the controller only after its SDK call has answered.
pub mod Window
pub mod Trail
pub mod Closing
use a_share_analysis.Common.{
  ℕ, ◌+◌, String, Bool, true, false, ◌||◌, Option, none, some, List, [], ◌∷◌, Result, ok, err,
  if◌then◌else◌, str_eq, concat, show,
}
use a_share_analysis.Lifecycle.{
  SdkLifecycle, SdkLifecycleState, subscribe_started, callback_active, unsubscribed, LifecycleError,
  state_eq, transition,
}

-- What an SDK call does: it returns, or raises with this diagnostic text.
pub data Outcome : Type 0 where
  done : Outcome
  failed : String → Outcome

-- What escapes an operation: the SDK's own exception, or the lifecycle's.
pub data Raised : Type 0 where
  from_sdk : String → Raised
  from_lifecycle : LifecycleError → Raised

pub record SubscriptionController : Type 0 where
  pub lifecycle : SdkLifecycle
  pub late_callbacks : ℕ
  pub orphan_callbacks : ℕ
  pub step_errors : List (String × String)

abbrev pub Action : Type 0
Action = Result Raised (Unit {0}) × SubscriptionController

-- step_errors[key] = text: a dict keeps one entry for each key.
note_error : String → String → List (String × String) → List (String × String)
note_error key text [] = (key, text) ∷ []
note_error key text ((k, t) ∷ rest) =
    let later = note_error key text rest in
    if str_eq k key then (key, text) ∷ rest else (k, t) ∷ later

unfoldable pub with_error : SubscriptionController → String → String → SubscriptionController
unfolding note_error
with_error c key text = record c { step_errors = note_error key text c.step_errors }

-- `self.lifecycle.transition(...)`: an illegal one raises and leaves the object alone.
unfoldable pub advance :
    SubscriptionController → SdkLifecycleState → (reason evidence_ref now : String) → Action
unfolding transition
advance c t reason evidence_ref now = elim (transition c.lifecycle t reason evidence_ref now) [
  | ok l ↦ (ok tt, record c { lifecycle = l })
  | err e ↦ (err (from_lifecycle e), c)
]

-- f"registered {len(code_list)} symbols"
unfoldable pub registered : ℕ → String
unfolding show
registered symbols = concat "registered " (concat (show symbols) " symbols")

-- register: `symbols` is the length of the code list
unfoldable pub register : SubscriptionController → (symbols : ℕ) → Outcome → (now : String) → Action
unfolding advance registered
register c symbols (failed text) now = (err (from_sdk text), c)
register c symbols done now =
    advance c subscribe_started (registered symbols) "SubscribeData.register" now

-- run: `none` where the SDK object has neither `run` nor `start`
unfoldable pub run : SubscriptionController → Option Outcome → Action
unfolding with_error
run c none = (ok tt, c)
run c (some done) = (ok tt, c)
run c (some (failed text)) = (ok tt, with_error c "run" text)

-- _note_callback, which `_wrap_callback` makes for every event
unfoldable pub note_callback : SubscriptionController → (now : String) → Action
unfolding advance
note_callback c now =
    if state_eq c.lifecycle.state callback_active
    then (ok tt, c)
    else if state_eq c.lifecycle.state subscribe_started
    then advance c callback_active "first valid callback" "SubscribeData.callback" now
    else if state_eq c.lifecycle.state unsubscribed
    then (ok tt, record c { late_callbacks = c.late_callbacks + 1 })
    else (ok tt, record c { orphan_callbacks = c.orphan_callbacks + 1 })

-- the SDK call of unregister and what follows it
unregister_after : SubscriptionController → Outcome → (now : String) → Action
unfolding with_error advance
unregister_after c (failed text) now = (ok tt, with_error c "unregister" text)
unregister_after c done now =
    advance c unsubscribed "unregister complete" "SubscribeData.unregister" now

unfoldable pub unregister : SubscriptionController → Outcome → (now : String) → Action
unfolding unregister_after
unregister c outcome now =
    if state_eq c.lifecycle.state unsubscribed then (ok tt, c) else unregister_after c outcome now

-- the call of `stop_fn`, if the SDK object has one
stop_sdk : SubscriptionController → Option Outcome → SubscriptionController
unfolding with_error
stop_sdk c none = c
stop_sdk c (some done) = c
stop_sdk c (some (failed text)) = with_error c "stop" text

stop_after : SubscriptionController → Option Outcome → (now : String) → Action
unfolding with_error advance
stop_after c (some (failed text)) now = (ok tt, with_error c "stop" text)
stop_after c _ now =
    if state_eq c.lifecycle.state subscribe_started || state_eq c.lifecycle.state callback_active
    then advance c unsubscribed "stop complete" "SubscribeData.stop" now
    else (ok tt, c)

unfoldable pub stop : SubscriptionController → Option Outcome → (now : String) → Action
unfolding stop_sdk stop_after
stop c outcome now =
    if state_eq c.lifecycle.state unsubscribed
    then (ok tt, stop_sdk c outcome)
    else stop_after c outcome now

-- SubscriptionController(lifecycle, subscriber)
abbrev pub new : SdkLifecycle → SubscriptionController
new l = record { lifecycle = l; late_callbacks = 0; orphan_callbacks = 0; step_errors = [] }
