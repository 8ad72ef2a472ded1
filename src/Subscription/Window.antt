-- ===== src/Subscription/Window.antt =====
-- Sequences of SDK events on the controller of providers/amazingdata/subscription.py: the closed
-- window, and when a registration opens one.
use a_share_analysis.Common.{
  ℕ, suc, ◌+◌, String, ◌≡◌, refl, ◌∙◌, Bool, true, false, Option, List, [], ◌∷◌, ok, err, any,
  arith, ◌⊎◌, ◌≢◌, Bool-cases, inl, inr, ap,
}
use a_share_analysis.Lifecycle.{
  SdkLifecycle, SdkLifecycleState, session_ready, subscribe_started, unsubscribed, state_in,
  legal_transitions, illegal_transition, transition, record_transition,
}
use a_share_analysis.Lifecycle.History.{
  Move, subscribed, again, legal-Move, state-record_transition,
}
use a_share_analysis.Subscription.{
  Outcome, done, failed, from_sdk, from_lifecycle, SubscriptionController, Action, register, run,
  note_callback, unregister, stop, advance, registered,
}

-- What can happen to a controller, with what the SDK answers and the clock's reading.
pub data Event : Type 0 where
  registering : (symbols : ℕ) → Outcome → (now : String) → Event
  running : Option Outcome → Event
  callback : (now : String) → Event
  unregistering : Outcome → (now : String) → Event
  stopping : Option Outcome → (now : String) → Event

unfoldable pub handle : SubscriptionController → Event → Action
handle c (registering n o now) = register c n o now
handle c (running o) = run c o
handle c (callback now) = note_callback c now
handle c (unregistering o now) = unregister c o now
handle c (stopping o now) = stop c o now

-- The controller after the events, whatever each of them raised.
unfoldable pub replay : SubscriptionController → List Event → SubscriptionController
unfolding handle
replay c [] = c
replay c (e ∷ es) = replay (handle c e).1 es

abbrev pub is_callback : Event → Bool
is_callback (callback now) = true
is_callback _ = false

abbrev pub is_registering : Event → Bool
is_registering (registering n o now) = true
is_registering _ = false

abbrev pub callbacks : List Event → ℕ
callbacks [] = 0
callbacks (callback now ∷ es) = suc (callbacks es)
callbacks (_ ∷ es) = callbacks es

record Closed (c c' : SubscriptionController) (late : ℕ) : Type 0 where
  state : c'.lifecycle ≡ c.lifecycle
  late_counted : c'.late_callbacks ≡ c.late_callbacks + late
  orphans_kept : c'.orphan_callbacks ≡ c.orphan_callbacks

abbrev one_if : Bool → ℕ
one_if true = 1
one_if false = 0

handle-Closed :
    (c : SubscriptionController) (e : Event)
    → c.lifecycle.state ≡ unsubscribed
    → is_registering e ≡ false
    → Closed c (handle c e).1 (one_if (is_callback e))
unfolding handle
handle-Closed c (registering n o now) h r = cc
handle-Closed c (running o) h r = unfold run in ground arith
handle-Closed c (callback now) h r = unfold note_callback in ground arith
handle-Closed c (unregistering o now) h r = unfold unregister in ground arith
handle-Closed c (stopping o now) h r = unfold stop in ground arith

-- While no registration is tried, an unsubscribed controller keeps its lifecycle object, late
-- callbacks included: each callback is counted late, and none as an orphan.
pub replay-unsubscribed :
    (es : List Event) (c : SubscriptionController)
    → c.lifecycle.state ≡ unsubscribed
    → any is_registering es ≡ false
    → ((replay c es).lifecycle ≡ c.lifecycle)
      × ((replay c es).late_callbacks ≡ c.late_callbacks + callbacks es)
      × ((replay c es).orphan_callbacks ≡ c.orphan_callbacks)
unfolding replay any
replay-unsubscribed [] c h r = (refl, omega arith, refl)
replay-unsubscribed (e ∷ es) c h r =
    let one = handle-Closed c e h (ground arith) in
    let kept = ap (λ (l : SdkLifecycle). l.state) one.state in
    let more = replay-unsubscribed es (handle c e).1 (kept ∙ h) (ground arith) in
    (
      more.0 ∙ one.state,
      callbacks-cons e es c.late_callbacks (one.late_counted) more.1,
      more.2 ∙ one.orphans_kept,
    )
  where
    callbacks-cons :
        (e : Event) (es : List Event) (a : ℕ) {b d : ℕ}
        → b ≡ a + one_if (is_callback e)
        → d ≡ b + callbacks es
        → d ≡ a + callbacks (e ∷ es)
    callbacks-cons (callback now) es a p q = omega arith
    callbacks-cons _ es a p q = omega arith

window_closed :
    {s : SdkLifecycleState} → Move s subscribe_started → (s ≡ session_ready) ⊎ (s ≡ unsubscribed)
window_closed subscribed = inl refl
window_closed again = inr refl

transition-legal :
    (l : SdkLifecycle) (r v n : String)
    → state_in subscribe_started (legal_transitions l.state) ≡ true
    → transition l subscribe_started r v n ≡ ok (record_transition l subscribe_started r v n)
unfolding transition
transition-legal l r v n h = rw h refl

transition-refused :
    (l : SdkLifecycle) (r v n : String)
    → state_in subscribe_started (legal_transitions l.state) ≡ false
    → transition l subscribe_started r v n ≡ err (illegal_transition l.state subscribe_started)
unfolding transition
transition-refused l r v n h = rw h refl

-- A legal move to SUBSCRIBE_STARTED is made.
opens :
    (c : SubscriptionController) (r v n : String)
    → state_in subscribe_started (legal_transitions c.lifecycle.state) ≡ true
    → Move c.lifecycle.state subscribe_started
      × ((advance c subscribe_started r v n).0 ≡ ok tt)
      × ((advance c subscribe_started r v n).1.lifecycle.state ≡ subscribe_started)
unfolding advance
opens c r v n h = (
  legal-Move c.lifecycle.state subscribe_started h,
  rw (transition-legal c.lifecycle r v n h, advance) refl,
  rw (transition-legal c.lifecycle r v n h, advance)
      (state-record_transition c.lifecycle subscribe_started r v n),
)

register-done :
    (c : SubscriptionController) (n : ℕ) (now : String)
    → register c n done now
      ≡ advance c subscribe_started (registered n) "SubscribeData.register" now
unfolding register
register-done c n now = refl

-- Where no window can be opened, the lifecycle refuses the move and the controller is left alone.
opens_not :
    (c : SubscriptionController) (r v n : String)
    → state_in subscribe_started (legal_transitions c.lifecycle.state) ≡ false
    → (c.lifecycle.state ≢ session_ready)
      × (c.lifecycle.state ≢ unsubscribed)
      × (advance c subscribe_started r v n
          ≡ (err (from_lifecycle (illegal_transition c.lifecycle.state subscribe_started)), c))
unfolding advance legal_transitions state_in any
opens_not c r v n h = (
  λ e. cc (rw e at h),
  λ e. cc (rw e at h),
  rw (transition-refused c.lifecycle r v n h, advance) refl,
)

-- register advances to SUBSCRIBE_STARTED and returns exactly when the SDK call returned and a session
-- without an open window is there. Otherwise it changes nothing of the controller and raises: what
-- the SDK raised, or, where no such session is there, that the transition is illegal.
pub register_honest :
    (c : SubscriptionController) (n : ℕ) (o : Outcome) (now : String)
    → ((o ≡ done)
        × ((c.lifecycle.state ≡ session_ready) ⊎ (c.lifecycle.state ≡ unsubscribed))
        × ((register c n o now).0 ≡ ok tt)
        × ((register c n o now).1.lifecycle.state ≡ subscribe_started))
      ⊎ ((t : String) × (o ≡ failed t) × (register c n o now ≡ (err (from_sdk t), c)))
      ⊎ ((o ≡ done)
          × (c.lifecycle.state ≢ session_ready)
          × (c.lifecycle.state ≢ unsubscribed)
          × (register c n o now
              ≡ (err (from_lifecycle (illegal_transition c.lifecycle.state subscribe_started)), c)))
register_honest c n (failed t) now = inr (inl (t, refl, unfold register in refl))
register_honest c n done now =
    let e = register-done c n now in
    elim (Bool-cases (state_in subscribe_started (legal_transitions c.lifecycle.state))) [
      | inr closed ↦
          let (p, q, k) = opens_not c (registered n) "SubscribeData.register" now closed in
          inr (inr (refl, p, q, e ∙ k))
      | inl open_now ↦
          let (m, h, k) = opens c (registered n) "SubscribeData.register" now open_now in
          inl (
            refl,
            window_closed m,
            ap (λ (a : Action). a.0) e ∙ h,
            ap (λ (a : Action). a.1.lifecycle.state) e ∙ k,
          )
    ]
