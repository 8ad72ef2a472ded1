-- ===== src/Subscription/Trail.antt =====
-- The lifecycle under a subscription controller of providers/amazingdata/subscription.py, along
-- any sequence of SDK events.
use a_share_analysis.Common.{
  String, ◌≡◌, refl, sym, ◌∙◌, Bool, true, false, Option, none, some, List, [], ◌∷◌, ◌++◌, Result,
  ok, err, if◌then◌else◌, arith, ◌⊎◌, inl, inr, ap,
}
use a_share_analysis.Lifecycle
use a_share_analysis.Lifecycle.{
  SdkLifecycle, SdkLifecycleState, init, session_ready, subscribe_started, callback_active,
  unsubscribed, state_eq, transition,
}
use a_share_analysis.Lifecycle.History.{
  Move, subscribed, again, IsTrail, Call, move, perform, transition_cases, state-record_transition,
  run-new-IsTrail,
}
use a_share_analysis.Lifecycle.History
use a_share_analysis.Subscription
use a_share_analysis.Subscription.{
  Outcome, done, failed, Raised, from_sdk, from_lifecycle, SubscriptionController, Action, register,
  run, note_callback, unregister, stop, advance, with_error, registered, stop_sdk, stop_after,
  unregister_after,
}
use a_share_analysis.Subscription.Window.{
  Event, registering, running, callback, unregistering, stopping, handle, replay,
}

-- An action leaves the lifecycle object as it was, or makes one transition call on it.
pub record Drives (l : SdkLifecycle) (a : Action) : Type 0 where
  pub by :
      (a.1.lifecycle ≡ l)
      ⊎ ((t : SdkLifecycleState) × (r : String) × (v : String) × (n : String) × (a.1.lifecycle
            ≡ perform l (move t r v n)))

module _ (c : SubscriptionController) where
  idle-Drives :
      (r : Result Raised (Unit {0})) {c' : SubscriptionController}
      → c'.lifecycle ≡ c.lifecycle
      → Drives c.lifecycle (r, c')
  idle-Drives r h = record { by = inl h }

  advance-Drives : (t : SdkLifecycleState) (r v n : String) → Drives c.lifecycle (advance c t r v n)
  advance-Drives t r v n = record { by = inr (t, r, v, n, unfold advance perform in ground arith) }

  if-Drives :
      (b : Bool) {x y : Action}
      → Drives c.lifecycle x
      → Drives c.lifecycle y
      → Drives c.lifecycle (if b then x else y)
  if-Drives true p q = p
  if-Drives false p q = q

  note_callback-Drives : (now : String) → Drives c.lifecycle (note_callback c now)
  unfolding note_callback
  note_callback-Drives now =
      if-Drives (state_eq c.lifecycle.state callback_active) (idle-Drives (ok tt) refl) (
        if-Drives (state_eq c.lifecycle.state subscribe_started)
          (advance-Drives callback_active _ _ now)
          (if-Drives (state_eq c.lifecycle.state unsubscribed) (idle-Drives (ok tt) refl)
            (idle-Drives (ok tt) refl)))

  unregister-Drives : (o : Outcome) (now : String) → Drives c.lifecycle (unregister c o now)
  unfolding unregister with_error
  unregister-Drives done now =
      if-Drives (state_eq c.lifecycle.state unsubscribed) (idle-Drives (ok tt) refl)
        (advance-Drives unsubscribed _ _ now)
  unregister-Drives (failed t) now =
      if-Drives (state_eq c.lifecycle.state unsubscribed) (idle-Drives (ok tt) refl)
        (idle-Drives (ok tt) refl)

  window_end-Drives :
      (b : Bool) (now : String)
      → Drives c.lifecycle (
          if b then advance c unsubscribed "stop complete" "SubscribeData.stop" now else (ok tt, c))
  window_end-Drives b now =
      if-Drives b (advance-Drives unsubscribed _ _ now) (idle-Drives (ok tt) refl)

  stop-Drives : (o : Option Outcome) (now : String) → Drives c.lifecycle (stop c o now)
  unfolding stop with_error
  stop-Drives none now =
      if-Drives (state_eq c.lifecycle.state unsubscribed) (idle-Drives (ok tt) refl)
        (window_end-Drives _ now)
  stop-Drives (some done) now =
      if-Drives (state_eq c.lifecycle.state unsubscribed) (idle-Drives (ok tt) refl)
        (window_end-Drives _ now)
  stop-Drives (some (failed t)) now =
      if-Drives (state_eq c.lifecycle.state unsubscribed) (idle-Drives (ok tt) refl)
        (idle-Drives (ok tt) refl)

  pub handle-Drives : (e : Event) → Drives c.lifecycle (handle c e)
  unfolding handle register run with_error
  handle-Drives (registering n (failed t) now) = idle-Drives (err (from_sdk t)) refl
  handle-Drives (registering n done now) = advance-Drives subscribe_started _ _ now
  handle-Drives (running none) = idle-Drives (ok tt) refl
  handle-Drives (running (some done)) = idle-Drives (ok tt) refl
  handle-Drives (running (some (failed t))) = idle-Drives (ok tt) refl
  handle-Drives (callback now) = note_callback-Drives now
  handle-Drives (unregistering o now) = unregister-Drives o now
  handle-Drives (stopping o now) = stop-Drives o now

run-snoc :
    (cs : List Call) (l : SdkLifecycle) (c : Call)
    → History.run l (cs ++ c ∷ []) ≡ perform (History.run l cs) c
unfolding History.run
run-snoc [] l c = refl
run-snoc (x ∷ cs) l c = run-snoc cs (perform l x) c

replay-is_run :
    (es : List Event) (c : SubscriptionController) (l : SdkLifecycle) (cs : List Call)
    → c.lifecycle ≡ History.run l cs
    → (ds : List Call) × ((replay c es).lifecycle ≡ History.run l ds)
unfolding replay
replay-is_run [] c l cs h = (cs, h)
replay-is_run (e ∷ es) c l cs h = elim (handle-Drives c e).by [
  | inl same ↦ replay-is_run es (handle c e).1 l cs (same ∙ h)
  | inr (t, r, v, n, q) ↦
      let d = move t r v n in
      replay-is_run es (handle c e).1 l (cs ++ d ∷ [])
        (q ∙ ap (λ x. perform x d) h ∙ sym (run-snoc cs l d))
]

-- Whatever calls drive a fresh lifecycle first, and whatever SDK events then reach a controller over
-- it, the recorded history leads from INIT to the present state by moves of the lifecycle.
pub replay-IsTrail :
    (cs : List Call) (es : List Event)
    → let c : SubscriptionController =
        replay (Subscription.new (History.run Lifecycle.new cs)) es in
      IsTrail init c.lifecycle.history c.lifecycle.state
replay-IsTrail cs es =
    let (ds, h) =
      replay-is_run es (Subscription.new (History.run Lifecycle.new cs)) Lifecycle.new cs refl in
    rw h (run-new-IsTrail ds)
