-- ===== src/Subscription/Closing.antt =====
-- How the window of providers/amazingdata/subscription.py is closed once it was opened, along any
-- sequence of SDK events.
use a_share_analysis.Common.{
  String, ◌≡◌, refl, Bool, true, false, any, ◌||◌, if◌then◌else◌, none, some, List, [], ◌∷◌, ◌++◌,
  ok, err, ◌⊎◌, inl, inr,
}
use a_share_analysis.Lifecycle.{
  SdkLifecycle, SdkLifecycleState, subscribe_started, callback_active, unsubscribed, logged_out,
  logged_out_needs_close, transition, record_transition, state_eq, legal_transitions, state_in,
}
use a_share_analysis.Lifecycle.History.{
  Move, first_callback, ended_early, ended, again, clean_close, move, perform, transition_cases,
  state-record_transition,
}
use a_share_analysis.Subscription.{
  done, SubscriptionController, Action, unregister, stop, advance, unregister_after, stop_sdk,
  stop_after,
}
use a_share_analysis.Subscription.Window.{Event, unregistering, stopping, handle, replay}
use a_share_analysis.Subscription.Trail.{handle-Drives}

-- A window was opened: it is open still, or closed.
pub data WasOpened : SdkLifecycleState → Type 0 where
  waiting : WasOpened subscribe_started
  active : WasOpened callback_active
  shut : WasOpened unsubscribed

Move-WasOpened : {s t : SdkLifecycleState} → WasOpened s → Move s t → WasOpened t ⊎ (t ≡ logged_out)
Move-WasOpened o first_callback = inl active
Move-WasOpened o ended_early = inl shut
Move-WasOpened o ended = inl shut
Move-WasOpened o again = inl waiting
Move-WasOpened o (clean_close n) = inr refl
Move-WasOpened o _ = elim o [ ]

transition_logged_out :
    (l : SdkLifecycle) (r v n : String) → transition l logged_out r v n ≡ err logged_out_needs_close
unfolding transition
transition_logged_out l r v n = refl

perform-WasOpened :
    (l : SdkLifecycle) (t : SdkLifecycleState) (r v n : String)
    → WasOpened l.state
    → WasOpened (perform l (move t r v n)).state
unfolding perform
perform-WasOpened l t r v n o = elim (transition_cases l t r v n) [
  | inl (e, h) ↦ rw h o
  | inr (m, h) ↦ elim (Move-WasOpened o m) [
    | inl p ↦ rw (h, state-record_transition l t r v n) p
    | inr e ↦ cc (h, e, transition_logged_out l r v n)
  ]
]

replay-WasOpened :
    (es : List Event) (c : SubscriptionController)
    → WasOpened c.lifecycle.state
    → WasOpened (replay c es).lifecycle.state
unfolding replay
replay-WasOpened [] c o = o
replay-WasOpened (e ∷ es) c o = replay-WasOpened es (handle c e).1 (elim (handle-Drives c e).by [
  | inl same ↦ rw same o
  | inr (t, r, v, n, q) ↦ rw q (perform-WasOpened c.lifecycle t r v n o)
])

-- The SDK answers an unregister or a stop, or has no call for the stop.
abbrev pub is_answered_end : Event → Bool
is_answered_end (unregistering done now) = true
is_answered_end (stopping none now) = true
is_answered_end (stopping (some done) now) = true
is_answered_end _ = false

-- An action that returned, with the window closed.
record ClosesBy (a : Action) : Type 0 where
  returned : a.0 ≡ ok tt
  closed : a.1.lifecycle.state ≡ unsubscribed

transition-unsubscribed :
    (l : SdkLifecycle) (r v n : String)
    → state_in unsubscribed (legal_transitions l.state) ≡ true
    → transition l unsubscribed r v n ≡ ok (record_transition l unsubscribed r v n)
unfolding transition
transition-unsubscribed l r v n h = rw h refl

advance-ClosesBy :
    (c : SubscriptionController) (r v n : String)
    → state_in unsubscribed (legal_transitions c.lifecycle.state) ≡ true
    → ClosesBy (advance c unsubscribed r v n)
unfolding advance
advance-ClosesBy c r v n h =
    rw (transition-unsubscribed c.lifecycle r v n h, advance)
      (record { returned = refl; closed = state-record_transition c.lifecycle unsubscribed r v n })

if-ClosesBy :
    (b s : Bool) (x y : Action)
    → b ≡ s
    → ClosesBy (if s then x else y)
    → ClosesBy (if b then x else y)
if-ClosesBy b s x y h p = rw h p

unregister-ClosesBy :
    (c : SubscriptionController) (now : String) {s : SdkLifecycleState}
    → c.lifecycle.state ≡ s
    → WasOpened s
    → ClosesBy (unregister c done now)
unfolding unregister unregister_after legal_transitions state_in any
unregister-ClosesBy c now h shut =
    if-ClosesBy (state_eq c.lifecycle.state unsubscribed) true _ _ (rw h refl)
      (record { returned = refl; closed = h })
unregister-ClosesBy c now h waiting =
    if-ClosesBy (state_eq c.lifecycle.state unsubscribed) false _ _ (rw h refl)
      (advance-ClosesBy c _ _ now (rw h refl))
unregister-ClosesBy c now h active =
    if-ClosesBy (state_eq c.lifecycle.state unsubscribed) false _ _ (rw h refl)
      (advance-ClosesBy c _ _ now (rw h refl))

module _ (c : SubscriptionController) (now : String) where
  abbrev is_open : Bool
  is_open =
      state_eq c.lifecycle.state subscribe_started || state_eq c.lifecycle.state callback_active

  stop_answered-ClosesBy :
      {s : SdkLifecycleState}
      → c.lifecycle.state ≡ s
      → WasOpened s
      → ClosesBy (
          if state_eq c.lifecycle.state unsubscribed
          then (ok tt, c)
          else if is_open
          then advance c unsubscribed "stop complete" "SubscribeData.stop" now
          else (ok tt, c))
  unfolding legal_transitions state_in any
  stop_answered-ClosesBy h shut =
      if-ClosesBy (state_eq c.lifecycle.state unsubscribed) true _ _ (rw h refl)
        (record { returned = refl; closed = h })
  stop_answered-ClosesBy h waiting =
      if-ClosesBy (state_eq c.lifecycle.state unsubscribed) false _ _ (rw h refl)
        (if-ClosesBy is_open true _ _ (rw h refl) (advance-ClosesBy c _ _ now (rw h refl)))
  stop_answered-ClosesBy h active =
      if-ClosesBy (state_eq c.lifecycle.state unsubscribed) false _ _ (rw h refl)
        (if-ClosesBy is_open true _ _ (rw h refl) (advance-ClosesBy c _ _ now (rw h refl)))

ending-ClosesBy :
    (c : SubscriptionController) (e : Event) {s : SdkLifecycleState}
    → c.lifecycle.state ≡ s
    → WasOpened s
    → is_answered_end e ≡ true
    → ClosesBy (handle c e)
unfolding handle stop stop_sdk stop_after
ending-ClosesBy c (unregistering done now) h o q = unregister-ClosesBy c now h o
ending-ClosesBy c (stopping none now) h o q = stop_answered-ClosesBy c now h o
ending-ClosesBy c (stopping (some done) now) h o q = stop_answered-ClosesBy c now h o
ending-ClosesBy c _ h o q = cc

replay-snoc :
    (es : List Event) (c : SubscriptionController) (e : Event)
    → replay c (es ++ e ∷ []) ≡ (handle (replay c es) e).1
unfolding replay
replay-snoc [] c e = refl
replay-snoc (x ∷ es) c e = replay-snoc es (handle c x).1 e

-- Once a window was opened, whatever SDK events come then, the controller's next unregister or stop
-- closes the window without an error if the SDK answers it, or has no call for the stop.
pub window_closes :
    (c : SubscriptionController) (es : List Event) (e : Event)
    → WasOpened c.lifecycle.state
    → is_answered_end e ≡ true
    → ((handle (replay c es) e).0 ≡ ok tt)
      × ((replay c (es ++ e ∷ [])).lifecycle.state ≡ unsubscribed)
window_closes c es e o q =
    let p = ending-ClosesBy (replay c es) e refl (replay-WasOpened es c o) q in
    (p.returned, rw (replay-snoc es c e) p.closed)
