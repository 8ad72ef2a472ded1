-- ===== src/Lifecycle/History.antt =====
-- What the recorded history of a lifecycle says, for providers/lifecycle.py: every sequence of
-- transition and close calls, accepted or refused, moves along the table of legal transitions and
-- the clean close, and a terminal runtime stays terminal.
use a_share_analysis.Common.{
  String, ◌≡◌, refl, sym, ◌≢◌, true, false, List, [], ◌∷◌, ◌++◌, Result, ok, err, arith, Bool-cases,
  inl, inr, ◌⊎◌, ap,
}
use a_share_analysis.Lifecycle.{
  SdkLifecycleState, init, sdk_unavailable, load_failed, login_failed, auth_rejected, session_ready,
  subscribe_started, callback_active, unsubscribed, logged_out, LifecycleTransition, state_eq,
  state_in, legal_transitions, record_transition, logged_out_needs_close, illegal_transition,
  SdkLifecycle, new, LifecycleError, transition, close,
}

-- The moves of the table _LEGAL_TRANSITIONS, and the clean close from any other state. All but
-- `ended_early`, which closes a window before its first callback, stand in the docstring's diagram.
pub data Move : SdkLifecycleState → SdkLifecycleState → Type 0 where
  missing_sdk : Move init sdk_unavailable
  import_raised : Move init load_failed
  login_broke : Move init login_failed
  rejected : Move init auth_rejected
  logged_in : Move init session_ready
  subscribed : Move session_ready subscribe_started
  first_callback : Move subscribe_started callback_active
  ended_early : Move subscribe_started unsubscribed
  ended : Move callback_active unsubscribed
  again : Move unsubscribed subscribe_started
  clean_close : {s : SdkLifecycleState} → s ≢ logged_out → Move s logged_out

-- The entries lead from the first state to the last, each by a move.
abbrev pub IsTrail : SdkLifecycleState → List LifecycleTransition → SdkLifecycleState → Type 0
IsTrail s [] t = s ≡ t
IsTrail s (e ∷ es) t = (e.from_state ≡ s) × Move e.from_state e.to_state × IsTrail e.to_state es t

-- A call on the runtime, with the clock's reading.
pub data Call : Type 0 where
  move : SdkLifecycleState → (reason evidence_ref now : String) → Call
  shut : (reason evidence_ref now : String) → Call

-- What a refused call leaves is the object as it was.
abbrev pub settle : SdkLifecycle → Result LifecycleError SdkLifecycle → SdkLifecycle
settle l (ok l') = l'
settle l (err e) = l

unfoldable pub perform : SdkLifecycle → Call → SdkLifecycle
unfolding transition close
perform l (move t r v n) = settle l (transition l t r v n)
perform l (shut r v n) = close l r v n

unfoldable pub run : SdkLifecycle → List Call → SdkLifecycle
run l [] = l
run l (c ∷ cs) = run (perform l c) cs

IsTrail-snoc :
    (s t u : SdkLifecycleState) (h : List LifecycleTransition) (e : LifecycleTransition)
    → IsTrail s h t
    → e.from_state ≡ t
    → e.to_state ≡ u
    → Move e.from_state e.to_state
    → IsTrail s (h ++ e ∷ []) u
IsTrail-snoc s t u [] e p q r m = (cc, m, r)
IsTrail-snoc s t u (x ∷ h) e p q r m = (p.0, p.1, IsTrail-snoc x.to_state t u h e p.2 q r m)

pub record Extends (l l' : SdkLifecycle) : Type 0 where
  pub entry : LifecycleTransition
  pub from_here : entry.from_state ≡ l.state
  pub to_there : entry.to_state ≡ l'.state
  pub legal : Move entry.from_state entry.to_state
  pub appended : l'.history ≡ l.history ++ entry ∷ []

pub legal-Move : (s t : SdkLifecycleState) → state_in t (legal_transitions s) ≡ true → Move s t
unfolding state_in legal_transitions
legal-Move init sdk_unavailable h = missing_sdk
legal-Move init load_failed h = import_raised
legal-Move init login_failed h = login_broke
legal-Move init auth_rejected h = rejected
legal-Move init session_ready h = logged_in
legal-Move session_ready subscribe_started h = subscribed
legal-Move subscribe_started callback_active h = first_callback
legal-Move subscribe_started unsubscribed h = ended_early
legal-Move callback_active unsubscribed h = ended
legal-Move unsubscribed subscribe_started h = again
legal-Move _ _ h = cc

ne_logged_out : (s : SdkLifecycleState) → state_eq s logged_out ≡ false → s ≢ logged_out
ne_logged_out s h e = cc (ap (λ x. state_eq x logged_out) e)

module _ (l : SdkLifecycle) (t : SdkLifecycleState) (r v n : String) where
  abbrev entry_of : LifecycleTransition
  entry_of = record { from_state = l.state; to_state = t; reason = r; evidence_ref = v; at = n }

  history-record_transition : (record_transition l t r v n).history ≡ l.history ++ entry_of ∷ []
  unfolding record_transition
  history-record_transition = ground arith

  pub state-record_transition : (record_transition l t r v n).state ≡ t
  unfolding record_transition
  state-record_transition = ground arith

  record_transition-Extends : Move l.state t → Extends l (record_transition l t r v n)
  record_transition-Extends m = record {
    entry = entry_of;
    from_here = refl;
    to_there = sym state-record_transition;
    legal = m;
    appended = history-record_transition;
  }

  -- A plain transition is refused, or makes its move.
  pub transition_cases :
      ((e : LifecycleError) × (transition l t r v n ≡ err e))
      ⊎ (Move l.state t × (transition l t r v n ≡ ok (record_transition l t r v n)))
  unfolding transition
  transition_cases = elim (Bool-cases (state_eq t logged_out)) [
    | inl e ↦ inl (logged_out_needs_close, rw e)
    | inr e ↦ elim (Bool-cases (state_in t (legal_transitions l.state))) [
      | inl f ↦ inr (legal-Move l.state t f, rw (e, f))
      | inr f ↦ inl (illegal_transition l.state t, rw (e, f))
    ]
  ]

-- Every call leaves the object alone, or appends the entry of one move.
pub perform_cases : (l : SdkLifecycle) (c : Call) → (perform l c ≡ l) ⊎ Extends l (perform l c)
unfolding perform
perform_cases l (move t r v n) = elim (transition_cases l t r v n) [
  | inl (e, h) ↦ inl (rw h)
  | inr (m, h) ↦ inr (rw h (record_transition-Extends l t r v n m))
]
perform_cases l (shut r v n) = elim (Bool-cases (state_eq l.state logged_out)) [
  | inl e ↦ inl (rw e)
  | inr e ↦
      inr (
        rw e (record_transition-Extends l logged_out r v n (clean_close (ne_logged_out l.state e))))
]

run-IsTrail :
    (cs : List Call) (l : SdkLifecycle)
    → IsTrail init l.history l.state
    → IsTrail init (run l cs).history (run l cs).state
unfolding run
run-IsTrail [] l h = h
run-IsTrail (c ∷ cs) l h = run-IsTrail cs (perform l c) (step (perform_cases l c))
  where
    step :
        (perform l c ≡ l) ⊎ Extends l (perform l c)
        → IsTrail init (perform l c).history (perform l c).state
    step (inl e) = rw e h
    step (inr x) = rw x.appended (
        IsTrail-snoc init l.state (perform l c).state l.history x.entry h x.from_here x.to_there
          x.legal)

-- However the runtime is driven, its recorded history leads without a gap from INIT to its present
-- state, and every entry is a legal transition of the table or the clean close from a state that is
-- not LOGGED_OUT.
pub run-new-IsTrail : (cs : List Call) → IsTrail init (run new cs).history (run new cs).state
run-new-IsTrail cs = run-IsTrail cs new refl
