-- ===== src/Lifecycle/Terminal.antt =====
-- The early stop of providers/lifecycle.py: what a terminal runtime refuses, and what a runtime
-- that accepts a business call has been through.
use a_share_analysis.Common.{
  String, ◌≡◌, refl, sym, ◌∙◌, true, List, [], ◌∷◌, ok, err, arith, inl, inr, Memᴰ, ◌⊎◌, subst,
}
use a_share_analysis.Lifecycle.{
  SdkLifecycleState, init, session_ready, LifecycleTransition, SdkLifecycle, new, runtime_terminal,
  is_terminal, session_alive, require_ready, transition, close, state_in, legal_transitions,
  record_transition, terminal_lifecycle_states, session_alive_states,
}
use a_share_analysis.Lifecycle.History.{
  Move, logged_in, subscribed, first_callback, ended_early, ended, again, IsTrail, Call, move, shut,
  perform, run, run-new-IsTrail,
}

legal_of_terminal :
    (s : SdkLifecycleState) → state_in s terminal_lifecycle_states ≡ true → legal_transitions s ≡ []
unfolding state_in legal_transitions
legal_of_terminal init h = cc
legal_of_terminal session_ready h = cc
legal_of_terminal _ h = ground arith

record Kept (l l' : SdkLifecycle) : Type 0 where
  terminal : is_terminal l' ≡ true
  reason : l'.terminal_reason ≡ l.terminal_reason
  evidence : l'.terminal_evidence_ref ≡ l.terminal_evidence_ref

perform-Kept : (l : SdkLifecycle) (c : Call) → is_terminal l ≡ true → Kept l (perform l c)
perform-Kept l (move t r v n) h =
    unfold perform transition is_terminal state_in in ground (arith, legal_of_terminal l.state)
perform-Kept l (shut r v n) h =
    unfold perform close record_transition is_terminal state_in in ground arith

run-Kept : (cs : List Call) (l : SdkLifecycle) → is_terminal l ≡ true → Kept l (run l cs)
unfolding run
run-Kept [] l h = record { terminal = h; reason = refl; evidence = refl }
run-Kept (c ∷ cs) l h =
    let one = perform-Kept l c h in
    let more = run-Kept cs (perform l c) one.terminal in
    record {
      terminal = more.terminal;
      reason = more.reason ∙ one.reason;
      evidence = more.evidence ∙ one.evidence;
    }

require_ready_terminal :
    (l : SdkLifecycle) (action : String)
    → is_terminal l ≡ true
    → require_ready l action
      ≡ err (runtime_terminal l.state l.terminal_reason l.terminal_evidence_ref action)
unfolding require_ready is_terminal
require_ready_terminal l action h = rw h

-- Once a runtime is terminal, it stays terminal whatever transitions and closes are tried, and each
-- later business call is refused with the terminal reason and evidence recorded before.
pub terminal_refuses :
    (l : SdkLifecycle) (cs : List Call) (action : String)
    → is_terminal l ≡ true
    → (is_terminal (run l cs) ≡ true)
      × (require_ready (run l cs) action
          ≡ err
              (runtime_terminal (run l cs).state l.terminal_reason l.terminal_evidence_ref action))
terminal_refuses l cs action h =
    let kept = run-Kept cs l h in
    (
      kept.terminal,
      cc (require_ready_terminal (run l cs) action kept.terminal, kept.reason, kept.evidence),
    )

abbrev pub IsAlive : SdkLifecycleState → Type 0
IsAlive s = state_in s session_alive_states ≡ true

-- A move into a live state starts from a live state, or is the login.
Move-IsAlive : {s t : SdkLifecycleState} → Move s t → IsAlive t → IsAlive s ⊎ (t ≡ session_ready)
unfolding state_in
Move-IsAlive logged_in h = inr refl
Move-IsAlive subscribed h = inl refl
Move-IsAlive first_callback h = inl refl
Move-IsAlive ended_early h = inl refl
Move-IsAlive ended h = inl refl
Move-IsAlive again h = inl refl
Move-IsAlive _ h = cc

pub record HasLogin (h : List LifecycleTransition) : Type 0 where
  pub entry : LifecycleTransition
  pub listed : Memᴰ entry h
  pub login : entry.to_state ≡ session_ready

IsTrail-IsAlive :
    (s t : SdkLifecycleState) (h : List LifecycleTransition)
    → IsTrail s h t
    → IsAlive t
    → IsAlive s ⊎ HasLogin h
IsTrail-IsAlive s t [] p a = inl (subst IsAlive (sym p) a)
IsTrail-IsAlive s t (e ∷ h) p a = elim (IsTrail-IsAlive e.to_state t h p.2 a) [
  | inl alive ↦ elim (Move-IsAlive p.1 alive) [
    | inl before ↦ inl (subst IsAlive p.0 before)
    | inr login ↦ inr (record { entry = e; listed = Memᴰ.head refl; login = login })
  ]
  | inr found ↦
      inr (record { entry = found.entry; listed = Memᴰ.tail found.listed; login = found.login })
]

IsAlive-of_ready :
    (l : SdkLifecycle) (action : String) → require_ready l action ≡ ok tt → IsAlive l.state
unfolding require_ready session_alive
IsAlive-of_ready l action h = ground arith

init_not-IsAlive : ¬ IsAlive init
unfolding state_in
init_not-IsAlive h = cc

pub alive_needs_login :
    (cs : List Call) → IsAlive (run new cs).state → HasLogin (run new cs).history
alive_needs_login cs alive =
    elim (IsTrail-IsAlive init (run new cs).state (run new cs).history (run-new-IsTrail cs) alive) [
      | inl start ↦ absurd (init_not-IsAlive start)
      | inr found ↦ found
    ]

-- A runtime driven from its start by any calls lets a business call through only if a login,
-- a transition to SESSION_READY, is recorded in its history.
pub ready_needs_login :
    (cs : List Call) (action : String)
    → require_ready (run new cs) action ≡ ok tt
    → HasLogin (run new cs).history
ready_needs_login cs action h = alive_needs_login cs (IsAlive-of_ready (run new cs) action h)
