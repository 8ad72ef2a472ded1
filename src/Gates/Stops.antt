-- ===== src/Gates/Stops.antt =====
-- The early stop of RuntimeGatePipeline in providers/runtime_gates.py, against a step relation that
-- never evaluates a gate behind a blocking one.
use a_share_analysis.Common.{
  ◌≡◌, refl, sym, ap, ◌∙◌, subst, true, false, Option, none, some, List, [], ◌∷◌, ◌++◌, map, ok,
  err, ◌↔◌, inl, inr, Bool-cases, Answer-cases, String, append-nil, append_assoc,
}
use a_share_analysis.Gates.{
  GateKind, GateResult, GateReport, GateCheck, blocking, blocks, skipped, is_set, evaluate_from,
  evaluate,
}

-- A report in which `early_stopped` says whether a gate blocked
abbrev pub reported : List GateResult → Option GateKind → GateReport
reported rs b = record { results = rs; early_stopped = is_set b; blocked_by = b }

blocks-none : (r : GateResult) → blocking r ≡ false → blocks r ≡ none
unfolding blocks
blocks-none r f = rw f refl

blocks-some : (r : GateResult) → blocking r ≡ true → blocks r ≡ some r.kind
unfolding blocks
blocks-some r f = rw f refl

module _ {W : Type 0} where
  -- How the gates leave the state they are given: each passes on, until one blocks; the gates
  -- behind it are skipped, and the state stays as the blocking gate left it.
  pub data Ran : W → List (GateCheck W) → List GateResult → Option GateKind → W → Type 0 where
    finished : {w : W} → Ran w [] [] none w
    went_on :
        {w v u : W} {check : GateCheck W} {checks : List (GateCheck W)} {r : GateResult}
        {rs : List GateResult} {b : Option GateKind}
        → check.evaluate w ≡ (ok r, v)
        → blocking r ≡ false
        → Ran v checks rs b u
        → Ran w (check ∷ checks) (r ∷ rs) b u
    stopped :
        {w v : W} {check : GateCheck W} {checks : List (GateCheck W)} {r : GateResult}
        → check.evaluate w ≡ (ok r, v)
        → blocking r ≡ true
        → Ran w (check ∷ checks) (r ∷ map (skipped r.kind) checks) (some r.kind) v

  evaluate_from_blocked :
      (checks : List (GateCheck W)) (acc : List GateResult) (k : GateKind) (w : W)
      → evaluate_from checks acc (some k) w
        ≡ (ok (reported (acc ++ map (skipped k) checks) (some k)), w)
  unfolding evaluate_from
  evaluate_from_blocked [] acc k w =
      ap (λ rs. (ok (reported rs (some k)), w)) (sym (append-nil acc))
  evaluate_from_blocked (check ∷ checks) acc k w =
      evaluate_from_blocked checks (acc ++ skipped k check ∷ []) k w
      ∙ ap (λ rs. (ok (reported rs (some k)), w))
          (append_assoc acc (skipped k check ∷ []) (map (skipped k) checks))

  module _ (check : GateCheck W) (checks : List (GateCheck W)) (acc : List GateResult)
      {w v : W} where
    evaluate_from-passed :
        (r : GateResult)
        → check.evaluate w ≡ (ok r, v)
        → evaluate_from (check ∷ checks) acc none w
          ≡ evaluate_from checks (acc ++ r ∷ []) (blocks r) v
    unfolding evaluate_from
    evaluate_from-passed r e =
        rw e (ap (λ p. evaluate_from checks (acc ++ r ∷ []) (blocks r) p.1) e)

    evaluate_from-escaped :
        (x : String)
        → check.evaluate w ≡ (err x, v)
        → evaluate_from (check ∷ checks) acc none w ≡ (err x, v)
    unfolding evaluate_from
    evaluate_from-escaped x e = rw e (ap (λ p. (err x, p.1)) e)

  Ran-evaluate_from :
      {w u : W} {checks : List (GateCheck W)} {rs : List GateResult} {b : Option GateKind}
      (acc : List GateResult)
      → Ran w checks rs b u
      → evaluate_from checks acc none w ≡ (ok (reported (acc ++ rs) b), u)
  Ran-evaluate_from {w} acc finished =
      unfold evaluate_from in ap (λ rs. (ok (reported rs none), w)) (sym (append-nil acc))
  Ran-evaluate_from acc (went_on {check = check} {checks = checks} {r = r} {rs = rs} e f m) = cc (
    evaluate_from-passed check checks acc r e,
    blocks-none r f,
    Ran-evaluate_from (acc ++ r ∷ []) m,
    append_assoc acc (r ∷ []) rs,
  )
  Ran-evaluate_from acc (stopped {v = v} {check = check} {checks = checks} {r = r} e f) = cc (
    evaluate_from-passed check checks acc r e,
    blocks-some r f,
    evaluate_from_blocked checks (acc ++ r ∷ []) r.kind v,
    append_assoc acc (r ∷ []) (map (skipped r.kind) checks),
  )

  abbrev RanFrom : List GateResult → List (GateCheck W) → W → W → GateReport → Type 0
  RanFrom acc checks w u report =
      (rs : List GateResult) × (b : Option GateKind) × (report ≡ reported (acc ++ rs) b)
      × Ran w checks rs b u

  evaluate_from-RanFrom :
      (checks : List (GateCheck W)) (acc : List GateResult) (w u : W) (report : GateReport)
      → evaluate_from checks acc none w ≡ (ok report, u)
      → RanFrom acc checks w u report
  evaluate_from-RanFrom [] acc w u report h =
      let done = Ran-evaluate_from {w = w} acc finished in
      ([], none, cc (h, done), subst (Ran w [] [] none) (cc (h, done)) finished)
  evaluate_from-RanFrom (check ∷ checks) acc w u report h = elim (Answer-cases (check.evaluate w)) [
    | inr (x, v, e) ↦ cc (evaluate_from-escaped check checks acc x e, ap (λ p. p.0) h)
    | inl (r, v, e) ↦ elim (Bool-cases (blocking r)) [
      | inl stop ↦
          let whole = evaluate_from_blocked checks (acc ++ r ∷ []) r.kind v in
          (
            r ∷ map (skipped r.kind) checks,
            some r.kind,
            cc (
              evaluate_from-passed check checks acc r e,
              blocks-some r stop,
              whole,
              h,
              append_assoc acc (r ∷ []) (map (skipped r.kind) checks),
            ),
            subst (Ran w (check ∷ checks) (r ∷ map (skipped r.kind) checks) (some r.kind))
                (cc (evaluate_from-passed check checks acc r e, blocks-some r stop, whole, h))
                (stopped e stop),
          )
      | inr pass ↦
          let (rs, b, same, m) =
            evaluate_from-RanFrom checks (acc ++ r ∷ []) v u report
              (cc (evaluate_from-passed check checks acc r e, blocks-none r pass, h)) in
          (r ∷ rs, b, cc (same, append_assoc acc (r ∷ []) rs), went_on e pass m)
    ]
  ]

-- Whatever gates a pipeline has, it reports on a state exactly as the gates can leave it one after
-- the other: each passes on, until one blocks; the gates behind that one are skipped and never
-- touch the state, and the report names it as the one that blocked.
pub evaluate_iff :
    {W : Type 0} (checks : List (GateCheck W)) (w u : W) (report : GateReport)
    → (evaluate checks w ≡ (ok report, u)) ↔ (
        Ran w checks report.results report.blocked_by u
        × (report.early_stopped ≡ is_set report.blocked_by))
unfolding evaluate
evaluate_iff checks w u report = (
  (λ h. let (rs, b, same, m) = evaluate_from-RanFrom checks [] w u report h in rw same (m, refl)),
  λ (m, honest). cc (Ran-evaluate_from [] m, honest),
)
