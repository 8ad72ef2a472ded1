-- ===== src/Research/Bars/Usable.antt =====
-- Which daily bars evaluate_daily_bar of research/eligibility.py enables.
use a_share_analysis.Common.{
  String, ◌≡◌, refl, sym, ◌∙◌, ◌≢◌, ◌⊎◌, inl, inr, Bool, true, false, Option, none, some, ok,
  >>=-eq-ok, ok_injective, any, arith, ap, Bool-cases, str_eq, eq_iff,
}
use a_share_analysis.MarketState.Inputs.{Floats, null, Cells, is_null}
use a_share_analysis.Research.Splits.{ResearchSplit, development, validation_a, holdout}
use a_share_analysis.Research.Bars.{
  enabled, EligibilityDecision, enabled_decision, required_value_fields, in_research, checked,
  larger_of, smaller_of, out_of_order, by_prices, by_values, by_identity, by_conflict, by_status,
  evaluate_daily_bar,
}
use a_share_analysis.Research.Bars.Amounts.{
  Amount, by_values-OnlyDisables, returned-enabled, present_amount, null_or_amount,
}

in_research_cases :
    (split : ResearchSplit)
    → in_research split ≡ true
    → (split ≡ development) ⊎ ((split ≡ validation_a) ⊎ (split ≡ holdout))
unfolding in_research
in_research_cases development h = inl refl
in_research_cases validation_a h = inr (inl refl)
in_research_cases holdout h = inr (inr refl)
in_research_cases _ h = cc

module _ (fl : Floats) where
  open fl use {Float, is_finite, of_int, lt, zero_float}

  pub record IsUsable (row : Cells fl) (raw_status : Option String) (split : ResearchSplit)
      (identity : Option String) (conflict : Bool) : Type 0 where
    pub research_split : (split ≡ development) ⊎ ((split ≡ validation_a) ⊎ (split ≡ holdout))
    pub status : (raw_status ≡ none) ⊎ (raw_status ≡ some "RESEARCH_ENABLED")
    pub no_conflict : conflict ≡ false
    pub exchange : String
    pub identified : identity ≡ some exchange
    pub not_bse : exchange ≢ "BSE"
    pub open_price : Amount fl (row "open")
    pub high : Amount fl (row "high")
    pub low : Amount fl (row "low")
    pub close : Amount fl (row "close")
    pub pre_close : (row "pre_close" ≡ null) ⊎ Amount fl (row "pre_close")
    pub volume : Amount fl (row "volume")
    pub amount : Amount fl (row "amount")
    pub high_is_high : lt high.amount (larger_of fl open_price.amount close.amount) ≡ false
    pub low_is_low : lt (smaller_of fl open_price.amount close.amount) low.amount ≡ false
    pub high_not_below_low : lt high.amount low.amount ≡ false

  -- What an enabled answer behind the loop rests on
  by_prices-enabled :
      (exchange : String) (o h l c : Option Float) {d : EligibilityDecision}
      → by_prices fl exchange o h l c ≡ ok d
      → d.eligibility ≡ enabled
      → (o' : Float) × (h' : Float) × (l' : Float) × (c' : Float) × (o ≡ some o')
        × (h ≡ some h')
        × (l ≡ some l')
        × (c ≡ some c')
        × (out_of_order fl o' h' l' c' ≡ false)
        × (str_eq exchange "BSE" ≡ false)
        × (d ≡ enabled_decision)
  unfolding by_prices
  by_prices-enabled exchange (some o) (some h) (some l) (some c) e k =
      elim (Bool-cases (out_of_order fl o h l c)) [
        | inl f ↦ cc (ok_injective (rw f at e))
        | inr f ↦ elim (Bool-cases (str_eq exchange "BSE")) [
          | inl g ↦ cc (ok_injective (rw (f, g) at e))
          | inr g ↦ (o, h, l, c, refl, refl, refl, refl, f, g, sym (ok_injective (rw (f, g) at e)))
        ]
      ]
  by_prices-enabled exchange _ _ _ _ e k = cc (ok_injective e)

  abbrev missing : Cells fl → Bool
  missing row = any (λ name. is_null fl (row name)) required_value_fields

  -- What the values of an enabled bar are
  record Priced (row : Cells fl) (exchange : String) (d : EligibilityDecision) : Type 0 where
    not_bse : exchange ≢ "BSE"
    open_price : Amount fl (row "open")
    high : Amount fl (row "high")
    low : Amount fl (row "low")
    close : Amount fl (row "close")
    pre_close : (row "pre_close" ≡ null) ⊎ Amount fl (row "pre_close")
    volume : Amount fl (row "volume")
    amount : Amount fl (row "amount")
    in_order : out_of_order fl open_price.amount high.amount low.amount close.amount ≡ false
    decision : d ≡ enabled_decision

  in_order_of :
      {o h l c o' h' l' c' : Float}
      → ◌≡◌ {A = Option Float} (some o) (some o')
      → ◌≡◌ {A = Option Float} (some h) (some h')
      → ◌≡◌ {A = Option Float} (some l) (some l')
      → ◌≡◌ {A = Option Float} (some c) (some c')
      → out_of_order fl o' h' l' c' ≡ false
      → out_of_order fl o h l c ≡ false
  in_order_of p q r s e = cc

  by_values-Priced :
      (row : Cells fl) (exchange : String) {d : EligibilityDecision}
      → missing row ≡ false
      → by_values fl row exchange ≡ ok d
      → d.eligibility ≡ enabled
      → Priced row exchange d
  unfolding by_values any
  by_values-Priced row exchange none_missing e k =
      let (o, po, e1) = >>=-eq-ok (checked fl (row "open")) _ e in
      let (h, ph, e2) = >>=-eq-ok (checked fl (row "high")) _ e1 in
      let (l, pl, e3) = >>=-eq-ok (checked fl (row "low")) _ e2 in
      let (c, pc, e4) = >>=-eq-ok (checked fl (row "close")) _ e3 in
      let (p, pp, e5) = >>=-eq-ok (checked fl (row "pre_close")) _ e4 in
      let (v, pv, e6) = >>=-eq-ok (checked fl (row "volume")) _ e5 in
      let (a, pa, e7) = >>=-eq-ok (checked fl (row "amount")) _ e6 in
      let (o', h', l', c', qo, qh, ql, qc, in_order, bse, decision) =
        by_prices-enabled exchange o h l c e7 k in
      let (ao, ro) = present_amount fl (row "open") (ground arith) po in
      let (ah, rh) = present_amount fl (row "high") (ground arith) ph in
      let (al, rl) = present_amount fl (row "low") (ground arith) pl in
      let (ac, rc) = present_amount fl (row "close") (ground arith) pc in
      let (av, rv) = present_amount fl (row "volume") (ground arith) pv in
      let (aa, ra) = present_amount fl (row "amount") (ground arith) pa in
      record {
        not_bse = λ b. cc ((eq_iff exchange "BSE").1 b, bse);
        open_price = ao;
        high = ah;
        low = al;
        close = ac;
        pre_close = null_or_amount fl (row "pre_close") pp;
        volume = av;
        amount = aa;
        in_order = in_order_of (sym ro ∙ qo) (sym rh ∙ qh) (sym rl ∙ ql) (sym rc ∙ qc) in_order;
        decision = decision;
      }

  by_identity-Priced :
      (row : Cells fl) (identity : Option String) {d : EligibilityDecision}
      → by_identity fl row identity ≡ ok d
      → d.eligibility ≡ enabled
      → (exchange : String) × (identity ≡ some exchange) × Priced row exchange d
  unfolding by_identity
  by_identity-Priced row none h e = cc (ok_injective h)
  by_identity-Priced row (some exchange) h e = elim (Bool-cases (missing row)) [
    | inl m ↦ cc (ok_injective (rw m at h))
    | inr m ↦ (
      exchange,
      refl,
      by_values-Priced row exchange m
          (returned-enabled fl (by_values fl row exchange) (by_values-OnlyDisables fl row exchange)
            (rw m at h) e)
          e,
    )
  ]

  by_conflict-Priced :
      (row : Cells fl) (identity : Option String) (conflict : Bool) {d : EligibilityDecision}
      → by_conflict fl row identity conflict ≡ ok d
      → d.eligibility ≡ enabled
      → (conflict ≡ false)
        × ((exchange : String) × (identity ≡ some exchange) × Priced row exchange d)
  unfolding by_conflict
  by_conflict-Priced row identity true h e = cc (ok_injective h)
  by_conflict-Priced row identity false h e = (refl, by_identity-Priced row identity h e)

  by_status-Priced :
      (row : Cells fl) (raw_status identity : Option String) (conflict : Bool)
      {d : EligibilityDecision}
      → by_status fl row raw_status identity conflict ≡ ok d
      → d.eligibility ≡ enabled
      → ((raw_status ≡ none) ⊎ (raw_status ≡ some "RESEARCH_ENABLED"))
        × (by_conflict fl row identity conflict ≡ ok d)
  unfolding by_status
  by_status-Priced row none identity conflict h e = (inl refl, h)
  by_status-Priced row (some s) identity conflict h e =
      elim (Bool-cases (str_eq s "RESEARCH_EXPERIMENTAL")) [
        | inl p ↦ cc (ok_injective (rw p at h))
        | inr p ↦ elim (Bool-cases (str_eq s "RESEARCH_ENABLED")) [
          | inl q ↦ (inr (ap some ((eq_iff s "RESEARCH_ENABLED").0 q)), rw (p, q) at h)
          | inr q ↦ cc (ok_injective (rw (p, q) at h))
        ]
      ]

  evaluate-in_research :
      (row : Cells fl) (raw_status identity : Option String) (split : ResearchSplit)
      (conflict : Bool) {d : EligibilityDecision}
      → evaluate_daily_bar fl row raw_status split identity conflict ≡ ok d
      → d.eligibility ≡ enabled
      → (in_research split ≡ true) × (by_status fl row raw_status identity conflict ≡ ok d)
  unfolding evaluate_daily_bar
  evaluate-in_research row raw_status identity split conflict h e =
      elim (Bool-cases (in_research split)) [
        | inl p ↦ (p, rw p at h)
        | inr p ↦ cc (ok_injective (rw p at h))
      ]

-- A bar is enabled only with the one enabled decision, and only if it is usable: its split is one
-- that a panel reads, the upstream status is absent or enabled, the identity is known without a
-- conflict and not of the BSE, the six required values are finite numbers not below 0, so is a
-- previous close that is there, the high is not below open, close or low, and the low is not above
-- open or close.
pub evaluate_daily_bar-IsUsable :
    (fl : Floats) (row : Cells fl) (raw_status : Option String) (split : ResearchSplit)
    (identity : Option String) (conflict : Bool) (d : EligibilityDecision)
    → evaluate_daily_bar fl row raw_status split identity conflict ≡ ok d
    → d.eligibility ≡ enabled
    → (d ≡ enabled_decision) × IsUsable fl row raw_status split identity conflict
unfolding out_of_order
evaluate_daily_bar-IsUsable fl row raw_status split identity conflict d h e =
    let (readable, h1) = evaluate-in_research fl row raw_status identity split conflict h e in
    let (status, h2) = by_status-Priced fl row raw_status identity conflict h1 e in
    let (no_conflict, found) = by_conflict-Priced fl row identity conflict h2 e in
    let (exchange, identified, p) = found in
    let in_order = p.in_order in
    (
      p.decision,
      record {
        research_split = in_research_cases split readable;
        status = status;
        no_conflict = no_conflict;
        exchange = exchange;
        identified = identified;
        not_bse = p.not_bse;
        open_price = p.open_price;
        high = p.high;
        low = p.low;
        close = p.close;
        pre_close = p.pre_close;
        volume = p.volume;
        amount = p.amount;
        high_is_high = ground arith;
        low_is_low = ground arith;
        high_not_below_low = ground arith;
      },
    )
