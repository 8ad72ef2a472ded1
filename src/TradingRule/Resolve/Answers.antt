-- ===== src/TradingRule/Resolve/Answers.antt =====
-- That resolve_limit_regime of spike/trading_rule.py overlooks no row that speaks for a day.
use a_share_analysis.Common.{
  ℕ, ◌≡◌, ◌≢◌, ◌∙◌, sym, ap, Distinct, Bool-cases, str_eq, eq_iff, mem_of-keep, refl, ◌⊎◌, inl, inr,
  Bool, true, false, List, [], ◌∷◌, keep, ok, err, Memᴰ, mem-keep, Text, text_in,
}
use a_share_analysis.TradingRule.Dates.{
  RuleUnresolved, DateValue, yyyymmdd, no_matching_rule, no_st_rule, no_limit_regime, ambiguous,
}
use a_share_analysis.TradingRule.Rows.{TradingRuleRow, TradingRuleBook}
use a_share_analysis.TradingRule.Resolve.{
  to_rule, split_code, exchange_or, known_exchanges, is_candidate, select_state, some_rows,
  select_candidates, the_row, has_age, resolve_limit_regime,
}
use a_share_analysis.TradingRule.Resolve.Candidates.{IsInForce-is_candidate}
use a_share_analysis.TradingRule.Resolve.Preferred.{has_age_iff}
use a_share_analysis.TradingRule.Resolve.Regime.{
  Applies, candidates, chosen, Applies-selected, selected-Applies, mem_singleton,
}
use a_share_analysis.TradingRule.Resolve.Once.{
  Distinct-keep, select_state-Distinct, AllSound-Distinct, same_id,
}
use a_share_analysis.TradingRule.Rows.Valid.{AllSound}
use a_share_analysis.TradingRule.Resolve.Sound.{IsPlain}

some_rows-of_mem :
    (rows : List TradingRuleRow) (e : RuleUnresolved) (r : TradingRuleRow)
    → Memᴰ r rows
    → some_rows rows e ≡ ok rows
unfolding some_rows
some_rows-of_mem [] e r m = elim m [ ]
some_rows-of_mem (x ∷ rows) e r m = refl

-- Of rows without repetition, one of them is alone and is taken, or another stands beside it.
the_row-of_mem :
    (e : RuleUnresolved) (rows : List TradingRuleRow) (r : TradingRuleRow)
    → Distinct rows
    → Memᴰ r rows
    → ((a b : TradingRuleRow) → Memᴰ a rows → Memᴰ b rows → a.rule_id ≡ b.rule_id → a ≡ b)
    → (((s : TradingRuleRow) → Memᴰ s rows → s ≡ r) × (the_row e rows ≡ ok r))
      ⊎ ((s : TradingRuleRow) × Memᴰ s rows
          × (s.rule_id ≢ r.rule_id)
          × (the_row e rows ≡ err ambiguous))
unfolding the_row
the_row-of_mem e [] r d m ids = elim m [ ]
the_row-of_mem e (x ∷ []) r d m ids =
    let same : r ≡ x = mem_singleton refl m in
    inl (λ s n. mem_singleton refl n ∙ sym same, ap ok (sym same))
the_row-of_mem e (x ∷ y ∷ rows) r (new, d) m ids = elim (Bool-cases (str_eq x.rule_id r.rule_id)) [
  | inr other ↦ inr (x, Memᴰ.head refl, λ q. cc ((eq_iff x.rule_id r.rule_id).1 q, other), refl)
  | inl same ↦
      let x_is = ids x r (Memᴰ.head refl) m ((eq_iff x.rule_id r.rule_id).0 same) in
      inr (
        y,
        Memᴰ.tail (Memᴰ.head refl),
        λ q.
            let y_is = ids y r (Memᴰ.tail (Memᴰ.head refl)) m q in
            new (Memᴰ.head (x_is ∙ sym y_is)),
        refl,
      )
]

module _ (book : TradingRuleBook) (exchange code : Text) (trade_date : DateValue) (is_st : Bool)
    (day : ℕ) (row : TradingRuleRow) where
  abbrev exch : Text
  exch = exchange_or exchange (split_code code).1

  abbrev bare : Text
  bare = (split_code code).0

  kept :
      (r : TradingRuleRow)
      → Applies book exch bare day is_st r
      → IsPlain r
      → Memᴰ r (keep (has_age "NONE") (chosen book exch bare day is_st).selected)
  kept r a p =
      mem-keep (has_age "NONE") r (chosen book exch bare day is_st).selected
        (Applies-selected book exch bare day is_st r a) ((has_age_iff "NONE" r).1 p)

  back_of :
      (r : TradingRuleRow)
      → Memᴰ r (keep (has_age "NONE") (chosen book exch bare day is_st).selected)
      → Applies book exch bare day is_st r × IsPlain r
  back_of r m =
      let (n, h) = mem_of-keep (has_age "NONE") r (chosen book exch bare day is_st).selected m in
      (selected-Applies book exch bare day is_st r n, (has_age_iff "NONE" r).0 h)

  select_candidates-of_Applies :
      text_in exch known_exchanges ≡ true
      → yyyymmdd trade_date ≡ ok day
      → Applies book exch bare day is_st row
      → select_candidates book exchange code trade_date is_st ≡ ok (chosen book exch bare day is_st)
  unfolding select_candidates
  select_candidates-of_Applies known dated a =
      let found =
        mem-keep (is_candidate exch bare day) row book.rules a.listed
          (IsInForce-is_candidate exch bare day row a.in_force) in
      let left = Applies-selected book exch bare day is_st row a in
      rw
        (
          known,
          dated,
          some_rows-of_mem (candidates book exch bare day is_st) no_matching_rule row found,
          some_rows-of_mem (select_state is_st (candidates book exch bare day is_st)) no_st_rule row
              left,
        )
        refl

  -- In a book of sound rows, where the exchange is known, the trade date is a date, and a row without
  -- a listing age speaks for that day, resolve_limit_regime returns the rule made of that row if it is
  -- the only such row; otherwise another such row, with another id, speaks too, and the rows are found
  -- ambiguous.
  pub resolve_limit_regime_answers :
      AllSound [] book.rules
      → text_in exch known_exchanges ≡ true
      → yyyymmdd trade_date ≡ ok day
      → Applies book exch bare day is_st row
      → IsPlain row
      → (((r : TradingRuleRow) → Applies book exch bare day is_st r → IsPlain r → r ≡ row)
          × (resolve_limit_regime book exchange code trade_date is_st
              ≡ ok (to_rule book row exch bare false)))
        ⊎ ((other : TradingRuleRow) × Applies book exch bare day is_st other
            × IsPlain other
            × (other.rule_id ≢ row.rule_id)
            × (resolve_limit_regime book exchange code trade_date is_st ≡ err ambiguous))
  unfolding resolve_limit_regime
  resolve_limit_regime_answers sound known dated a plain =
      let s = chosen book exch bare day is_st in
      let selected = select_candidates-of_Applies known dated a in
      let plain_rows = keep (has_age "NONE") s.selected in
      let m = kept row a plain in
      let once = Distinct-keep (has_age "NONE") s.selected (
        select_state-Distinct is_st (candidates book exch bare day is_st) (
          Distinct-keep (is_candidate exch bare day) book.rules
            (AllSound-Distinct [] book.rules sound))) in
      let ids =
        λ (x y : TradingRuleRow) (n : Memᴰ x plain_rows) (o : Memᴰ y plain_rows)
            (q : x.rule_id ≡ y.rule_id).
          same_id [] book.rules x y sound (back_of x n).0.listed (back_of y o).0.listed q in
      elim (the_row-of_mem no_limit_regime plain_rows row once m ids) [
        | inl (only, e) ↦ inl (λ r b p. only r (kept r b p), rw (selected, e) refl)
        | inr (other, n, differs, e) ↦
            let (b, p) = back_of other n in inr (other, b, p, differs, rw (selected, e) refl)
      ]
