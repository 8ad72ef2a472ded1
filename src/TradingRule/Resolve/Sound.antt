-- ===== src/TradingRule/Resolve/Sound.antt =====
-- Soundness of resolve_limit_regime and resolve of spike/trading_rule.py: what they return, they
-- return for one reason only.
use a_share_analysis.Common.{
  ◌≡◌, refl, sym, subst, ◌↔◌, Bool, true, false, List, [], ◌∷◌, keep, ok, >>=-eq-ok, ok_injective,
  Memᴰ, mem_of-keep, mem-keep, Text,
}
use a_share_analysis.TradingRule.Dates.{DateValue, no_limit_regime}
use a_share_analysis.TradingRule.Rows.{TradingRuleRow, TradingRuleBook}
use a_share_analysis.TradingRule.Resolve.{
  TradingRule, to_rule, Selection, select_candidates, the_row, has_age, resolve_limit_regime,
}
use a_share_analysis.TradingRule.Resolve.Preferred.{has_age_iff}
use a_share_analysis.TradingRule.Resolve.Regime.{
  Selected, select_candidates-Selected, Selected-Applies, Applies-Selected, the_row-eq-ok,
  mem_singleton, IsTheRow,
}

-- The rows are those of the selection that are in the regime.
pub record AreThose (InRegime : TradingRuleRow → Type 0) (selected rows : List TradingRuleRow)
    : Type 0 where
  pub from : (r : TradingRuleRow) → Memᴰ r rows → Memᴰ r selected × InRegime r
  pub back : (r : TradingRuleRow) → Memᴰ r selected → InRegime r → Memᴰ r rows

module _ {book : TradingRuleBook} {exchange code : Text} {trade_date : DateValue} {is_st : Bool}
    {s : Selection} (found : Selected book exchange code trade_date is_st s)
    {InRegime : TradingRuleRow → Type 0} {rows : List TradingRuleRow}
    (those : AreThose InRegime s.selected rows) where
  pub to_rule-IsTheRow :
      (row : TradingRuleRow) (first_n : Bool)
      → rows ≡ row ∷ []
      → IsTheRow book exchange code trade_date is_st first_n InRegime
          (to_rule book row s.exch s.bare first_n)
  to_rule-IsTheRow row first_n one =
      let (m, regime) = those.from row (subst (Memᴰ row) (sym one) (Memᴰ.head refl)) in
      record {
        row = row;
        day = s.day;
        day_is = found.day_is;
        exchange_is = found.exch_is;
        code_is = found.bare_is;
        known = found.known;
        applies = Selected-Applies found row m;
        regime = regime;
        rule_is = refl;
        only = λ r a in_regime.
            mem_singleton one (those.back r (Applies-Selected found r a) in_regime);
      }

pub keep-AreThose :
    (p : TradingRuleRow → Bool) (InRegime : TradingRuleRow → Type 0)
    (selected : List TradingRuleRow)
    → ((r : TradingRuleRow) → (p r ≡ true) ↔ InRegime r)
    → AreThose InRegime selected (keep p selected)
keep-AreThose p InRegime selected iff = record {
  from = λ r m. let (n, h) = mem_of-keep p r selected m in (n, (iff r).0 h);
  back = λ r m i. mem-keep p r selected m ((iff r).1 i);
}

abbrev pub IsPlain : TradingRuleRow → Type 0
IsPlain r = r.listing_age_rule ≡ "NONE"

-- A rule that resolve_limit_regime returns is made of a row of the book without a listing age that
-- is in force for the exchange, code and day and speaks for the ST state; it is the only such row,
-- and it is never marked as a first-N rule.
pub resolve_limit_regime_sound :
    (book : TradingRuleBook) (exchange code : Text) (trade_date : DateValue) (is_st : Bool)
    (rule : TradingRule)
    → resolve_limit_regime book exchange code trade_date is_st ≡ ok rule
    → IsTheRow book exchange code trade_date is_st false IsPlain rule
unfolding resolve_limit_regime
resolve_limit_regime_sound book exchange code trade_date is_st rule h =
    let (s, e, h') = >>=-eq-ok (select_candidates book exchange code trade_date is_st) _ h in
    let (row, f, h'') =
      >>=-eq-ok (the_row no_limit_regime (keep (has_age "NONE") s.selected)) _ h' in
    subst (IsTheRow book exchange code trade_date is_st false IsPlain) (ok_injective h'') (
      to_rule-IsTheRow (select_candidates-Selected book exchange code trade_date is_st e)
        (keep-AreThose (has_age "NONE") IsPlain s.selected (has_age_iff "NONE")) row false
        (the_row-eq-ok no_limit_regime _ f))
