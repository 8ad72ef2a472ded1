-- ===== src/TradingRule/Resolve/Pit.antt =====
-- The point-in-time soundness of resolve in spike/trading_rule.py: a returned rule never comes from
-- guessing the listing age.
use a_share_analysis.Common.{
  ℕ, ◌≡◌, sym, ◌∙◌, subst, ◌⊎◌, inl, inr, ◌↔◌, Bool, true, false, Option, some, List, [], ◌∷◌, any,
  arith, Bool-cases, ok, >>=-eq-ok, ok_injective, Memᴰ, any-of_mem, Text,
}
use a_share_analysis.TradingRule.Dates.{
  DateValue, number, yyyymmdd, first_n_sessions, no_listing_age_rule,
}
use a_share_analysis.TradingRule.Rows.{TradingRuleRow, TradingRuleBook}
use a_share_analysis.TradingRule.Resolve.{
  TradingRule, to_rule, Selection, select_candidates, the_row, has_age, is_ipo_rule, narrow,
  resolve,
}
use a_share_analysis.TradingRule.Resolve.Preferred.{has_age_iff}
use a_share_analysis.TradingRule.Resolve.Regime.{
  Applies, Selected, select_candidates-Selected, Applies-Selected, the_row-eq-ok, IsTheRow,
}
use a_share_analysis.TradingRule.Resolve.Windows.{
  is_five, has_listing_age, Narrowed, ageless, ipo_day, early, later, narrow-Narrowed,
}
use a_share_analysis.TradingRule.Resolve.Sound.{IsPlain, to_rule-IsTheRow, keep-AreThose}

abbrev pub IsFive : TradingRuleRow → Type 0
IsFive r = r.listing_age_rule ≡ "FIRST_5_DAYS_NO_LIMIT"

abbrev pub IsIpo : TradingRuleRow → Type 0
IsIpo r = (r.listing_age_rule ≡ "IPO_DAY_44_36") ⊎ (r.listing_age_rule ≡ "IPO_DAY_NO_LIMIT")

is_ipo_rule_iff : (r : TradingRuleRow) → (is_ipo_rule r ≡ true) ↔ IsIpo r
unfolding is_ipo_rule
is_ipo_rule_iff r = ground (arith, has_age_iff "IPO_DAY_44_36" r, has_age_iff "IPO_DAY_NO_LIMIT" r)

module _ (book : TradingRuleBook) (exchange code : Text) (trade_date : DateValue) (is_st : Bool)
    (calendar : List ℕ) where
  -- Why a rule was returned, with everything that the choice rests on.
  pub data Resolved (rule : TradingRule) : Option DateValue → Type 0 where
    -- no row that speaks for the day depends on the listing age
    plain :
        {o : Option DateValue} (day : ℕ)
        → yyyymmdd trade_date ≡ ok day
        → ((r : TradingRuleRow) → Applies book rule.exchange rule.code day is_st r → IsPlain r)
        → IsTheRow book exchange code trade_date is_st false IsPlain rule
        → Resolved rule o
    -- the trade date is the listing date
    on_listing_day :
        {d : DateValue}
        → yyyymmdd d ≡ yyyymmdd trade_date
        → IsTheRow book exchange code trade_date is_st true IsIpo rule
        → Resolved rule (some d)
    -- the calendar puts the day into the first five sessions, and on the listing day itself no rule
    -- of that day speaks
    in_first_five :
        {d : DateValue} (day : ℕ)
        → yyyymmdd trade_date ≡ ok day
        → (yyyymmdd d ≡ ok day
            → (r : TradingRuleRow) → Applies book rule.exchange rule.code day is_st r
            → ¬ IsIpo r)
        → first_n_sessions (number day) d calendar 5 ≡ ok true
        → IsTheRow book exchange code trade_date is_st true IsFive rule
        → Resolved rule (some d)
    -- the calendar decides the window, and no rule of a window that holds speaks for the day
    past_windows :
        {d : DateValue} (day : ℕ) (b : Bool)
        → yyyymmdd trade_date ≡ ok day
        → first_n_sessions (number day) d calendar 5 ≡ ok b
        → (yyyymmdd d ≡ ok day
            → (r : TradingRuleRow) → Applies book rule.exchange rule.code day is_st r
            → ¬ IsIpo r)
        → (b ≡ true
            → (r : TradingRuleRow) → Applies book rule.exchange rule.code day is_st r
            → ¬ IsFive r)
        → IsTheRow book exchange code trade_date is_st false IsPlain rule
        → Resolved rule (some d)

  none_of-any :
      (p : TradingRuleRow → Bool) (rows : List TradingRuleRow) (r : TradingRuleRow)
      → any p rows ≡ false
      → Memᴰ r rows
      → p r ≡ false
  none_of-any p rows r h m = elim (Bool-cases (p r)) [
    | inl e ↦ cc (any-of_mem p r rows m e)
    | inr e ↦ e
  ]

  module _ {s : Selection} (found : Selected book exchange code trade_date is_st s) where
    -- Without a selected listing-day rule, no row of the book is one that speaks.
    no-IsIpo_rule :
        (d : DateValue)
        → (yyyymmdd d ≡ ok s.day → any is_ipo_rule s.selected ≡ false)
        → yyyymmdd d ≡ ok s.day
        → (r : TradingRuleRow) → Applies book s.exch s.bare s.day is_st r
        → ¬ IsIpo r
    no-IsIpo_rule d no_ipo g r a i =
        let k = none_of-any is_ipo_rule s.selected r (no_ipo g) (Applies-Selected found r a) in
        cc ((is_ipo_rule_iff r).1 i)

    Narrowed-Resolved :
        {o : Option DateValue} {out : List TradingRuleRow} {first_n : Bool}
        → Narrowed s.selected s.day calendar o out first_n
        → (row : TradingRuleRow) → out ≡ row ∷ []
        → Resolved (to_rule book row s.exch s.bare first_n) o
    Narrowed-Resolved (ageless h) row e =
        plain s.day found.day_is
          (λ r a.
            let k = none_of-any has_listing_age s.selected r h (Applies-Selected found r a) in
            (has_age_iff "NONE" r).0 (ground arith))
          (to_rule-IsTheRow found
            (keep-AreThose (has_age "NONE") IsPlain s.selected (has_age_iff "NONE")) row false e)
    Narrowed-Resolved (ipo_day f) row e = on_listing_day (f ∙ sym found.day_is) (
        to_rule-IsTheRow found (keep-AreThose is_ipo_rule IsIpo s.selected is_ipo_rule_iff) row true
          e)
    Narrowed-Resolved (early no_ipo f) row e =
        in_first_five s.day found.day_is (no-IsIpo_rule _ no_ipo) f (
          to_rule-IsTheRow found
            (keep-AreThose is_five IsFive s.selected (has_age_iff "FIRST_5_DAYS_NO_LIMIT")) row true
            e)
    Narrowed-Resolved (later b f no_ipo no_five) row e =
        past_windows s.day b found.day_is f (no-IsIpo_rule _ no_ipo)
          (λ g r a i.
            let k = none_of-any is_five s.selected r (no_five g) (Applies-Selected found r a) in
            cc ((has_age_iff "FIRST_5_DAYS_NO_LIMIT" r).1 i))
          (to_rule-IsTheRow found
            (keep-AreThose (has_age "NONE") IsPlain s.selected (has_age_iff "NONE")) row false e)

-- A rule that resolve returns is made of the only row of the book that speaks for its regime on the
-- day. A first-N rule is returned only on the listing day, if it is a rule of that day, or inside
-- the first five sessions of the calendar, unless on the listing day a rule of that day speaks: that
-- rule goes first. A rule without a listing age is returned only if no listing-age row speaks for the day,
-- or if a listing date and a calendar decide that no such row's window holds.
pub resolve_sound :
    (book : TradingRuleBook) (exchange code : Text) (trade_date : DateValue) (is_st : Bool)
    (listing_date : Option DateValue) (calendar : List ℕ) (rule : TradingRule)
    → resolve book exchange code trade_date is_st listing_date calendar ≡ ok rule
    → Resolved book exchange code trade_date is_st calendar rule listing_date
unfolding resolve
resolve_sound book exchange code trade_date is_st listing_date calendar rule h =
    let (s, e, h') = >>=-eq-ok (select_candidates book exchange code trade_date is_st) _ h in
    let (p, f, h'') = >>=-eq-ok (narrow s.selected s.day listing_date calendar) _ h' in
    let (row, g, k) = >>=-eq-ok (the_row no_listing_age_rule p.0) _ h'' in
    subst (λ r. Resolved book exchange code trade_date is_st calendar r listing_date)
      (ok_injective k)
      (Narrowed-Resolved book exchange code trade_date is_st calendar
        (select_candidates-Selected book exchange code trade_date is_st e)
        (narrow-Narrowed s.selected s.day listing_date calendar f) row
        (the_row-eq-ok no_listing_age_rule p.0 g))
