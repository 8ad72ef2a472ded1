-- ===== src/TradingRule/Resolve/Regime.antt =====
-- What a resolved rule of spike/trading_rule.py is, in terms of the rule book alone.
use a_share_analysis.Common.{
  ℕ, ◌≡◌, refl, sym, subst, ◌≢◌, ◌⊎◌, inl, inr, Bool, true, none, some, List, [], ◌∷◌, keep,
  Bool-cases, Result, ok, ◌>>=◌, >>=-eq-ok, Result-cases, Memᴰ, Memᴰ-cons, mem_of-keep, mem-keep,
  Text, text_in,
}
use a_share_analysis.TradingRule.Dates.{
  RuleUnresolved, DateValue, yyyymmdd, no_matching_rule, no_st_rule,
}
use a_share_analysis.TradingRule.Rows.{TradingRuleRow, TradingRuleBook}
use a_share_analysis.TradingRule.Resolve.{
  TradingRule, to_rule, split_code, exchange_or, known_exchanges, is_candidate, select_state,
  Selection, some_rows, select_candidates, the_row,
}
use a_share_analysis.TradingRule.Resolve.Candidates.{
  IsInForce, is_candidate-IsInForce, IsInForce-is_candidate,
}
use a_share_analysis.TradingRule.Resolve.Preferred.{select_state_iff}

-- The row of the book speaks for its listing-age regime on that day: it is in force, and it is for
-- the ST state, or for any state where no row in force of its regime is for this state.
pub record Applies (book : TradingRuleBook) (exch bare : Text) (day : ℕ) (is_st : Bool)
    (r : TradingRuleRow) : Type 0 where
  pub listed : Memᴰ r book.rules
  pub in_force : IsInForce exch bare day r
  pub state :
      (r.st_state ≡ some is_st)
      ⊎ ((r.st_state ≡ none)
          × ((s : TradingRuleRow)
              → Memᴰ s book.rules
              → IsInForce exch bare day s
              → s.listing_age_rule ≡ r.listing_age_rule
              → s.st_state ≢ some is_st))

module _ (book : TradingRuleBook) (exch bare : Text) (day : ℕ) (is_st : Bool) where
  abbrev pub candidates : List TradingRuleRow
  candidates = keep (is_candidate exch bare day) book.rules

  pub selected-Applies :
      (r : TradingRuleRow)
      → Memᴰ r (select_state is_st candidates)
      → Applies book exch bare day is_st r
  selected-Applies r m =
      let p = (select_state_iff is_st candidates r).0 m in
      let (listed, h) = mem_of-keep (is_candidate exch bare day) r book.rules p.listed in
      record {
        listed = listed;
        in_force = is_candidate-IsInForce exch bare day r h;
        state = elim p.state [
          | inl mine ↦ inl mine
          | inr (any_state, others) ↦ inr (
            any_state,
            λ s s_listed s_force. others s (
                mem-keep (is_candidate exch bare day) s book.rules s_listed
                  (IsInForce-is_candidate exch bare day s s_force)),
          )
        ];
      }

  pub Applies-selected :
      (r : TradingRuleRow)
      → Applies book exch bare day is_st r
      → Memᴰ r (select_state is_st candidates)
  Applies-selected r a = (select_state_iff is_st candidates r).1 (record {
    listed =
        mem-keep (is_candidate exch bare day) r book.rules a.listed
          (IsInForce-is_candidate exch bare day r a.in_force);
    state = elim a.state [
      | inl mine ↦ inl mine
      | inr (any_state, others) ↦ inr (
        any_state,
        λ s m.
            let (listed, h) = mem_of-keep (is_candidate exch bare day) s book.rules m in
            others s listed (is_candidate-IsInForce exch bare day s h),
      )
    ];
  })

some_rows-eq-ok :
    (rows : List TradingRuleRow) (e : RuleUnresolved) {out : List TradingRuleRow}
    → some_rows rows e ≡ ok out
    → rows ≡ out
unfolding some_rows
some_rows-eq-ok [] e h = cc
some_rows-eq-ok (r ∷ rows) e h = cc

-- What a successful selection has found
pub record Selected (book : TradingRuleBook) (exchange code : Text) (trade_date : DateValue)
    (is_st : Bool) (s : Selection) : Type 0 where
  pub exch_is : s.exch ≡ exchange_or exchange (split_code code).1
  pub bare_is : s.bare ≡ (split_code code).0
  pub day_is : yyyymmdd trade_date ≡ ok s.day
  pub known : text_in s.exch known_exchanges ≡ true
  pub rows_are : s.selected ≡ select_state is_st (candidates book s.exch s.bare s.day is_st)

module _ (book : TradingRuleBook) (exch bare : Text) (day : ℕ) (is_st : Bool) where
  abbrev pub chosen : Selection
  chosen = record {
    selected = select_state is_st (candidates book exch bare day is_st);
    day = day;
    exch = exch;
    bare = bare;
  }

  abbrev choose : List TradingRuleRow → Result RuleUnresolved Selection
  choose selected = ok (record { selected = selected; day = day; exch = exch; bare = bare })

  abbrev narrow_state : List TradingRuleRow → Result RuleUnresolved Selection
  narrow_state rows = some_rows (select_state is_st rows) no_st_rule >>= choose

  chosen_of_ok :
      {s : Selection}
      → (some_rows (candidates book exch bare day is_st) no_matching_rule >>= narrow_state) ≡ ok s
      → s ≡ chosen
  chosen_of_ok k =
      let rows = candidates book exch bare day is_st in
      let (kept, e, k') = >>=-eq-ok (some_rows rows no_matching_rule) narrow_state k in
      let (left, f, k'') = >>=-eq-ok (some_rows (select_state is_st kept) no_st_rule) choose k' in
      cc (
        some_rows-eq-ok rows no_matching_rule e,
        some_rows-eq-ok (select_state is_st kept) no_st_rule f,
      )

pub select_candidates-Selected :
    (book : TradingRuleBook) (exchange code : Text) (trade_date : DateValue) (is_st : Bool)
    {s : Selection}
    → select_candidates book exchange code trade_date is_st ≡ ok s
    → Selected book exchange code trade_date is_st s
unfolding select_candidates
select_candidates-Selected book exchange code trade_date is_st h =
    let bare = (split_code code).0 in
    let exch = exchange_or exchange (split_code code).1 in
    elim (Bool-cases (text_in exch known_exchanges)) [
      | inr e ↦ cc (rw e at h)
      | inl e ↦ elim (Result-cases (yyyymmdd trade_date)) [
        | inr (x, f) ↦ cc (rw (e, f) at h)
        | inl (day, f) ↦
            subst (Selected book exchange code trade_date is_st)
              (sym (chosen_of_ok book exch bare day is_st (rw (e, f) at h)))
              (record { exch_is = refl; bare_is = refl; day_is = f; known = e; rows_are = refl })
      ]
    ]

module _ {book : TradingRuleBook} {exchange code : Text} {trade_date : DateValue} {is_st : Bool}
    {s : Selection} (found : Selected book exchange code trade_date is_st s) where
  pub Selected-Applies :
      (r : TradingRuleRow) → Memᴰ r s.selected → Applies book s.exch s.bare s.day is_st r
  Selected-Applies r m =
      selected-Applies book s.exch s.bare s.day is_st r (subst (Memᴰ r) found.rows_are m)

  pub Applies-Selected :
      (r : TradingRuleRow) → Applies book s.exch s.bare s.day is_st r → Memᴰ r s.selected
  Applies-Selected r a =
      subst (Memᴰ r) (sym found.rows_are) (Applies-selected book s.exch s.bare s.day is_st r a)

pub the_row-eq-ok :
    (e : RuleUnresolved) (rows : List TradingRuleRow) {r : TradingRuleRow}
    → the_row e rows ≡ ok r
    → rows ≡ r ∷ []
unfolding the_row
the_row-eq-ok e [] h = cc
the_row-eq-ok e (r ∷ []) h = cc
the_row-eq-ok e (r ∷ s ∷ rows) h = cc

pub mem_singleton :
    {r s : TradingRuleRow} {rows : List TradingRuleRow} → rows ≡ r ∷ [] → Memᴰ s rows → s ≡ r
mem_singleton {r} {s} e m = elim (Memᴰ-cons (subst (Memᴰ s) e m)) [ inl q ↦ q | inr n ↦ elim n [ ] ]

-- The rule is made of `row`, the only row of the book that speaks for its regime on the day.
pub record IsTheRow (book : TradingRuleBook) (exchange code : Text) (trade_date : DateValue)
    (is_st first_n : Bool) (InRegime : TradingRuleRow → Type 0) (rule : TradingRule) : Type 0 where
  pub row : TradingRuleRow
  pub day : ℕ
  pub day_is : yyyymmdd trade_date ≡ ok day
  pub exchange_is : rule.exchange ≡ exchange_or exchange (split_code code).1
  pub code_is : rule.code ≡ (split_code code).0
  pub known : text_in rule.exchange known_exchanges ≡ true
  pub applies : Applies book rule.exchange rule.code day is_st row
  pub regime : InRegime row
  pub rule_is : rule ≡ to_rule book row rule.exchange rule.code first_n
  pub only :
      (r : TradingRuleRow) → Applies book rule.exchange rule.code day is_st r → InRegime r → r ≡ row
