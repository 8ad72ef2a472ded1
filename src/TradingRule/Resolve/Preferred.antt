-- ===== src/TradingRule/Resolve/Preferred.antt =====
-- Which of the candidates _select_candidates of spike/trading_rule.py leaves for an ST state,
-- described without its loop over the listing-age regimes.
use a_share_analysis.Common.{
  String, ◌≡◌, refl, sym, ◌∙◌, subst, ◌≢◌, ◌⊎◌, inl, inr, ◌↔◌, Bool, true, some, none, List, [],
  ◌∷◌, ◌++◌, keep, arith, Bool-cases, Memᴰ, Memᴰ-cons, Memᴰ-append, Memᴰ-append_left,
  Memᴰ-append_right, mem_of-any, mem_of-keep, mem-keep, str_eq, eq_iff, if◌then◌else◌,
}
use a_share_analysis.TradingRule.Rows.{TradingRuleRow, string_in}
use a_share_analysis.TradingRule.Resolve.{
  is_specific, is_agnostic, age_order, has_age, or_else, rows_of_age, rows_of_ages, select_state,
}

pub has_age_iff :
    (age : String) (r : TradingRuleRow) → (has_age age r ≡ true) ↔ (r.listing_age_rule ≡ age)
unfolding has_age
has_age_iff age r = eq_iff r.listing_age_rule age

is_specific_iff :
    (is_st : Bool) (r : TradingRuleRow) → (is_specific is_st r ≡ true) ↔ (r.st_state ≡ some is_st)
unfolding is_specific
is_specific_iff is_st r = ground arith

is_agnostic_iff : (r : TradingRuleRow) → (is_agnostic r ≡ true) ↔ (r.st_state ≡ none)
unfolding is_agnostic
is_agnostic_iff r = ground arith

Memᴰ-age_order_seen :
    (a : String) (rules : List TradingRuleRow) (seen : List String)
    → Memᴰ a seen
    → Memᴰ a (age_order seen rules)
unfolding age_order
Memᴰ-age_order_seen a [] seen m = m
Memᴰ-age_order_seen a (r ∷ rules) seen m = elim (Bool-cases (string_in r.listing_age_rule seen)) [
  | inl e ↦ rw e (Memᴰ-age_order_seen a rules seen m)
  | inr e ↦ rw e (Memᴰ-age_order_seen a rules _ (Memᴰ-append_left _ m))
]

mem_of-string_in : (a : String) (l : List String) → string_in a l ≡ true → Memᴰ a l
unfolding string_in
mem_of-string_in a l h =
    let (b, m, e) = mem_of-any (λ t. str_eq t a) l h in subst (λ v. Memᴰ v l) ((eq_iff b a).0 e) m

Memᴰ-age_order :
    (r : TradingRuleRow) (rules : List TradingRuleRow) (seen : List String)
    → Memᴰ r rules
    → Memᴰ r.listing_age_rule (age_order seen rules)
unfolding age_order
Memᴰ-age_order r [] seen m = elim m [ ]
Memᴰ-age_order r (s ∷ rules) seen m = elim (Memᴰ-cons m) [
  | inl same ↦
      subst
        (λ (x : TradingRuleRow). Memᴰ x.listing_age_rule (
          age_order
            (if string_in s.listing_age_rule seen then seen else seen ++ s.listing_age_rule ∷ [])
            rules))
        (sym same) (first s rules seen)
  | inr later ↦ Memᴰ-age_order r rules _ later
]
  where
    first :
        (s : TradingRuleRow) (rules : List TradingRuleRow) (seen : List String)
        → Memᴰ s.listing_age_rule (
            age_order
              (if string_in s.listing_age_rule seen then seen else seen ++ s.listing_age_rule ∷ [])
              rules)
    first s rules seen = elim (Bool-cases (string_in s.listing_age_rule seen)) [
      | inl e ↦ rw e (
          Memᴰ-age_order_seen s.listing_age_rule rules seen
            (mem_of-string_in s.listing_age_rule seen e))
      | inr e ↦
          rw e (
            Memᴰ-age_order_seen s.listing_age_rule rules _
              (Memᴰ-append_right seen (Memᴰ.head refl)))
    ]

-- `r` stands for its listing-age regime: it is for the ST state, or for any state where no
-- candidate of the same regime is for this state.
pub record IsPreferred (is_st : Bool) (rules : List TradingRuleRow) (r : TradingRuleRow)
    : Type 0 where
  pub listed : Memᴰ r rules
  pub state :
      (r.st_state ≡ some is_st)
      ⊎ ((r.st_state ≡ none)
          × ((s : TradingRuleRow)
              → Memᴰ s rules
              → s.listing_age_rule ≡ r.listing_age_rule
              → s.st_state ≢ some is_st))

pub Memᴰ-or_else :
    {A : Type 0} {x : A} (xs ys : List A)
    → Memᴰ x (or_else xs ys)
    → Memᴰ x xs ⊎ (Memᴰ x ys × (xs ≡ []))
unfolding or_else
Memᴰ-or_else [] ys m = inr (m, refl)
Memᴰ-or_else (x ∷ xs) ys m = inl m

or_else-left : {A : Type 0} {x : A} (xs ys : List A) → Memᴰ x xs → Memᴰ x (or_else xs ys)
unfolding or_else
or_else-left [] ys m = elim m [ ]
or_else-left (x ∷ xs) ys m = m

or_else-right :
    {A : Type 0} {x : A} (xs ys : List A)
    → ((z : A) → ¬ Memᴰ z xs)
    → Memᴰ x ys
    → Memᴰ x (or_else xs ys)
unfolding or_else
or_else-right [] ys h m = m
or_else-right (z ∷ xs) ys h m = absurd (h z (Memᴰ.head refl))

module _ (is_st : Bool) (rules : List TradingRuleRow) where
  abbrev specific : List TradingRuleRow
  specific = keep (is_specific is_st) rules

  abbrev agnostic : List TradingRuleRow
  agnostic = keep is_agnostic rules

  rows_of_age-IsPreferred :
      (age : String) (r : TradingRuleRow)
      → Memᴰ r (rows_of_age specific agnostic age)
      → IsPreferred is_st rules r
  unfolding rows_of_age
  rows_of_age-IsPreferred age r m =
      elim (Memᴰ-or_else (keep (has_age age) specific) (keep (has_age age) agnostic) m) [
        | inl n ↦
            let (in_specific, h) = mem_of-keep (has_age age) r specific n in
            let (in_rules, k) = mem_of-keep (is_specific is_st) r rules in_specific in
            record { listed = in_rules; state = inl ((is_specific_iff is_st r).0 k) }
        | inr (n, none_specific) ↦
            let (in_agnostic, h) = mem_of-keep (has_age age) r agnostic n in
            let (in_rules, k) = mem_of-keep is_agnostic r rules in_agnostic in
            record {
              listed = in_rules;
              state = inr (
                (is_agnostic_iff r).0 k,
                λ s s_listed same_age s_specific.
                    let kept =
                      mem-keep (has_age age) s specific
                        (mem-keep (is_specific is_st) s rules s_listed
                          ((is_specific_iff is_st s).1 s_specific))
                        ((has_age_iff age s).1 (same_age ∙ (has_age_iff age r).0 h)) in
                    elim (subst (Memᴰ s) none_specific kept) [ ],
              );
            }
      ]

  IsPreferred-rows_of_age :
      (r : TradingRuleRow)
      → IsPreferred is_st rules r
      → Memᴰ r (rows_of_age specific agnostic r.listing_age_rule)
  unfolding rows_of_age
  IsPreferred-rows_of_age r p = elim p.state [
    | inl mine ↦ or_else-left _ _ (
        mem-keep (has_age r.listing_age_rule) r specific
          (mem-keep (is_specific is_st) r rules p.listed ((is_specific_iff is_st r).1 mine))
          ((has_age_iff r.listing_age_rule r).1 refl))
    | inr (any_state, none_specific) ↦
        or_else-right _ _
          (λ s m.
            let (in_specific, h) = mem_of-keep (has_age r.listing_age_rule) s specific m in
            let (in_rules, k) = mem_of-keep (is_specific is_st) s rules in_specific in
            none_specific s in_rules ((has_age_iff r.listing_age_rule s).0 h)
              ((is_specific_iff is_st s).0 k))
          (mem-keep (has_age r.listing_age_rule) r agnostic
            (mem-keep is_agnostic r rules p.listed ((is_agnostic_iff r).1 any_state))
            ((has_age_iff r.listing_age_rule r).1 refl))
  ]

  rows_of_ages-IsPreferred :
      (ages : List String) (r : TradingRuleRow)
      → Memᴰ r (rows_of_ages specific agnostic ages)
      → IsPreferred is_st rules r
  unfolding rows_of_ages
  rows_of_ages-IsPreferred [] r m = elim m [ ]
  rows_of_ages-IsPreferred (age ∷ ages) r m =
      elim (Memᴰ-append (rows_of_age specific agnostic age) _ m) [
        | inl here ↦ rows_of_age-IsPreferred age r here
        | inr later ↦ rows_of_ages-IsPreferred ages r later
      ]

  Memᴰ-rows_of_ages :
      (ages : List String) (age : String) (r : TradingRuleRow)
      → Memᴰ age ages
      → Memᴰ r (rows_of_age specific agnostic age)
      → Memᴰ r (rows_of_ages specific agnostic ages)
  unfolding rows_of_ages
  Memᴰ-rows_of_ages [] age r m n = elim m [ ]
  Memᴰ-rows_of_ages (a ∷ ages) age r m n = elim (Memᴰ-cons m) [
    | inl same ↦ Memᴰ-append_left _ (subst (λ x. Memᴰ r (rows_of_age specific agnostic x)) same n)
    | inr later ↦ Memᴰ-append_right _ (Memᴰ-rows_of_ages ages age r later n)
  ]

  -- The rows left are those that stand for their listing-age regime.
  pub select_state_iff :
      (r : TradingRuleRow) → Memᴰ r (select_state is_st rules) ↔ IsPreferred is_st rules r
  unfolding select_state
  select_state_iff r = (
    rows_of_ages-IsPreferred (age_order [] rules) r,
    λ p.
        Memᴰ-rows_of_ages (age_order [] rules) r.listing_age_rule r
          (Memᴰ-age_order r rules [] p.listed) (IsPreferred-rows_of_age r p),
  )
