-- ===== src/TradingRule/Resolve/Once.antt =====
-- That _select_candidates of spike/trading_rule.py leaves no row of a book twice.
use a_share_analysis.Common.{
  String, ◌≡◌, refl, sym, ◌∙◌, subst, inl, inr, Bool, List, [], ◌∷◌, ◌++◌, keep, Bool-cases, Memᴰ,
  Memᴰ-cons, Memᴰ-append, mem_of-keep, Distinct,
}
use a_share_analysis.TradingRule.Rows.{TradingRuleRow, string_in}
use a_share_analysis.TradingRule.Rows.Checks.{string_in_iff}
use a_share_analysis.TradingRule.Rows.Valid.{AllSound}
use a_share_analysis.TradingRule.Resolve.{
  is_specific, is_agnostic, age_order, has_age, or_else, rows_of_age, rows_of_ages, select_state,
}
use a_share_analysis.TradingRule.Resolve.Preferred.{has_age_iff, Memᴰ-or_else}

pub Distinct-keep : {A : Type 0} (p : A → Bool) (xs : List A) → Distinct xs → Distinct (keep p xs)
unfolding keep
Distinct-keep p [] d = tt
Distinct-keep p (x ∷ xs) (new, d) = elim (Bool-cases (p x)) [
  | inl e ↦ rw e (λ m. new (mem_of-keep p x xs m).0, Distinct-keep p xs d)
  | inr e ↦ rw e (Distinct-keep p xs d)
]

Distinct-append :
    {A : Type 0} (xs ys : List A)
    → Distinct xs
    → Distinct ys
    → ((x : A) → Memᴰ x xs → ¬ Memᴰ x ys)
    → Distinct (xs ++ ys)
Distinct-append [] ys d e apart = e
Distinct-append (x ∷ xs) ys (new, d) e apart = (
  λ m. elim (Memᴰ-append xs ys m) [ inl n ↦ new n | inr n ↦ apart x (Memᴰ.head refl) n ],
  Distinct-append xs ys d e (λ y m. apart y (Memᴰ.tail m)),
)

age_order-Distinct :
    (rules : List TradingRuleRow) (seen : List String)
    → Distinct seen
    → Distinct (age_order seen rules)
unfolding age_order
age_order-Distinct [] seen d = d
age_order-Distinct (r ∷ rules) seen d = elim (Bool-cases (string_in r.listing_age_rule seen)) [
  | inl e ↦ rw e (age_order-Distinct rules seen d)
  | inr e ↦ rw e (
      age_order-Distinct rules (seen ++ r.listing_age_rule ∷ []) (
        Distinct-append seen (r.listing_age_rule ∷ []) d (λ m. elim m [ ], tt)
          (λ a m n. elim (Memᴰ-cons n) [
            | inr never ↦ elim never [ ]
            | inl same ↦
                cc ((string_in_iff r.listing_age_rule seen).1 (subst (λ x. Memᴰ x seen) same m), e)
          ])))
]

module _ (specific agnostic : List TradingRuleRow) where
  age-rows_of_age :
      (age : String) (r : TradingRuleRow)
      → Memᴰ r (rows_of_age specific agnostic age)
      → r.listing_age_rule ≡ age
  unfolding rows_of_age
  age-rows_of_age age r m =
      elim (Memᴰ-or_else (keep (has_age age) specific) (keep (has_age age) agnostic) m) [
        | inl n ↦ (has_age_iff age r).0 (mem_of-keep (has_age age) r specific n).1
        | inr (n, e) ↦ (has_age_iff age r).0 (mem_of-keep (has_age age) r agnostic n).1
      ]

  age-rows_of_ages :
      (ages : List String) (r : TradingRuleRow)
      → Memᴰ r (rows_of_ages specific agnostic ages)
      → Memᴰ r.listing_age_rule ages
  unfolding rows_of_ages
  age-rows_of_ages [] r m = elim m [ ]
  age-rows_of_ages (age ∷ ages) r m = elim (Memᴰ-append (rows_of_age specific agnostic age) _ m) [
    | inl here ↦ Memᴰ.head (age-rows_of_age age r here)
    | inr later ↦ Memᴰ.tail (age-rows_of_ages ages r later)
  ]

  or_else-Distinct :
      (xs ys : List TradingRuleRow) → Distinct xs → Distinct ys → Distinct (or_else xs ys)
  unfolding or_else
  or_else-Distinct [] ys d e = e
  or_else-Distinct (x ∷ xs) ys d e = d

  rows_of_ages-Distinct :
      Distinct specific
      → Distinct agnostic
      → (ages : List String) → Distinct ages
      → Distinct (rows_of_ages specific agnostic ages)
  unfolding rows_of_ages rows_of_age
  rows_of_ages-Distinct d e [] a = tt
  rows_of_ages-Distinct d e (age ∷ ages) (new, a) =
      Distinct-append (rows_of_age specific agnostic age) (rows_of_ages specific agnostic ages)
        (or_else-Distinct (keep (has_age age) specific) (keep (has_age age) agnostic)
          (Distinct-keep (has_age age) specific d) (Distinct-keep (has_age age) agnostic e))
        (rows_of_ages-Distinct d e ages a)
        (λ r m n.
          new (subst (λ x. Memᴰ x ages) (age-rows_of_age age r m) (age-rows_of_ages ages r n)))

pub select_state-Distinct :
    (is_st : Bool) (rules : List TradingRuleRow)
    → Distinct rules
    → Distinct (select_state is_st rules)
unfolding select_state
select_state-Distinct is_st rules d =
    rows_of_ages-Distinct (keep (is_specific is_st) rules) (keep is_agnostic rules)
      (Distinct-keep (is_specific is_st) rules d) (Distinct-keep is_agnostic rules d)
      (age_order [] rules) (age_order-Distinct rules [] tt)

-- The ids of sound rows are new: none was seen, and none comes again.
new_ids :
    (seen : List String) (rules : List TradingRuleRow) (r : TradingRuleRow)
    → AllSound seen rules
    → Memᴰ r rules
    → ¬ Memᴰ r.rule_id seen
new_ids seen [] r s m = elim m [ ]
new_ids seen (x ∷ rules) r (sound, s) m = elim (Memᴰ-cons m) [
  | inl same ↦ λ n. sound.new_id (subst (λ (y : TradingRuleRow). Memᴰ y.rule_id seen) same n)
  | inr later ↦ λ n. new_ids (x.rule_id ∷ seen) rules r s later (Memᴰ.tail n)
]

pub AllSound-Distinct :
    (seen : List String) (rules : List TradingRuleRow) → AllSound seen rules → Distinct rules
AllSound-Distinct seen [] s = tt
AllSound-Distinct seen (r ∷ rules) (sound, s) = (
  λ m. new_ids (r.rule_id ∷ seen) rules r s m (Memᴰ.head refl),
  AllSound-Distinct (r.rule_id ∷ seen) rules s,
)

pub same_id :
    (seen : List String) (rules : List TradingRuleRow) (a b : TradingRuleRow)
    → AllSound seen rules
    → Memᴰ a rules
    → Memᴰ b rules
    → a.rule_id ≡ b.rule_id
    → a ≡ b
same_id seen [] a b s m n e = elim m [ ]
same_id seen (r ∷ rules) a b (sound, s) m n e = elim (Memᴰ-cons m) [
  | inl p ↦ elim (Memᴰ-cons n) [
    | inl q ↦ p ∙ sym q
    | inr q ↦ absurd (new_ids (r.rule_id ∷ seen) rules b s q (Memᴰ.head (cc (e, p))))
  ]
  | inr p ↦ elim (Memᴰ-cons n) [
    | inl q ↦ absurd (new_ids (r.rule_id ∷ seen) rules a s p (Memᴰ.head (cc (e, q))))
    | inr q ↦ same_id (r.rule_id ∷ seen) rules a b s p q e
  ]
]
