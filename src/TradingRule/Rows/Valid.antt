-- ===== src/TradingRule/Rows/Valid.antt =====
-- What validate of spike/trading_rule.py accepts, said without its tests.
use a_share_analysis.Common.{
  has_part, ◌≤◌, ◌<◌, String, ◌≡◌, refl, ap, subst, ◌≢◌, ◌↔◌, Bool, true, false, not, Option, none,
  List, [], ◌∷◌, arith, Memᴰ, Text, lower, ok, ok_injective, Bool-cases, inl, inr,
}
use a_share_analysis.TradingRule.Decimals.Units.{IsRate}
use a_share_analysis.TradingRule.Rows.{
  TradingRuleRow, listing_age_rules, rounding_modes, unresolved_source_markers, first_marker,
  reported, is_nil, row_tests, row_problems, rules_problems, validate, TradingRuleBook,
  trading_rule_book,
}
use a_share_analysis.TradingRule.Rows.Checks.{
  Clear, string_in_iff, in_unit_iff, is_positive_iff, is_nil_iff, reported_iff, append-eq-nil,
  markers_iff, marker_problems_iff,
}

pub record IsSound (seen : List String) (r : TradingRuleRow) : Type 0 where
  pub new_id : ¬ Memᴰ r.rule_id seen
  pub exchanges : r.exchanges ≢ []
  pub code_patterns : r.code_patterns ≢ []
  pub window : r.effective_from ≤ r.effective_to
  pub up_rate : IsRate r.up_rate
  pub down_rate : IsRate r.down_rate
  pub tick_size : (r.tick_size.negative ≡ false) × (0 < r.tick_size.digits)
  pub listing_age_rule : Memᴰ r.listing_age_rule listing_age_rules
  pub rounding_mode : r.rounding_mode ≡ "ROUND_HALF_UP"
  pub reviewed :
      (m : Text) → Memᴰ m unresolved_source_markers → has_part m (lower r.source_ref) ≡ false

-- Each row is sound with the ids above it seen.
abbrev pub AllSound : List String → List TradingRuleRow → Type 0
AllSound seen [] = Unit
AllSound seen (r ∷ rules) = IsSound seen r × AllSound (r.rule_id ∷ seen) rules

not-true : {b : Bool} → not b ≡ false → b ≡ true
not-true {b} h = ground arith

true-not : {b : Bool} → b ≡ true → not b ≡ false
true-not {b} h = ground arith

false_of_not : {b : Bool} → ¬ (b ≡ true) → b ≡ false
false_of_not {b = true} h = absurd (h refl)
false_of_not {b = false} h = refl

module _ (seen : List String) (r : TradingRuleRow) where
  abbrev markers : Option Text
  markers = first_marker (lower r.source_ref) unresolved_source_markers

  IsSound-of_Clear : Clear (row_tests seen r) → markers ≡ none → IsSound seen r
  unfolding row_tests
  IsSound-of_Clear (id, (exch, (pats, (win, (up, (down, (tick, (age, (mode, _))))))))) none_found =
      record {
        new_id = λ m. cc (id, (string_in_iff r.rule_id seen).1 m);
        exchanges = (is_nil_iff r.exchanges).0 exch;
        code_patterns = (is_nil_iff r.code_patterns).0 pats;
        window = ground arith;
        up_rate = (in_unit_iff r.up_rate).0 (not-true up);
        down_rate = (in_unit_iff r.down_rate).0 (not-true down);
        tick_size = (is_positive_iff r.tick_size).0 (not-true tick);
        listing_age_rule = (string_in_iff r.listing_age_rule listing_age_rules).0 (not-true age);
        rounding_mode =
            only_mode ((string_in_iff r.rounding_mode rounding_modes).0 (not-true mode));
        reviewed = (markers_iff (lower r.source_ref) unresolved_source_markers).0 none_found;
      }
    where
      only_mode : {s : String} → Memᴰ s rounding_modes → s ≡ "ROUND_HALF_UP"
      only_mode (Memᴰ.head e) = e
      only_mode (Memᴰ.tail m) = elim m [ ]

  Clear-of_IsSound : IsSound seen r → Clear (row_tests seen r)
  unfolding row_tests
  Clear-of_IsSound h = (
    false_of_not (λ e. h.new_id ((string_in_iff r.rule_id seen).0 e)),
    (
      (is_nil_iff r.exchanges).1 h.exchanges,
      (
        (is_nil_iff r.code_patterns).1 h.code_patterns,
        (
          (let w = h.window in ground arith),
          (
            true-not ((in_unit_iff r.up_rate).1 h.up_rate),
            (
              true-not ((in_unit_iff r.down_rate).1 h.down_rate),
              (
                true-not ((is_positive_iff r.tick_size).1 h.tick_size),
                (
                  true-not
                      ((string_in_iff r.listing_age_rule listing_age_rules).1 h.listing_age_rule),
                  (
                    true-not (
                        (string_in_iff r.rounding_mode rounding_modes).1
                          (Memᴰ.head h.rounding_mode)),
                    tt,
                  ),
                ),
              ),
            ),
          ),
        ),
      ),
    ),
  )

  row_problems_iff : (row_problems seen r ≡ []) ↔ IsSound seen r
  unfolding row_problems
  row_problems_iff = (
    λ h.
        let (tests, rest) = (append-eq-nil (reported (row_tests seen r)) _).0 h in
        IsSound-of_Clear ((reported_iff (row_tests seen r)).0 tests)
          ((marker_problems_iff r.rule_id markers).0 rest),
    λ h. (append-eq-nil (reported (row_tests seen r)) _).1 (
      (reported_iff (row_tests seen r)).1 (Clear-of_IsSound h),
      (marker_problems_iff r.rule_id markers).1
          ((markers_iff (lower r.source_ref) unresolved_source_markers).1 h.reviewed),
    ),
  )

rules_problems_iff :
    (rules : List TradingRuleRow) (seen : List String)
    → (rules_problems seen rules ≡ []) ↔ AllSound seen rules
unfolding rules_problems
rules_problems_iff [] seen = (λ h. tt, λ h. refl)
rules_problems_iff (r ∷ rules) seen = (
  λ h.
      let (here, later) = (append-eq-nil (row_problems seen r) _).0 h in
      ((row_problems_iff seen r).0 here, (rules_problems_iff rules (r.rule_id ∷ seen)).0 later),
  λ h.
      (append-eq-nil (row_problems seen r) _).1
        ((row_problems_iff seen r).1 h.0, (rules_problems_iff rules (r.rule_id ∷ seen)).1 h.1),
)

-- validate reports nothing exactly for a book with a rule in which every row is sound: its id is
-- new, it names an exchange and a pattern, its window is in order, its rates lie between 0 and 1,
-- its tick is positive, its listing-age rule and rounding mode are known, and its source carries
-- no marker of an open review.
pub validate_iff :
    (rules : List TradingRuleRow) → (validate rules ≡ []) ↔ ((rules ≢ []) × AllSound [] rules)
unfolding validate
validate_iff [] = (λ h. cc, λ h. absurd (h.0 refl))
validate_iff (r ∷ rules) = (
  λ h. (
    λ e. cc,
    (rules_problems_iff (r ∷ rules) []).0
        ((append-eq-nil (rules_problems [] (r ∷ rules)) []).0 h).0,
  ),
  λ h.
      (append-eq-nil (rules_problems [] (r ∷ rules)) []).1
        ((rules_problems_iff (r ∷ rules) []).1 h.1, refl),
)

nil_of_is_nil {ℓ} : {A : Type ℓ} (l : List A) → is_nil l ≡ true → l ≡ []
unfolding is_nil
nil_of_is_nil [] h = refl
nil_of_is_nil (x ∷ l) h = cc

-- A book that could be constructed has sound rows.
pub trading_rule_book-AllSound :
    (rules : List TradingRuleRow) (source_version review_status : String) {book : TradingRuleBook}
    → trading_rule_book rules source_version review_status ≡ ok book
    → AllSound [] book.rules
unfolding trading_rule_book
trading_rule_book-AllSound rules v s {book} h = elim (Bool-cases (is_nil (validate rules))) [
  | inr e ↦ cc (rw e at h)
  | inl e ↦
      let rules_are : rules ≡ book.rules =
        ap (λ (b : TradingRuleBook). b.rules) (ok_injective (rw e at h)) in
      subst (AllSound []) rules_are ((validate_iff rules).0 (nil_of_is_nil (validate rules) e)).1
]
