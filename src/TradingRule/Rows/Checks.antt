-- ===== src/TradingRule/Rows/Checks.antt =====
-- What each test of validate in spike/trading_rule.py decides.
use a_share_analysis.Common.{
  has_part, ℕ, ◌≤◌, ◌<◌, ◌^◌, String, ◌≡◌, refl, sym, subst, ◌≢◌, ◌↔◌, inl, inr, Bool, true, false,
  ◌&&◌, Option, none, some, List, [], ◌∷◌, ◌++◌, arith, Bool-cases, Memᴰ, Memᴰ-cons, any-of_mem,
  mem_of-any, str_eq, eq_iff, Text,
}
use a_share_analysis.TradingRule.Decimals.{Decimal, is_positive, signed_leb}
use a_share_analysis.TradingRule.Decimals.Units.{IsRate, zero-decimal_leb, decimal_leb-one}
use a_share_analysis.TradingRule.Rows.{
  string_in, first_marker, Problem, reported, is_nil, in_unit, marker_problems,
}

pub string_in_iff : (s : String) (l : List String) → (string_in s l ≡ true) ↔ Memᴰ s l
unfolding string_in
string_in_iff s l = (
  λ h.
      let (t, m, e) = mem_of-any (λ t. str_eq t s) l h in
      subst (λ v. Memᴰ v l) ((eq_iff t s).0 e) m,
  λ m. any-of_mem (λ t. str_eq t s) s l m ((eq_iff s s).1 refl),
)

by_sign :
    (n : Bool) (a u : ℕ)
    → ((signed_leb false 0 n a && signed_leb n a false u) ≡ true) ↔ ((n ≡ true → a ≡ 0) × (a ≤ u))
unfolding signed_leb
by_sign false a u = (λ h. (λ e. cc, ground arith), λ h. ground arith)
by_sign true a u = (λ h. (λ e. ground arith, ground arith), λ h. let e = h.0 refl in ground arith)

pub in_unit_iff : (d : Decimal) → (in_unit d ≡ true) ↔ IsRate d
unfolding in_unit
in_unit_iff d =
    rw (zero-decimal_leb d, decimal_leb-one d) (by_sign d.negative d.digits (10 ^ d.scale))

pub is_positive_iff :
    (d : Decimal) → (is_positive d ≡ true) ↔ ((d.negative ≡ false) × (0 < d.digits))
unfolding is_positive
is_positive_iff d = ground arith

pub is_nil_iff {ℓ} : {A : Type ℓ} (l : List A) → (is_nil l ≡ false) ↔ (l ≢ [])
unfolding is_nil
is_nil_iff [] = (λ h. cc, λ h. absurd (h refl))
is_nil_iff (x ∷ l) = (λ h e. cc, λ h. refl)

abbrev pub Clear : List (Bool × Problem) → Type 0
Clear [] = Unit
Clear ((b, p) ∷ tests) = (b ≡ false) × Clear tests

pub reported_iff : (tests : List (Bool × Problem)) → (reported tests ≡ []) ↔ Clear tests
unfolding reported
reported_iff [] = (λ h. tt, λ h. refl)
reported_iff ((true, p) ∷ tests) = (λ h. cc, λ h. cc (h.0))
reported_iff ((false, p) ∷ tests) =
    (λ h. (refl, (reported_iff tests).0 h), λ h. (reported_iff tests).1 h.1)

pub append-eq-nil {ℓ} : {A : Type ℓ} (xs ys : List A) → ((xs ++ ys) ≡ []) ↔ ((xs ≡ []) × (ys ≡ []))
append-eq-nil [] ys = (λ h. (refl, h), λ h. h.1)
append-eq-nil (x ∷ xs) ys = (λ h. cc, λ h. cc (h.0))

pub markers_iff :
    (source : Text) (markers : List Text)
    → (first_marker source markers ≡ none)
      ↔ ((m : Text) → Memᴰ m markers → has_part m source ≡ false)
unfolding first_marker
markers_iff source [] = (λ h m k. elim k [ ], λ h. refl)
markers_iff source (x ∷ markers) = elim (Bool-cases (has_part x source)) [
  | inl e ↦ (λ h. cc (rw e at h), λ h. cc (h x (Memᴰ.head refl)))
  | inr e ↦ (
    λ h m k. elim (Memᴰ-cons k) [
      | inl same ↦ subst (λ y. has_part y source ≡ false) (sym same) e
      | inr later ↦ (markers_iff source markers).0 (rw e at h) m later
    ],
    λ h. rw e ((markers_iff source markers).1 (λ m k. h m (Memᴰ.tail k))),
  )
]

pub marker_problems_iff :
    (rule_id : String) (found : Option Text) → (marker_problems rule_id found ≡ []) ↔ (found ≡ none)
unfolding marker_problems
marker_problems_iff rule_id none = (λ h. refl, λ h. refl)
marker_problems_iff rule_id (some m) = (λ h. cc, λ h. cc)
