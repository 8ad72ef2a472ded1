-- ===== src/Research/Splits/Windows.antt =====
-- What the splits of research/splits.py assign and accept.
use a_share_analysis.Common.{
  ℕ, ◌≤◌, ◌<◌, ◌≡◌, refl, sym, ◌∙◌, inl, inr, ◌↔◌, Bool, true, false, ◌&&◌, Option, ok, guard,
  >>=-eq-ok, guard-eq-ok, ok_injective, arith, ap, subst, Bool-cases, leb, ltb, Text,
}
use a_share_analysis.Research.Splits.{
  ResearchSplit, development, validation_a, holdout, warmup, outside_window, DateLike, member,
  assign_date, window_of, research_split, outside_split, parse_date_value, assign_research_split,
  assert_research_split_date,
}

-- Where a date lies
pub data Lies (d : ℕ) : ResearchSplit → Type 0 where
  in_development : 20200101 ≤ d → d ≤ 20231231 → Lies d development
  in_validation_a : 20240101 ≤ d → d ≤ 20251231 → Lies d validation_a
  in_holdout : 20260101 ≤ d → d ≤ 20260630 → Lies d holdout
  before : d < 20200101 → Lies d warmup
  elsewhere :
      20200101 ≤ d
      → ¬ ((20200101 ≤ d) × (d ≤ 20231231))
      → ¬ ((20240101 ≤ d) × (d ≤ 20251231))
      → ¬ ((20260101 ≤ d) × (d ≤ 20260630))
      → Lies d outside_window

-- split_window has a window for it.
abbrev pub readable : ResearchSplit → Bool
readable development = true
readable validation_a = true
readable holdout = true
readable _ = false

assign_date-Lies : (d : ℕ) → Lies d (assign_date d)
unfolding assign_date
assign_date-Lies d = elim (Bool-cases (leb 20200101 d && leb d 20231231)) [
  | inl e ↦ rw e (in_development (ground arith) (ground arith))
  | inr e ↦ elim (Bool-cases (leb 20240101 d && leb d 20251231)) [
    | inl f ↦ rw (e, f) (in_validation_a (ground arith) (ground arith))
    | inr f ↦ elim (Bool-cases (leb 20260101 d && leb d 20260630)) [
      | inl g ↦ rw (e, f, g) (in_holdout (ground arith) (ground arith))
      | inr g ↦ elim (Bool-cases (ltb d 20200101)) [
        | inl k ↦ rw (e, f, g, k) (before (ground arith))
        | inr k ↦
            rw (e, f, g, k)
              (elsewhere (ground arith) (λ p. ground arith) (λ p. ground arith) (λ p. ground arith))
      ]
    ]
  ]
]

assign_date-of_Lies : (d : ℕ) (split : ResearchSplit) → Lies d split → assign_date d ≡ split
unfolding assign_date
assign_date-of_Lies d split (in_development p q) = ground arith
assign_date-of_Lies d split (in_validation_a p q) = ground arith
assign_date-of_Lies d split (in_holdout p q) = ground arith
assign_date-of_Lies d split (before p) = ground arith
assign_date-of_Lies d split (elsewhere p q r s) = ground arith

-- assign_research_split answers with the split in which the parsed date lies, and with no other.
pub assign_research_split_iff :
    (from_iso : Text → Option ℕ) (v : DateLike) (split : ResearchSplit)
    → (assign_research_split from_iso v ≡ ok split)
      ↔ ((d : ℕ) × (parse_date_value from_iso v ≡ ok d) × Lies d split)
unfolding assign_research_split
assign_research_split_iff from_iso v split = (
  λ h.
      let (d, e, k) = >>=-eq-ok (parse_date_value from_iso v) _ h in
      (d, e, subst (Lies d) (ok_injective k) (assign_date-Lies d)),
  λ (d, e, p). rw e (ap ok (assign_date-of_Lies d split p)),
)

Lies-window_of :
    (split : ResearchSplit) (w : ℕ × ℕ) (d : ℕ)
    → window_of split ≡ ok w
    → w.0 ≤ d
    → d ≤ w.1
    → Lies d split × (readable split ≡ true)
unfolding window_of
Lies-window_of development w d h p q =
    let e = ok_injective h in
    (in_development (subst (λ v. v.0 ≤ d) (sym e) p) (subst (λ v. d ≤ v.1) (sym e) q), refl)
Lies-window_of validation_a w d h p q =
    let e = ok_injective h in
    (in_validation_a (subst (λ v. v.0 ≤ d) (sym e) p) (subst (λ v. d ≤ v.1) (sym e) q), refl)
Lies-window_of holdout w d h p q =
    let e = ok_injective h in
    (in_holdout (subst (λ v. v.0 ≤ d) (sym e) p) (subst (λ v. d ≤ v.1) (sym e) q), refl)
Lies-window_of warmup w d h p q = cc
Lies-window_of outside_window w d h p q = cc

window_of-Lies :
    (split : ResearchSplit) (d : ℕ)
    → readable split ≡ true
    → Lies d split
    → (w : ℕ × ℕ) × (window_of split ≡ ok w) × ((leb w.0 d && leb d w.1) ≡ true)
unfolding window_of
window_of-Lies split d r (in_development p q) = ((20200101, 20231231), refl, ground arith)
window_of-Lies split d r (in_validation_a p q) = ((20240101, 20251231), refl, ground arith)
window_of-Lies split d r (in_holdout p q) = ((20260101, 20260630), refl, ground arith)
window_of-Lies split d r (before p) = cc
window_of-Lies split d r (elsewhere p q s t) = cc

-- assert_research_split_date returns a date exactly if the value parses to it and
-- assign_research_split puts the value into the asserted split, which must be a readable one.
pub assert_research_split_date_iff :
    (from_iso : Text → Option ℕ) (v : DateLike) (split : ResearchSplit) (d : ℕ)
    → (assert_research_split_date from_iso v (member split) ≡ ok d) ↔ (
        (parse_date_value from_iso v ≡ ok d)
        × (assign_research_split from_iso v ≡ ok split)
        × (readable split ≡ true))
unfolding assert_research_split_date research_split
assert_research_split_date_iff from_iso v split d = (
  λ h.
      let (e, parsed_is, h1) = >>=-eq-ok (parse_date_value from_iso v) _ h in
      let (w, window_is, h2) = >>=-eq-ok (window_of split) _ h1 in
      let (u, inside, h3) =
        >>=-eq-ok (guard (leb w.0 e && leb e w.1) (outside_split e split)) _ h2 in
      let same : e ≡ d = ok_injective h3 in
      let test = guard-eq-ok _ _ inside in
      let (lies, r) = Lies-window_of split w e window_is (ground arith) (ground arith) in
      (
        parsed_is ∙ ap ok same,
        (assign_research_split_iff from_iso v split).1 (e, parsed_is, lies),
        r,
      ),
  λ p.
      let (e, parsed_is, lies) = (assign_research_split_iff from_iso v split).0 p.1 in
      let same : e ≡ d = ok_injective (sym parsed_is ∙ p.0) in
      let (w, window_is, inside) = window_of-Lies split e p.2 lies in
      rw (parsed_is, window_is, inside) (ap ok same),
)
