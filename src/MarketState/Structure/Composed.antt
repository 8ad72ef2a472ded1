-- ===== src/MarketState/Structure/Composed.antt =====
-- What _market_structure of state/engine.py answers where the three labels are at hand.
use a_share_analysis.Common.{
  String, ◌≡◌, refl, sym, subst, ◌≢◌, ◌⊎◌, inl, inr, true, false, ◌&&◌, [], ◌∷◌, ok, arith,
  Bool-cases, str_eq, eq_iff,
}
use a_share_analysis.MarketState.Structure.{Dimensions, structure_label, market_structure}

-- The composition of three known labels
pub data Composition (center daily trend : String) : String → Type 0 where
  all_up :
      center ≡ "POSITIVE_CENTER"
      → daily ≡ "ADVANCE_DOMINANT"
      → trend ≡ "BROAD_POSITIVE"
      → Composition center daily trend "BROAD_ADVANCE"
  all_down :
      center ≡ "NEGATIVE_CENTER"
      → daily ≡ "DECLINE_DOMINANT"
      → trend ≡ "BROAD_NEGATIVE"
      → Composition center daily trend "BROAD_DECLINE"
  positive_center :
      center ≡ "POSITIVE_CENTER"
      → ¬ ((daily ≡ "ADVANCE_DOMINANT") × (trend ≡ "BROAD_POSITIVE"))
      → Composition center daily trend "POSITIVE_MIXED_PARTICIPATION"
  negative_center :
      center ≡ "NEGATIVE_CENTER"
      → ¬ ((daily ≡ "DECLINE_DOMINANT") × (trend ≡ "BROAD_NEGATIVE"))
      → Composition center daily trend "NEGATIVE_MIXED_PARTICIPATION"
  no_side :
      center ≢ "POSITIVE_CENTER"
      → center ≢ "NEGATIVE_CENTER"
      → Composition center daily trend "MIXED"

pub data Structure (center daily trend : String) : String → Type 0 where
  unknown :
      (center ≡ "UNKNOWN") ⊎ ((daily ≡ "UNKNOWN") ⊎ (trend ≡ "UNKNOWN"))
      → Structure center daily trend "UNKNOWN"
  known :
      {label : String}
      → center ≢ "UNKNOWN"
      → daily ≢ "UNKNOWN"
      → trend ≢ "UNKNOWN"
      → Composition center daily trend label
      → Structure center daily trend label

not_both : (a b x y : String) → (str_eq a x && str_eq b y) ≡ false → ¬ ((a ≡ x) × (b ≡ y))
not_both a b x y h p = cc ((eq_iff a x).1 p.0, (eq_iff b y).1 p.1, h)

differs : (a x : String) → str_eq a x ≡ false → a ≢ x
differs a x h e = cc ((eq_iff a x).1 e, h)

same : (a x : String) → str_eq a x ≡ true → a ≡ x
same a x h = (eq_iff a x).0 h

structure_label-Composition :
    (center daily trend : String)
    → Composition center daily trend (structure_label center daily trend)
unfolding structure_label
structure_label-Composition center daily trend =
    elim (Bool-cases (str_eq center "POSITIVE_CENTER")) [
      | inl e ↦
          elim (Bool-cases (str_eq daily "ADVANCE_DOMINANT" && str_eq trend "BROAD_POSITIVE")) [
            | inl f ↦
                rw (e, f) (all_up (same _ _ e) (same _ _ (ground arith)) (same _ _ (ground arith)))
            | inr f ↦
                let center_is = same center "POSITIVE_CENTER" e in
                let not_negative : str_eq center "NEGATIVE_CENTER" ≡ false =
                  subst (λ c. str_eq c "NEGATIVE_CENTER" ≡ false) (sym center_is) refl in
                rw (e, f, not_negative) (positive_center center_is (not_both _ _ _ _ f))
          ]
      | inr e ↦ elim (Bool-cases (str_eq center "NEGATIVE_CENTER")) [
        | inl g ↦
            elim (Bool-cases (str_eq daily "DECLINE_DOMINANT" && str_eq trend "BROAD_NEGATIVE")) [
              | inl f ↦
                  rw (e, g, f)
                    (all_down (same _ _ g) (same _ _ (ground arith)) (same _ _ (ground arith)))
              | inr f ↦ rw (e, g, f) (negative_center (same _ _ g) (not_both _ _ _ _ f))
            ]
        | inr g ↦ rw (e, g) (no_side (differs _ _ e) (differs _ _ g))
      ]
    ]

abbrev pub of_labels : (center daily trend : String) → Dimensions
of_labels center daily trend =
    ("trend_participation_state", trend)
    ∷ ("daily_participation_state", daily)
    ∷ ("return_center_state", center)
    ∷ []

-- With the labels of the first three rules at hand the rule always answers: UNKNOWN where one of
-- them is UNKNOWN, else the label of their composition.
pub market_structure_cases :
    (center daily trend : String)
    → (label : String) × (market_structure (of_labels center daily trend) ≡ ok label)
      × Structure center daily trend label
unfolding market_structure
market_structure_cases center daily trend = elim (Bool-cases (str_eq center "UNKNOWN")) [
  | inl e ↦ ("UNKNOWN", rw e refl, unknown (inl ((eq_iff center "UNKNOWN").0 e)))
  | inr e ↦ elim (Bool-cases (str_eq daily "UNKNOWN")) [
    | inl f ↦ ("UNKNOWN", rw (e, f) refl, unknown (inr (inl ((eq_iff daily "UNKNOWN").0 f))))
    | inr f ↦ elim (Bool-cases (str_eq trend "UNKNOWN")) [
      | inl g ↦ ("UNKNOWN", rw (e, f, g) refl, unknown (inr (inr ((eq_iff trend "UNKNOWN").0 g))))
      | inr g ↦ (
        structure_label center daily trend,
        rw (e, f, g) refl,
        known (differs _ _ e) (differs _ _ f) (differs _ _ g)
            (structure_label-Composition center daily trend),
      )
    ]
  ]
]
