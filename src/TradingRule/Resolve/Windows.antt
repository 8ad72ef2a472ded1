-- ===== src/TradingRule/Resolve/Windows.antt =====
-- The listing-age branch of resolve in spike/trading_rule.py: why it keeps the rows that it keeps.
use a_share_analysis.Common.{
  ℕ, ◌≡◌, subst, Bool, true, false, not, ◌&&◌, Option, none, some, List, [], ◌∷◌, any, keep, arith,
  Bool-cases, inl, inr, Result, ok, ok_injective, Result-cases, ◌==◌, if◌then◌else◌,
}
use a_share_analysis.TradingRule.Dates.{
  RuleUnresolved, DateValue, number, yyyymmdd, first_n_sessions,
}
use a_share_analysis.TradingRule.Rows.{TradingRuleRow}
use a_share_analysis.TradingRule.Resolve.{
  has_age, is_ipo_rule, rows_by_sessions, rows_by_age, narrow,
}

abbrev pub is_five : TradingRuleRow → Bool
is_five = has_age "FIRST_5_DAYS_NO_LIMIT"

abbrev pub has_listing_age : TradingRuleRow → Bool
has_listing_age r = not (has_age "NONE" r)

pub data Narrowed (rows : List TradingRuleRow) (day : ℕ) (calendar : List ℕ)
    : Option DateValue → List TradingRuleRow → Bool → Type 0 where
  ageless :
      {o : Option DateValue}
      → any has_listing_age rows ≡ false
      → Narrowed rows day calendar o (keep (has_age "NONE") rows) false
  ipo_day :
      {d : DateValue}
      → yyyymmdd d ≡ ok day
      → Narrowed rows day calendar (some d) (keep is_ipo_rule rows) true
  early :
      {d : DateValue}
      → (yyyymmdd d ≡ ok day → any is_ipo_rule rows ≡ false)
      → first_n_sessions (number day) d calendar 5 ≡ ok true
      → Narrowed rows day calendar (some d) (keep is_five rows) true
  later :
      {d : DateValue} (b : Bool)
      → first_n_sessions (number day) d calendar 5 ≡ ok b
      → (yyyymmdd d ≡ ok day → any is_ipo_rule rows ≡ false)
      → (b ≡ true → any is_five rows ≡ false)
      → Narrowed rows day calendar (some d) (keep (has_age "NONE") rows) false

module _ (rows : List TradingRuleRow) (day : ℕ) (calendar : List ℕ) where
  abbrev Explained : Option DateValue → List TradingRuleRow × Bool → Type 0
  Explained o p = Narrowed rows day calendar o p.0 p.1

  same_day : (d : DateValue) {l : ℕ} → yyyymmdd d ≡ ok l → yyyymmdd d ≡ ok day → l ≡ day
  same_day d e f = cc

  rows_by_sessions-Explained :
      (d : DateValue) {p : List TradingRuleRow × Bool}
      → (yyyymmdd d ≡ ok day → any is_ipo_rule rows ≡ false)
      → rows_by_sessions rows day d calendar ≡ ok p
      → Explained (some d) p
  unfolding rows_by_sessions
  rows_by_sessions-Explained d {p} no_ipo h =
      elim (Result-cases (first_n_sessions (number day) d calendar 5)) [
        | inr (e, f) ↦ cc (rw f at h)
        | inl (first_n, f) ↦ by_test first_n f (rw f at h)
      ]
    where
      by_test :
          (b : Bool)
          → first_n_sessions (number day) d calendar 5 ≡ ok b
          → ◌≡◌ {A = Result RuleUnresolved (List TradingRuleRow × Bool)}
              (ok (
                if b && any is_five rows
                then (keep is_five rows, true)
                else (keep (has_age "NONE") rows, false)))
              (ok p)
          → Explained (some d) p
      by_test false f k =
          subst (Explained (some d)) (ok_injective k) (later false f no_ipo (λ e. cc))
      by_test true f k = elim (Bool-cases (any is_five rows)) [
        | inl five ↦ subst (Explained (some d)) (ok_injective (rw five at k)) (early no_ipo f)
        | inr five ↦
            subst (Explained (some d)) (ok_injective (rw five at k))
              (later true f no_ipo (λ e. five))
      ]

  rows_by_age-Explained :
      (d : DateValue) {p : List TradingRuleRow × Bool}
      → rows_by_age rows day d calendar ≡ ok p
      → Explained (some d) p
  unfolding rows_by_age
  rows_by_age-Explained d h = elim (Result-cases (yyyymmdd d)) [
    | inr (e, f) ↦ cc (rw f at h)
    | inl (l, f) ↦ elim (Bool-cases (l == day && any is_ipo_rule rows)) [
      | inl both ↦
          let k = rw (f, both) at h in
          subst (Explained (some d)) (ok_injective k)
            (ipo_day (let e : l ≡ day = ground arith in subst (λ x. yyyymmdd d ≡ ok x) e f))
      | inr neither ↦
          rows_by_sessions-Explained d (λ g. let e = same_day d f g in ground arith)
            (rw (f, neither) at h)
    ]
  ]

  plain-Explained :
      (o : Option DateValue) {p : List TradingRuleRow × Bool}
      → any has_listing_age rows ≡ false
      → ◌≡◌ {A = Result RuleUnresolved (List TradingRuleRow × Bool)}
          (ok (keep (has_age "NONE") rows, false))
          (ok p)
      → Explained o p
  plain-Explained o e h = subst (Explained o) (ok_injective h) (ageless e)

-- A successful narrowing has one of four reasons.
pub narrow-Narrowed :
    (rows : List TradingRuleRow) (day : ℕ) (o : Option DateValue) (calendar : List ℕ)
    {p : List TradingRuleRow × Bool}
    → narrow rows day o calendar ≡ ok p
    → Narrowed rows day calendar o p.0 p.1
unfolding narrow
narrow-Narrowed rows day none calendar h = elim (Bool-cases (any has_listing_age rows)) [
  | inl e ↦ cc (rw e at h)
  | inr e ↦ plain-Explained rows day calendar none e (rw e at h)
]
narrow-Narrowed rows day (some d) [] h = elim (Bool-cases (any has_listing_age rows)) [
  | inl e ↦ cc (rw e at h)
  | inr e ↦ plain-Explained rows day [] (some d) e (rw e at h)
]
narrow-Narrowed rows day (some d) (c ∷ calendar) h = elim (Bool-cases (any has_listing_age rows)) [
  | inl e ↦ rows_by_age-Explained rows day (c ∷ calendar) d (rw e at h)
  | inr e ↦ plain-Explained rows day (c ∷ calendar) (some d) e (rw e at h)
]
