-- ===== src/TradingRule/Dates/Sessions.antt =====
-- What first_n_sessions of spike/trading_rule.py answers, counted on the calendar as it is given:
-- neither sorted nor free of duplicates.
use a_share_analysis.Common.{
  ℕ, suc, ◌-◌, ◌<◌, ◌≡◌, refl, sym, ◌∙◌, ap, subst, Bool, true, false, not, ◌&&◌, List, [], ◌∷◌,
  all, keep, ltb→lt, arith, ltb, Bool-cases, inl, inr, if◌then◌else◌, Result, ok, err, ◌>>=◌,
}
use mathlib.Core.Path.{fun_ext}
use a_share_analysis.TradingRule.Dates.{
  RuleUnresolved, DateValue, yyyymmdd, insert_day, sorted_set, day_in, before_first,
  sessions_within, first_n_sessions, empty_calendar, trade_date_missing, listing_date_missing,
  before_listing,
}
use a_share_analysis.TradingRule.Dates.Calendar.{
  Increasing, sorted_set-Increasing, day_in-sorted_set, Increasing-unique, earlier, index-earlier,
  Above, Above-mono, not_day_in,
}

-- The distinct days of a calendar before d: each counts at its last place.
pub distinct_before : ℕ → List ℕ → ℕ
unfolding day_in
distinct_before d [] = 0
distinct_before d (e ∷ c) =
    let rest = distinct_before d c in if ltb e d && not (day_in e c) then suc rest else rest

earlier-insert_day :
    (d x : ℕ) (es : List ℕ)
    → Increasing es
    → earlier d (insert_day x es)
      ≡ (if ltb x d && not (day_in x es) then suc (earlier d es) else earlier d es)
unfolding keep insert_day day_in
earlier-insert_day d x [] i = ground arith
earlier-insert_day d x (e ∷ es) i = elim (Bool-cases (ltb x e)) [
  | inl p ↦ ground (arith, not_day_in x es (Above-mono x e es (ground arith) i.0))
  | inr p ↦ ground (arith, earlier-insert_day d x es i.1)
]

earlier-sorted_set : (d : ℕ) (c : List ℕ) → earlier d (sorted_set c) ≡ distinct_before d c
unfolding sorted_set distinct_before keep
earlier-sorted_set d [] = refl
earlier-sorted_set d (e ∷ c) =
    earlier-insert_day d e (sorted_set c) (sorted_set-Increasing c)
    ∙ rw (earlier-sorted_set d c, day_in-sorted_set e c) refl

-- The answer for valid dates, said on the calendar as given
abbrev pub sessions_on : (day listed : ℕ) (calendar : List ℕ) (n : ℕ) → Result RuleUnresolved Bool
sessions_on day listed [] n = err empty_calendar
sessions_on day listed (c ∷ calendar) n =
    let days = c ∷ calendar in
    if not (day_in day days)
    then err trade_date_missing
    else if not (day_in listed days)
    then (if all (λ e. ltb listed e) days then ok false else err listing_date_missing)
    else if ltb day listed
    then err before_listing
    else ok (ltb (distinct_before day days - distinct_before listed days) n)

all-later : (x : ℕ) (es : List ℕ) → Above x es → (d : ℕ) → d < x → all (λ e. ltb d e) es ≡ true
unfolding all
all-later x [] a d h = refl
all-later x (e ∷ es) a d h = ground (arith, all-later x es a.1 d)

all-insert_day :
    (d x : ℕ) (es : List ℕ)
    → all (λ e. ltb d e) (insert_day x es) ≡ (ltb d x && all (λ e. ltb d e) es)
unfolding all insert_day
all-insert_day d x [] = refl
all-insert_day d x (e ∷ es) = ground (arith, all-insert_day d x es)

all-sorted_set : (d : ℕ) (c : List ℕ) → all (λ e. ltb d e) (sorted_set c) ≡ all (λ e. ltb d e) c
unfolding all sorted_set
all-sorted_set d [] = refl
all-sorted_set d (e ∷ c) = all-insert_day d e (sorted_set c) ∙ rw (all-sorted_set d c)

before_first-all :
    (d e : ℕ) (es : List ℕ) → Above e es → before_first d (e ∷ es) ≡ all (λ x. ltb d x) (e ∷ es)
unfolding before_first all
before_first-all d e es a = elim (Bool-cases (ltb d e)) [
  | inl p ↦ rw p (sym (all-later e es a d (ltb→lt d e p)))
  | inr p ↦ rw p
]

-- sessions_within on an increasing list, with counts in place of indices
abbrev within_spec : (day listed : ℕ) (days : List ℕ) (n : ℕ) → Result RuleUnresolved Bool
within_spec day listed days n =
    if not (day_in day days)
    then err trade_date_missing
    else if not (day_in listed days)
    then (if all (λ e. ltb listed e) days then ok false else err listing_date_missing)
    else if ltb day listed
    then err before_listing
    else ok (ltb (earlier day days - earlier listed days) n)

sessions_within_lem :
    (day listed e : ℕ) (es : List ℕ) (n : ℕ)
    → Increasing (e ∷ es)
    → sessions_within day listed (e ∷ es) n ≡ within_spec day listed (e ∷ es) n
unfolding sessions_within
sessions_within_lem day listed e es n i = elim (Bool-cases (day_in day (e ∷ es))) [
  | inr p ↦ rw p
  | inl p ↦ elim (Bool-cases (day_in listed (e ∷ es))) [
    | inr q ↦ rw (p, q, before_first-all listed e es i.0)
    | inl q ↦ rw (p, q, index-earlier day (e ∷ es) i p, index-earlier listed (e ∷ es) i q)
  ]
]

on_sorted :
    (day listed c : ℕ) (calendar : List ℕ) (n : ℕ) (days : List ℕ)
    → sorted_set (c ∷ calendar) ≡ days
    → sessions_within day listed days n ≡ within_spec day listed days n
unfolding day_in
on_sorted day listed c calendar n [] e =
    let given : day_in c (c ∷ calendar) ≡ true = ground arith in
    cc (day_in-sorted_set c (c ∷ calendar), given)
on_sorted day listed c calendar n (d ∷ days) e =
    sessions_within_lem day listed d days n
      (subst Increasing e (sorted_set-Increasing (c ∷ calendar)))

sessions_within-sorted_set :
    (day listed : ℕ) (calendar : List ℕ) (n : ℕ)
    → sessions_within day listed (sorted_set calendar) n ≡ sessions_on day listed calendar n
sessions_within-sorted_set day listed [] n = unfold sessions_within sorted_set in refl
sessions_within-sorted_set day listed (c ∷ calendar) n =
    let days = c ∷ calendar in
    on_sorted day listed c calendar n (sorted_set days) refl
    ∙ rw (
      day_in-sorted_set day days,
      day_in-sorted_set listed days,
      all-sorted_set listed days,
      earlier-sorted_set day days,
      earlier-sorted_set listed days,
    )

-- first_n_sessions reads both dates, the trade date first, and then answers on the calendar in any
-- order and with any repetitions: an empty calendar, a missing trade date and a trade date before
-- the listing date are errors; a missing listing date is an error unless it lies before every
-- session, which answers no; else fewer than n distinct sessions must lie from the listing date to
-- before the trade date.
pub first_n_sessions_counts :
    (trade_date listing_date : DateValue) (calendar : List ℕ) (n : ℕ)
    → first_n_sessions trade_date listing_date calendar n ≡ (
        yyyymmdd trade_date >>= λ day.
        yyyymmdd listing_date >>= λ listed. sessions_on day listed calendar n)
unfolding first_n_sessions
first_n_sessions_counts trade_date listing_date calendar n =
    ap
      (λ (f : ℕ → ℕ → Result RuleUnresolved Bool).
        yyyymmdd trade_date >>= λ day. yyyymmdd listing_date >>= λ listed. f day listed)
      (fun_ext (λ day. fun_ext (λ listed. sessions_within-sorted_set day listed calendar n)))

-- Two calendars that hold the same days, in any order and as often as you like, give the same
-- answer or the same error.
pub first_n_sessions_same_days :
    (trade_date listing_date : DateValue) (c c' : List ℕ) (n : ℕ)
    → ((d : ℕ) → day_in d c ≡ day_in d c')
    → first_n_sessions trade_date listing_date c n ≡ first_n_sessions trade_date listing_date c' n
unfolding first_n_sessions
first_n_sessions_same_days trade_date listing_date c c' n h =
    let same : sorted_set c ≡ sorted_set c' =
      Increasing-unique (sorted_set c) (sorted_set c') (sorted_set-Increasing c)
        (sorted_set-Increasing c')
        (λ d. day_in-sorted_set d c ∙ h d ∙ sym (day_in-sorted_set d c')) in
    ap
      (λ (days : List ℕ). yyyymmdd trade_date >>= λ day.
        yyyymmdd listing_date >>= λ listed. sessions_within day listed days n)
      same
