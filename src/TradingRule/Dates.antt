-- ===== src/TradingRule/Dates.antt =====
-- Dates and the first-N-session window of spike/trading_rule.py. A date argument of type Any is a
-- number or a text; the entries of a calendar are the numbers that int() makes of them. Decimal
-- digits are those of ASCII.
pub mod Calendar
pub mod Sessions
use a_share_analysis.Common.{
  ℕ, zero, suc, ◌+◌, ◌-◌, ◌^◌, Bool, true, false, not, ◌&&◌, ◌||◌, List, [], ◌∷◌, Result, ok, err,
  ◌>>=◌, ◌>>◌, guard, Text, strip, is_digit, decimal, all, any, keep, length, ltb, leb, ◌==◌,
  if◌then◌else◌,
}

-- Every RuleUnresolvedError that the module raises, one constructor for each raise.
pub data RuleUnresolved : Type 0 where
  invalid_date empty_calendar trade_date_missing listing_date_missing : RuleUnresolved
  before_listing listing_context_missing no_listing_age_rule : RuleUnresolved
  ambiguous no_limit_regime unknown_exchange no_matching_rule no_st_rule : RuleUnresolved

pub data DateValue : Type 0 where
  number : ℕ → DateValue
  text : Text → DateValue

is_separator : ℕ → Bool
is_separator c = c == b'-' || c == b'/'

-- _yyyymmdd on a text: the separators go out, and eight digits must be left
date_of_text : Text → Result RuleUnresolved ℕ
unfolding is_separator strip keep all is_digit decimal
date_of_text t =
    let s = keep (λ c. not (is_separator c)) (strip t) in
    if length s == 8 && all is_digit s then ok (decimal 0 s) else err invalid_date

-- _yyyymmdd: str() of a number has eight digits exactly in this range
unfoldable pub yyyymmdd : DateValue → Result RuleUnresolved ℕ
unfolding date_of_text
yyyymmdd (number n) = if leb (10 ^ 7) n && ltb n (10 ^ 8) then ok n else err invalid_date
yyyymmdd (text t) = date_of_text t

-- one more element of a sorted list without duplicates
unfoldable pub insert_day : ℕ → List ℕ → List ℕ
insert_day d [] = d ∷ []
insert_day d (e ∷ days) =
    let later = insert_day d days in
    if ltb d e then d ∷ e ∷ days else if d == e then e ∷ days else e ∷ later

-- sorted({int(d) for d in calendar})
unfoldable pub sorted_set : List ℕ → List ℕ
unfolding insert_day
sorted_set [] = []
sorted_set (d ∷ days) = insert_day d (sorted_set days)

-- `d in days`
unfoldable pub day_in : ℕ → List ℕ → Bool
unfolding any
day_in d days = any (λ e. e == d) days

-- days.index(d), for a day that is listed
unfoldable pub index : ℕ → List ℕ → ℕ
index d [] = 0
index d (e ∷ days) = let later = suc (index d days) in if e == d then 0 else later

-- listed < days[0]
before_first : ℕ → List ℕ → Bool
before_first d [] = false
before_first d (e ∷ days) = ltb d e

-- first_n_sessions behind the two date conversions. Where the subtraction is reached, the trade
-- date does not stand before the listing date, so neither does its index.
unfoldable pub sessions_within :
    (day listed : ℕ) (days : List ℕ) (n : ℕ) → Result RuleUnresolved Bool
unfolding day_in index before_first
sessions_within day listed [] n = err empty_calendar
sessions_within day listed days n =
    if not (day_in day days)
    then err trade_date_missing
    else if not (day_in listed days)
    then (if before_first listed days then ok false else err listing_date_missing)
    else if ltb day listed
    then err before_listing
    else ok (ltb (index day days - index listed days) n)

unfoldable pub first_n_sessions :
    (trade_date listing_date : DateValue) (calendar : List ℕ) (n : ℕ) → Result RuleUnresolved Bool
unfolding yyyymmdd sorted_set sessions_within
first_n_sessions trade_date listing_date calendar n = do
  day ← yyyymmdd trade_date
  listed ← yyyymmdd listing_date
  sessions_within day listed (sorted_set calendar) n
