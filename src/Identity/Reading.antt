-- ===== src/Identity/Reading.antt =====
-- An identity key of identity/security_id.py read back into its fields and its date.
use a_share_analysis.Common.{
  ◌≡◌, refl, sym, ap, subst, ℕ, ◌+◌, ◌-◌, ◌*◌, ◌/◌, ◌<◌, Bool, true, false, [], ◌∷◌, Text, codes,
  any, text_in, text_eq, text_eq_iff, is_digit, ◌==◌, arith, inl, inr, Bool-cases, if◌then◌else◌,
}
use a_share_analysis.Identity.{valid_exchanges, is_symbol, Date, digit, stamp, key_text}
use a_share_analysis.Identity.Keys.{is_plain, key_parts, key_parts-key_text}

-- A calendar date with a year of four digits
pub record IsDate (d : Date) : Type 0 where
  pub year_fits : d.year < 10000
  pub month_fits : d.month < 100
  pub day_fits : d.day < 100

digit_not_colon : (n : ℕ) → (digit n == b':') ≡ false
digit_not_colon n = ground arith

digit_not_f : (n : ℕ) → (digit n == b'F') ≡ false
digit_not_f n = ground arith

pub stamp-is_plain : (d : Date) → is_plain (stamp d) ≡ true
unfolding stamp
stamp-is_plain d =
    rw
      (
        digit_not_colon (d.year / 1000),
        digit_not_colon (d.year / 100),
        digit_not_colon (d.year / 10),
        digit_not_colon d.year,
        digit_not_colon (d.month / 10),
        digit_not_colon d.month,
        digit_not_colon (d.day / 10),
        digit_not_colon d.day,
      )
      refl

is_symbol-is_plain : (s : Text) → is_symbol s ≡ true → is_plain s ≡ true
unfolding is_symbol is_digit text_eq
is_symbol-is_plain (a ∷ b ∷ c ∷ d ∷ e ∷ f ∷ []) h = ground arith
is_symbol-is_plain (a ∷ b ∷ c ∷ d ∷ e ∷ f ∷ g ∷ []) h = ground arith
is_symbol-is_plain (a ∷ b ∷ c ∷ d ∷ e ∷ f ∷ g ∷ k ∷ s) h = ground arith
is_symbol-is_plain [] h = cc
is_symbol-is_plain (a ∷ []) h = cc
is_symbol-is_plain (a ∷ b ∷ []) h = cc
is_symbol-is_plain (a ∷ b ∷ c ∷ []) h = cc
is_symbol-is_plain (a ∷ b ∷ c ∷ d ∷ []) h = cc
is_symbol-is_plain (a ∷ b ∷ c ∷ d ∷ e ∷ []) h = cc

is_plain-of_exchange : (x : Text) → text_in x valid_exchanges ≡ true → is_plain x ≡ true
unfolding text_in any
is_plain-of_exchange x h = elim (Bool-cases (text_eq x (codes "SSE"))) [
  | inl e ↦ subst (λ y. is_plain y ≡ true) (sym ((text_eq_iff x (codes "SSE")).0 e)) refl
  | inr e ↦ elim (Bool-cases (text_eq x (codes "SZSE"))) [
    | inl f ↦ subst (λ y. is_plain y ≡ true) (sym ((text_eq_iff x (codes "SZSE")).0 f)) refl
    | inr f ↦ elim (Bool-cases (text_eq x (codes "BSE"))) [
      | inl g ↦ subst (λ y. is_plain y ≡ true) (sym ((text_eq_iff x (codes "BSE")).0 g)) refl
      | inr g ↦ cc (rw (e, f, g) at h)
    ]
  ]
]

-- The value of a digit
value : ℕ → ℕ
value c = c - b'0'

abbrev pub no_date : Date
no_date = record { year = 0; month = 0; day = 0 }

-- The date of a stamp
unfoldable pub date_of : Text → Date
unfolding value
date_of (a ∷ b ∷ c ∷ d ∷ e ∷ f ∷ g ∷ h ∷ []) = record {
  year = value a * 1000 + value b * 100 + value c * 10 + value d;
  month = value e * 10 + value f;
  day = value g * 10 + value h;
}
date_of _ = no_date

date_of-stamp : (d : Date) → IsDate d → date_of (stamp d) ≡ d
unfolding date_of stamp
date_of-stamp d fits =
    let y : value (digit (d.year / 1000)) * 1000
          + value (digit (d.year / 100)) * 100
          + value (digit (d.year / 10)) * 10
          + value (digit d.year)
        ≡ d.year =
      unfold value in omega (arith, fits.year_fits) in
    let m : value (digit (d.month / 10)) * 10 + value (digit d.month) ≡ d.month =
      unfold value in omega (arith, fits.month_fits) in
    let n : value (digit (d.day / 10)) * 10 + value (digit d.day) ≡ d.day =
      unfold value in omega (arith, fits.day_fits) in
    cc (y, m, n)

-- Whether the key is a fallback key, and the date
unfoldable pub ending : Text → Bool × Date
unfolding date_of
ending [] = (false, no_date)
ending (c ∷ s) = if c == b'F' then (true, date_of s) else (false, date_of (c ∷ s))

pub record KeyFields : Type 0 where
  pub exchange : Text
  pub asset_type : Text
  pub symbol : Text
  pub fallback : Bool
  pub date : Date

unfoldable pub read_key : Text → KeyFields
read_key key =
    let (exchange, (asset_type, (symbol, last))) = key_parts key in
    record {
      exchange = exchange;
      asset_type = asset_type;
      symbol = symbol;
      fallback = (ending last).0;
      date = (ending last).1;
    }

pub ending-stamp : (d : Date) → IsDate d → ending (stamp d) ≡ (false, d)
unfolding ending stamp
ending-stamp d fits = rw (digit_not_f (d.year / 1000)) (ap (λ x. (false, x)) (date_of-stamp d fits))

pub ending-fallback : (d : Date) → IsDate d → ending (b'F' ∷ stamp d) ≡ (true, d)
unfolding ending
ending-fallback d fits = ap (λ x. (true, x)) (date_of-stamp d fits)

pub read_key-key_text :
    (exchange asset_type symbol last : Text) (fallback : Bool) (d : Date)
    → text_in exchange valid_exchanges ≡ true
    → is_symbol symbol ≡ true
    → is_plain last ≡ true
    → ending last ≡ (fallback, d)
    → read_key (key_text exchange asset_type symbol last) ≡ record {
      exchange = exchange;
      asset_type = asset_type;
      symbol = symbol;
      fallback = fallback;
      date = d;
    }
unfolding read_key
read_key-key_text exchange asset_type symbol last fallback d e s l f = cc (
  key_parts-key_text exchange asset_type symbol last (is_plain-of_exchange exchange e)
      (is_symbol-is_plain symbol s) l,
  f,
)
