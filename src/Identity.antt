-- ===== src/Identity.antt =====
-- identity/security_id.py: the normalization of symbols, the identity keys, and the identity that
-- they give. Letters and digits are those of ASCII, and a year has four digits. The UUID
-- of a key is an argument.
pub mod Keys
pub mod Reading
pub mod RoundTrip
pub mod Symbols
use a_share_analysis.Common.{
  ℕ, ◌+◌, ◌/◌, ◌%◌, String, Bool, true, false, not, ◌&&◌, ◌||◌, Option, none, some, List, [], ◌∷◌,
  ◌++◌, reverse, Result, ok, err, ◌>>=◌, guard, Text, codes, text_eq, text_in, starts_with, strip,
  upper, is_digit, ◌==◌, length, if◌then◌else◌,
}

-- _SYMBOL_SUFFIXES, _VALID_EXCHANGES, _ASSET_TYPE_STOCK
abbrev pub symbol_suffixes : List Text
symbol_suffixes = codes ".SZ" ∷ codes ".SH" ∷ codes ".BJ" ∷ codes ".SS" ∷ []

abbrev pub valid_exchanges : List Text
valid_exchanges = codes "SSE" ∷ codes "SZSE" ∷ codes "BSE" ∷ []

abbrev pub asset_type_stock : Text
asset_type_stock = codes "STOCK"

pub data IdentityError : Type 0 where
  invalid_symbol : (symbol : Text) → IdentityError
  invalid_exchange : (exchange : Text) → IdentityError
  empty_asset_type missing_first_seen publish_blocked : IdentityError

-- s[len(prefix):] if s.startswith(prefix)
unfoldable pub drop_prefix : Text → Text → Option Text
drop_prefix [] s = some s
drop_prefix (c ∷ p) [] = none
drop_prefix (c ∷ p) (d ∷ s) = let rest = drop_prefix p s in if c == d then rest else none

abbrev pub reversed : Option Text → Option Text
reversed none = none
reversed (some s) = some (reverse s)

-- s[:-len(suffix)] if s.endswith(suffix)
unfoldable pub drop_suffix : Text → Text → Option Text
unfolding drop_prefix
drop_suffix suffix s = reversed (drop_prefix (reverse suffix) (reverse s))

-- The first of the suffixes that ends the symbol, taken off
unfoldable pub without_suffix : List Text → Text → Option Text
unfolding drop_suffix
without_suffix [] s = none
without_suffix (x ∷ xs) s =
    let later = without_suffix xs s in elim (drop_suffix x s) [ some t ↦ some t | none ↦ later ]

abbrev pub drop_two : Text → Text
drop_two (a ∷ b ∷ s) = s
drop_two _ = []

unfoldable pub without_prefix : Text → Text
unfolding starts_with
without_prefix s =
    if (starts_with s (codes "SZ") || starts_with s (codes "SH") || starts_with s (codes "BJ"))
      && length s == 8
    then drop_two s
    else s

-- _VALID_SYMBOL.match: six digits, and the end of the text or a line feed that ends it
unfoldable pub is_symbol : Text → Bool
is_symbol (a ∷ b ∷ c ∷ d ∷ e ∷ f ∷ rest) =
    is_digit a
    && is_digit b
    && is_digit c
    && is_digit d
    && is_digit e
    && is_digit f
    && (text_eq rest [] || text_eq rest (10 ∷ []))
is_symbol _ = false

unfoldable pub bare_symbol : Text → Text
unfolding without_suffix without_prefix
bare_symbol s = elim (without_suffix symbol_suffixes s) [ some t ↦ t | none ↦ without_prefix s ]

unfoldable pub normalize_symbol : Text → Result IdentityError Text
normalize_symbol symbol =
    let s = bare_symbol (upper (strip symbol)) in
    if is_symbol s then ok s else err (invalid_symbol symbol)

-- A date
pub record Date : Type 0 where
  pub year : ℕ
  pub month : ℕ
  pub day : ℕ

-- The last decimal digit of a number
abbrev pub digit : ℕ → ℕ
digit n = b'0' + n % 10

-- strftime("%Y%m%d") of a date with a year of four digits
unfoldable pub stamp : Date → Text
stamp d =
    digit (d.year / 1000)
    ∷ digit (d.year / 100)
    ∷ digit (d.year / 10)
    ∷ digit d.year
    ∷ digit (d.month / 10)
    ∷ digit d.month
    ∷ digit (d.day / 10)
    ∷ digit d.day
    ∷ []

-- f"{ex}:{at}:{sym}:{stamp}"
unfoldable pub key_text : (exchange asset_type symbol last : Text) → Text
key_text exchange asset_type symbol last =
    exchange ++ b':' ∷ asset_type ++ b':' ∷ symbol ++ b':' ∷ last

unfoldable pub build_identity_key :
    (exchange asset_type initial_symbol : Text) → Date → Result IdentityError Text
build_identity_key exchange asset_type initial_symbol first_list_date =
    guard (text_in (upper (strip exchange)) valid_exchanges) (invalid_exchange exchange)
    >>= λ known. guard (not (text_eq (upper (strip asset_type)) [])) empty_asset_type >>= λ named.
        normalize_symbol initial_symbol >>= λ sym.
        ok
          (key_text (upper (strip exchange)) (upper (strip asset_type)) sym (stamp first_list_date))

-- asset_type.strip().upper() or _ASSET_TYPE_STOCK
unfoldable pub asset_or_stock : Text → Text
asset_or_stock asset_type =
    if text_eq (upper (strip asset_type)) [] then asset_type_stock else upper (strip asset_type)

unfoldable pub build_identity_key_fallback :
    (exchange asset_type initial_symbol : Text) → Date → Result IdentityError Text
build_identity_key_fallback exchange asset_type initial_symbol first_seen_trade_date =
    guard (text_in (upper (strip exchange)) valid_exchanges) (invalid_exchange exchange)
    >>= λ known. normalize_symbol initial_symbol >>= λ sym. ok (
        key_text (upper (strip exchange)) (asset_or_stock asset_type) sym
          (b'F' ∷ stamp first_seen_trade_date))

pub data IdentityKeyVersion : Type 0 where
  security_identity_v1 security_identity_v1_fallback : IdentityKeyVersion

pub record ResolvedIdentity : Type 0 where
  pub security_id : String
  pub identity_key : Text
  pub identity_key_version : IdentityKeyVersion
  pub quality_flags : List String

unfoldable pub is_fallback : ResolvedIdentity → Bool
is_fallback r = elim (r.identity_key_version) [
  | security_identity_v1_fallback ↦ true
  | security_identity_v1 ↦ false
]

unfoldable pub assert_publishable : ResolvedIdentity → Result IdentityError (Unit {0})
unfolding is_fallback
assert_publishable r = if is_fallback r then err publish_blocked else ok tt

-- The identity of a key, with its UUID under the project's namespace
unfoldable pub identity_of :
    (Text → String) → IdentityKeyVersion → List String → Text → ResolvedIdentity
identity_of uuid5 version flags key = record {
  security_id = uuid5 key;
  identity_key = key;
  identity_key_version = version;
  quality_flags = flags;
}

unfoldable pub resolve_security_identity :
    (Text → String)
    → (exchange asset_type initial_symbol : Text)
    → (first_list_date first_seen_trade_date : Option Date) → Result IdentityError ResolvedIdentity
resolve_security_identity uuid5 exchange asset_type initial_symbol (some listed) seen =
    build_identity_key exchange asset_type initial_symbol listed >>= λ key.
    ok (identity_of uuid5 security_identity_v1 [] key)
resolve_security_identity uuid5 exchange asset_type initial_symbol none none =
    err missing_first_seen
resolve_security_identity uuid5 exchange asset_type initial_symbol none (some seen) =
    build_identity_key_fallback exchange asset_type initial_symbol seen >>= λ key.
    ok (identity_of uuid5 security_identity_v1_fallback ("IDENTITY_FALLBACK" ∷ []) key)
