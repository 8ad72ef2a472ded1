-- ===== src/Samples/Identity.antt =====
-- Identities of a listed security, of one without a list date, and of a symbol with a line feed.
use a_share_analysis.Common.{
  ◌≡◌, refl, String, true, Option, none, some, [], ◌∷◌, ◌⊎◌, ok, err, Text, codes, upper, strip,
  text_in, is_digit, arith,
}
use a_share_analysis.Identity.{
  Date, ResolvedIdentity, normalize_symbol, resolve_security_identity, is_fallback,
  assert_publishable, publish_blocked, build_identity_key_fallback, key_text, bare_symbol,
  is_symbol, stamp, asset_or_stock, identity_of, security_identity_v1_fallback,
}
use a_share_analysis.Identity.Reading.{IsDate, read_key}
use a_share_analysis.Identity.RoundTrip.{
  named_asset, used, resolve_round_trip, same_key_agrees, publishable_cases,
}
use a_share_analysis.Identity.Symbols.{normalize_symbol-line_feed}

abbrev uuid5 : Text → String
uuid5 key = "b2e7b5e4"

abbrev first_day : Date
first_day = record { year = 2026; month = 1; day = 5 }

abbrev identity : ResolvedIdentity
identity = record {
  security_id = "b2e7b5e4";
  identity_key = codes "SZSE:STOCK:000001:F20260105";
  identity_key_version = security_identity_v1_fallback;
  quality_flags = "IDENTITY_FALLBACK" ∷ [];
}

first_day-IsDate : IsDate first_day
first_day-IsDate = record {
  year_fits = omega arith;
  month_fits = omega arith;
  day_fits = omega arith;
}

resolved :
    resolve_security_identity uuid5 (codes " szse") [] (codes "000001.SZ") none (some first_day)
    ≡ ok identity
unfolding resolve_security_identity build_identity_key_fallback text_in upper strip normalize_symbol
    is_symbol bare_symbol is_digit identity_of key_text asset_or_stock stamp
resolved = refl

used_here : used none (some first_day) ≡ some first_day
unfolding used
used_here = refl

resolve_round_trip_example :
    (x : Text) × (normalize_symbol (codes "000001.SZ") ≡ ok x)
    × (read_key identity.identity_key ≡ record {
      exchange = upper (strip (codes " szse"));
      asset_type = named_asset none [];
      symbol = x;
      fallback = is_fallback identity;
      date = first_day;
    })
resolve_round_trip_example =
    resolve_round_trip uuid5 (codes " szse") [] (codes "000001.SZ") none (some first_day) first_day
      identity used_here first_day-IsDate resolved

resolved_again :
    resolve_security_identity uuid5
      (codes "SZSE")
      (codes "stock")
      (codes "sz000001")
      none
      (some first_day)
    ≡ ok identity
unfolding resolve_security_identity build_identity_key_fallback text_in upper strip normalize_symbol
    is_symbol bare_symbol is_digit identity_of key_text asset_or_stock stamp
resolved_again = refl

same_key_agrees_example :
    (upper (strip (codes " szse")) ≡ upper (strip (codes "SZSE")))
    × (normalize_symbol (codes "000001.SZ") ≡ normalize_symbol (codes "sz000001"))
    × (first_day ≡ first_day)
    × (assert_publishable identity ≡ assert_publishable identity)
same_key_agrees_example =
    same_key_agrees uuid5 (codes " szse") [] (codes "000001.SZ") (codes "SZSE") (codes "stock")
      (codes "sz000001") none (some first_day) none (some first_day) first_day first_day identity
      identity used_here used_here first_day-IsDate first_day-IsDate resolved resolved_again refl

publishable_cases_example :
    ((assert_publishable identity ≡ ok tt)
      × (identity.quality_flags ≡ [])
      × ((d : Date) × (◌≡◌ {A = Option Date} none (some d))))
    ⊎ ((assert_publishable identity ≡ err publish_blocked)
        × (identity.quality_flags ≡ "IDENTITY_FALLBACK" ∷ [])
        × (◌≡◌ {A = Option Date} none none)
        × ((d : Date) × (some first_day ≡ some d)))
publishable_cases_example =
    publishable_cases uuid5 (codes " szse") [] (codes "000001.SZ") none (some first_day) identity
      resolved

digits : (is_digit b'0' ≡ true) × (is_digit b'1' ≡ true)
unfolding is_digit
digits = (refl, refl)

normalize_symbol-line_feed_example :
    normalize_symbol (b'0' ∷ b'0' ∷ b'0' ∷ b'0' ∷ b'0' ∷ b'1' ∷ 10 ∷ codes ".SZ")
    ≡ ok (b'0' ∷ b'0' ∷ b'0' ∷ b'0' ∷ b'0' ∷ b'1' ∷ 10 ∷ [])
normalize_symbol-line_feed_example =
    normalize_symbol-line_feed b'0' b'0' b'0' b'0' b'0' b'1' digits.0 digits.0 digits.0 digits.0
      digits.0 digits.1
