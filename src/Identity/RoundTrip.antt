-- ===== src/Identity/RoundTrip.antt =====
-- The round trip of the identity keys of identity/security_id.py, and what may be published.
use a_share_analysis.Common.{
  ◌≡◌, refl, sym, ap, ◌∙◌, subst, String, true, false, not, Option, none, some, [], ◌∷◌, ok, err,
  >>=-eq-ok, guard-eq-ok, ok_injective, Text, text_in, text_eq, strip, upper, inl, inr, ◌⊎◌,
  Bool-cases, if◌then◌else◌, guard,
}
use a_share_analysis.Identity.{
  publish_blocked, valid_exchanges, is_symbol, bare_symbol, normalize_symbol, Date, stamp, key_text,
  build_identity_key, asset_or_stock, build_identity_key_fallback, ResolvedIdentity, is_fallback,
  assert_publishable, identity_of, resolve_security_identity,
}
use a_share_analysis.Identity.Reading.{
  IsDate, read_key, stamp-is_plain, ending-stamp, ending-fallback, read_key-key_text,
}

normalize_symbol-is_symbol : (s x : Text) → normalize_symbol s ≡ ok x → is_symbol x ≡ true
unfolding normalize_symbol
normalize_symbol-is_symbol s x h = elim (Bool-cases (is_symbol (bare_symbol (upper (strip s))))) [
  | inl e ↦ subst (λ y. is_symbol y ≡ true) (ok_injective (rw e at h)) e
  | inr e ↦ cc (rw e at h)
]

module _ (exchange asset_type symbol : Text) (d : Date) (key : Text) where
  build_identity_key_parts :
      build_identity_key exchange asset_type symbol d ≡ ok key
      → (x : Text) × (text_in (upper (strip exchange)) valid_exchanges ≡ true)
        × (normalize_symbol symbol ≡ ok x)
        × (key ≡ key_text (upper (strip exchange)) (upper (strip asset_type)) x (stamp d))
  unfolding build_identity_key
  build_identity_key_parts h =
      let (k, known, h1) =
        >>=-eq-ok (guard (text_in (upper (strip exchange)) valid_exchanges) _) _ h in
      let (n, named, h2) = >>=-eq-ok (guard (not (text_eq (upper (strip asset_type)) [])) _) _ h1 in
      let (x, normal, h3) = >>=-eq-ok (normalize_symbol symbol) _ h2 in
      (x, guard-eq-ok _ _ known, normal, sym (ok_injective h3))

  build_identity_key_fallback_parts :
      build_identity_key_fallback exchange asset_type symbol d ≡ ok key
      → (x : Text) × (text_in (upper (strip exchange)) valid_exchanges ≡ true)
        × (normalize_symbol symbol ≡ ok x)
        × (key ≡ key_text (upper (strip exchange)) (asset_or_stock asset_type) x (b'F' ∷ stamp d))
  unfolding build_identity_key_fallback
  build_identity_key_fallback_parts h =
      let (k, known, h1) =
        >>=-eq-ok (guard (text_in (upper (strip exchange)) valid_exchanges) _) _ h in
      let (x, normal, h2) = >>=-eq-ok (normalize_symbol symbol) _ h1 in
      (x, guard-eq-ok _ _ known, normal, sym (ok_injective h2))

-- The date that an identity is made from: the list date, and else the day it was first seen
unfoldable pub used : Option Date → Option Date → Option Date
used (some listed) seen = some listed
used none seen = seen

-- The asset type of the key: a fallback without one is a stock.
unfoldable pub named_asset : Option Date → Text → Text
named_asset (some listed) asset_type = upper (strip asset_type)
named_asset none asset_type = asset_or_stock asset_type

-- If resolve_security_identity returns an identity, the symbol normalizes, and the key reads back as
-- the exchange, the asset type, the normalized symbol, whether the identity is a fallback, and the
-- list date, or the day first seen where none is known. Dates have years of at most four digits.
pub resolve_round_trip :
    (uuid5 : Text → String) (exchange asset_type symbol : Text) (listed seen : Option Date)
    (day : Date) (r : ResolvedIdentity)
    → used listed seen ≡ some day
    → IsDate day
    → resolve_security_identity uuid5 exchange asset_type symbol listed seen ≡ ok r
    → (x : Text) × (normalize_symbol symbol ≡ ok x)
      × (read_key r.identity_key ≡ record {
        exchange = upper (strip exchange);
        asset_type = named_asset listed asset_type;
        symbol = x;
        fallback = is_fallback r;
        date = day;
      })
unfolding resolve_security_identity used named_asset identity_of is_fallback
resolve_round_trip uuid5 exchange asset_type symbol (some listed) seen day r u fits h =
    let (key, built, made) = >>=-eq-ok (build_identity_key exchange asset_type symbol listed) _ h in
    let (x, known, normal, same) =
      build_identity_key_parts exchange asset_type symbol listed key built in
    let back =
      read_key-key_text (upper (strip exchange)) (upper (strip asset_type)) x (stamp day) false day
        known (normalize_symbol-is_symbol symbol x normal) (stamp-is_plain day)
        (ending-stamp day fits) in
    (x, normal, cc (back, same, u, ok_injective made))
resolve_round_trip uuid5 exchange asset_type symbol none none day r u fits h = cc
resolve_round_trip uuid5 exchange asset_type symbol none (some seen) day r u fits h =
    let (key, built, made) =
      >>=-eq-ok (build_identity_key_fallback exchange asset_type symbol seen) _ h in
    let (x, known, normal, same) =
      build_identity_key_fallback_parts exchange asset_type symbol seen key built in
    let back =
      read_key-key_text (upper (strip exchange)) (asset_or_stock asset_type) x (b'F' ∷ stamp day)
        true day known (normalize_symbol-is_symbol symbol x normal) (stamp-is_plain day)
        (ending-fallback day fits) in
    (x, normal, cc (back, same, u, ok_injective made))

-- Two identities with one key, each made from a date of at most four digits in the year, agree in
-- the exchange, the normalized symbol and the date, and may be published both or not at all.
pub same_key_agrees :
    (uuid5 : Text → String) (exchange asset_type symbol exchange' asset_type' symbol' : Text)
    (listed seen listed' seen' : Option Date) (day day' : Date) (r r' : ResolvedIdentity)
    → used listed seen ≡ some day
    → used listed' seen' ≡ some day'
    → IsDate day
    → IsDate day'
    → resolve_security_identity uuid5 exchange asset_type symbol listed seen ≡ ok r
    → resolve_security_identity uuid5 exchange' asset_type' symbol' listed' seen' ≡ ok r'
    → r.identity_key ≡ r'.identity_key
    → (upper (strip exchange) ≡ upper (strip exchange'))
      × (normalize_symbol symbol ≡ normalize_symbol symbol')
      × (day ≡ day')
      × (assert_publishable r ≡ assert_publishable r')
unfolding assert_publishable
same_key_agrees uuid5 exchange asset_type symbol exchange' asset_type' symbol' listed seen listed'
      seen' day day' r r' u u' fits fits' h h' same =
    let (x, normal, back) =
      resolve_round_trip uuid5 exchange asset_type symbol listed seen day r u fits h in
    let (x', normal', back') =
      resolve_round_trip uuid5 exchange' asset_type' symbol' listed' seen' day' r' u' fits' h' in
    let fields = sym back ∙ ap read_key same ∙ back' in
    (
      ap (λ k. k.exchange) fields,
      normal ∙ ap (λ k. ok k.symbol) fields ∙ sym normal',
      ap (λ k. k.date) fields,
      ap (λ k. if k.fallback then err publish_blocked else ok tt) fields,
    )

-- An identity that was resolved either may be published, carries no flag and has a known list date,
-- or may not be published and carries the fallback flag: then no list date is known, but a day on
-- which the security was first seen.
pub publishable_cases :
    (uuid5 : Text → String) (exchange asset_type symbol : Text) (listed seen : Option Date)
    (r : ResolvedIdentity)
    → resolve_security_identity uuid5 exchange asset_type symbol listed seen ≡ ok r
    → ((assert_publishable r ≡ ok tt) × (r.quality_flags ≡ []) × ((d : Date) × (listed ≡ some d)))
      ⊎ ((assert_publishable r ≡ err publish_blocked)
          × (r.quality_flags ≡ "IDENTITY_FALLBACK" ∷ [])
          × (listed ≡ none)
          × ((d : Date) × (seen ≡ some d)))
unfolding resolve_security_identity assert_publishable identity_of
publishable_cases uuid5 exchange asset_type symbol (some d) seen r h =
    let (key, built, made) = >>=-eq-ok (build_identity_key exchange asset_type symbol d) _ h in
    let same = sym (ok_injective made) in
    inl (ap (λ x. assert_publishable x) same, ap (λ x. x.quality_flags) same, (d, refl))
publishable_cases uuid5 exchange asset_type symbol none none r h = cc
publishable_cases uuid5 exchange asset_type symbol none (some d) r h =
    let (key, built, made) =
      >>=-eq-ok (build_identity_key_fallback exchange asset_type symbol d) _ h in
    let same = sym (ok_injective made) in
    inr (ap (λ x. assert_publishable x) same, ap (λ x. x.quality_flags) same, refl, (d, refl))
