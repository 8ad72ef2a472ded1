-- ===== src/Canonical/Coded.antt =====
-- The entries of the approved code change of canonical/identity.py: no other entry that the bridge
-- makes of a row carries one of its two symbols.
use a_share_analysis.Common.{
  ◌≡◌, ◌⊎◌, refl, sym, ap, ◌∙◌, subst, String, true, false, Option, none, some, Text, codes,
  text_eq, text_eq_iff, Result, ok, err, >>=-eq-ok, ok_injective, inl, inr, Bool-cases, text_in,
  upper, strip, is_digit,
}
use a_share_analysis.Identity.{
  Date, resolve_security_identity, build_identity_key, normalize_symbol, is_symbol, bare_symbol,
  identity_of, key_text, stamp,
}
use a_share_analysis.Canonical.Bridge.{
  BridgeError, no_interval, approved_event, IdentityEntry, clean, is_event_symbol,
  event_security_id, interval_for, is_other_date, event_entry, present, plain_entry, entry_for,
  market, listed_entry, id_of,
}

-- The id of the code change: the UUID of its key
abbrev pub event_id : (Text → String) → String
event_id uuid5 = uuid5 (codes "SZSE:STOCK:300114:20100827")

abbrev pub old_entry : (Text → String) → IdentityEntry
old_entry uuid5 = record {
  security_id = event_id uuid5;
  provider_symbol = approved_event.old_provider_symbol;
  valid_from = approved_event.original_list_date;
  valid_to = some approved_event.effective_from;
}

abbrev pub new_entry : (Text → String) → IdentityEntry
new_entry uuid5 = record {
  security_id = event_id uuid5;
  provider_symbol = approved_event.new_provider_symbol;
  valid_from = approved_event.effective_from;
  valid_to = none;
}

event_security_id_lem : (uuid5 : Text → String) → event_security_id uuid5 ≡ ok (event_id uuid5)
unfolding event_security_id resolve_security_identity build_identity_key text_in upper strip
    normalize_symbol is_symbol bare_symbol is_digit identity_of key_text stamp
event_security_id_lem uuid5 = refl

-- Only the two entries of the code change carry its symbols.
abbrev pub Coded : (Text → String) → IdentityEntry → Type 0
Coded uuid5 e =
    ((text_eq e.provider_symbol approved_event.old_provider_symbol ≡ false) ⊎ (e ≡ old_entry uuid5))
    × ((text_eq e.provider_symbol approved_event.new_provider_symbol ≡ false)
        ⊎ (e ≡ new_entry uuid5))

module _ (uuid5 : Text → String) where
  pub event_entry-eq_ok :
      (symbol : Text) (from : Date) (to : Option Date)
      → event_entry uuid5 symbol (some (from, to))
        ≡ ok (record {
          security_id = event_id uuid5;
          provider_symbol = symbol;
          valid_from = from;
          valid_to = to;
        })
  unfolding event_entry
  event_entry-eq_ok symbol from to = rw (event_security_id_lem uuid5) refl

  pub old_interval :
      interval_for (clean approved_event.old_provider_symbol)
      ≡ some (approved_event.original_list_date, some approved_event.effective_from)
  unfolding interval_for text_eq upper strip
  old_interval = refl

  pub new_interval :
      interval_for (clean approved_event.new_provider_symbol)
      ≡ some (approved_event.effective_from, none)
  unfolding interval_for text_eq upper strip
  new_interval = refl

  pub symbols_known :
      (is_event_symbol (clean approved_event.old_provider_symbol) ≡ true)
      × (is_event_symbol (clean approved_event.new_provider_symbol) ≡ true)
  unfolding is_event_symbol text_eq upper strip
  symbols_known = (refl, refl)

  entry_for-old :
      (d : Option Date) (e : IdentityEntry)
      → entry_for uuid5 approved_event.old_provider_symbol d ≡ ok (some e)
      → e ≡ old_entry uuid5
  unfolding entry_for
  entry_for-old d e h = elim (Bool-cases (is_other_date d)) [
    | inl other ↦ cc (rw (symbols_known.0, other) at h)
    | inr same ↦ cc (rw (symbols_known.0, same, old_interval, event_entry-eq_ok) at h)
  ]

  entry_for-new :
      (d : Option Date) (e : IdentityEntry)
      → entry_for uuid5 approved_event.new_provider_symbol d ≡ ok (some e)
      → e ≡ new_entry uuid5
  unfolding entry_for
  entry_for-new d e h = elim (Bool-cases (is_other_date d)) [
    | inl other ↦ cc (rw (symbols_known.1, other) at h)
    | inr same ↦ cc (rw (symbols_known.1, same, new_interval, event_entry-eq_ok) at h)
  ]

  symbol-listed_entry :
      (symbol : Text) (d : Date) (m : Option (Text × Text)) (e : IdentityEntry)
      → listed_entry uuid5 symbol d m ≡ ok e
      → e.provider_symbol ≡ symbol
  unfolding listed_entry
  symbol-listed_entry symbol d none e h = cc
  symbol-listed_entry symbol d (some (exchange, code)) e h =
      let (id, f, g) =
        >>=-eq-ok (id_of (resolve_security_identity uuid5 exchange _ code _ _)) _ h in
      ap (λ x. x.provider_symbol) (sym (ok_injective g))

  symbol-event_entry :
      (symbol : Text) (i : Option (Date × Option Date)) (e : IdentityEntry)
      → event_entry uuid5 symbol i ≡ ok e
      → e.provider_symbol ≡ symbol
  symbol-event_entry symbol none e h =
      let g : err (no_interval symbol) ≡ ok e = unfold event_entry in h in cc
  symbol-event_entry symbol (some (from, to)) e h = cc (h, event_entry-eq_ok symbol from to)

  present-eq_ok :
      (r : Result BridgeError IdentityEntry) (e : IdentityEntry)
      → present r ≡ ok (some e)
      → r ≡ ok e
  present-eq_ok (ok x) e h = cc h
  present-eq_ok (err x) e h = cc

  symbol-plain_entry :
      (symbol : Text) (d : Option Date) (e : IdentityEntry)
      → plain_entry uuid5 symbol d ≡ ok (some e)
      → e.provider_symbol ≡ symbol
  unfolding plain_entry
  symbol-plain_entry symbol none e h = cc
  symbol-plain_entry symbol (some d) e h =
      symbol-listed_entry symbol d (market symbol) e
        (present-eq_ok (listed_entry uuid5 symbol d (market symbol)) e h)

  symbol-entry_for :
      (symbol : Text) (d : Option Date) (e : IdentityEntry)
      → entry_for uuid5 symbol d ≡ ok (some e)
      → e.provider_symbol ≡ symbol
  unfolding entry_for
  symbol-entry_for symbol d e h = elim (Bool-cases (is_event_symbol (clean symbol))) [
    | inr none_such ↦ symbol-plain_entry symbol d e (rw none_such at h)
    | inl event ↦ elim (Bool-cases (is_other_date d)) [
      | inl other ↦ cc (rw (event, other) at h)
      | inr same ↦ symbol-event_entry symbol (interval_for (clean symbol)) e (
          present-eq_ok (event_entry uuid5 symbol (interval_for (clean symbol))) e
            (rw (event, same) at h))
    ]
  ]

  pub entry_for-Coded :
      (symbol : Text) (d : Option Date) (e : IdentityEntry)
      → entry_for uuid5 symbol d ≡ ok (some e)
      → Coded uuid5 e
  entry_for-Coded symbol d e h =
      let own = symbol-entry_for symbol d e h in
      (
        elim (Bool-cases (text_eq e.provider_symbol approved_event.old_provider_symbol)) [
          | inr f ↦ inl f
          | inl f ↦
              let same = (text_eq_iff e.provider_symbol approved_event.old_provider_symbol).0 f in
              inr (
                entry_for-old d e
                  (subst (λ x. entry_for uuid5 x d ≡ ok (some e)) (sym own ∙ same) h))
        ],
        elim (Bool-cases (text_eq e.provider_symbol approved_event.new_provider_symbol)) [
          | inr f ↦ inl f
          | inl f ↦
              let same = (text_eq_iff e.provider_symbol approved_event.new_provider_symbol).0 f in
              inr (
                entry_for-new d e
                  (subst (λ x. entry_for uuid5 x d ≡ ok (some e)) (sym own ∙ same) h))
        ],
      )
