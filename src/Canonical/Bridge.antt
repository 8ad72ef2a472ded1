-- ===== src/Canonical/Bridge.antt =====
-- canonical/identity.py: the approved code change, the bridge from provider symbols to security ids
-- that is built of the rows of the security master, and its resolution at a date. The dates of the
-- rows are read by an argument's outcome, and the UUID of a key is an argument.
use a_share_analysis.Common.{
  ℕ, ◌+◌, ◌*◌, String, Bool, true, false, not, ◌&&◌, ◌||◌, Option, none, some, List, [], ◌∷◌, ◌++◌,
  any, leb, ◌==◌, str_eq, Text, codes, text_eq, strip, upper, reverse, Result, ok, err, ◌>>=◌,
  if◌then◌else◌,
}
use a_share_analysis.Identity.{
  Date, IdentityError, ResolvedIdentity, asset_type_stock, resolve_security_identity,
}

-- What building a bridge raises
pub data BridgeError : Type 0 where
  unparsable_date : BridgeError
  event_list_date : (symbol : Text) → BridgeError
  unknown_suffix : (symbol : Text) → BridgeError
  no_interval : (symbol : Text) → BridgeError
  identity : IdentityError → BridgeError

pub record ApprovedIdentityEvent : Type 0 where
  pub old_provider_symbol : Text
  pub new_provider_symbol : Text
  pub initial_symbol : Text
  pub effective_from : Date
  pub original_list_date : Date
  pub exchange : Text

-- The one element of _APPROVED_PROVIDER_IDENTITY_EVENTS; its initial symbol is what stands before the
-- first dot of the old symbol.
abbrev pub approved_event : ApprovedIdentityEvent
approved_event = record {
  old_provider_symbol = codes "300114.SZ";
  new_provider_symbol = codes "302132.SZ";
  initial_symbol = codes "300114";
  effective_from = record { year = 2025; month = 2; day = 17 };
  original_list_date = record { year = 2010; month = 8; day = 27 };
  exchange = codes "SZSE";
}

pub record IdentityEntry : Type 0 where
  pub security_id : String
  pub provider_symbol : Text
  pub valid_from : Date
  pub valid_to : Option Date

-- A row of the security master: its symbol, and what _as_date makes of its list date if it has one
pub record MasterRow : Type 0 where
  pub provider_symbol : Text
  pub list_date : Result BridgeError (Option Date)

-- A number that orders dates with months and days below 100
unfoldable pub date_number : Date → ℕ
date_number d = (d.year * 100 + d.month) * 100 + d.day

unfoldable pub date_leb : Date → Date → Bool
date_leb a b = leb (date_number a) (date_number b)

unfoldable pub date_eq : Date → Date → Bool
date_eq a b = a.year == b.year && a.month == b.month && a.day == b.day

abbrev pub clean : Text → Text
clean symbol = upper (strip symbol)

unfoldable pub is_event_symbol : Text → Bool
is_event_symbol symbol =
    text_eq symbol approved_event.old_provider_symbol
    || text_eq symbol approved_event.new_provider_symbol

abbrev pub id_of : Result IdentityError ResolvedIdentity → Result BridgeError String
id_of (ok r) = ok r.security_id
id_of (err e) = err (identity e)

-- ApprovedIdentityEvent.security_id
unfoldable pub event_security_id : (Text → String) → Result BridgeError String
event_security_id uuid5 = id_of (
    resolve_security_identity uuid5 approved_event.exchange asset_type_stock
      approved_event.initial_symbol (some approved_event.original_list_date) none)

-- ApprovedIdentityEvent.interval_for
unfoldable pub interval_for : Text → Option (Date × Option Date)
interval_for symbol =
    if text_eq symbol approved_event.old_provider_symbol
    then some (approved_event.original_list_date, some approved_event.effective_from)
    else if text_eq symbol approved_event.new_provider_symbol
    then some (approved_event.effective_from, none)
    else none

-- `list_date is not None and list_date != event.original_list_date`
unfoldable pub is_other_date : Option Date → Bool
is_other_date none = false
is_other_date (some d) = not (date_eq d approved_event.original_list_date)

unfoldable pub event_entry :
    (Text → String) → Text → Option (Date × Option Date) → Result BridgeError IdentityEntry
event_entry uuid5 symbol none = err (no_interval symbol)
event_entry uuid5 symbol (some (valid_from, valid_to)) = event_security_id uuid5 >>= λ id.
    ok (record {
      security_id = id;
      provider_symbol = symbol;
      valid_from = valid_from;
      valid_to = valid_to;
    })

-- symbol[symbol.rfind("."):] and symbol[:symbol.rfind(".")], by the three known suffixes, and the
-- exchange of the suffix
unfoldable pub market : Text → Option (Text × Text)
market symbol = elim (reverse symbol) [
  | [] ↦ none
  | a ∷ s ↦ elim s [
    | [] ↦ none
    | b ∷ t ↦ elim t [
      | [] ↦ none
      | c ∷ code ↦
          let suffix = c ∷ b ∷ a ∷ [] in
          if text_eq suffix (codes ".SH")
          then some (codes "SSE", reverse code)
          else if text_eq suffix (codes ".SZ")
          then some (codes "SZSE", reverse code)
          else if text_eq suffix (codes ".BJ")
          then some (codes "BSE", reverse code)
          else none
    ]
  ]
]

unfoldable pub listed_entry :
    (Text → String) → Text → Date → Option (Text × Text) → Result BridgeError IdentityEntry
listed_entry uuid5 symbol list_date none = err (unknown_suffix symbol)
listed_entry uuid5 symbol list_date (some (exchange, code)) =
    id_of (resolve_security_identity uuid5 exchange asset_type_stock code (some list_date) none)
    >>= λ id. ok (record {
      security_id = id;
      provider_symbol = symbol;
      valid_from = list_date;
      valid_to = none;
    })

abbrev pub present : Result BridgeError IdentityEntry → Result BridgeError (Option IdentityEntry)
present (ok e) = ok (some e)
present (err e) = err e

-- An entry of a symbol without an approved event
unfoldable pub plain_entry :
    (Text → String) → Text → Option Date → Result BridgeError (Option IdentityEntry)
plain_entry uuid5 symbol none = ok none
plain_entry uuid5 symbol (some list_date) =
    present (listed_entry uuid5 symbol list_date (market symbol))

-- _entry_for_provider_symbol
unfoldable pub entry_for :
    (Text → String) → Text → Option Date → Result BridgeError (Option IdentityEntry)
entry_for uuid5 symbol list_date =
    if is_event_symbol (clean symbol)
    then if is_other_date list_date
      then err (event_list_date symbol)
      else present (event_entry uuid5 symbol (interval_for (clean symbol)))
    else plain_entry uuid5 symbol list_date

unfoldable pub valid_to_eq : Option Date → Option Date → Bool
valid_to_eq none none = true
valid_to_eq (some a) (some b) = date_eq a b
valid_to_eq _ _ = false

unfoldable pub entry_eq : IdentityEntry → IdentityEntry → Bool
entry_eq a b =
    str_eq a.security_id b.security_id
    && text_eq a.provider_symbol b.provider_symbol
    && date_eq a.valid_from b.valid_from
    && valid_to_eq a.valid_to b.valid_to

-- _add_entry on the entries in their order; those of one symbol are the ones that carry it
unfoldable pub add_entry : List IdentityEntry → Option IdentityEntry → List IdentityEntry
add_entry entries none = entries
add_entry entries (some e) = if any (entry_eq e) entries then entries else entries ++ e ∷ []

-- One row of the master
unfoldable pub add_row :
    (Text → String) → List IdentityEntry → MasterRow → Result BridgeError (List IdentityEntry)
add_row uuid5 entries row =
    if text_eq (clean row.provider_symbol) []
    then ok entries
    else row.list_date >>= λ d.
        entry_for uuid5 (clean row.provider_symbol) d >>= λ e. ok (add_entry entries e)

unfoldable pub add_rows :
    (Text → String) → List IdentityEntry → List MasterRow → Result BridgeError (List IdentityEntry)
add_rows uuid5 entries [] = ok entries
add_rows uuid5 entries (row ∷ rows) = add_row uuid5 entries row >>= λ more. add_rows uuid5 more rows

-- IdentityBridge(master_rows)
unfoldable pub identity_bridge :
    (Text → String) → List MasterRow → Result BridgeError (List IdentityEntry)
identity_bridge uuid5 rows = add_rows uuid5 [] rows >>= λ entries.
    entry_for uuid5 approved_event.old_provider_symbol none >>= λ old.
    entry_for uuid5 approved_event.new_provider_symbol none >>= λ new.
    ok (add_entry (add_entry entries old) new)
