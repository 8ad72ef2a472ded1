-- ===== src/Canonical/Lookup.antt =====
-- IdentityBridge.resolve of canonical/identity.py.
use a_share_analysis.Common.{
  String, Bool, true, false, not, ◌&&◌, Option, none, some, List, [], ◌∷◌, ◌++◌, keep, any, all,
  str_eq, Text, codes, text_eq, ◌==◌, if◌then◌else◌,
}
use a_share_analysis.Identity.{Date}
use a_share_analysis.Canonical.Bridge.{IdentityEntry, date_leb, date_eq, clean}

-- self._by_symbol.get(symbol, [])
unfoldable pub entries_of : List IdentityEntry → Text → List IdentityEntry
entries_of entries symbol = keep (λ e. text_eq e.provider_symbol symbol) entries

-- `e.valid_to is None or trade_date < e.valid_to`
abbrev pub is_open : Date → Option Date → Bool
is_open day none = true
is_open day (some t) = not (date_leb t day)

unfoldable pub valid_at : Date → IdentityEntry → Bool
valid_at day e = date_leb e.valid_from day && is_open day e.valid_to

-- max(e.valid_from for e in entries), for the entries e and those behind it
unfoldable pub latest : IdentityEntry → List IdentityEntry → Date
latest e [] = e.valid_from
latest e (x ∷ xs) =
    let rest = latest x xs in if date_leb e.valid_from rest then rest else e.valid_from

-- The one id of the candidates, if there is one
unfoldable pub agreed : List IdentityEntry → Option String
agreed [] = none
agreed (e ∷ es) =
    if all (λ x. str_eq x.security_id e.security_id) es then some e.security_id else none

abbrev pub latest_of : List IdentityEntry → List IdentityEntry
latest_of [] = []
latest_of (e ∷ es) = keep (λ x. date_eq x.valid_from (latest e es)) (e ∷ es)

-- From the entries of a symbol to its id at a date
unfoldable pub resolve_among : Date → List IdentityEntry → Option String
resolve_among day entries = agreed (latest_of (keep (valid_at day) entries))

abbrev pub is_nil : List IdentityEntry → Bool
is_nil [] = true
is_nil (e ∷ es) = false

-- The entries of a bare code: those of the one market in which it is known
unfoldable pub bare_entries : List IdentityEntry → Text → List IdentityEntry
bare_entries entries symbol =
    let sh = entries_of entries (symbol ++ codes ".SH") in
    let sz = entries_of entries (symbol ++ codes ".SZ") in
    let bj = entries_of entries (symbol ++ codes ".BJ") in
    if is_nil sz && is_nil bj
    then sh
    else if is_nil sh && is_nil bj
    then sz
    else if is_nil sh && is_nil sz
    then bj
    else []

unfoldable pub resolve : List IdentityEntry → Text → Date → Option String
resolve entries provider_symbol day =
    if any (λ c. c == b'.') (clean provider_symbol)
    then resolve_among day (entries_of entries (clean provider_symbol))
    else resolve_among day (bare_entries entries (clean provider_symbol))
