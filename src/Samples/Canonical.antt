-- ===== src/Samples/Canonical.antt =====
-- The pass over the daily bars: two sources that agree on one key, and a row of the future.
use a_share_analysis.Common.{
  none, Text, ok, err, Result, text_in, upper, strip, is_digit, if◌then◌else◌, ◌&&◌, not, ◌≡◌, refl,
  ℕ, String, true, some, List, [], ◌∷◌, codes, arith, Memᴰ, any, text_eq, keep, sort_by, text_leb,
  lex,
}
use a_share_analysis.Canonical.Policy.{default_policy}
use a_share_analysis.Canonical.Select.{
  Json, InputRunSeal, Candidate, resolved, canonical_row, is_usable, keys_from, group, preferred,
  payload_equal, priority, key_eq, decision,
}
use a_share_analysis.Canonical.Run.{
  DomainPass, domain_pass, is_success, select, settle_keys, settle_group, sorted_group, sorted_keys,
  compare_all, compared, duplicates, input_findings, missing_findings, missing_count, is_blocking,
  marker_eq, conflict_of, domain_finding, duplicate_of, excluded,
}
use a_share_analysis.Canonical.Chosen.{Before, IsCandidate, IsSelection, domain_pass-IsSelection}
use a_share_analysis.Canonical.Agreement.{success-Agreed}
use a_share_analysis.Identity.{
  Date, resolve_security_identity, build_identity_key, normalize_symbol, is_symbol, bare_symbol,
  identity_of, key_text, stamp,
}
use a_share_analysis.Canonical.Bridge.{
  BridgeError, IdentityEntry, MasterRow, approved_event, date_leb, identity_bridge, add_rows,
  add_row, add_entry, entry_for, plain_entry, listed_entry, market, event_entry, event_security_id,
  interval_for, is_other_date, is_event_symbol, entry_eq, date_eq, valid_to_eq,
}
use a_share_analysis.Canonical.Lookup.{resolve}
use a_share_analysis.Canonical.CodeChange.{resolve_code_change}

-- Payloads are the texts of their JSON.
abbrev json : Json String
json = record { payload_json = codes; key_json = λ k. codes (elim k [ [] ↦ "" | a ∷ rest ↦ a ]) }

abbrev pass : DomainPass
pass = record {
  domain = "daily_bar";
  requires_security_identity = true;
  policy = default_policy "daily_bar";
}

abbrev seal : String → InputRunSeal
seal run = record {
  run_id = run;
  provider = "amazingdata";
  raw_request_id = "r1";
  raw_evidence_hash = "e1";
  mapper_identity = "mapper-1";
  normalized_manifest_hash = run;
}

abbrev bar : String → String → ℕ → Candidate String
bar run payload available_at = record {
  domain = "daily_bar";
  key = "id-1" ∷ "2026-01-05" ∷ [];
  key_text = codes "[\"id-1\",\"2026-01-05\"]";
  identity_status = resolved;
  security_id = some "id-1";
  trade_date = 5;
  payload = payload;
  provider = "amazingdata";
  seal = seal run;
  output_name = "daily_bar";
  ordinal = 0;
  row_identity = "h1";
  available_at = available_at;
  received_at = available_at;
  run_manifest_hash = run;
}

abbrev bars : List (Candidate String)
bars = bar "run-b" "10.5" 6 ∷ bar "run-a" "10.5" 7 ∷ bar "run-c" "11.0" 9 ∷ []

domain_pass-IsSelection_example :
    IsSelection pass 8 bars (domain_pass json pass 8 true true bars).rows
domain_pass-IsSelection_example = domain_pass-IsSelection json pass 8 true true bars

bars_succeed : is_success (domain_pass json pass 8 true true bars).findings ≡ true
unfolding is_success any domain_pass input_findings keep select settle_keys sorted_keys sort_by
    keys_from is_usable settle_group sorted_group group preferred priority text_leb compare_all
    compared conflict_of domain_finding duplicate_of duplicates excluded is_blocking marker_eq
    missing_count missing_findings canonical_row decision key_eq payload_equal lex text_eq
bars_succeed = refl

success-Agreed_example :
    (w : Candidate String) × IsCandidate 8 bars w
    × Memᴰ (canonical_row "daily_bar" true w) (domain_pass json pass 8 true true bars).rows
    × (w.key ≡ "id-1" ∷ "2026-01-05" ∷ [])
    × Before (default_policy "daily_bar") w (bar "run-a" "10.5" 7)
    × (codes w.payload ≡ codes "10.5")
success-Agreed_example =
    success-Agreed json pass 8 true true bars (bar "run-a" "10.5" 7) refl bars_succeed
      (Memᴰ.tail (Memᴰ.head refl)) (omega arith)

abbrev key_id : Text → String
key_id key = elim key [ [] ↦ "no key" | c ∷ rest ↦ "id of a key" ]

abbrev master : List MasterRow
master =
    record {
      provider_symbol = codes "000001.SZ";
      list_date = ok (some (record { year = 1991; month = 4; day = 3 }));
    }
    ∷ record {
      provider_symbol = codes " 302132.sz";
      list_date = ok (some (record { year = 2010; month = 8; day = 27 }));
    }
    ∷ []

abbrev entries_in : Result BridgeError (List IdentityEntry) → List IdentityEntry
entries_in (ok entries) = entries
entries_in (err e) = []

abbrev bridge : List IdentityEntry
bridge = entries_in (identity_bridge key_id master)

bridge_built : identity_bridge key_id master ≡ ok bridge
unfolding identity_bridge add_rows add_row add_entry entry_for plain_entry listed_entry market
    event_entry event_security_id interval_for is_other_date is_event_symbol entry_eq date_eq
    valid_to_eq resolve_security_identity build_identity_key text_in upper strip normalize_symbol
    is_symbol bare_symbol is_digit identity_of key_text stamp text_eq any
bridge_built = refl

abbrev last_old_day : Date
last_old_day = record { year = 2025; month = 2; day = 16 }

resolve_code_change_example :
    (resolve bridge (codes "300114.SZ") last_old_day ≡ (
      if date_leb approved_event.original_list_date last_old_day
        && not (date_leb approved_event.effective_from last_old_day)
      then some "id of a key"
      else none))
    × (resolve bridge (codes "302132.SZ") last_old_day ≡ (
        if date_leb approved_event.effective_from last_old_day then some "id of a key" else none))
resolve_code_change_example = resolve_code_change key_id master bridge last_old_day bridge_built
