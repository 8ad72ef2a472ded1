-- ===== src/Versions.antt =====
-- storage/versioning.py: the activation of feature sets and universes. The three tables that it
-- reads and writes are lists of rows in the order of their insertion; the SHA-256 digest of a text
-- is a parameter, and the time of an activation an argument.
pub mod Immutable
use a_share_analysis.Common.{
  String, Bool, true, false, not, ◌&&◌, ◌||◌, Option, none, some, List, [], ◌∷◌, ◌++◌, map, Result,
  ok, err, str_eq, Text, if◌then◌else◌,
}

-- Every VersioningError that the functions raise
pub data VersioningError : Type 0 where
  set_not_registered set_already_active set_not_draft members_immutable : VersioningError
  universe_not_registered rule_changed rule_immutable not_validated : VersioningError

pub record FeatureSetRow : Type 0 where
  pub feature_set_version : String
  pub status : String

pub record UniverseRow : Type 0 where
  pub universe_id : String
  pub universe_version : String
  pub rule_json : String

pub record ActivationRow : Type 0 where
  pub universe_id : String
  pub universe_version : String
  pub rule_hash : String
  pub activated_at : String

-- meta_feature_set, dim_universe and universe_activation
pub record Store : Type 0 where
  pub feature_sets : List FeatureSetRow
  pub universes : List UniverseRow
  pub activations : List ActivationRow

-- SELECT status ... fetchone(): the first row of the version
unfoldable pub status_of : String → List FeatureSetRow → Option String
status_of version [] = none
status_of version (r ∷ rows) =
    let later = status_of version rows in
    if str_eq r.feature_set_version version then some r.status else later

-- UPDATE ... SET status = 'ACTIVE' WHERE feature_set_version = ?
unfoldable pub set_active : String → List FeatureSetRow → List FeatureSetRow
set_active version [] = []
set_active version (r ∷ rows) =
    (if str_eq r.feature_set_version version then record r { status = "ACTIVE" } else r)
    ∷ set_active version rows

activate_status : Store → String → Option String → Result VersioningError Store
unfolding set_active
activate_status s version none = err set_not_registered
activate_status s version (some status) =
    if str_eq status "ACTIVE"
    then err set_already_active
    else if not (str_eq status "DRAFT")
    then err set_not_draft
    else ok (record s { feature_sets = set_active version s.feature_sets })

unfoldable pub activate_feature_set : Store → String → Result VersioningError Store
unfolding activate_status
activate_feature_set s version = activate_status s version (status_of version s.feature_sets)

-- assert_feature_set_members_mutable, on the status
unfoldable pub mutable_status : Option String → Result VersioningError (Unit {0})
mutable_status none = ok tt
mutable_status (some status) =
    if str_eq status "ACTIVE" || str_eq status "RETIRED" then err members_immutable else ok tt

unfoldable pub assert_feature_set_members_mutable :
    Store → String → Result VersioningError (Unit {0})
unfolding mutable_status
assert_feature_set_members_mutable s version = mutable_status (status_of version s.feature_sets)

unfoldable pub rule_of : (universe_id universe_version : String) → List UniverseRow → Option String
rule_of universe_id universe_version [] = none
rule_of universe_id universe_version (r ∷ rows) =
    let later = rule_of universe_id universe_version rows in
    if str_eq r.universe_id universe_id && str_eq r.universe_version universe_version
    then some r.rule_json
    else later

unfoldable pub hash_of :
    (universe_id universe_version : String) → List ActivationRow → Option String
hash_of universe_id universe_version [] = none
hash_of universe_id universe_version (r ∷ rows) =
    let later = hash_of universe_id universe_version rows in
    if str_eq r.universe_id universe_id && str_eq r.universe_version universe_version
    then some r.rule_hash
    else later

-- `digest` is hashlib.sha256(text.encode()).hexdigest().
module _ (digest : String → String) where
  -- INSERT, or nothing where the same rule is there
  activate_hash :
      Store
      → (universe_id universe_version rule_hash now : String) → Option String
      → Result VersioningError Store
  activate_hash s universe_id universe_version rule_hash now none = ok (record s {
    activations =
        s.activations
        ++ record {
          universe_id = universe_id;
          universe_version = universe_version;
          rule_hash = rule_hash;
          activated_at = now;
        }
          ∷ [];
  })
  activate_hash s universe_id universe_version rule_hash now (some existing) =
      if str_eq existing rule_hash then ok s else err rule_changed

  activate_rule :
      Store
      → (universe_id universe_version now : String) → Option String
      → Result VersioningError Store
  unfolding activate_hash
  activate_rule s universe_id universe_version now none = err universe_not_registered
  activate_rule s universe_id universe_version now (some rule_json) =
      activate_hash s universe_id universe_version (digest rule_json) now
        (hash_of universe_id universe_version s.activations)

  unfoldable pub activate_universe :
      Store → (universe_id universe_version now : String) → Result VersioningError Store
  unfolding activate_rule rule_of
  activate_universe s universe_id universe_version now =
      activate_rule s universe_id universe_version now
        (rule_of universe_id universe_version s.universes)

  rule_mutable : String → Option String → Result VersioningError (Unit {0})
  rule_mutable rule_json none = ok tt
  rule_mutable rule_json (some existing) =
      if not (str_eq (digest rule_json) existing) then err rule_immutable else ok tt

  unfoldable pub assert_universe_rule_mutable :
      Store → (universe_id universe_version rule_json : String) → Result VersioningError (Unit {0})
  unfolding rule_mutable
  assert_universe_rule_mutable s universe_id universe_version rule_json =
      rule_mutable rule_json (hash_of universe_id universe_version s.activations)

-- assert_snapshot_insert_validated
unfoldable pub assert_snapshot_insert_validated : String → Result VersioningError (Unit {0})
assert_snapshot_insert_validated status =
    if str_eq status "DATA_VALIDATED" then ok tt else err not_validated

-- assert_artifact_insert_validated
unfoldable pub assert_artifact_insert_validated : String → Result VersioningError (Unit {0})
assert_artifact_insert_validated status =
    if str_eq status "FEATURE_VALIDATED" then ok tt else err not_validated
