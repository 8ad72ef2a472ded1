-- ===== src/Samples/Versions.antt =====
-- The activation of versions on a concrete store.
use a_share_analysis.Common.{String, ◌≡◌, refl, [], ◌∷◌, ok}
use a_share_analysis.Versions.{Store, status_of, hash_of, activate_feature_set, activate_universe}
use a_share_analysis.Versions.Immutable.{
  IsActivated, IsFixed, activate_feature_set-IsActivated, activate_universe-IsFixed,
}

-- a digest that tells two texts apart
abbrev same_text : String → String
same_text t = t

abbrev store_with : (status : String) → Store
store_with status = record {
  feature_sets =
      record { feature_set_version = "f1"; status = "ACTIVE" }
      ∷ record { feature_set_version = "f2"; status = status }
      ∷ [];
  universes = record { universe_id = "all"; universe_version = "1"; rule_json = "rule" } ∷ [];
  activations = [];
}

abbrev activated : Store
activated = record (store_with "DRAFT") {
  activations =
      record {
        universe_id = "all";
        universe_version = "1";
        rule_hash = "rule";
        activated_at = "t1";
      }
      ∷ [];
}

set_activates : activate_feature_set (store_with "DRAFT") "f2" ≡ ok (store_with "ACTIVE")
unfolding activate_feature_set status_of
set_activates = refl

universe_activates : activate_universe same_text (store_with "DRAFT") "all" "1" "t1" ≡ ok activated
unfolding activate_universe hash_of
universe_activates = refl

activate_feature_set-IsActivated_example :
    IsActivated "f2" (store_with "DRAFT") (store_with "ACTIVE")
activate_feature_set-IsActivated_example =
    activate_feature_set-IsActivated (store_with "DRAFT") "f2" (store_with "ACTIVE") set_activates

activate_universe-IsFixed_example : IsFixed same_text "all" "1" (store_with "DRAFT") activated
activate_universe-IsFixed_example =
    activate_universe-IsFixed same_text (store_with "DRAFT") "all" "1" "t1" activated
      universe_activates
