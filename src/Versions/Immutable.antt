-- ===== src/Versions/Immutable.antt =====
-- What an activation of storage/versioning.py fixes.
use a_share_analysis.Common.{
  String, ◌≡◌, refl, sym, ◌∙◌, ap, subst, ◌≢◌, true, false, ◌&&◌, Option, none, some, List, [], ◌∷◌,
  ◌++◌, ok, err, ok_injective, Bool-cases, inl, inr, str_eq, eq_iff,
}
use a_share_analysis.Versions.{
  members_immutable, set_already_active, FeatureSetRow, ActivationRow, Store, status_of, set_active,
  activate_status, activate_feature_set, mutable_status, assert_feature_set_members_mutable,
  rule_of, hash_of, activate_hash, activate_rule, activate_universe, assert_universe_rule_mutable,
  rule_immutable,
}

status_of-set_active :
    (version : String) (rows : List FeatureSetRow) {status : String}
    → status_of version rows ≡ some status
    → status_of version (set_active version rows) ≡ some "ACTIVE"
unfolding status_of set_active
status_of-set_active version [] h = cc
status_of-set_active version (r ∷ rows) h =
    elim (Bool-cases (str_eq r.feature_set_version version)) [
      | inl e ↦ rw (e, e) refl
      | inr e ↦ rw (e, e) (status_of-set_active version rows (rw e at h))
    ]

status_of-other :
    (version other : String) (rows : List FeatureSetRow)
    → str_eq version other ≡ false
    → status_of other (set_active version rows) ≡ status_of other rows
unfolding status_of set_active
status_of-other version other [] n = refl
status_of-other version other (r ∷ rows) n =
    elim (Bool-cases (str_eq r.feature_set_version version)) [
      | inl e ↦
          let differs : str_eq r.feature_set_version other ≡ false =
            subst (λ v. str_eq v other ≡ false) (sym ((eq_iff r.feature_set_version version).0 e))
              n in
          rw (e, differs) (status_of-other version other rows n)
      | inr e ↦ elim (Bool-cases (str_eq r.feature_set_version other)) [
        | inl f ↦ rw (e, f) refl
        | inr f ↦ rw (e, f) (status_of-other version other rows n)
      ]
    ]

hash_of-append :
    (u v : String) (rows more : List ActivationRow) {h : String}
    → hash_of u v rows ≡ some h
    → hash_of u v (rows ++ more) ≡ some h
unfolding hash_of
hash_of-append u v [] more e = cc
hash_of-append u v (r ∷ rows) more e =
    elim (Bool-cases (str_eq r.universe_id u && str_eq r.universe_version v)) [
      | inl f ↦ rw f (rw f at e)
      | inr f ↦ rw f (hash_of-append u v rows more (rw f at e))
    ]

hash_of-last :
    (u v : String) (rows : List ActivationRow) (r : ActivationRow)
    → hash_of u v rows ≡ none
    → (str_eq r.universe_id u && str_eq r.universe_version v) ≡ true
    → hash_of u v (rows ++ r ∷ []) ≡ some r.rule_hash
unfolding hash_of
hash_of-last u v [] r e n = rw n refl
hash_of-last u v (q ∷ rows) r e n =
    elim (Bool-cases (str_eq q.universe_id u && str_eq q.universe_version v)) [
      | inl f ↦ cc (rw f at e)
      | inr f ↦ rw f (hash_of-last u v rows r (rw f at e) n)
    ]

activate_status-eq-ok :
    (s : Store) (version : String) (o : Option String) {s' : Store}
    → activate_status s version o ≡ ok s'
    → (o ≡ some "DRAFT") × (record s { feature_sets = set_active version s.feature_sets } ≡ s')
unfolding activate_status
activate_status-eq-ok s version none h = cc
activate_status-eq-ok s version (some status) h = elim (Bool-cases (str_eq status "ACTIVE")) [
  | inl e ↦ cc (rw e at h)
  | inr e ↦ elim (Bool-cases (str_eq status "DRAFT")) [
    | inl f ↦ (ap some ((eq_iff status "DRAFT").0 f), ok_injective (rw (e, f) at h))
    | inr f ↦ cc (rw (e, f) at h)
  ]
]

-- What an activated feature set of the new store is
pub record IsActivated (version : String) (s s' : Store) : Type 0 where
  pub was_draft : status_of version s.feature_sets ≡ some "DRAFT"
  pub is_active : status_of version s'.feature_sets ≡ some "ACTIVE"
  pub members_fixed : assert_feature_set_members_mutable s' version ≡ err members_immutable
  pub only_once : activate_feature_set s' version ≡ err set_already_active
  pub others_kept :
      (other : String)
      → str_eq version other ≡ false
      → status_of other s'.feature_sets ≡ status_of other s.feature_sets
  pub universes_kept : (s'.universes ≡ s.universes) × (s'.activations ≡ s.activations)

-- A feature set is activated only out of DRAFT; then it is ACTIVE, its members are refused as
-- immutable, a second activation is refused, and all other sets and the universes are as before.
pub activate_feature_set-IsActivated :
    (s : Store) (version : String) (s' : Store)
    → activate_feature_set s version ≡ ok s'
    → IsActivated version s s'
unfolding activate_feature_set assert_feature_set_members_mutable activate_status mutable_status
activate_feature_set-IsActivated s version s' h =
    let (draft, same) = activate_status-eq-ok s version (status_of version s.feature_sets) h in
    let active = status_of-set_active version s.feature_sets draft in
    subst (IsActivated version s) same (record {
      was_draft = draft;
      is_active = active;
      members_fixed = rw active refl;
      only_once = rw active refl;
      others_kept = λ other n. status_of-other version other s.feature_sets n;
      universes_kept = (refl, refl);
    })

-- What a universe's activation fixes in the new store
pub record IsFixed (digest : String → String) (u v : String) (s s' : Store) : Type 0 where
  pub rule : String
  pub rule_is : rule_of u v s.universes ≡ some rule
  pub hash_is : hash_of u v s'.activations ≡ some (digest rule)
  pub earlier_kept :
      (u' v' h : String)
      → hash_of u' v' s.activations ≡ some h
      → hash_of u' v' s'.activations ≡ some h
  pub no_other_rule :
      (other : String)
      → digest other ≢ digest rule
      → assert_universe_rule_mutable digest s' u v other ≡ err rule_immutable

module _ (digest : String → String) where
  refused :
      (s : Store) (u v rule other : String)
      → hash_of u v s.activations ≡ some (digest rule)
      → digest other ≢ digest rule
      → assert_universe_rule_mutable digest s u v other ≡ err rule_immutable
  unfolding assert_universe_rule_mutable
  refused s u v rule other e n = elim (Bool-cases (str_eq (digest other) (digest rule))) [
    | inl f ↦ absurd (n ((eq_iff (digest other) (digest rule)).0 f))
    | inr f ↦ rw (e, f) refl
  ]

  activate_hash-IsFixed :
      (s : Store) (u v now rule : String) (o : Option String) {s' : Store}
      → rule_of u v s.universes ≡ some rule
      → hash_of u v s.activations ≡ o
      → activate_hash digest s u v (digest rule) now o ≡ ok s'
      → IsFixed digest u v s s'
  unfolding activate_hash
  activate_hash-IsFixed s u v now rule none {s'} r e h =
      let row : ActivationRow = record {
        universe_id = u;
        universe_version = v;
        rule_hash = digest rule;
        activated_at = now;
      } in
      let id_same : str_eq u u ≡ true = (eq_iff u u).1 refl in
      let version_same : str_eq v v ≡ true = (eq_iff v v).1 refl in
      let there = hash_of-last u v s.activations row e (rw (id_same, version_same) refl) in
      subst (IsFixed digest u v s) (ok_injective h) (record {
        rule = rule;
        rule_is = r;
        hash_is = there;
        earlier_kept = λ u' v' k p. hash_of-append u' v' s.activations (row ∷ []) p;
        no_other_rule = λ other n.
            refused (record s { activations = s.activations ++ row ∷ [] }) u v rule other there n;
      })
  activate_hash-IsFixed s u v now rule (some existing) {s'} r e h =
      elim (Bool-cases (str_eq existing (digest rule))) [
        | inr f ↦ cc (rw f at h)
        | inl f ↦
            let there = e ∙ ap some ((eq_iff existing (digest rule)).0 f) in
            subst (IsFixed digest u v s) (ok_injective (rw f at h)) (record {
              rule = rule;
              rule_is = r;
              hash_is = there;
              earlier_kept = λ u' v' k p. p;
              no_other_rule = λ other n. refused s u v rule other there n;
            })
      ]

  activate_rule-IsFixed :
      (s : Store) (u v now : String) (o : Option String) {s' : Store}
      → rule_of u v s.universes ≡ o
      → activate_rule digest s u v now o ≡ ok s'
      → IsFixed digest u v s s'
  unfolding activate_rule
  activate_rule-IsFixed s u v now none r h = cc
  activate_rule-IsFixed s u v now (some rule) r h =
      activate_hash-IsFixed s u v now rule (hash_of u v s.activations) r refl h

-- A universe whose activation returns has the digest of its registered rule on record, every digest
-- that was on record before is still there, and a rule with another digest is refused from then on.
pub activate_universe-IsFixed :
    (digest : String → String) (s : Store) (u v now : String) (s' : Store)
    → activate_universe digest s u v now ≡ ok s'
    → IsFixed digest u v s s'
unfolding activate_universe
activate_universe-IsFixed digest s u v now s' h =
    activate_rule-IsFixed digest s u v now (rule_of u v s.universes) refl h
