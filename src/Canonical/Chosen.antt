-- ===== src/Canonical/Chosen.antt =====
-- What the pass over a domain in canonical/canonicalizer.py selects.
use a_share_analysis.Common.{
  ◌≡◌, refl, sym, ◌<◌, false, inl, inr, Bool-cases, arith, leb, codes, lex, text_leb-antisym, ℕ,
  ◌≤◌, Bool, true, List, [], ◌∷◌, map, keep, Memᴰ, mem_of-keep, mem-keep, leb→le, le→leb, Distinct,
  Distinct-sort_by, mem-sort_by, sort_by-least, text_leb, any,
}
use a_share_analysis.Canonical.Policy.{CanonicalSourcePolicy}
use a_share_analysis.Canonical.Select.{
  priority, Json, Candidate, CanonicalRow, preferred, is_usable, keys_from, group, canonical_row,
}
use a_share_analysis.Canonical.Run.{
  DomainPass, sorted_group, sorted_keys, select, is_available, domain_pass,
}
use a_share_analysis.Canonical.Winners.{
  winners, leads, covers, one_each, group_key, mem-group, rows-settle_keys, mem-keys_from,
  keys_from-Distinct, preferred-IsOrder,
}

module _ {P : Type 0} where
  -- w comes before c, or with it: its provider has a better priority, or the same one and a smaller
  -- manifest hash, or the same hash too and an ordinal that is not larger.
  pub data Before (policy : CanonicalSourcePolicy) (w c : Candidate P) : Type 0 where
    by_priority : priority policy w.provider < priority policy c.provider → Before policy w c
    by_hash :
        priority policy w.provider ≡ priority policy c.provider
        → text_leb (codes c.run_manifest_hash) (codes w.run_manifest_hash) ≡ false
        → Before policy w c
    by_ordinal :
        priority policy w.provider ≡ priority policy c.provider
        → codes w.run_manifest_hash ≡ codes c.run_manifest_hash
        → w.ordinal ≤ c.ordinal
        → Before policy w c

  pub preferred-Before :
      (policy : CanonicalSourcePolicy) (w c : Candidate P)
      → preferred policy w c ≡ true
      → Before policy w c
  unfolding preferred lex
  preferred-Before policy w c h =
      elim (Bool-cases (leb (priority policy c.provider) (priority policy w.provider))) [
        | inr better ↦ by_priority (ground (arith, h, better))
        | inl even ↦
            elim (Bool-cases (text_leb (codes c.run_manifest_hash) (codes w.run_manifest_hash))) [
              | inr smaller ↦ by_hash (ground (arith, h, even)) smaller
              | inl same ↦
                  by_ordinal (ground (arith, h, even))
                    (text_leb-antisym (codes w.run_manifest_hash) (codes c.run_manifest_hash)
                      (ground (arith, h, even)) same)
                    (ground (arith, h, even, same))
            ]
      ]

  -- A candidate that was known at the moment `as_of` and whose identity is not missing
  pub record IsCandidate (as_of : ℕ) (candidates : List (Candidate P)) (c : Candidate P)
      : Type 0 where
    pub listed : Memᴰ c candidates
    pub known : c.available_at ≤ as_of
    pub identified : is_usable c ≡ true

  -- The rows are those of chosen candidates, one for each key that a candidate has, and none of the
  -- other candidates of its key comes before it in the order of the policy.
  pub record IsSelection (p : DomainPass) (as_of : ℕ) (candidates : List (Candidate P))
      (rows : List (CanonicalRow P)) : Type 0 where
    pub chosen : List (Candidate P)
    pub made : rows ≡ map (canonical_row p.domain p.requires_security_identity) chosen
    pub one_each : Distinct (map (λ w. w.key) chosen)
    pub candidate : (w : Candidate P) → Memᴰ w chosen → IsCandidate as_of candidates w
    pub covers :
        (c : Candidate P)
        → IsCandidate as_of candidates c
        → (w : Candidate P) × Memᴰ w chosen × (w.key ≡ c.key) × Before p.policy w c

  abbrev pub usable_of : ℕ → List (Candidate P) → List (Candidate P)
  usable_of as_of candidates = keep is_usable (keep (is_available as_of) candidates)

  pub usable_of-IsCandidate :
      (as_of : ℕ) (candidates : List (Candidate P)) (c : Candidate P)
      → Memᴰ c (usable_of as_of candidates)
      → IsCandidate as_of candidates c
  usable_of-IsCandidate as_of candidates c m =
      let (n, u) = mem_of-keep is_usable c (keep (is_available as_of) candidates) m in
      let (o, v) = mem_of-keep (is_available as_of) c candidates n in
      record { listed = o; known = leb→le c.available_at as_of v; identified = u }

  pub mem-usable_of :
      (as_of : ℕ) (candidates : List (Candidate P)) (c : Candidate P)
      → IsCandidate as_of candidates c
      → Memᴰ c (usable_of as_of candidates)
  mem-usable_of as_of candidates c h =
      mem-keep is_usable c (keep (is_available as_of) candidates)
        (mem-keep (is_available as_of) c candidates h.listed (le→leb c.available_at as_of h.known))
        h.identified

  module _ (j : Json P) (p : DomainPass) (usable : List (Candidate P)) where
    pub mem-sorted_keys : (c : Candidate P) → Memᴰ c usable → Memᴰ c.key (sorted_keys j usable)
    unfolding sorted_keys any
    mem-sorted_keys c m =
        mem-sort_by (λ k l. text_leb (j.key_json k) (j.key_json l)) c.key (keys_from [] usable)
          (mem-keys_from [] usable c m refl)

    sorted_keys-Distinct : Distinct (sorted_keys j usable)
    unfolding sorted_keys
    sorted_keys-Distinct =
        Distinct-sort_by (λ k l. text_leb (j.key_json k) (j.key_json l)) (keys_from [] usable)
          (keys_from-Distinct [] usable)

    pub leads-preferred :
        (w c : Candidate P) (others : List (Candidate P))
        → sorted_group p usable w.key ≡ w ∷ others
        → Memᴰ c usable
        → w.key ≡ c.key
        → preferred p.policy w c ≡ true
    unfolding sorted_group
    leads-preferred w c others e m q =
        sort_by-least (preferred p.policy) (group usable w.key) w c others
          (preferred-IsOrder p.policy) e (mem-group usable w.key c m (sym q))

  -- The pass over a domain selects one row for each key that some known and identified candidate has,
  -- made of such a candidate that is first in the order of provider priority, manifest hash and
  -- ordinal, and it selects no other row.
  pub domain_pass-IsSelection :
      (j : Json P) (p : DomainPass) (as_of : ℕ) (eligible healthy : Bool)
      (candidates : List (Candidate P))
      → IsSelection p as_of candidates (domain_pass j p as_of eligible healthy candidates).rows
  unfolding domain_pass select
  domain_pass-IsSelection j p as_of eligible healthy candidates =
      let usable = usable_of as_of candidates in
      let keys = sorted_keys j usable in
      record {
        chosen = winners p usable keys;
        made = rows-settle_keys j p usable keys;
        one_each = one_each p usable keys (sorted_keys-Distinct j p usable);
        candidate = λ w m.
            let (k, (others, e)) = leads p usable keys w m in
            usable_of-IsCandidate as_of candidates w (group_key p usable w.key w others e).0;
        covers = λ c h.
            let m = mem-usable_of as_of candidates c h in
            let (w, n, q) = covers p usable keys c m (mem-sorted_keys j p usable c m) in
            let (k, (others, e)) = leads p usable keys w n in
            (w, n, q, preferred-Before p.policy w c (leads-preferred j p usable w c others e m q));
      }
