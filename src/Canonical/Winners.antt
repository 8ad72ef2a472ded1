-- ===== src/Canonical/Winners.antt =====
-- The winners of the selection in canonical/canonicalizer.py: one for each key, first in the order of
-- the policy among the candidates of its key.
use a_share_analysis.Common.{
  ◌≡◌, refl, sym, ap, ◌∙◌, subst, String, true, false, inl, inr, ◌↔◌, List, [], ◌∷◌, ◌++◌, map, any,
  Memᴰ, Memᴰ-cons, Memᴰ-append_right, mem_of-map, List-cases, mem_of-keep, mem-keep, Bool-cases,
  arith, eq_iff, mem_of-sort_by, mem-sort_by, Distinct, IsOrder, lex-IsOrder, by-IsOrder,
  leb-IsOrder, text_leb-IsOrder, text_leb, codes, leb,
}
use a_share_analysis.Canonical.Policy.{CanonicalSourcePolicy}
use a_share_analysis.Canonical.Select.{
  Json, Candidate, CanonicalRow, key_eq, preferred, priority, keys_from, group, canonical_row,
  payload_equal,
}
use a_share_analysis.Canonical.Run.{
  DomainPass, compared, compare_all, settle_group, sorted_group, settle_keys,
}

key_eq_iff : (k l : List String) → (key_eq k l ≡ true) ↔ (k ≡ l)
unfolding key_eq
key_eq_iff [] [] = (λ h. refl, λ h. refl)
key_eq_iff [] (b ∷ l) = (λ h. cc, λ h. cc)
key_eq_iff (a ∷ k) [] = (λ h. cc, λ h. cc)
key_eq_iff (a ∷ k) (b ∷ l) = (
  λ h. ground (arith, eq_iff a b, key_eq_iff k l),
  λ h. ground (arith, eq_iff a b, key_eq_iff k l),
)

module _ {P : Type 0} where
  pub preferred-IsOrder : (policy : CanonicalSourcePolicy) → IsOrder (preferred {P = P} policy)
  unfolding preferred
  preferred-IsOrder policy =
      lex-IsOrder _ _ (by-IsOrder (λ c. priority policy c.provider) leb leb-IsOrder) (
        lex-IsOrder _ _ (by-IsOrder (λ c. codes c.run_manifest_hash) text_leb text_leb-IsOrder)
          (by-IsOrder (λ c. c.ordinal) leb leb-IsOrder))

  keys_from-seen :
      (seen : List (List String)) (c : Candidate P) (cs : List (Candidate P))
      → any (key_eq c.key) seen ≡ true
      → keys_from seen (c ∷ cs) ≡ keys_from seen cs
  unfolding keys_from
  keys_from-seen seen c cs e = rw (e, keys_from) refl

  keys_from-fresh :
      (seen : List (List String)) (c : Candidate P) (cs : List (Candidate P))
      → any (key_eq c.key) seen ≡ false
      → keys_from seen (c ∷ cs) ≡ c.key ∷ keys_from (c.key ∷ seen) cs
  unfolding keys_from
  keys_from-fresh seen c cs e = rw (e, keys_from) refl

  keys_from-new :
      (seen : List (List String)) (cs : List (Candidate P)) (k : List String)
      → Memᴰ k (keys_from seen cs)
      → any (key_eq k) seen ≡ false
  unfolding any
  keys_from-new seen [] k m = let n : Memᴰ k [] = unfold keys_from in m in elim n [ ]
  keys_from-new seen (c ∷ cs) k m = elim (Bool-cases (any (key_eq c.key) seen)) [
    | inl e ↦ keys_from-new seen cs k (rw (keys_from-seen seen c cs e) at m)
    | inr e ↦ elim (Memᴰ-cons (rw (keys_from-fresh seen c cs e) at m)) [
      | inl same ↦ subst (λ x. any (key_eq x) seen ≡ false) (sym same) e
      | inr n ↦ ground (arith, keys_from-new (c.key ∷ seen) cs k n)
    ]
  ]

  pub keys_from-Distinct :
      (seen : List (List String)) (cs : List (Candidate P)) → Distinct (keys_from seen cs)
  unfolding any
  keys_from-Distinct seen [] = unfold keys_from in tt
  keys_from-Distinct seen (c ∷ cs) = elim (Bool-cases (any (key_eq c.key) seen)) [
    | inl e ↦ rw (keys_from-seen seen c cs e) (keys_from-Distinct seen cs)
    | inr e ↦ rw (keys_from-fresh seen c cs e) (
      (λ m.
          ground (arith, keys_from-new (c.key ∷ seen) cs c.key m, (key_eq_iff c.key c.key).1 refl)),
      keys_from-Distinct (c.key ∷ seen) cs,
    )
  ]

  pub mem-keys_from :
      (seen : List (List String)) (cs : List (Candidate P)) (c : Candidate P)
      → Memᴰ c cs
      → any (key_eq c.key) seen ≡ false
      → Memᴰ c.key (keys_from seen cs)
  unfolding any
  mem-keys_from seen [] c m h = elim m [ ]
  mem-keys_from seen (x ∷ cs) c m h = elim (Bool-cases (any (key_eq x.key) seen)) [
    | inl e ↦ rw (keys_from-seen seen x cs e) (elim (Memᴰ-cons m) [
      | inl same ↦ cc (ap (λ y. any (key_eq y.key) seen) same, e, h)
      | inr n ↦ mem-keys_from seen cs c n h
    ])
    | inr e ↦ rw (keys_from-fresh seen x cs e) (elim (Memᴰ-cons m) [
      | inl same ↦ Memᴰ.head (ap (λ y. y.key) same)
      | inr n ↦ elim (Bool-cases (key_eq c.key x.key)) [
        | inl q ↦ Memᴰ.head ((key_eq_iff c.key x.key).0 q)
        | inr q ↦ Memᴰ.tail (mem-keys_from (x.key ∷ seen) cs c n (rw q h))
      ]
    ])
  ]

  first : List (Candidate P) → List (Candidate P)
  first [] = []
  first (c ∷ cs) = c ∷ []

  -- The winners of the keys
  unfoldable pub winners : DomainPass → List (Candidate P) → List (List String) → List (Candidate P)
  unfolding first
  winners p usable [] = []
  winners p usable (key ∷ keys) = first (sorted_group p usable key) ++ winners p usable keys

  rows-compare_all :
      (j : Json P) (p : DomainPass) (w : Candidate P) (others : List (Candidate P))
      → (compare_all j p w others).rows ≡ []
  unfolding compare_all compared
  rows-compare_all j p w [] = refl
  rows-compare_all j p w (c ∷ cs) = elim (Bool-cases (payload_equal j w c)) [
    | inl e ↦ rw e (rows-compare_all j p w cs)
    | inr e ↦ rw e (rows-compare_all j p w cs)
  ]

  rows-settle_group :
      (j : Json P) (p : DomainPass) (g ws : List (Candidate P)) (rows : List (CanonicalRow P))
      → rows ≡ map (canonical_row p.domain p.requires_security_identity) ws
      → (settle_group j p g).rows ++ rows
        ≡ map (canonical_row p.domain p.requires_security_identity) (first g ++ ws)
  unfolding settle_group first
  rows-settle_group j p [] ws rows h = h
  rows-settle_group j p (w ∷ others) ws rows h =
      rw (rows-compare_all j p w others)
        (ap (λ x. canonical_row p.domain p.requires_security_identity w ∷ x) h)

  pub rows-settle_keys :
      (j : Json P) (p : DomainPass) (usable : List (Candidate P)) (keys : List (List String))
      → (settle_keys j p usable keys).rows
        ≡ map (canonical_row p.domain p.requires_security_identity) (winners p usable keys)
  unfolding settle_keys winners first
  rows-settle_keys j p usable [] = refl
  rows-settle_keys j p usable (key ∷ keys) =
      rows-settle_group j p (sorted_group p usable key) _ _ (rows-settle_keys j p usable keys)

  mem_of-group :
      (cs : List (Candidate P)) (k : List String) (c : Candidate P)
      → Memᴰ c (group cs k)
      → Memᴰ c cs × (c.key ≡ k)
  unfolding group
  mem_of-group cs k c m =
      let (n, e) = mem_of-keep (λ x. key_eq x.key k) c cs m in (n, (key_eq_iff c.key k).0 e)

  pub mem-group :
      (cs : List (Candidate P)) (k : List String) (c : Candidate P)
      → Memᴰ c cs
      → c.key ≡ k
      → Memᴰ c (group cs k)
  unfolding group
  mem-group cs k c m e = mem-keep (λ x. key_eq x.key k) c cs m ((key_eq_iff c.key k).1 e)

  module _ (p : DomainPass) (usable : List (Candidate P)) where
    pub group_key :
        (key : List String) (w : Candidate P) (others : List (Candidate P))
        → sorted_group p usable key ≡ w ∷ others
        → Memᴰ w usable × (w.key ≡ key)
    unfolding sorted_group
    group_key key w others e = mem_of-group usable key w (
        mem_of-sort_by (preferred p.policy) w (group usable key)
          (subst (Memᴰ w) (sym e) (Memᴰ.head refl)))

    -- A winner leads the sorted group of one of the keys.
    pub leads :
        (keys : List (List String)) (w : Candidate P)
        → Memᴰ w (winners p usable keys)
        → Memᴰ w.key keys
          × ((others : List (Candidate P)) × (sorted_group p usable w.key ≡ w ∷ others))
    unfolding winners first
    leads [] w m = elim m [ ]
    leads (key ∷ keys) w m = elim (List-cases (sorted_group p usable key)) [
      | inl e ↦ let (k, o) = leads keys w (rw e at m) in (Memᴰ.tail k, o)
      | inr (x, others, e) ↦ elim (Memᴰ-cons (rw e at m)) [
        | inl same ↦
            let here : w.key ≡ key = cc (same, (group_key key x others e).1) in
            (Memᴰ.head here, (others, cc (here, same, e)))
        | inr n ↦ let (k, o) = leads keys w n in (Memᴰ.tail k, o)
      ]
    ]

    pub in_sorted_group :
        (key : List String) (c : Candidate P)
        → Memᴰ c usable
        → c.key ≡ key
        → Memᴰ c (sorted_group p usable key)
    unfolding sorted_group
    in_sorted_group key c m e =
        mem-sort_by (preferred p.policy) c (group usable key) (mem-group usable key c m e)

    pub covers :
        (keys : List (List String)) (c : Candidate P)
        → Memᴰ c usable
        → Memᴰ c.key keys
        → (w : Candidate P) × Memᴰ w (winners p usable keys) × (w.key ≡ c.key)
    unfolding winners first
    covers [] c m k = elim k [ ]
    covers (key ∷ keys) c m k = elim (Memᴰ-cons k) [
      | inl here ↦ elim (List-cases (sorted_group p usable key)) [
        | inl e ↦ elim (subst (Memᴰ c) e (in_sorted_group key c m here)) [ ]
        | inr (x, others, e) ↦ (x, rw e (Memᴰ.head refl), (group_key key x others e).1 ∙ sym here)
      ]
      | inr later ↦
          let (w, n, q) = covers keys c m later in
          (w, Memᴰ-append_right (first (sorted_group p usable key)) n, q)
    ]

    pub one_each :
        (keys : List (List String))
        → Distinct keys
        → Distinct (map (λ w. w.key) (winners p usable keys))
    unfolding winners first
    one_each [] d = tt
    one_each (key ∷ keys) d = elim (List-cases (sorted_group p usable key)) [
      | inl e ↦ rw e (one_each keys d.1)
      | inr (x, others, e) ↦ rw e (
        (λ m.
            let (w, n, q) = mem_of-map (λ c. c.key) x.key (winners p usable keys) m in
            d.0
              (subst (λ k. Memᴰ k keys) (sym q ∙ (group_key key x others e).1) (leads keys w n).0)),
        one_each keys d.1,
      )
    ]
