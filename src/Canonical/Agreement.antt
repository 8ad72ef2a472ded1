-- ===== src/Canonical/Agreement.antt =====
-- What a successful run says of the candidates of a domain in canonical/canonicalizer.py: they
-- agree, exactly, with the candidate that was selected for their key.
use a_share_analysis.Common.{
  ◌≡◌, refl, sym, ap, ◌∙◌, subst, ℕ, ◌≤◌, String, Bool, true, false, not, ◌||◌, List, [], ◌∷◌, ◌++◌,
  keep, any, Memᴰ, Memᴰ-cons, Memᴰ-append_left, Memᴰ-append_right, mem-keep, arith, le→leb, length,
  Bool-cases, List-cases, inl, inr, text_eq_iff,
}
use a_share_analysis.Canonical.Select.{
  Json, Candidate, CanonicalRow, CanonicalFinding, is_usable, canonical_row, payload_equal,
}
use a_share_analysis.Canonical.Run.{
  DomainPass, compared, compare_all, settle_group, sorted_group, settle_keys, sorted_keys, select,
  duplicates, is_available, domain_pass, is_blocking, is_success, conflict_of, missing_count,
  missing_findings, domain_finding, input_findings,
}
use a_share_analysis.Canonical.Winners.{in_sorted_group, group_key}
use a_share_analysis.Canonical.Chosen.{
  Before, preferred-Before, leads-preferred, IsCandidate, usable_of-IsCandidate, mem-sorted_keys,
}

any-append :
    {A : Type 0} (p : A → Bool) (xs ys : List A) → any p (xs ++ ys) ≡ (any p xs || any p ys)
unfolding any
any-append p [] ys = refl
any-append p (x ∷ xs) ys = ground (arith, any-append p xs ys)

length_of-mem : {A : Type 0} (x : A) (xs : List A) → Memᴰ x xs → 1 ≤ length xs
length_of-mem x [] m = elim m [ ]
length_of-mem x (y ∷ ys) m = omega arith

module _ {P : Type 0} (j : Json P) (p : DomainPass) where
  abbrev Quiet : List (CanonicalFinding P) → Type 0
  Quiet fs = any is_blocking fs ≡ false

  Quiet-append : (fs gs : List (CanonicalFinding P)) → Quiet (fs ++ gs) → Quiet fs × Quiet gs
  Quiet-append fs gs h = ground (arith, any-append is_blocking fs gs)

  -- No conflict was found: all of the group agree with its winner.
  Quiet-compare :
      (w : Candidate P) (others : List (Candidate P)) (c : Candidate P)
      → Quiet (compare_all j p w others).findings
      → Memᴰ c others
      → payload_equal j w c ≡ true
  unfolding compare_all compared any is_blocking conflict_of
  Quiet-compare w [] c h m = elim m [ ]
  Quiet-compare w (x ∷ xs) c h m = elim (Bool-cases (payload_equal j w x)) [
    | inl e ↦ elim (Memᴰ-cons m) [
      | inl same ↦ subst (λ y. payload_equal j w y ≡ true) (sym same) e
      | inr n ↦ Quiet-compare w xs c (rw e at h) n
    ]
    | inr e ↦ cc (rw e at h)
  ]

  -- The rows of a group and of its winner
  abbrev row_of : Candidate P → CanonicalRow P
  row_of = canonical_row p.domain p.requires_security_identity

  Quiet-group :
      (w : Candidate P) (others : List (Candidate P)) (c : Candidate P)
      → Quiet (settle_group j p (w ∷ others)).findings
      → Memᴰ c (w ∷ others)
      → payload_equal j w c ≡ true
  unfolding settle_group payload_equal
  Quiet-group w others c h m = elim (Memᴰ-cons m) [
    | inl same ↦
        (text_eq_iff (j.payload_json w.payload) (j.payload_json c.payload)).1
          (ap (λ x. j.payload_json x.payload) (sym same))
    | inr n ↦ Quiet-compare w others c (Quiet-append (compare_all j p w others).findings [] h).0 n
  ]

  row-settle_group :
      (w : Candidate P) (others : List (Candidate P))
      → Memᴰ (row_of w) (settle_group j p (w ∷ others)).rows
  unfolding settle_group
  row-settle_group w others = Memᴰ-append_right (compare_all j p w others).rows (Memᴰ.head refl)

  -- The first of the sorted group of c's key stands in the rows, with the payload of c.
  AgreedIn : List (Candidate P) → List (CanonicalRow P) → Candidate P → Type 0
  AgreedIn usable rows c =
      (w : Candidate P) × ((others : List (Candidate P)) × (sorted_group p usable w.key
          ≡ w ∷ others))
      × Memᴰ (row_of w) rows
      × (w.key ≡ c.key)
      × (j.payload_json w.payload ≡ j.payload_json c.payload)

  Quiet-keys :
      (usable : List (Candidate P)) (keys : List (List String)) (c : Candidate P)
      → Quiet (settle_keys j p usable keys).findings
      → Memᴰ c usable
      → Memᴰ c.key keys
      → AgreedIn usable (settle_keys j p usable keys).rows c
  unfolding settle_keys payload_equal AgreedIn
  Quiet-keys usable [] c h m k = elim k [ ]
  Quiet-keys usable (key ∷ keys) c h m k =
      let g = sorted_group p usable key in
      let (now, later) =
        Quiet-append (settle_group j p g).findings (settle_keys j p usable keys).findings h in
      elim (Memᴰ-cons k) [
        | inr n ↦
            let (w, o, r, q, a) = Quiet-keys usable keys c later m n in
            (w, o, Memᴰ-append_right (settle_group j p g).rows r, q, a)
        | inl here ↦ elim (List-cases g) [
          | inl e ↦ elim (subst (Memᴰ c) e (in_sorted_group p usable key c m here)) [ ]
          | inr (w, others, e) ↦
              let mine = subst (Memᴰ c) e (in_sorted_group p usable key c m here) in
              let agree = Quiet-group w others c (rw e at now) mine in
              (
                w,
                (others, ap (sorted_group p usable) (group_key p usable key w others e).1 ∙ e),
                Memᴰ-append_left (settle_keys j p usable keys).rows
                    (rw e (row-settle_group w others)),
                (group_key p usable key w others e).1 ∙ sym here,
                (text_eq_iff (j.payload_json w.payload) (j.payload_json c.payload)).0 agree,
              )
        ]
      ]

  Quiet-missing :
      (available : List (Candidate P)) (c : Candidate P)
      → p.policy.identity_missing_max ≡ 0
      → Quiet (missing_findings p (missing_count available))
      → Memᴰ c available
      → is_usable c ≡ true
  unfolding missing_findings missing_count domain_finding any is_blocking
  Quiet-missing available c z h m = elim (Bool-cases (is_usable c)) [
    | inl e ↦ e
    | inr e ↦
        let n =
          length_of-mem c (keep (λ x. not (is_usable x)) available)
            (mem-keep (λ x. not (is_usable x)) c available m (rw e refl)) in
        ground (arith, n)
  ]

  -- If the policy allows no missing identity and no finding of the pass over a domain blocks, then
  -- for every candidate that was known at the moment the output has the row of a known and
  -- identified candidate with the same key, which does not come after it in the order of the policy,
  -- and the two payloads are the same, text for text.
  pub success-Agreed :
      (as_of : ℕ) (eligible healthy : Bool) (candidates : List (Candidate P)) (c : Candidate P)
      → p.policy.identity_missing_max ≡ 0
      → is_success (domain_pass j p as_of eligible healthy candidates).findings ≡ true
      → Memᴰ c candidates
      → c.available_at ≤ as_of
      → (w : Candidate P) × IsCandidate as_of candidates w
        × Memᴰ (row_of w) (domain_pass j p as_of eligible healthy candidates).rows
        × (w.key ≡ c.key)
        × Before p.policy w c
        × (j.payload_json w.payload ≡ j.payload_json c.payload)
  unfolding domain_pass select is_success AgreedIn
  success-Agreed as_of eligible healthy candidates c z h m known =
      let available = keep (is_available as_of) candidates in
      let usable = keep is_usable available in
      let keys = sorted_keys j usable in
      let quiet : Quiet (domain_pass j p as_of eligible healthy candidates).findings =
        ground (arith, h) in
      let (front, missing) =
        Quiet-append
          (input_findings p eligible healthy available ++ (select j p available).findings)
          (missing_findings p (missing_count available)) quiet in
      let (inputs, chosen) =
        Quiet-append (input_findings p eligible healthy available) (select j p available).findings
          front in
      let (settled, twice) =
        Quiet-append (settle_keys j p usable keys).findings (duplicates p [] usable) chosen in
      let here = mem-keep (is_available as_of) c candidates m (le→leb c.available_at as_of known) in
      let member = mem-keep is_usable c available here (Quiet-missing available c z missing here) in
      let (w, (others, e), row, key, payload) =
        Quiet-keys usable keys c settled member (mem-sorted_keys j p usable c member) in
      (
        w,
        usable_of-IsCandidate as_of candidates w (group_key p usable w.key w others e).0,
        row,
        key,
        preferred-Before p.policy w c (leads-preferred j p usable w c others e member key),
        payload,
      )
