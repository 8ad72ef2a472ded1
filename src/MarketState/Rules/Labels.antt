-- ===== src/MarketState/Rules/Labels.antt =====
-- What the daily participation rule of state/engine.py answers.
use a_share_analysis.Common.{
  ℕ, zero, suc, ◌+◌, ◌<◌, String, ◌≡◌, refl, sym, subst, ◌⊎◌, inl, inr, true, Option, none, some,
  List, [], ◌∷◌, arith, Bool-cases, ok, >>=-eq-ok, ok_injective, guard-eq-ok, ltb, ◌==◌, ℤ, pos,
  negsuc, ap, Memᴰ,
}
use a_share_analysis.MarketState.Inputs.{Floats, Cells, number, count, null, integer, empty_input}
use a_share_analysis.MarketState.Inputs.Reads.{
  Reads, number-some, number-none, count-some, count-none,
}
use a_share_analysis.MarketState.Rules.Nulls.{Reports, Nulled, Nulled-of}
use a_share_analysis.MarketState.Rules.{
  Finding, dominance_label, check_ratio, participation_of, participation_checked,
  participation_null, participation_counts, daily_participation,
}

-- The label says which count is the larger one.
pub data Dominance (advancers decliners : ℕ) : String → Type 0 where
  advance : decliners < advancers → Dominance advancers decliners "ADVANCE_DOMINANT"
  decline : advancers < decliners → Dominance advancers decliners "DECLINE_DOMINANT"
  balanced : advancers ≡ decliners → Dominance advancers decliners "BALANCED"

dominance_label-Dominance : (a d : ℕ) → Dominance a d (dominance_label a d)
unfolding dominance_label
dominance_label-Dominance a d = elim (Bool-cases (ltb d a)) [
  | inl p ↦ rw p (advance (ground arith))
  | inr p ↦ elim (Bool-cases (ltb a d)) [
    | inl q ↦ rw (p, q) (decline (ground arith))
    | inr q ↦ rw (p, q) (balanced (ground arith))
  ]
]

abbrev pub count_names : List String
count_names =
    "valid_raw_return_count" ∷ "advancer_count" ∷ "decliner_count" ∷ "unchanged_count" ∷ []

module _ (fl : Floats) (row : Cells fl) (trade_date : ℕ) where
  -- The four cells hold these counts.
  pub record CountsAre (valid advancers decliners unchanged : ℤ) : Type 0 where
    pub valid_is : row "valid_raw_return_count" ≡ integer valid
    pub advancers_is : row "advancer_count" ≡ integer advancers
    pub decliners_is : row "decliner_count" ≡ integer decliners
    pub unchanged_is : row "unchanged_count" ≡ integer unchanged

  -- A known participation label with its counts: they add up to a positive number of valid returns,
  -- and an observed ratio is the quotient.
  pub record Participation (label : String) : Type 0 where
    pub advancers : ℕ
    pub decliners : ℕ
    pub unchanged : ℕ
    pub valid : ℕ
    pub counts_are : CountsAre (pos valid) (pos advancers) (pos decliners) (pos unchanged)
    pub adds_up : advancers + decliners + unchanged ≡ valid
    pub some_valid : 0 < valid
    pub ratio_checked :
        (row "advancer_ratio_observed" ≡ null)
        ⊎ ((r : fl.Float) × Reads fl (row "advancer_ratio_observed") r
            × (fl.eq r (fl.divide advancers valid) ≡ true))
    pub dominance : Dominance advancers decliners label

  -- All four counts are 0, and the one finding says that the denominator is.
  pub record NoReturns (label : String) (fs : List Finding) : Type 0 where
    pub unknown : label ≡ "UNKNOWN"
    pub report : Reports trade_date "daily_participation_state" "STATE_INPUT_EMPTY_DENOMINATOR" fs
    pub detail : report.finding.detail ≡ empty_input "valid_raw_return_count" (pos 0)
    pub counts_are : CountsAre (pos 0) (pos 0) (pos 0) (pos 0)

  ParticipationCase : String → List Finding → Type 0
  ParticipationCase label fs =
      Nulled fl row trade_date "daily_participation_state" count_names label fs
      ⊎ NoReturns label fs
      ⊎ (Participation label × (fs ≡ []))

  check_ratio_cases :
      (r : Option fl.Float) (a v : ℕ)
      → number fl row "advancer_ratio_observed" ≡ ok r
      → check_ratio fl r a v ≡ ok tt
      → (row "advancer_ratio_observed" ≡ null)
        ⊎ ((x : fl.Float) × Reads fl (row "advancer_ratio_observed") x
            × (fl.eq x (fl.divide a v) ≡ true))
  unfolding check_ratio
  check_ratio_cases none a v e h = inl (number-none fl row "advancer_ratio_observed" e)
  check_ratio_cases (some x) a v e h =
      inr (x, number-some fl row "advancer_ratio_observed" x e, guard-eq-ok _ _ h)

  participation_of_cases :
      (n a d : ℕ) {label : String} {fs : List Finding}
      → participation_of fl row trade_date (suc n) a d ≡ ok (label, fs)
      → (r : Option fl.Float) × (number fl row "advancer_ratio_observed" ≡ ok r)
        × (check_ratio fl r a (suc n) ≡ ok tt)
        × (label ≡ dominance_label a d)
        × (fs ≡ [])
  unfolding participation_of
  participation_of_cases n a d h =
      let (r, e, h') = >>=-eq-ok (number fl row "advancer_ratio_observed") _ h in
      let (u, f, h'') = >>=-eq-ok (check_ratio fl r a (suc n)) _ h' in
      (r, e, f, cc (ok_injective h''), cc (ok_injective h''))

  no_returns :
      (a d u : ℕ) {label : String} {fs : List Finding}
      → CountsAre (pos 0) (pos a) (pos d) (pos u)
      → a + d + u ≡ 0
      → participation_of fl row trade_date zero a d ≡ ok (label, fs)
      → NoReturns label fs
  unfolding participation_of
  no_returns zero zero zero c e h = record {
    unknown = sym (ap (λ p. p.0) (ok_injective h));
    report = record {
      finding = record {
        trade_date = trade_date;
        state_name = "daily_participation_state";
        finding_class = "STATE_INPUT_EMPTY_DENOMINATOR";
        detail = empty_input "valid_raw_return_count" (pos 0);
      };
      single = sym (ap (λ p. p.1) (ok_injective h));
      of_state = refl;
      of_class = refl;
      of_day = refl;
    };
    detail = refl;
    counts_are = c;
  }
  no_returns (suc a) d u c e h = absurd (omega arith)
  no_returns zero (suc d) u c e h = absurd (omega arith)
  no_returns zero zero (suc u) c e h = absurd (omega arith)

  participation_checked_cases :
      (v a d u : ℤ) {label : String} {fs : List Finding}
      → CountsAre v a d u
      → participation_checked fl row trade_date v a d u ≡ ok (label, fs)
      → ParticipationCase label fs
  unfolding participation_checked ParticipationCase
  participation_checked_cases (negsuc n) a d u c h = cc
  participation_checked_cases (pos v) (negsuc n) d u c h = cc
  participation_checked_cases (pos v) (pos a) (negsuc n) u c h = cc
  participation_checked_cases (pos v) (pos a) (pos d) (negsuc n) c h = cc
  participation_checked_cases (pos zero) (pos a) (pos d) (pos u) c h =
      elim (Bool-cases (a + d + u == 0)) [
        | inr e ↦ cc (rw e at h)
        | inl e ↦ inr (inl (no_returns a d u c (ground arith) (rw e at h)))
      ]
  participation_checked_cases (pos (suc n)) (pos a) (pos d) (pos u) c h =
      elim (Bool-cases (a + d + u == suc n)) [
        | inr e ↦ cc (rw e at h)
        | inl e ↦
            let (ratio, ratio_is, checked, label_is, none_found) =
              participation_of_cases n a d (rw e at h) in
            inr (
              inr (
                record {
                  advancers = a;
                  decliners = d;
                  unchanged = u;
                  valid = suc n;
                  counts_are = c;
                  adds_up = ground arith;
                  some_valid = omega arith;
                  ratio_checked = check_ratio_cases ratio a (suc n) ratio_is checked;
                  dominance = subst (Dominance a d) (sym label_is) (dominance_label-Dominance a d);
                },
                none_found,
              ))
      ]

  null_case :
      (n : String) {label : String} {fs : List Finding}
      → Memᴰ n count_names
      → count fl row n ≡ ok none
      → participation_null fl row trade_date ≡ ok (label, fs)
      → ParticipationCase label fs
  unfolding participation_null ParticipationCase
  null_case n m e h = inl (
      Nulled-of fl row trade_date "daily_participation_state" count_names n m
        (count-none fl row n e) h)

  participation_counts_cases :
      (v a d u : Option ℤ) {label : String} {fs : List Finding}
      → count fl row "valid_raw_return_count" ≡ ok v
      → count fl row "advancer_count" ≡ ok a
      → count fl row "decliner_count" ≡ ok d
      → count fl row "unchanged_count" ≡ ok u
      → participation_counts fl row trade_date v a d u ≡ ok (label, fs)
      → ParticipationCase label fs
  unfolding participation_counts
  participation_counts_cases none a d u p q r s h =
      null_case "valid_raw_return_count" (Memᴰ.head refl) p h
  participation_counts_cases (some v) none d u p q r s h =
      null_case "advancer_count" (Memᴰ.tail (Memᴰ.head refl)) q h
  participation_counts_cases (some v) (some a) none u p q r s h =
      null_case "decliner_count" (Memᴰ.tail (Memᴰ.tail (Memᴰ.head refl))) r h
  participation_counts_cases (some v) (some a) (some d) none p q r s h =
      null_case "unchanged_count" (Memᴰ.tail (Memᴰ.tail (Memᴰ.tail (Memᴰ.head refl)))) s h
  participation_counts_cases (some v) (some a) (some d) (some u) p q r s h =
      participation_checked_cases v a d u
        (record {
          valid_is = count-some fl row "valid_raw_return_count" v p;
          advancers_is = count-some fl row "advancer_count" a q;
          decliners_is = count-some fl row "decliner_count" d r;
          unchanged_is = count-some fl row "unchanged_count" u s;
        })
        h

-- When the daily participation rule returns, one of three things holds. A count is missing, and the
-- answer is UNKNOWN with a finding that lists exactly the missing counts. All four counts are 0, and
-- the answer is UNKNOWN with a finding on the empty denominator. Or nothing is reported, the counts
-- add up to a positive number of valid returns, the ratio is missing or is read as a finite number
-- that equals advancers over valid, and the label names the larger of advancers and decliners, or
-- their balance.
pub daily_participation_cases :
    (fl : Floats) (row : Cells fl) (trade_date : ℕ) (label : String) (fs : List Finding)
    → daily_participation fl row trade_date ≡ ok (label, fs)
    → Nulled fl row trade_date "daily_participation_state" count_names label fs
      ⊎ NoReturns fl row trade_date label fs
      ⊎ (Participation fl row trade_date label × (fs ≡ []))
unfolding daily_participation ParticipationCase
daily_participation_cases fl row trade_date label fs h =
    let (v, p, h1) = >>=-eq-ok (count fl row "valid_raw_return_count") _ h in
    let (a, q, h2) = >>=-eq-ok (count fl row "advancer_count") _ h1 in
    let (d, r, h3) = >>=-eq-ok (count fl row "decliner_count") _ h2 in
    let (u, s, h4) = >>=-eq-ok (count fl row "unchanged_count") _ h3 in
    participation_counts_cases fl row trade_date v a d u p q r s h4
