-- ===== src/MarketState/Engine/Rows.antt =====
-- What the sort and the checks of a market row in state/engine.py leave.
use a_share_analysis.Common.{
  ℕ, ◌≡◌, sym, ◌∙◌, ap, subst, ◌⊎◌, inl, inr, not, Option, none, some, List, [], ◌∷◌, map, ok,
  guard, >>=-eq-ok, guard-eq-ok, ok_injective, arith, Bool-cases, leb, length, ◌==◌, str_eq, eq_iff,
  Text, Memᴰ, Memᴰ-cons,
}
use a_share_analysis.MarketState.Inputs.{
  Floats, StateError, trade_date_not_a_date, available_at_not_aware, foreign_snapshot,
  foreign_feature_set, lineage_not_a_hash, universe_rule_missing,
}
use a_share_analysis.MarketState.Engine.{
  RowIdentity, MarketRow, FeatureRun, entry_or, validate_row_identity, keyed, insert_row, sort_rows,
  ordered_rows,
}

entry_or-eq-ok {ℓ} :
    {A : Type ℓ} (o : Option A) (e : StateError) {a : A} → entry_or o e ≡ ok a → o ≡ some a
entry_or-eq-ok none e h = cc
entry_or-eq-ok (some b) e h = ap some (ok_injective h)

module _ (fl : Floats) where
  -- The sort keeps the rows that it gets.
  mem_of-insert_row :
      (r x : ℕ × MarketRow fl) (rows : List (ℕ × MarketRow fl))
      → Memᴰ x (insert_row fl r rows)
      → (x ≡ r) ⊎ Memᴰ x rows
  unfolding insert_row
  mem_of-insert_row r x [] m = Memᴰ-cons m
  mem_of-insert_row r x (s ∷ rows) m = elim (Bool-cases (leb r.0 s.0)) [
    | inl e ↦ Memᴰ-cons (rw e at m)
    | inr e ↦ elim (Memᴰ-cons (rw e at m)) [
      | inl same ↦ inr (Memᴰ.head same)
      | inr later ↦ elim (mem_of-insert_row r x rows later) [
        | inl same ↦ inl same
        | inr n ↦ inr (Memᴰ.tail n)
      ]
    ]
  ]

  mem_of-sort_rows :
      (x : ℕ × MarketRow fl) (rows : List (ℕ × MarketRow fl))
      → Memᴰ x (sort_rows fl rows)
      → Memᴰ x rows
  unfolding sort_rows
  mem_of-sort_rows x [] m = m
  mem_of-sort_rows x (r ∷ rows) m = elim (mem_of-insert_row r x (sort_rows fl rows) m) [
    | inl same ↦ Memᴰ.head same
    | inr n ↦ Memᴰ.tail (mem_of-sort_rows x rows n)
  ]

  mem_of-keyed :
      (rows : List (MarketRow fl)) {pairs : List (ℕ × MarketRow fl)} (x : ℕ × MarketRow fl)
      → keyed fl rows ≡ ok pairs
      → Memᴰ x pairs
      → Memᴰ x.1 rows
  unfolding keyed
  mem_of-keyed [] x h m = elim (subst (Memᴰ x) (sym (ok_injective h)) m) [ ]
  mem_of-keyed (row ∷ rows) x h m =
      let (key, e, h1) = >>=-eq-ok (entry_or row.trade_date trade_date_not_a_date) _ h in
      let (rest, f, h2) = >>=-eq-ok (keyed fl rows) _ h1 in
      elim (Memᴰ-cons (subst (Memᴰ x) (sym (ok_injective h2)) m)) [
        | inl same ↦ Memᴰ.head (ap (λ (p : ℕ × MarketRow fl). p.1) same)
        | inr n ↦ Memᴰ.tail (mem_of-keyed rows x f n)
      ]

  mem_of-seconds :
      (pairs : List (ℕ × MarketRow fl)) (row : MarketRow fl)
      → Memᴰ row (map (λ p. p.1) pairs)
      → (key : ℕ) × Memᴰ (key, row) pairs
  mem_of-seconds [] row m = elim m [ ]
  mem_of-seconds ((k, r) ∷ pairs) row m = elim (Memᴰ-cons m) [
    | inl same ↦ (k, Memᴰ.head (ap (λ x. (k, x)) same))
    | inr n ↦ let (key, later) = mem_of-seconds pairs row n in (key, Memᴰ.tail later)
  ]

  pub mem_of-ordered_rows :
      (rows : List (MarketRow fl)) {out : List (MarketRow fl)} (row : MarketRow fl)
      → ordered_rows fl rows ≡ ok out
      → Memᴰ row out
      → Memᴰ row rows
  unfolding ordered_rows
  mem_of-ordered_rows rows row h m =
      let (pairs, e, h1) = >>=-eq-ok (keyed fl rows) _ h in
      let (key, n) =
        mem_of-seconds (sort_rows fl pairs) row (subst (Memᴰ row) (sym (ok_injective h1)) m) in
      mem_of-keyed rows (key, row) e (mem_of-sort_rows (key, row) pairs n)

  -- A row that passed the checks: it is of the run's snapshot and Feature set.
  pub record Identified (row : MarketRow fl) (run : FeatureRun fl) (out : RowIdentity × Text)
      : Type 0 where
    pub of_day : row.trade_date ≡ some out.0.trade_date
    pub available : row.feature_available_at ≡ some out.0.available_at
    pub of_snapshot : row.source_snapshot_id ≡ some run.snapshot_id
    pub snapshot_kept : out.0.source_snapshot_id ≡ run.snapshot_id
    pub of_feature_set : row.feature_set_id ≡ some run.feature_set_id
    pub lineage : row.input_lineage_hash ≡ some out.1
    pub digest_length : length out.1 ≡ 64
    pub universe_rule : row.universe_rule_id ≡ some out.0.universe_rule_id

  pub validate_row_identity-Identified :
      (row : MarketRow fl) (run : FeatureRun fl) {out : RowIdentity × Text}
      → validate_row_identity fl row run ≡ ok out
      → Identified row run out
  unfolding validate_row_identity
  validate_row_identity-Identified row run h =
      let (d, e0, h0) = >>=-eq-ok (entry_or row.trade_date trade_date_not_a_date) _ h in
      let (a, e1, h1) = >>=-eq-ok (entry_or row.feature_available_at available_at_not_aware) _ h0 in
      let (s, e2, h2) = >>=-eq-ok (entry_or row.source_snapshot_id foreign_snapshot) _ h1 in
      let (u3, e3, h3) = >>=-eq-ok (guard (str_eq s run.snapshot_id) foreign_snapshot) _ h2 in
      let (f, e4, h4) = >>=-eq-ok (entry_or row.feature_set_id foreign_feature_set) _ h3 in
      let (u5, e5, h5) = >>=-eq-ok (guard (str_eq f run.feature_set_id) foreign_feature_set) _ h4 in
      let (t, e6, h6) = >>=-eq-ok (entry_or row.input_lineage_hash lineage_not_a_hash) _ h5 in
      let (u7, e7, h7) = >>=-eq-ok (guard (length t == 64) lineage_not_a_hash) _ h6 in
      let (v, e8, h8) = >>=-eq-ok (entry_or row.universe_rule_id universe_rule_missing) _ h7 in
      let (u9, e9, h9) = >>=-eq-ok (guard (not (str_eq v "")) universe_rule_missing) _ h8 in
      let same_snapshot = (eq_iff s run.snapshot_id).0 (guard-eq-ok _ _ e3) in
      let same_set = (eq_iff f run.feature_set_id).0 (guard-eq-ok _ _ e5) in
      let long_enough = guard-eq-ok _ _ e7 in
      subst (Identified row run) (ok_injective h9) (record {
        of_day = entry_or-eq-ok _ _ e0;
        available = entry_or-eq-ok _ _ e1;
        of_snapshot = entry_or-eq-ok _ _ e2 ∙ ap some same_snapshot;
        snapshot_kept = same_snapshot;
        of_feature_set = entry_or-eq-ok _ _ e4 ∙ ap some same_set;
        lineage = entry_or-eq-ok _ _ e6;
        digest_length = ground arith;
        universe_rule = entry_or-eq-ok _ _ e8;
      })
