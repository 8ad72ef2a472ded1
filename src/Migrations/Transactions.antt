-- ===== src/Migrations/Transactions.antt =====
-- One migration of storage/migrations.py, between BEGIN and COMMIT or ROLLBACK.
use a_share_analysis.Common.{
  ◌≡◌, refl, sym, ap, ◌∙◌, subst, String, List, [], ◌∷◌, Memᴰ, ◌⊎◌, inl, inr, Text, Result, ok, err,
  Answer-cases,
}
use a_share_analysis.Migrations.{MigrationRecord, MigrationError, database, rolled_back}
use a_share_analysis.Migrations.Apply.{
  Connection, begin_transaction, commit, rollback, then_on, run_statements, transaction, roll_back,
  ended, begun, apply_one,
}
use a_share_analysis.Migrations.Ledger.{Same, Same-refl, Same-trans, Same-cons}

module _ {S : Type 0} (c : Connection S) (IsDdl : Text → Type 0) where
  -- The states inside a transaction that began in `s`: after statements of a migration, after an
  -- INSERT, and after a COMMIT that failed
  pub data Within (s : S) : S → Type 0 where
    opened : {t : S} → c.execute begin_transaction s ≡ (ok tt, t) → Within s t
    ran :
        {t u : S} {outcome : Result String (Unit {0})} (x : Text)
        → IsDdl x
        → Within s t
        → c.execute x t ≡ (outcome, u)
        → Within s u
    inserted :
        {t u : S} {outcome : Result String (Unit {0})} (r : MigrationRecord)
        → Within s t
        → c.insert r t ≡ (outcome, u)
        → Within s u
    commit_failed :
        {t u : S} {message : String}
        → Within s t
        → c.execute commit t ≡ (err message, u)
        → Within s u

  -- What the database documents of transactions and of the ledger table, and that a statement of a
  -- migration leaves the ledger alone
  pub record IsTransactional : Type 0 where
    pub begin_keeps :
        {s t : S} {outcome : Result String (Unit {0})}
        → c.execute begin_transaction s ≡ (outcome, t)
        → Same (c.rows t) (c.rows s)
    pub ddl_keeps :
        {s t : S} (x : Text) → IsDdl x → c.execute x s ≡ (ok tt, t) → Same (c.rows t) (c.rows s)
    pub insert_adds :
        {s t : S} (r : MigrationRecord) → c.insert r s ≡ (ok tt, t) → Same (c.rows t) (r ∷ c.rows s)
    pub commit_keeps : {s t : S} → c.execute commit s ≡ (ok tt, t) → Same (c.rows t) (c.rows s)
    pub rollback_restores :
        {s t u : S} {outcome : Result String (Unit {0})}
        → Within s t
        → c.execute rollback t ≡ (outcome, u)
        → Same (c.rows u) (c.rows s)

  abbrev pub AllDdl : List Text → Type 0
  AllDdl xs = (x : Text) → Memᴰ x xs → IsDdl x

  module _ (laws : IsTransactional) (s : S) where
    -- The statements leave the ledger alone, or fail inside the transaction.
    statements_cases :
        (xs : List Text) (t u : S) (outcome : Result String (Unit {0}))
        → AllDdl xs
        → Within s t
        → run_statements c xs t ≡ (outcome, u)
        → Within s u
          × (((outcome ≡ ok tt) × Same (c.rows u) (c.rows t)) ⊎ ((m : String) × (outcome ≡ err m)))
    unfolding run_statements
    statements_cases [] t u outcome d w h = (
      subst (Within s) (ap (λ p. p.1) h) w,
      inl (
        sym (ap (λ p. p.0) h),
        subst (λ v. Same (c.rows v) (c.rows t)) (ap (λ p. p.1) h) (Same-refl (c.rows t)),
      ),
    )
    statements_cases (x ∷ xs) t u outcome d w h = elim (Answer-cases (c.execute x t)) [
      | inr (m, v, e) ↦
          let step = sym (ap (λ q. then_on q (run_statements c xs)) e) ∙ h in
          (
            subst (Within s) (ap (λ p. p.1) step) (ran x (d x (Memᴰ.head refl)) w e),
            inr (m, sym (ap (λ p. p.0) step)),
          )
      | inl (done, v, e) ↦
          let step = sym (ap (λ q. then_on q (run_statements c xs)) e) ∙ h in
          let (inside, ended) =
            statements_cases xs v u outcome (λ y m. d y (Memᴰ.tail m))
              (ran x (d x (Memᴰ.head refl)) w e) step in
          (
            inside,
            elim ended [
              | inl (good, same) ↦
                  inl (good, Same-trans same (laws.ddl_keeps x (d x (Memᴰ.head refl)) e))
              | inr bad ↦ inr bad
            ],
          )
    ]

    finish_cases :
        (r : MigrationRecord) (t u : S) (outcome : Result String (Unit {0}))
        → Within s t
        → then_on (c.insert r t) (c.execute commit) ≡ (outcome, u)
        → ((outcome ≡ ok tt) × Same (c.rows u) (r ∷ c.rows t))
          ⊎ (Within s u × ((m : String) × (outcome ≡ err m)))
    finish_cases r t u outcome w h = elim (Answer-cases (c.insert r t)) [
      | inr (m, v, e) ↦
          let step = sym (ap (λ q. then_on q (c.execute commit)) e) ∙ h in
          inr
            (subst (Within s) (ap (λ p. p.1) step) (inserted r w e), (m, sym (ap (λ p. p.0) step)))
      | inl (done, v, e) ↦
          let step = sym (ap (λ q. then_on q (c.execute commit)) e) ∙ h in
          elim (Answer-cases (c.execute commit v)) [
            | inr (m, x, f) ↦
                inr (commit_failed {message = m} (inserted r w e) (cc (f, step)), (m, cc (f, step)))
            | inl (done, x, f) ↦
                inl (
                  cc (f, step),
                  Same-trans (laws.commit_keeps (cc (f, step))) (laws.insert_adds r e),
                )
          ]
    ]

    transaction_cases :
        (xs : List Text) (r : MigrationRecord) (t u : S) (outcome : Result String (Unit {0}))
        → AllDdl xs
        → Within s t
        → transaction c xs r t ≡ (outcome, u)
        → ((outcome ≡ ok tt) × Same (c.rows u) (r ∷ c.rows t))
          ⊎ (Within s u × ((m : String) × (outcome ≡ err m)))
    unfolding transaction
    transaction_cases xs r t u outcome d w h = elim (Answer-cases (run_statements c xs t)) [
      | inr (m, v, e) ↦
          let step =
            sym (ap (λ q. then_on q (λ t. then_on (c.insert r t) (c.execute commit))) e) ∙ h in
          let (inside, ended) = statements_cases xs t v (err m) d w e in
          inr (subst (Within s) (ap (λ p. p.1) step) inside, (m, sym (ap (λ p. p.0) step)))
      | inl (done, v, e) ↦
          let step =
            sym (ap (λ q. then_on q (λ t. then_on (c.insert r t) (c.execute commit))) e) ∙ h in
          let (inside, ended) = statements_cases xs t v (ok tt) d w e in
          elim (finish_cases r v u outcome inside step) [
            | inr bad ↦ inr bad
            | inl (good, same) ↦ elim ended [
              | inr (m, absurdity) ↦ cc
              | inl (fine, kept) ↦ inl (good, Same-trans same (Same-cons r kept))
            ]
          ]
    ]

    abbrev pub Kept : Result MigrationError (Unit {0}) × S → Type 0
    Kept p = Same (c.rows p.1) (c.rows s) × ((e : MigrationError) × (p.0 ≡ err e))

    abbrev pub Applied : MigrationRecord → Result MigrationError (Unit {0}) × S → Type 0
    Applied r p = (p.0 ≡ ok tt) × Same (c.rows p.1) (r ∷ c.rows s)

    Kept-roll_back :
        (name : Text) (t : S) → Within s t → Kept (roll_back name (c.execute rollback t))
    unfolding roll_back
    Kept-roll_back name t w = elim (Answer-cases (c.execute rollback t)) [
      | inl (done, u, e) ↦
          subst (λ p. Kept (roll_back name p)) (sym e)
            (laws.rollback_restores w e, (rolled_back name, refl))
      | inr (m, u, e) ↦
          subst (λ p. Kept (roll_back name p)) (sym e)
            (laws.rollback_restores w e, (database m, refl))
    ]

    ended_cases :
        (name : Text) (xs : List Text) (r : MigrationRecord) (t : S)
        → AllDdl xs
        → c.execute begin_transaction s ≡ (ok tt, t)
        → Applied r (ended c name (transaction c xs r t))
          ⊎ Kept (ended c name (transaction c xs r t))
    unfolding ended
    ended_cases name xs r t d e = elim (Answer-cases (transaction c xs r t)) [
      | inl (done, v, f) ↦ elim (transaction_cases xs r t v (ok tt) d (opened e) f) [
        | inr (w, (m, never)) ↦ cc
        | inl (good, same) ↦ inl (
            subst (λ p. Applied r (ended c name p)) (sym f)
              (refl, Same-trans same (Same-cons r (laws.begin_keeps e))))
      ]
      | inr (m, v, f) ↦ elim (transaction_cases xs r t v (err m) d (opened e) f) [
        | inl (never, same) ↦ cc
        | inr (w, bad) ↦ inr (subst (λ p. Kept (ended c name p)) (sym f) (Kept-roll_back name v w))
      ]
    ]

    -- One migration is applied whole, or leaves the ledger as it was.
    pub apply_one_cases :
        (name : Text) (xs : List Text) (r : MigrationRecord)
        → AllDdl xs
        → Applied r (apply_one c name xs r s) ⊎ Kept (apply_one c name xs r s)
    unfolding apply_one begun
    apply_one_cases name xs r d = elim (Answer-cases (c.execute begin_transaction s)) [
      | inr (m, t, e) ↦
          inr (
            subst (λ p. Kept (begun c name xs r p)) (sym e)
              (laws.begin_keeps e, (database m, refl)))
      | inl (done, t, e) ↦ elim (ended_cases name xs r t d e) [
        | inl good ↦ inl (subst (λ p. Applied r (begun c name xs r p)) (sym e) good)
        | inr bad ↦ inr (subst (λ p. Kept (begun c name xs r p)) (sym e) bad)
      ]
    ]
