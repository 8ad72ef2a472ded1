-- ===== src/MarketState/Rules/EmptyCounts.antt =====
-- Which counts the trend participation rule of state/engine.py reports as empty.
use a_share_analysis.Common.{
  ℕ, zero, suc, String, ◌≡◌, refl, ◌⊎◌, ◌↔◌, inl, inr, true, false, Bool-cases, ℤ, pos, negsuc,
  is_nonpositive, Memᴰ, Memᴰ-cons,
}
use a_share_analysis.MarketState.Rules.{empty_counts}

-- The names of the counts that are not positive
pub IsEmptyCount : (ma_count mom_count : ℤ) → String → Type 0
IsEmptyCount ma_count mom_count n =
    ((n ≡ "valid_ma20_count") × (is_nonpositive ma_count ≡ true))
    ⊎ ((n ≡ "valid_mom20_count") × (is_nonpositive mom_count ≡ true))

pub empty_counts_iff : (a b : ℤ) (n : String) → Memᴰ n (empty_counts a b) ↔ IsEmptyCount a b n
unfolding empty_counts IsEmptyCount
empty_counts_iff a b n = elim (Bool-cases (is_nonpositive a)) [
  | inl p ↦ elim (Bool-cases (is_nonpositive b)) [
    | inl q ↦
        rw (p, q)
          (
            λ m. elim (Memᴰ-cons m) [
              | inl e ↦ inl (e, refl)
              | inr o ↦ elim (Memᴰ-cons o) [ inl e ↦ inr (e, refl) | inr never ↦ elim never [ ] ]
            ],
            λ c. elim c [ inl (e, t) ↦ Memᴰ.head e | inr (e, t) ↦ Memᴰ.tail (Memᴰ.head e) ],
          )
    | inr q ↦
        rw (p, q)
          (
            λ m. elim (Memᴰ-cons m) [ inl e ↦ inl (e, refl) | inr never ↦ elim never [ ] ],
            λ c. elim c [ inl (e, t) ↦ Memᴰ.head e | inr (e, t) ↦ cc ],
          )
  ]
  | inr p ↦ elim (Bool-cases (is_nonpositive b)) [
    | inl q ↦
        rw (p, q)
          (
            λ m. elim (Memᴰ-cons m) [ inl e ↦ inr (e, refl) | inr never ↦ elim never [ ] ],
            λ c. elim c [ inl (e, t) ↦ cc | inr (e, t) ↦ Memᴰ.head e ],
          )
    | inr q ↦ rw (p, q) (λ m. elim m [ ], λ c. elim c [ inl (e, t) ↦ cc | inr (e, t) ↦ cc ])
  ]
]

pub positive_of : (a : ℤ) → is_nonpositive a ≡ false → (k : ℕ) × (a ≡ pos (suc k))
positive_of (pos (suc k)) h = (k, refl)
positive_of (pos zero) h = cc
positive_of (negsuc k) h = cc
