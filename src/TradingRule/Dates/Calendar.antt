-- ===== src/TradingRule/Dates/Calendar.antt =====
-- The sorted calendar of first_n_sessions in spike/trading_rule.py: an increasing list of the
-- calendar's days, on which an index counts the distinct days before it.
use a_share_analysis.Common.{
  ℕ, ◌<◌, ◌≤◌, ◌≡◌, refl, sym, ◌∙◌, subst, true, false, ◌||◌, List, [], ◌∷◌, keep, length, arith,
  ltb, ◌==◌, Bool-cases, inl, inr,
}
use a_share_analysis.TradingRule.Dates.{insert_day, sorted_set, day_in, index}

-- Every listed day is later than x.
abbrev pub Above : ℕ → List ℕ → Type 0
Above x [] = Unit
Above x (e ∷ es) = (x < e) × Above x es

abbrev pub Increasing : List ℕ → Type 0
Increasing [] = Unit
Increasing (e ∷ es) = Above e es × Increasing es

pub Above-mono : (x y : ℕ) (es : List ℕ) → x < y → Above y es → Above x es
Above-mono x y [] h a = tt
Above-mono x y (e ∷ es) h a = (omega arith, Above-mono x y es h a.1)

pub not_day_in : (x : ℕ) (es : List ℕ) → Above x es → day_in x es ≡ false
unfolding day_in
not_day_in x [] a = refl
not_day_in x (e ∷ es) a = ground (arith, not_day_in x es a.1)

insert_day-Above : (x d : ℕ) (es : List ℕ) → x < d → Above x es → Above x (insert_day d es)
unfolding insert_day
insert_day-Above x d [] h a = (h, tt)
insert_day-Above x d (e ∷ es) h a = elim (Bool-cases (ltb d e)) [
  | inl p ↦ rw p (h, a)
  | inr p ↦ elim (Bool-cases (d == e)) [
    | inl q ↦ rw (p, q) a
    | inr q ↦ rw (p, q) (a.0, insert_day-Above x d es h a.1)
  ]
]

insert_day-Increasing : (d : ℕ) (es : List ℕ) → Increasing es → Increasing (insert_day d es)
unfolding insert_day
insert_day-Increasing d [] i = (tt, tt)
insert_day-Increasing d (e ∷ es) i = elim (Bool-cases (ltb d e)) [
  | inl p ↦ let h : d < e = ground arith in rw p ((h, Above-mono d e es h i.0), i)
  | inr p ↦ elim (Bool-cases (d == e)) [
    | inl q ↦ rw (p, q) i
    | inr q ↦ rw (p, q) (insert_day-Above e d es (ground arith) i.0, insert_day-Increasing d es i.1)
  ]
]

pub sorted_set-Increasing : (c : List ℕ) → Increasing (sorted_set c)
unfolding sorted_set
sorted_set-Increasing [] = tt
sorted_set-Increasing (d ∷ c) = insert_day-Increasing d (sorted_set c) (sorted_set-Increasing c)

day_in-insert_day : (x d : ℕ) (es : List ℕ) → day_in x (insert_day d es) ≡ (d == x || day_in x es)
unfolding day_in insert_day
day_in-insert_day x d [] = refl
day_in-insert_day x d (e ∷ es) = ground (arith, day_in-insert_day x d es)

pub day_in-sorted_set : (x : ℕ) (c : List ℕ) → day_in x (sorted_set c) ≡ day_in x c
unfolding sorted_set day_in
day_in-sorted_set x [] = refl
day_in-sorted_set x (d ∷ c) = day_in-insert_day x d (sorted_set c) ∙ rw (day_in-sorted_set x c)

module _ (x y : ℕ) (xs ys : List ℕ) (i : Increasing (x ∷ xs)) (j : Increasing (y ∷ ys))
    (h : (z : ℕ) → day_in z (x ∷ xs) ≡ day_in z (y ∷ ys)) where
  same_head : x ≡ y
  unfolding day_in
  same_head = elim (Bool-cases (ltb x y)) [
    | inl p ↦ ground (arith, h x, not_day_in x ys (Above-mono x y ys (ground arith) j.0))
    | inr p ↦ elim (Bool-cases (ltb y x)) [
      | inl q ↦ ground (arith, h y, not_day_in y xs (Above-mono y x xs (ground arith) i.0))
      | inr q ↦ ground arith
    ]
  ]

  same_tail : (z : ℕ) → day_in z xs ≡ day_in z ys
  unfolding day_in
  same_tail z = elim (Bool-cases (x == z)) [
    | inl p ↦
        let e : x ≡ z = ground arith in
        let f : y ≡ z = sym same_head ∙ e in
        let a : day_in z xs ≡ false = subst (λ k. day_in k xs ≡ false) e (not_day_in x xs i.0) in
        let b : day_in z ys ≡ false = subst (λ k. day_in k ys ≡ false) f (not_day_in y ys j.0) in
        a ∙ sym b
    | inr p ↦ ground (arith, h z, same_head)
  ]

-- An increasing list is determined by what it holds.
pub Increasing-unique :
    (xs ys : List ℕ)
    → Increasing xs
    → Increasing ys
    → ((x : ℕ) → day_in x xs ≡ day_in x ys)
    → xs ≡ ys
unfolding day_in
Increasing-unique [] [] i j h = refl
Increasing-unique [] (y ∷ ys) i j h = ground (arith, h y)
Increasing-unique (x ∷ xs) [] i j h = ground (arith, h x)
Increasing-unique (x ∷ xs) (y ∷ ys) i j h =
    let tails = Increasing-unique xs ys i.1 j.1 (same_tail x y xs ys i j h) in
    cc (same_head x y xs ys i j h)

-- How many days of the list are earlier than d
abbrev pub earlier : ℕ → List ℕ → ℕ
earlier d es = length (keep (λ e. ltb e d) es)

Above-lt : (x d : ℕ) (es : List ℕ) → Above x es → day_in d es ≡ true → x < d
unfolding day_in
Above-lt x d [] a h = cc
Above-lt x d (e ∷ es) a h = ground (arith, Above-lt x d es a.1)

none_earlier : (x d : ℕ) (es : List ℕ) → d ≤ x → Above x es → earlier d es ≡ 0
unfolding keep
none_earlier x d [] h a = refl
none_earlier x d (e ∷ es) h a = ground (arith, none_earlier x d es h a.1)

-- The index of a listed day counts the days before it.
pub index-earlier :
    (d : ℕ) (es : List ℕ) → Increasing es → day_in d es ≡ true → index d es ≡ earlier d es
unfolding index keep day_in
index-earlier d [] i h = cc
index-earlier d (e ∷ es) i h = elim (Bool-cases (e == d)) [
  | inl p ↦ ground (arith, none_earlier e d es (ground arith) i.0)
  | inr p ↦
      let rest : day_in d es ≡ true = ground arith in
      ground (arith, index-earlier d es i.1 rest, Above-lt e d es i.0 rest)
]
