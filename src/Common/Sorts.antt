-- ===== src/Common/Sorts.antt =====
-- Stable sorting by a Boolean order, and orders made of orders.
use mathlib.Core.Path.{◌≡◌, refl, sym}
use mathlib.Core.Logic.{◌⊎◌, inl, inr}
use mathlib.Core.Bool.{Bool, true, false, not, ◌&&◌, ◌||◌}
use mathlib.Core.List.{List, [], ◌∷◌, Memᴰ}
use native.Mathlib.Omega.{arith}
use a_share_analysis.Common.Tests.{if◌then◌else◌, Bool-cases, leb}
use a_share_analysis.Common.Lists.{Memᴰ-cons, Distinct}
use a_share_analysis.Common.Texts.{Text, text_leb}

module _ {ℓ} {A : Type ℓ} where
  insert_by : (A → A → Bool) → A → List A → List A
  insert_by le x [] = x ∷ []
  insert_by le x (y ∷ ys) = let rest = insert_by le x ys in if le x y then x ∷ y ∷ ys else y ∷ rest

  -- sorted(xs), with `le x y` for not y < x
  unfoldable pub sort_by : (A → A → Bool) → List A → List A
  unfolding insert_by
  sort_by le [] = []
  sort_by le (x ∷ xs) = insert_by le x (sort_by le xs)

  -- Any two are in order one way or the other, and the order passes on.
  pub record IsOrder (le : A → A → Bool) : Type ℓ where
    pub total : (x y : A) → (le x y ≡ true) ⊎ (le y x ≡ true)
    pub passes : (x y z : A) → le x y ≡ true → le y z ≡ true → le x z ≡ true

  -- Two orders, the second where the first is even: how Python compares tuples
  unfoldable pub lex : (A → A → Bool) → (A → A → Bool) → A → A → Bool
  lex a b x y = a x y && (not (a y x) || b x y)

  IsOrder-itself : (le : A → A → Bool) → IsOrder le → (x : A) → le x x ≡ true
  IsOrder-itself le o x = elim (o.total x x) [ inl e ↦ e | inr e ↦ e ]

  pub lex-IsOrder : (a b : A → A → Bool) → IsOrder a → IsOrder b → IsOrder (lex a b)
  unfolding lex
  lex-IsOrder a b p q = record {
    total = λ x y. ground (arith, p.total x y, q.total x y);
    passes =
        λ x y z h k. ground (arith, p.passes x y z, p.passes z x y, p.passes y z x, q.passes x y z);
  }

  insert_by-mem :
      (le : A → A → Bool) (z x : A) (ys : List A) → Memᴰ z (insert_by le x ys) → (z ≡ x) ⊎ Memᴰ z ys
  unfolding insert_by
  insert_by-mem le z x [] m = Memᴰ-cons m
  insert_by-mem le z x (y ∷ ys) m = elim (Bool-cases (le x y)) [
    | inl e ↦ Memᴰ-cons (rw e at m)
    | inr e ↦ elim (Memᴰ-cons (rw e at m)) [
      | inl same ↦ inr (Memᴰ.head same)
      | inr n ↦ elim (insert_by-mem le z x ys n) [ inl same ↦ inl same | inr o ↦ inr (Memᴰ.tail o) ]
    ]
  ]

  mem-insert_by :
      (le : A → A → Bool) (z x : A) (ys : List A) → (z ≡ x) ⊎ Memᴰ z ys → Memᴰ z (insert_by le x ys)
  unfolding insert_by
  mem-insert_by le z x [] (inl e) = Memᴰ.head e
  mem-insert_by le z x [] (inr m) = elim m [ ]
  mem-insert_by le z x (y ∷ ys) m = elim (Bool-cases (le x y)) [
    | inl e ↦ rw e (elim m [ inl same ↦ Memᴰ.head same | inr n ↦ Memᴰ.tail n ])
    | inr e ↦ rw e (elim m [
      | inl same ↦ Memᴰ.tail (mem-insert_by le z x ys (inl same))
      | inr n ↦ elim (Memᴰ-cons n) [
        | inl here ↦ Memᴰ.head here
        | inr o ↦ Memᴰ.tail (mem-insert_by le z x ys (inr o))
      ]
    ])
  ]

  pub mem_of-sort_by :
      (le : A → A → Bool) (z : A) (xs : List A) → Memᴰ z (sort_by le xs) → Memᴰ z xs
  unfolding sort_by
  mem_of-sort_by le z [] m = m
  mem_of-sort_by le z (x ∷ xs) m = elim (insert_by-mem le z x (sort_by le xs) m) [
    | inl same ↦ Memᴰ.head same
    | inr n ↦ Memᴰ.tail (mem_of-sort_by le z xs n)
  ]

  pub mem-sort_by : (le : A → A → Bool) (z : A) (xs : List A) → Memᴰ z xs → Memᴰ z (sort_by le xs)
  unfolding sort_by
  mem-sort_by le z [] m = m
  mem-sort_by le z (x ∷ xs) m =
      mem-insert_by le z x (sort_by le xs)
        (elim (Memᴰ-cons m) [ inl same ↦ inl same | inr n ↦ inr (mem-sort_by le z xs n) ])

  Distinct-insert_by :
      (le : A → A → Bool) (x : A) (ys : List A)
      → ¬ Memᴰ x ys
      → Distinct ys
      → Distinct (insert_by le x ys)
  unfolding insert_by
  Distinct-insert_by le x [] new d = (new, d)
  Distinct-insert_by le x (y ∷ ys) new d = elim (Bool-cases (le x y)) [
    | inl e ↦ rw e (new, d)
    | inr e ↦ rw e (
      (λ m. elim (insert_by-mem le y x ys m) [
        | inl same ↦ new (Memᴰ.head (sym same))
        | inr n ↦ d.0 n
      ]),
      Distinct-insert_by le x ys (λ m. new (Memᴰ.tail m)) d.1,
    )
  ]

  pub Distinct-sort_by : (le : A → A → Bool) (xs : List A) → Distinct xs → Distinct (sort_by le xs)
  unfolding sort_by
  Distinct-sort_by le [] d = d
  Distinct-sort_by le (x ∷ xs) d =
      Distinct-insert_by le x (sort_by le xs) (λ m. d.0 (mem_of-sort_by le x xs m))
        (Distinct-sort_by le xs d.1)

  insert_by-head :
      (le : A → A → Bool) (w y h : A) (hs ys : List A)
      → insert_by le y (h ∷ hs) ≡ w ∷ ys
      → ((le y h ≡ true) × (w ≡ y)) ⊎ ((le y h ≡ false) × (w ≡ h))
  unfolding insert_by
  insert_by-head le w y h hs ys e = elim (Bool-cases (le y h)) [
    | inl f ↦ inl (f, cc (rw f at e))
    | inr f ↦ inr (f, cc (rw f at e))
  ]

  least_step :
      (le : A → A → Bool) (w x y : A) (xs sorted ys : List A)
      → IsOrder le
      → insert_by le y sorted ≡ w ∷ ys
      → ((z : A) → Memᴰ z xs → Memᴰ z sorted)
      → ((h : A) (hs : List A) → sorted ≡ h ∷ hs → (z : A) → Memᴰ z xs → le h z ≡ true)
      → Memᴰ x (y ∷ xs)
      → le w x ≡ true
  unfolding insert_by
  least_step le w x y xs [] ys o e inside least m = elim (Memᴰ-cons m) [
    | inl same ↦ cc (e, same, IsOrder-itself le o y)
    | inr n ↦ elim (inside x n) [ ]
  ]
  least_step le w x y xs (h ∷ hs) ys o e inside least m = elim (insert_by-head le w y h hs ys e) [
    | inl (f, is_y) ↦ elim (Memᴰ-cons m) [
      | inl same ↦ cc (is_y, same, IsOrder-itself le o y)
      | inr n ↦ cc (is_y, o.passes y h x f (least h hs refl x n))
    ]
    | inr (f, is_h) ↦ elim (Memᴰ-cons m) [
      | inl same ↦ elim (o.total h y) [ inl g ↦ cc (is_h, same, g) | inr g ↦ cc (f, g) ]
      | inr n ↦ cc (is_h, least h hs refl x n)
    ]
  ]

  -- The first of a sorted list is in order with every element.
  pub sort_by-least :
      (le : A → A → Bool) (xs : List A) (w x : A) (ys : List A)
      → IsOrder le
      → sort_by le xs ≡ w ∷ ys
      → Memᴰ x xs
      → le w x ≡ true
  unfolding sort_by
  sort_by-least le [] w x ys o e m = elim m [ ]
  sort_by-least le (y ∷ xs) w x ys o e m =
      least_step le w x y xs (sort_by le xs) ys o e (λ z n. mem-sort_by le z xs n)
        (λ h hs f z n. sort_by-least le xs h z hs o f n) m

-- Elements compared by what a function says of them
pub by-IsOrder {ℓ κ} :
    {A : Type ℓ} {B : Type κ} (f : A → B) (le : B → B → Bool)
    → IsOrder le
    → IsOrder (λ x y. le (f x) (f y))
by-IsOrder f le o = record {
  total = λ x y. o.total (f x) (f y);
  passes = λ x y z. o.passes (f x) (f y) (f z);
}

pub leb-IsOrder : IsOrder leb
leb-IsOrder = record { total = λ x y. ground arith; passes = λ x y z h k. ground arith }

text_total : (s t : Text) → (text_leb s t ≡ true) ⊎ (text_leb t s ≡ true)
unfolding text_leb
text_total [] t = inl refl
text_total (a ∷ s) [] = inr refl
text_total (a ∷ s) (b ∷ t) = ground (arith, text_total s t)

text_passes : (s t u : Text) → text_leb s t ≡ true → text_leb t u ≡ true → text_leb s u ≡ true
unfolding text_leb
text_passes [] t u h k = refl
text_passes (a ∷ s) [] u h k = cc
text_passes (a ∷ s) (b ∷ t) [] h k = cc
text_passes (a ∷ s) (b ∷ t) (c ∷ u) h k = ground (arith, text_passes s t u)

pub text_leb-IsOrder : IsOrder text_leb
text_leb-IsOrder = record { total = text_total; passes = text_passes }

pub text_leb-antisym : (s t : Text) → text_leb s t ≡ true → text_leb t s ≡ true → s ≡ t
unfolding text_leb
text_leb-antisym [] [] h k = refl
text_leb-antisym [] (b ∷ t) h k = cc
text_leb-antisym (a ∷ s) [] h k = cc
text_leb-antisym (a ∷ s) (b ∷ t) h k = ground (arith, text_leb-antisym s t)
