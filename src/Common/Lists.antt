-- ===== src/Common/Lists.antt =====
-- Lists measured by native numbers, searched and filtered by Boolean tests.
use Prim.Native.Nat.{ℕ, suc, ◌+◌}
use mathlib.Core.Path.{◌≡◌, refl, ap}
use mathlib.Core.Logic.{◌⊎◌, inl, inr}
use mathlib.Core.Bool.{Bool, true, false, ◌&&◌, ◌||◌}
use mathlib.Core.List.{List, [], ◌∷◌, ◌++◌, map, Memᴰ}
use native.Mathlib.Omega.{arith}
use a_share_analysis.Common.Tests.{if◌then◌else◌, Bool-cases}

module _ {ℓ} {A : Type ℓ} where
  abbrev pub length : List A → ℕ
  length [] = 0
  length (x ∷ xs) = suc (length xs)

  pub length-append : (xs ys : List A) → length (xs ++ ys) ≡ length xs + length ys
  length-append [] ys = omega arith
  length-append (x ∷ xs) ys = omega (arith, length-append xs ys)

  -- any(p(x) for x in xs)
  unfoldable pub any : (A → Bool) → List A → Bool
  any p [] = false
  any p (x ∷ xs) = p x || any p xs

  -- all(p(x) for x in xs)
  unfoldable pub all : (A → Bool) → List A → Bool
  all p [] = true
  all p (x ∷ xs) = p x && all p xs

  -- [x for x in xs if p(x)]
  unfoldable pub keep : (A → Bool) → List A → List A
  keep p [] = []
  keep p (x ∷ xs) = let rest = keep p xs in if p x then x ∷ rest else rest

  pub Memᴰ-cons : {x y : A} {ys : List A} → Memᴰ x (y ∷ ys) → (x ≡ y) ⊎ Memᴰ x ys
  Memᴰ-cons (Memᴰ.head e) = inl e
  Memᴰ-cons (Memᴰ.tail m) = inr m

  pub any-of_mem : (p : A → Bool) (x : A) (xs : List A) → Memᴰ x xs → p x ≡ true → any p xs ≡ true
  unfolding any
  any-of_mem p x [] m h = elim m [ ]
  any-of_mem p x (y ∷ ys) (Memᴰ.head e) h = ground (arith, ap p e)
  any-of_mem p x (y ∷ ys) (Memᴰ.tail m) h = ground (arith, any-of_mem p x ys m h)

  pub mem_of-any :
      (p : A → Bool) (xs : List A) → any p xs ≡ true → (x : A) × Memᴰ x xs × (p x ≡ true)
  unfolding any
  mem_of-any p [] h = cc
  mem_of-any p (x ∷ xs) h = elim (Bool-cases (p x)) [
    | inl e ↦ (x, Memᴰ.head refl, e)
    | inr e ↦ let (y, m, q) = mem_of-any p xs (rw e at h) in (y, Memᴰ.tail m, q)
  ]

  pub mem_of-keep :
      (p : A → Bool) (x : A) (xs : List A) → Memᴰ x (keep p xs) → Memᴰ x xs × (p x ≡ true)
  unfolding keep
  mem_of-keep p x [] m = elim m [ ]
  mem_of-keep p x (y ∷ ys) m = elim (Bool-cases (p y)) [
    | inl e ↦ elim (Memᴰ-cons (rw e at m)) [
      | inl q ↦ (Memᴰ.head q, cc (ap p q))
      | inr r ↦ let (n, h) = mem_of-keep p x ys r in (Memᴰ.tail n, h)
    ]
    | inr e ↦ let (n, h) = mem_of-keep p x ys (rw e at m) in (Memᴰ.tail n, h)
  ]

  pub mem-keep : (p : A → Bool) (x : A) (xs : List A) → Memᴰ x xs → p x ≡ true → Memᴰ x (keep p xs)
  unfolding keep
  mem-keep p x [] m h = elim m [ ]
  mem-keep p x (y ∷ ys) (Memᴰ.head q) h = rw (let e : p y ≡ true = cc (ap p q) in e) (Memᴰ.head q)
  mem-keep p x (y ∷ ys) (Memᴰ.tail m) h = elim (Bool-cases (p y)) [
    | inl e ↦ rw e (Memᴰ.tail (mem-keep p x ys m h))
    | inr e ↦ rw e (mem-keep p x ys m h)
  ]

  pub Memᴰ-append_left : {x : A} {xs : List A} (ys : List A) → Memᴰ x xs → Memᴰ x (xs ++ ys)
  Memᴰ-append_left ys (Memᴰ.head e) = Memᴰ.head e
  Memᴰ-append_left ys (Memᴰ.tail m) = Memᴰ.tail (Memᴰ-append_left ys m)

  pub Memᴰ-append_right : {x : A} (xs : List A) {ys : List A} → Memᴰ x ys → Memᴰ x (xs ++ ys)
  Memᴰ-append_right [] m = m
  Memᴰ-append_right (y ∷ xs) m = Memᴰ.tail (Memᴰ-append_right xs m)

  pub Memᴰ-append : {x : A} (xs ys : List A) → Memᴰ x (xs ++ ys) → Memᴰ x xs ⊎ Memᴰ x ys
  Memᴰ-append [] ys m = inr m
  Memᴰ-append (y ∷ xs) ys (Memᴰ.head e) = inl (Memᴰ.head e)
  Memᴰ-append (y ∷ xs) ys (Memᴰ.tail m) = elim (Memᴰ-append xs ys m) [
    | inl n ↦ inl (Memᴰ.tail n)
    | inr n ↦ inr n
  ]

  -- No element stands twice.
  abbrev pub Distinct : List A → Type ℓ
  Distinct [] = Unit {ℓ}
  Distinct (x ∷ xs) = (¬ Memᴰ x xs) × Distinct xs

  pub List-cases : (xs : List A) → (xs ≡ []) ⊎ ((x : A) × (ys : List A) × (xs ≡ x ∷ ys))
  List-cases [] = inl refl
  List-cases (x ∷ xs) = inr (x, xs, refl)

pub mem_of-map {ℓ κ} :
    {A : Type ℓ} {B : Type κ} (f : A → B) (y : B) (xs : List A)
    → Memᴰ y (map f xs)
    → (x : A) × Memᴰ x xs × (y ≡ f x)
mem_of-map f y [] m = elim m [ ]
mem_of-map f y (x ∷ xs) m = elim (Memᴰ-cons m) [
  | inl e ↦ (x, Memᴰ.head refl, e)
  | inr n ↦ let (z, o, e) = mem_of-map f y xs n in (z, Memᴰ.tail o, e)
]
