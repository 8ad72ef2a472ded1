-- ===== src/MarketState/Inputs/Reads.antt =====
-- What the readers of state/engine.py take from a cell, and the documented order of finite floats.
use a_share_analysis.Common.{
  String, ◌≡◌, refl, ◌↔◌, true, false, ◌||◌, Option, none, some, ok, ok_injective, subst,
  Bool-cases, inl, inr, ℤ,
}
use a_share_analysis.MarketState.Inputs.{
  Floats, Value, null, other, boolean, integer, real, Cells, finite, float_of, number_of, number,
  count_of, count, is_null,
}

module _ (fl : Floats) where
  open fl use {Float, is_finite, of_int, lt, eq, zero_float, half_float, one_float}

  -- The cell holds the finite number x, as a float or as an int that converts to it.
  pub data Reads : Value fl → Float → Type 0 where
    as_real : {x : Float} → is_finite x ≡ true → Reads (real x) x
    as_integer : {n : ℤ} {x : Float} → of_int n ≡ some x → is_finite x ≡ true → Reads (integer n) x

  -- x is below y or equal to it.
  abbrev pub AtMost : Float → Float → Type 0
  AtMost x y = (lt x y || eq x y) ≡ true

  -- What IEEE 754 says of finite floats: of two that are not in the order, the second is at most the
  -- first. The three constants are finite.
  pub record IsOrdered : Type 0 where
    pub total :
        (x y : Float) → is_finite x ≡ true → is_finite y ≡ true → lt x y ≡ false → AtMost y x
    pub zero_finite : is_finite zero_float ≡ true
    pub half_finite : is_finite half_float ≡ true
    pub one_finite : is_finite one_float ≡ true

  pub Reads-finite : (v : Value fl) (x : Float) → Reads v x → is_finite x ≡ true
  Reads-finite _ x (as_real f) = f
  Reads-finite _ x (as_integer e f) = f

  finite_some :
      (name : String) (f x : Float)
      → finite fl name f ≡ ok (some x)
      → (f ≡ x) × (is_finite x ≡ true)
  unfolding finite
  finite_some name f x h = elim (Bool-cases (is_finite f)) [
    | inl e ↦ let same : f ≡ x = cc (ok_injective (rw e at h)) in (same, cc (same, e))
    | inr e ↦ cc (rw e at h)
  ]

  finite_none : (name : String) (f : Float) → ¬ (finite fl name f ≡ ok none)
  unfolding finite
  finite_none name f h = elim (Bool-cases (is_finite f)) [
    | inl e ↦ cc (ok_injective (rw e at h))
    | inr e ↦ cc (rw e at h)
  ]

  integer_some :
      (name : String) (n : ℤ) (o : Option Float) (x : Float)
      → of_int n ≡ o
      → float_of fl name o ≡ ok (some x)
      → Reads (integer n) x
  unfolding float_of
  integer_some name n none x e h = cc
  integer_some name n (some f) x e h =
      let (same, fin) = finite_some name f x h in as_integer (cc (e, same)) fin

  integer_none : (name : String) (o : Option Float) → ¬ (float_of fl name o ≡ ok none)
  unfolding float_of
  integer_none name none h = cc
  integer_none name (some f) h = finite_none name f h

  value_some :
      (name : String) (v : Value fl) (x : Float) → number_of fl name v ≡ ok (some x) → Reads v x
  unfolding number_of
  value_some name null x h = cc (ok_injective h)
  value_some name other x h = cc
  value_some name (boolean b) x h = cc
  value_some name (integer n) x h = integer_some name n (of_int n) x refl h
  value_some name (real f) x h =
      let (same, fin) = finite_some name f x h in
      subst (Reads (real f)) same (as_real (cc (same, fin)))

  value_none : (name : String) (v : Value fl) → number_of fl name v ≡ ok none → v ≡ null
  unfolding number_of
  value_none name null h = refl
  value_none name other h = cc
  value_none name (boolean b) h = cc
  value_none name (integer n) h = absurd (integer_none name (of_int n) h)
  value_none name (real f) h = absurd (finite_none name f h)

  whole_some :
      (name : String) (v : Value fl) (n : ℤ) → count_of fl name v ≡ ok (some n) → v ≡ integer n
  unfolding count_of
  whole_some name null n h = cc (ok_injective h)
  whole_some name (integer m) n h = cc (ok_injective h)
  whole_some name _ n h = cc

  whole_none : (name : String) (v : Value fl) → count_of fl name v ≡ ok none → v ≡ null
  unfolding count_of
  whole_none name null h = refl
  whole_none name (integer m) h = cc (ok_injective h)
  whole_none name _ h = cc

  module _ (row : Cells fl) (name : String) where
    pub number-some : (x : Float) → number fl row name ≡ ok (some x) → Reads (row name) x
    unfolding number
    number-some x h = value_some name (row name) x h

    pub number-none : number fl row name ≡ ok none → row name ≡ null
    unfolding number
    number-none h = value_none name (row name) h

    pub count-some : (n : ℤ) → count fl row name ≡ ok (some n) → row name ≡ integer n
    unfolding count
    count-some n h = whole_some name (row name) n h

    pub count-none : count fl row name ≡ ok none → row name ≡ null
    unfolding count
    count-none h = whole_none name (row name) h

  pub is_null_iff : (v : Value fl) → (is_null fl v ≡ true) ↔ (v ≡ null)
  unfolding is_null
  is_null_iff null = (λ h. refl, λ h. refl)
  is_null_iff other = (λ h. cc, λ h. cc)
  is_null_iff (boolean b) = (λ h. cc, λ h. cc)
  is_null_iff (integer n) = (λ h. cc, λ h. cc)
  is_null_iff (real f) = (λ h. cc, λ h. cc)
