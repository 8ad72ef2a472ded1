-- ===== src/Canonical/Copies.antt =====
-- IdentityBridge.resolve of canonical/identity.py on entries that are all the same.
use a_share_analysis.Common.{
  ◌≡◌, refl, ap, ◌∙◌, ℕ, zero, suc, Bool, true, false, none, some, List, [], ◌∷◌, keep, all, str_eq,
  eq_iff, Memᴰ, inl, inr, Bool-cases, arith, if◌then◌else◌,
}
use a_share_analysis.Identity.{Date}
use a_share_analysis.Canonical.Bridge.{IdentityEntry, date_eq}
use a_share_analysis.Canonical.Lookup.{valid_at, latest, agreed, latest_of, resolve_among}

abbrev pub copies : ℕ → IdentityEntry → List IdentityEntry
copies zero x = []
copies (suc n) x = x ∷ copies n x

pub copies_of :
    (x : IdentityEntry) (es : List IdentityEntry)
    → ((y : IdentityEntry) → Memᴰ y es → y ≡ x)
    → (n : ℕ) × (es ≡ copies n x)
copies_of x [] same = (0, refl)
copies_of x (y ∷ es) same =
    let (n, e) = copies_of x es (λ z m. same z (Memᴰ.tail m)) in
    (suc n, cc (same y (Memᴰ.head refl), e))

keep-copies :
    (p : IdentityEntry → Bool) (x : IdentityEntry) (n : ℕ)
    → p x ≡ true
    → keep p (copies n x) ≡ copies n x
unfolding keep
keep-copies p x zero h = refl
keep-copies p x (suc n) h = rw h (ap (λ es. x ∷ es) (keep-copies p x n h))

drop-copies :
    (p : IdentityEntry → Bool) (x : IdentityEntry) (n : ℕ) → p x ≡ false → keep p (copies n x) ≡ []
unfolding keep
drop-copies p x zero h = refl
drop-copies p x (suc n) h = rw h (drop-copies p x n h)

latest-copies : (x : IdentityEntry) (n : ℕ) → latest x (copies n x) ≡ x.valid_from
unfolding latest
latest-copies x zero = refl
latest-copies x (suc n) = ground (arith, latest-copies x n)

all-copies :
    (x : IdentityEntry) (n : ℕ) → all (λ y. str_eq y.security_id x.security_id) (copies n x) ≡ true
unfolding all
all-copies x zero = refl
all-copies x (suc n) = rw ((eq_iff x.security_id x.security_id).1 refl) (all-copies x n)

date_eq_refl : (d : Date) → date_eq d d ≡ true
unfolding date_eq
date_eq_refl d = ground arith

agreed-nil : agreed [] ≡ none
unfolding agreed
agreed-nil = refl

latest_of-copies : (x : IdentityEntry) (n : ℕ) → latest_of (copies (suc n) x) ≡ copies (suc n) x
latest_of-copies x n =
    ap (λ d. keep (λ y. date_eq y.valid_from d) (copies (suc n) x)) (latest-copies x n)
    ∙ keep-copies (λ y. date_eq y.valid_from x.valid_from) x (suc n) (date_eq_refl x.valid_from)

agreed-copies : (x : IdentityEntry) (n : ℕ) → agreed (copies (suc n) x) ≡ some x.security_id
unfolding agreed
agreed-copies x n = rw (all-copies x n) refl

pub resolve_among-copies :
    (day : Date) (x : IdentityEntry) (n : ℕ)
    → resolve_among day (copies (suc n) x) ≡ (if valid_at day x then some x.security_id else none)
unfolding resolve_among
resolve_among-copies day x n = elim (Bool-cases (valid_at day x)) [
  | inr e ↦
      cc (ap (λ es. agreed (latest_of es)) (drop-copies (valid_at day) x (suc n) e), agreed-nil, e)
  | inl e ↦ cc (
    ap (λ es. agreed (latest_of es)) (keep-copies (valid_at day) x (suc n) e),
    ap agreed (latest_of-copies x n),
    agreed-copies x n,
    e,
  )
]
