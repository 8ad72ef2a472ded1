-- ===== src/Common/Results.antt =====
-- A Python call that returns a value or raises: `err` carries what was raised.
use mathlib.Core.Path.{◌≡◌, refl}
use mathlib.Core.Logic.{◌⊎◌, inl, inr}
use mathlib.Core.Bool.{Bool, true, false}

pub data Result {ℓ κ} (E : Type ℓ) (A : Type κ) : Type (ℓ ⊔ κ) where
  ok : A → Result E A
  err : E → Result E A

infixl 5 ◌>>◌ ◌>>=◌
-- What follows a call that may raise
abbrev pub ◌>>=◌ {ε α β} :
    {Raised : Type ε} {X : Type α} {Y : Type β}
    → Result Raised X
    → (X → Result Raised Y)
    → Result Raised Y
err raised >>= rest = err raised
ok x >>= rest = rest x

abbrev pub ◌>>◌ {ε β} :
    {Raised : Type ε} {Y : Type β} → Result Raised (Unit {0}) → Result Raised Y → Result Raised Y
check >> rest = check >>= λ done. rest

-- `if not test: raise e`
abbrev pub guard {ε} : {Raised : Type ε} → (test : Bool) → Raised → Result Raised (Unit {0})
guard false raised = err raised
guard true raised = ok tt

-- A chain that returned got through its first call.
pub >>=-eq-ok {ε α β} :
    {Raised : Type ε} {X : Type α} {Y : Type β} (call : Result Raised X)
    (rest : X → Result Raised Y) {y : Y}
    → (call >>= rest) ≡ ok y
    → (x : X) × (call ≡ ok x) × (rest x ≡ ok y)
>>=-eq-ok (err raised) rest h = cc
>>=-eq-ok (ok x) rest h = (x, refl, h)

pub guard-eq-ok {ε} :
    {Raised : Type ε} (test : Bool) (raised : Raised) → guard test raised ≡ ok tt → test ≡ true
guard-eq-ok false raised h = cc
guard-eq-ok true raised h = refl

pub Result-cases {ℓ κ} :
    {E : Type ℓ} {A : Type κ} (r : Result E A) → ((a : A) × (r ≡ ok a)) ⊎ ((e : E) × (r ≡ err e))
Result-cases (ok a) = inl (a, refl)
Result-cases (err e) = inr (e, refl)

pub ok_injective {ℓ κ} :
    {E : Type ℓ} {A : Type κ} {a b : A} → ◌≡◌ {A = Result E A} (ok a) (ok b) → a ≡ b
ok_injective e = cc

-- The answer of a call that acts on a state, which it leaves changed either way
pub Answer-cases {ε α ω} :
    {Raised : Type ε} {A : Type α} {W : Type ω} (answer : Result Raised A × W)
    → ((a : A) × (w : W) × (answer ≡ (ok a, w))) ⊎ ((e : Raised) × (w : W) × (answer ≡ (err e, w)))
Answer-cases (ok a, w) = inl (a, w, refl)
Answer-cases (err e, w) = inr (e, w, refl)
