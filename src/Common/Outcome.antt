-- ===== src/Common/Outcome.antt =====
-- A Go pair `(value, error)`: a value, or an error and no value.
use mathlib.Core.Path.{◌≡◌, refl}
use mathlib.Core.Logic.{◌⊎◌, inl, inr}
use mathlib.Core.Bool.{Bool, true, false}
use mathlib.Core.Option.{Option, none, some}

pub data Result {ℓ κ} (E : Type ℓ) (A : Type κ) : Type (ℓ ⊔ κ) where
  err : E → Result E A
  ok : A → Result E A

abbrev pub or_fail {ℓ κ} : {E : Type ℓ} {A : Type κ} → Option A → E → Result E A
or_fail none failure = err failure
or_fail (some value) failure = ok value

infixl 5 ◌>>=◌
abbrev pub ◌>>=◌ {ℓ κ μ} :
    {F : Type ℓ} {X : Type κ} {Y : Type μ} → Result F X → (X → Result F Y) → Result F Y
err failure >>= continue = err failure
ok value >>= continue = continue value

-- `if bad { return nil, failure }`
abbrev pub refuse_if {ℓ} : {F : Type ℓ} → Bool → F → Result F (Unit {0})
refuse_if false failure = ok tt
refuse_if true failure = err failure

infixl 5 ◌>>◌
abbrev pub ◌>>◌ {ℓ κ} : {F : Type ℓ} {Y : Type κ} → Result F (Unit {0}) → Result F Y → Result F Y
first >> second = first >>= (λ done. second)

-- An error that wraps another.
abbrev pub wrap_error {ℓ κ μ} :
    {E : Type ℓ} {F : Type κ} {A : Type μ} → (E → F) → Result E A → Result F A
wrap_error f (ok a) = ok a
wrap_error f (err e) = err (f e)

abbrev pub map_ok {ℓ κ μ} :
    {E : Type ℓ} {A : Type κ} {B : Type μ} → (A → B) → Result E A → Result E B
map_ok f (ok a) = ok (f a)
map_ok f (err e) = err e

pub >>=-eq-ok {ℓ κ μ} :
    {F : Type ℓ} {X : Type κ} {Y : Type μ} (r : Result F X) (continue : X → Result F Y) {y : Y}
    → (r >>= continue) ≡ ok y
    → (x : X) × (r ≡ ok x) × (continue x ≡ ok y)
>>=-eq-ok (err failure) continue e = cc
>>=-eq-ok (ok x) continue e = (x, refl, e)

pub Result-cases {ℓ κ} :
    {E : Type ℓ} {A : Type κ} (r : Result E A) → ((a : A) × (r ≡ ok a)) ⊎ ((e : E) × (r ≡ err e))
Result-cases (ok a) = inl (a, refl)
Result-cases (err e) = inr (e, refl)

pub wrap_error-eq-ok {ℓ κ μ} :
    {E : Type ℓ} {F : Type κ} {A : Type μ} (f : E → F) (r : Result E A) {a : A}
    → wrap_error f r ≡ ok a
    → r ≡ ok a
wrap_error-eq-ok f (ok b) h = cc
wrap_error-eq-ok f (err e) h = cc
