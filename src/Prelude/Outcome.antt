-- ===== src/Prelude/Outcome.antt =====
-- Go's `(value, error)` results: a value, or an error of the component's own type.
use mathlib.Core.Path.{◌≡◌, refl}
use mathlib.Core.Logic.{◌⊎◌, inl, inr}
use mathlib.Core.Bool.{Bool, true, false}

pub data Result {ℓ κ} (E : Type ℓ) (A : Type κ) : Type (ℓ ⊔ κ) where
  err : E → Result E A
  ok : A → Result E A

-- One outcome by itself: its two forms, and that a value is told by it.
module _ {ℓ κ} {E : Type ℓ} {A : Type κ} where
  pub Result-cases : (r : Result E A) → ((e : E) × (r ≡ err e)) ⊎ ((x : A) × (r ≡ ok x))
  Result-cases (err e) = inl (e, refl)
  Result-cases (ok x) = inr (x, refl)

  pub ok-injective : {x y : A} → ◌≡◌ {A = Result E A} (ok x) (ok y) → x ≡ y
  ok-injective same = cc

-- `if !test { return failure }`
abbrev pub ensure {ℓ} : {E : Type ℓ} → Bool → E → Result E (Unit {0})
ensure false failure = err failure
ensure true failure = ok tt

pub ensure-ok {ℓ} :
    {E : Type ℓ} (test : Bool) (failure : E) {u : Unit {0}}
    → ensure test failure ≡ ok u
    → test ≡ true
ensure-ok true failure passed = refl
ensure-ok false failure passed = cc

-- A step, and the code after it, which `if err != nil { return err }` skips.
module _ {ℓ κ μ} {E : Type ℓ} {A : Type κ} {B : Type μ} where
  infixl 5 ◌>>=◌
  abbrev pub ◌>>=◌ : Result E A → (A → Result E B) → Result E B
  err failure >>= next = err failure
  ok x >>= next = next x

  -- A run that gives a value had one from its first step.
  pub >>=-eq-ok :
      (step : Result E A) (next : A → Result E B) {y : B}
      → (step >>= next) ≡ ok y
      → (x : A) × (step ≡ ok x) × (next x ≡ ok y)
  >>=-eq-ok (err failure) next gave = cc
  >>=-eq-ok (ok x) next gave = (x, refl, gave)

infixl 5 ◌>>◌
abbrev pub ◌>>◌ {ℓ κ} : {E : Type ℓ} {B : Type κ} → Result E (Unit {0}) → Result E B → Result E B
step >> after = step >>= λ _. after
