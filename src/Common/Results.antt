-- ===== src/Common/Results.antt =====
-- Python code that may raise: a value or the exception, with `do` for the sequence of statements.
use mathlib.Core.Path.{◌≡◌, refl, ap}
use mathlib.Core.Logic.{◌⊎◌, inl, inr}
use mathlib.Core.Bool.{Bool, true, false}
use idx_backtest_lab.Common.Tests.{if◌then◌else◌}

-- What a call raises or returns.
pub data Result {ℓ κ} (E : Type ℓ) (A : Type κ) : Type (ℓ ⊔ κ) where
  err : (raised : E) → Result E A
  ok : (returned : A) → Result E A

-- A statement whose value is not used, before the statements that follow it.
abbrev pub ◌>>◌ {ℓ κ μ} :
    {E : Type ℓ} {A : Type κ} {B : Type μ}
    → (statement : Result E A) (following : Result E B) → Result E B
err raised >> following = err raised
ok returned >> following = following

-- An assignment of the value of a call.
abbrev pub ◌>>=◌ {ℓ κ μ} :
    {E : Type ℓ} {A : Type κ} {B : Type μ}
    → (call : Result E A) (following : A → Result E B) → Result E B
err raised >>= following = err raised
ok returned >>= following = following returned

infixl 5 ◌>>◌ ◌>>=◌
-- `if test: raise e`
abbrev pub raise_if {ℓ} : {E : Type ℓ} → Bool → E → Result E (Unit {0})
raise_if false fault = ok tt
raise_if true fault = err fault

-- Inversion of an assignment that did not raise, for proofs where the parts stay shut.
pub >>=-eq-ok {ℓ κ μ} :
    {E : Type ℓ} {A : Type κ} {B : Type μ} {value : B} (call : Result E A)
    (following : A → Result E B)
    → (call >>= following) ≡ ok value
    → (returned : A) × (call ≡ ok returned) × (following returned ≡ ok value)
>>=-eq-ok (err raised) following h = cc
>>=-eq-ok (ok returned) following h = (returned, refl, h)

pub >>-eq-ok {ℓ μ} :
    {E : Type ℓ} {B : Type μ} (m : Result E (Unit {0})) (k : Result E B) {b : B}
    → (m >> k) ≡ ok b
    → (m ≡ ok tt) × (k ≡ ok b)
>>-eq-ok (ok tt) k h = (refl, h)
>>-eq-ok (err e) k h = cc

pub ok-injective {ℓ κ} :
    {E : Type ℓ} {A : Type κ} {a b : A} → ◌≡◌ {A = Result E A} (ok a) (ok b) → a ≡ b
ok-injective h = cc

pub err-injective {ℓ κ} :
    {E : Type ℓ} {A : Type κ} {e f : E} → ◌≡◌ {A = Result E A} (err e) (err f) → e ≡ f
err-injective h = cc

pub >>=-eq-err {ℓ κ μ} :
    {E : Type ℓ} {A : Type κ} {B : Type μ} {fault : E} (call : Result E A)
    (following : A → Result E B)
    → (call >>= following) ≡ err fault
    → (call ≡ err fault)
      ⊎ ((returned : A) × (call ≡ ok returned) × (following returned ≡ err fault))
>>=-eq-err (err raised) following h = inl (ap (λ e. err e) (err-injective h))
>>=-eq-err (ok returned) following h = inr (returned, refl, h)

-- Which branch of a test a value comes from.
pub if_cases {ℓ} :
    {A : Type ℓ} {value : A} (test : Bool) (body otherwise : A)
    → (if test then body else otherwise) ≡ value
    → ((test ≡ true) × (body ≡ value)) ⊎ ((test ≡ false) × (otherwise ≡ value))
if_cases true body otherwise h = inl (refl, h)
if_cases false body otherwise h = inr (refl, h)
