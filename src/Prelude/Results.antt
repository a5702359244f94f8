-- ===== src/Prelude/Results.antt =====
-- What a C computation comes to: a value, or the fault that ends it.
use mathlib.Core.Path.{◌≡◌, refl}
use mathlib.Core.Bool.{Bool, true, false}
use fastparse.Prelude.Tests.{if◌then◌else◌}
use mathlib.Core.Logic.{◌⊎◌, inl, inr}

-- A failed `assert`, an access outside an object, another undefined operation of C (a shift by the
-- width or more, `__builtin_clz (0)`), and a loop that used up the rounds the model gives it.
pub data Fault : Type 0 where
  assertion out_of_bounds undefined out_of_fuel : Fault

pub data Result {ℓ} (A : Type ℓ) : Type ℓ where
  ok : A → Result A
  err : Fault → Result A

-- `assert (b)`.
abbrev pub assert : Bool → Result (Unit {0})
assert true = ok tt
assert false = err assertion

-- An access that is inside its object when `b`.
abbrev pub in_object : Bool → Result (Unit {0})
in_object true = ok tt
in_object false = err out_of_bounds

-- What comes after a computation runs on its value, and not at all after a fault.
infixl 5 ◌>>=◌
abbrev pub ◌>>=◌ {ℓ κ} : {A : Type ℓ} {B : Type κ} → Result A → (A → Result B) → Result B
ok x >>= next = next x
err fault >>= next = err fault

infixl 5 ◌>>◌
abbrev pub ◌>>◌ {ℓ} : {B : Type ℓ} → Result (Unit {0}) → Result B → Result B
check >> rest = check >>= λ passed. rest

-- Inversion of a successful bind.
pub >>=-eq-ok {ℓ κ} :
    {A : Type ℓ} {B : Type κ} (first : Result A) (next : A → Result B) {y : B}
    → (first >>= next) ≡ ok y
    → (x : A) × (first ≡ ok x) × (next x ≡ ok y)
>>=-eq-ok (ok x) next e = (x, refl, e)
>>=-eq-ok (err fault) next e = cc

-- A conditional that is a value has a branch that is it.
pub if-eq-ok {ℓ} :
    {A : Type ℓ} (b : Bool) (m n : Result A) {x : A}
    → (if b then m else n) ≡ ok x
    → (m ≡ ok x) ⊎ (n ≡ ok x)
if-eq-ok true m n e = inl e
if-eq-ok false m n e = inr e

pub if_true-eq {ℓ} :
    {A : Type ℓ} (b : Bool) (m n : A) {x : A} → b ≡ true → (if b then m else n) ≡ x → m ≡ x
if_true-eq true m n held e = e
if_true-eq false m n held e = cc

pub if_false {ℓ} : {A : Type ℓ} (b : Bool) (m n : A) → b ≡ false → (if b then m else n) ≡ n
if_false true m n e = cc
if_false false m n e = refl
