-- ===== src/Prelude/Distinct.antt =====
-- Lists of different numbers, and that there are not more of them than numbers.
use Prim.Native.Nat.{ℕ, zero, suc, ◌+◌, ◌≤◌, ◌<◌}
use mathlib.Core.Path.{◌≡◌, refl}
use mathlib.Core.Bool.{Bool, true, false}
use mathlib.Core.List.{List, [], ◌∷◌, ◌++◌}
use native.Mathlib.Decide.{ℕ_discrete}
use native.Mathlib.Omega.{arith}
use fastparse.Prelude.Tests.{◌==◌, if◌then◌else◌}
use fastparse.Prelude.Lists.{length, All}

-- Whether a number is in a list.
abbrev pub contains : List ℕ → ℕ → Bool
contains [] x = false
contains (a ∷ q) x = if x == a then true else contains q x

abbrev pub Distinct : List ℕ → Type 0
Distinct [] = Unit
Distinct (a ∷ q) = (contains q a ≡ false) × Distinct q

pub contains-append :
    (q : List ℕ) (a x : ℕ) → contains (q ++ (a ∷ [])) x ≡ (if x == a then true else contains q x)
contains-append [] a x = refl
contains-append (b ∷ q) a x = ground (arith, contains-append q a x)

pub Distinct-append :
    (q : List ℕ) (a : ℕ) → contains q a ≡ false → Distinct q → Distinct (q ++ (a ∷ []))
Distinct-append [] a new d = (refl, tt)
Distinct-append (b ∷ q) a new d =
    (ground (arith, contains-append q a b), Distinct-append q a (ground arith) d.1)

-- How many of the numbers below `n` are in a list.
abbrev members : ℕ → List ℕ → ℕ
members zero q = 0
members (suc n) q = members n q + (if contains q n then 1 else 0)

members-le : (n : ℕ) (q : List ℕ) → members n q ≤ n
members-le zero q = omega arith
members-le (suc n) q = ground (arith, members-le n q)

members-above : (n a : ℕ) (q : List ℕ) → n ≤ a → members n (a ∷ q) ≡ members n q
members-above zero a q h = refl
members-above (suc n) a q h = ground (arith, members-above n a q (omega arith))

members-cons :
    (n a : ℕ) (q : List ℕ) → a < n → contains q a ≡ false → members n (a ∷ q) ≡ members n q + 1
members-cons zero a q h new = absurd (omega arith)
members-cons (suc n) a q h new = elim (ℕ_discrete a n) [
  | yes last ↦ ground (arith, members-above n a q (omega arith))
  | no earlier ↦ ground (arith, members-cons n a q (omega arith) new)
]

length-members : (n : ℕ) (q : List ℕ) → Distinct q → All (λ x. x < n) q → length q ≤ members n q
length-members n [] d h = omega arith
length-members n (a ∷ q) d h = omega (arith, members-cons n a q h.0 d.0, length-members n q d.1 h.1)

-- Different numbers below `n` are at most `n` numbers.
pub length-le_of_Distinct : (n : ℕ) (q : List ℕ) → Distinct q → All (λ x. x < n) q → length q ≤ n
length-le_of_Distinct n q d h = omega (arith, length-members n q d h, members-le n q)
