-- ===== src/Rib/Uses.antt =====
-- How many entries of a peer hold a route.
use fastparse.Prelude.{
  ℕ, zero, suc, ◌+◌, ◌≡◌, ◌≤◌, ◌<◌, refl, ap, ◌∙◌, ◌==◌, if◌then◌else◌, arith, update, update_self,
  update_ne,
}
use native.Mathlib.Decide.{ℕ_discrete}

-- One for a hit.
abbrev pub one_if : ℕ → ℕ → ℕ
one_if p r = if p == r then 1 else 0

-- The entries below `n` that hold the route `r`.
unfoldable pub uses : ℕ → (ℕ → ℕ) → ℕ → ℕ
uses zero f r = 0
uses (suc n) f r = one_if (f n) r + uses n f r

module _ (f : ℕ → ℕ) (a v r : ℕ) where
  uses-update_out : (n : ℕ) → n ≤ a → uses n (update f a v) r ≡ uses n f r
  unfolding uses
  uses-update_out zero h = refl
  uses-update_out (suc n) h =
      let rest = uses-update_out n (omega arith) in
      let same = update_ne f a v n (omega arith) in rw (rest, same) refl

  -- An entry changes: one use of the old route less, one of the new route more.
  pub uses-update :
      (n : ℕ) → a < n → uses n (update f a v) r + one_if (f a) r ≡ uses n f r + one_if v r
  unfolding uses
  uses-update zero h = absurd (omega arith)
  uses-update (suc n) h = elim (ℕ_discrete a n) [
    | yes e ↦
        let rest = uses-update_out n (omega arith) in
        let new : update f a v n ≡ v = ap (update f a v) (omega arith) ∙ update_self f a v in
        let old : f a ≡ f n = ap f e in rw (rest, new, old) (omega arith)
    | no ne ↦
        let rest = uses-update n (omega arith) in
        let same = update_ne f a v n (omega arith) in rw same (omega (arith, rest))
  ]

-- An entry that holds the route is counted.
pub uses-pos : (n : ℕ) (f : ℕ → ℕ) (i : ℕ) → i < n → 0 < uses n f (f i)
unfolding uses
uses-pos zero f i h = absurd (omega arith)
uses-pos (suc n) f i h = elim (ℕ_discrete i n) [
  | yes e ↦ let same : f i ≡ f n = ap f e in ground arith
  | no ne ↦ let rest = uses-pos n f i (omega arith) in omega (arith, rest)
]
