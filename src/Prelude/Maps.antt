-- ===== src/Prelude/Maps.antt =====
-- An array that the program indexes, as a function; a write changes it at one index.
use Prim.Native.Nat.{ℕ}
use mathlib.Core.Path.{◌≡◌}
use mathlib.Core.Logic.{◌≢◌}
use native.Mathlib.Omega.{arith}
use fastparse.Prelude.Tests.{◌==◌, if◌then◌else◌}

module _ {ℓ} {A : Type ℓ} where
  abbrev pub update : (ℕ → A) → ℕ → A → ℕ → A
  update f k v i = if i == k then v else f i

  pub update_self : (f : ℕ → A) (k : ℕ) (v : A) → update f k v k ≡ v
  update_self f k v = ground arith

  pub update_ne : (f : ℕ → A) (k : ℕ) (v : A) (i : ℕ) → i ≢ k → update f k v i ≡ f i
  update_ne f k v i h = ground arith
