-- ===== src/Alloc/Outcome.antt =====
-- What a call of `alloc` leaves.
use fastparse.Prelude.{ℕ, ◌≢◌, refl, List, arith, update}
use fastparse.Alloc.{Pools, Memory}
use fastparse.Alloc.Owners.{Owner, live, IsValid, Grows}

-- What one call does to a valid state: the buffer, the state left, and that no one held the buffer.
pub record Given (base : ℕ) (owner : ℕ → Owner) (p : ℕ) (s' : Memory) : Type 0 where
  pub not_held : owner p ≢ live
  pub not_null : p ≢ 0
  pub smalls : List ℕ
  pub larges : List ℕ
  pub valid : IsValid base s' (update owner p live) smalls larges

pub Grows-refl : (pools : Pools) → Grows pools pools
Grows-refl pools = record {
  small_buf = refl;
  large_buf = refl;
  small_index = omega arith;
  large_index = omega arith;
}
