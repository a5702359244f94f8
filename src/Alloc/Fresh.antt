-- ===== src/Alloc/Fresh.antt =====
-- `alloc` gives out a buffer that no one holds.
use fastparse.Prelude.{ℕ, ◌≡◌, ◌≤◌, ◌<◌, ◌⊎◌, inl, inr, List, arith, ok, lt→ltb, le→leb, not_lt→ltb}
use native.Mathlib.Decide.{dec_lt}
use fastparse.Alloc.{Pools, Memory, alloc, small_size, large_size, large_max}
use fastparse.Alloc.Layout.{small_safe}
use fastparse.Alloc.Owners.{Owner, IsSmall, IsLarge, IsValid}
use fastparse.Alloc.Outcome.{Given}
use fastparse.Alloc.Small.{alloc_small-Given}
use fastparse.Alloc.Large.{alloc_large-Given}

-- A buffer of the size that a request of `size` bytes is given.
abbrev pub Fitting : ℕ → Pools → ℕ → Type 0
Fitting size pools p =
    ((size ≤ small_size) × IsSmall pools p) ⊎ ((small_size < size) × IsLarge pools p)

-- In a valid state, before the small pool reaches the large one and the large pool its bound, `alloc`
-- of 4,224 bytes or fewer returns a buffer of the fitting size that no one holds and that is not
-- NULL, and leaves a valid state in which that buffer, and it alone in addition, is held.
pub alloc-Given :
    {base : ℕ} {s : Memory} {owner : ℕ → Owner} {smalls larges : List ℕ} (size : ℕ)
    → IsValid base s owner smalls larges
    → s.pools.small.index < small_safe
    → s.pools.large.index < large_max
    → size ≤ large_size
    → (p : ℕ) × (s' : Memory) × (alloc s size ≡ ok (p, s'))
      × Fitting size s'.pools p
      × Given base owner p s'
unfolding alloc
alloc-Given {smalls = smalls} {larges = larges} size v room room' fits =
    elim (dec_lt small_size size) [
      | yes big ↦
          let (p, s', e, at, g) = alloc_large-Given larges v room' in
          (p, s', rw (le→leb size large_size fits, lt→ltb small_size size big) e, inr (big, at), g)
      | no small ↦
          let (p, s', e, at, g) = alloc_small-Given smalls v room in
          (
            p,
            s',
            rw (le→leb size large_size fits, not_lt→ltb small_size size small) e,
            inl (omega arith, at),
            g,
          )
    ]
