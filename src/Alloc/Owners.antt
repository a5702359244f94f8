-- ===== src/Alloc/Owners.antt =====
-- Who holds each buffer: `alloc` never gives out a buffer that is held, and a buffer that is given
-- back can be given out again. The buffers of other peers count as held.
use fastparse.Prelude.{
  subst, ℕ, ◌+◌, ◌*◌, ◌≡◌, ◌≢◌, ◌≤◌, ◌<◌, ◌⊎◌, inl, inr, refl, List, [], ◌∷◌, All, arith, update,
  update_ne, update_self, ◌∙◌,
}
use native.Mathlib.Decide.{ℕ_discrete}
use fastparse.Alloc.{Pools, Memory, small_size, large_size, large_max}
use fastparse.Alloc.Layout.{Carved, small_bytes, small_safe}
use fastparse.Alloc.FreeList.{IsList}

-- A buffer that has not been carved yet, is in use, or is in this cache's lists of free buffers.
pub data Owner : Type 0 where
  unborn live free_small free_large : Owner

-- The buffer at `p` is one of the first so many of its pool.
pub record IsSmall (pools : Pools) (p : ℕ) : Type 0 where
  pub number : ℕ
  pub carved : number < pools.small.index
  pub address : p ≡ pools.small.buf + small_size * number

pub record IsLarge (pools : Pools) (p : ℕ) : Type 0 where
  pub number : ℕ
  pub carved : number < pools.large.index
  pub address : p ≡ pools.large.buf + large_size * number

-- Where the buffer of an owner stands.
abbrev pub BornAs : Pools → Owner → ℕ → Type 0
BornAs pools unborn p = Unit
BornAs pools live p = IsSmall pools p ⊎ IsLarge pools p
BornAs pools free_small p = IsSmall pools p
BornAs pools free_large p = IsLarge pools p

-- No buffer has been carved where the two pools overlap.
pub record IsValid (base : ℕ) (s : Memory) (owner : ℕ → Owner) (smalls larges : List ℕ)
    : Type 0 where
  pub base_pos : 0 < base
  pub layout : Carved base s.pools
  pub safe : s.pools.small.index ≤ small_safe
  pub large_in : s.pools.large.index ≤ large_max
  pub small_list : IsList s.words s.cache.small smalls
  pub large_list : IsList s.words s.cache.large larges
  pub smalls_owned : All (λ x. owner x ≡ free_small) smalls
  pub larges_owned : All (λ x. owner x ≡ free_large) larges
  pub born : (x : ℕ) → BornAs s.pools (owner x) x

-- A change of the owner of a buffer outside a list.
pub All-update :
    (owner : ℕ → Owner) (p : ℕ) (o k : Owner) (xs : List ℕ)
    → All (λ y. y ≢ p) xs
    → All (λ x. owner x ≡ k) xs
    → All (λ x. update owner p o x ≡ k) xs
All-update owner p o k [] out h = tt
All-update owner p o k (x ∷ xs) out h =
    (update_ne owner p o x out.0 ∙ h.0, All-update owner p o k xs out.1 h.1)

pub All-ne :
    (owner : ℕ → Owner) (p : ℕ) (k : Owner) (xs : List ℕ)
    → owner p ≢ k
    → All (λ x. owner x ≡ k) xs
    → All (λ y. y ≢ p) xs
All-ne owner p k [] ne h = tt
All-ne owner p k (x ∷ xs) ne h = (λ e. ne (rw e at h.0), All-ne owner p k xs ne h.1)

-- Buffers stay carved while the pools grow.
pub record Grows (pools pools' : Pools) : Type 0 where
  pub small_buf : pools'.small.buf ≡ pools.small.buf
  pub large_buf : pools'.large.buf ≡ pools.large.buf
  pub small_index : pools.small.index ≤ pools'.small.index
  pub large_index : pools.large.index ≤ pools'.large.index

IsSmall-Grows :
    {pools pools' : Pools} {p : ℕ} → Grows pools pools' → IsSmall pools p → IsSmall pools' p
IsSmall-Grows g h = record {
  number = h.number;
  carved = omega (arith, h.carved, g.small_index);
  address = rw g.small_buf h.address;
}

IsLarge-Grows :
    {pools pools' : Pools} {p : ℕ} → Grows pools pools' → IsLarge pools p → IsLarge pools' p
IsLarge-Grows g h = record {
  number = h.number;
  carved = omega (arith, h.carved, g.large_index);
  address = rw g.large_buf h.address;
}

BornAs-Grows :
    {pools pools' : Pools} (o : Owner) (p : ℕ)
    → Grows pools pools'
    → BornAs pools o p
    → BornAs pools' o p
BornAs-Grows unborn p g h = tt
BornAs-Grows live p g (inl h) = inl (IsSmall-Grows g h)
BornAs-Grows live p g (inr h) = inr (IsLarge-Grows g h)
BornAs-Grows free_small p g h = IsSmall-Grows g h
BornAs-Grows free_large p g h = IsLarge-Grows g h

-- One buffer changes its owner while the pools grow.
pub born-update :
    {pools pools' : Pools} (owner : ℕ → Owner) (p : ℕ) (o : Owner)
    → Grows pools pools'
    → ((x : ℕ) → BornAs pools (owner x) x)
    → BornAs pools' o p
    → (x : ℕ) → BornAs pools' (update owner p o x) x
born-update {pools' = pools'} owner p o g b h x = elim (ℕ_discrete x p) [
  | yes e ↦ rw (e, update_self owner p o) h
  | no ne ↦ rw (update_ne owner p o x ne) (BornAs-Grows (owner x) x g (b x))
]

module _ {base : ℕ} {s : Memory} {owner : ℕ → Owner} {smalls larges : List ℕ}
    (v : IsValid base s owner smalls larges) where
  -- A buffer with an owner has been carved.
  pub carved_of_owned :
      (x : ℕ) (o : Owner) → o ≢ unborn → owner x ≡ o → IsSmall s.pools x ⊎ IsLarge s.pools x
  carved_of_owned x o ne e = carved_as o ne (subst (λ o. BornAs s.pools o x) e (v.born x))
    where
      carved_as :
          (o : Owner) → o ≢ unborn → BornAs s.pools o x → IsSmall s.pools x ⊎ IsLarge s.pools x
      carved_as unborn ne b = absurd (ne refl)
      carved_as live ne b = b
      carved_as free_small ne b = inl b
      carved_as free_large ne b = inr b

  -- The next buffers of the two pools are unborn.
  abbrev pub next_small : ℕ
  next_small = s.pools.small.buf + s.pools.small.alloc_max * s.pools.small.index

  abbrev pub next_large : ℕ
  next_large = s.pools.large.buf + s.pools.large.alloc_max * s.pools.large.index

  pub next_small_lem : next_small ≡ base + 256 * s.pools.small.index
  next_small_lem = rw (v.layout.small_buf, v.layout.small_alloc)

  pub next_large_lem : next_large ≡ base + small_bytes + 4224 * s.pools.large.index
  next_large_lem = rw (v.layout.large_buf, v.layout.large_alloc)

  new-IsSmall :
      s.pools.small.index < small_safe → ¬ (IsSmall s.pools next_small ⊎ IsLarge s.pools next_small)
  new-IsSmall room (inl h) = omega (arith, h.carved, h.address, v.layout.small_buf, next_small_lem)
  new-IsSmall room (inr h) = omega (arith, h.carved, h.address, v.layout.large_buf, next_small_lem)

  new-IsLarge : ¬ (IsSmall s.pools next_large ⊎ IsLarge s.pools next_large)
  new-IsLarge (inl h) =
      omega (arith, h.carved, h.address, v.layout.small_buf, next_large_lem, v.safe)
  new-IsLarge (inr h) = omega (arith, h.carved, h.address, v.layout.large_buf, next_large_lem)

  pub next_small-owner :
      s.pools.small.index < small_safe → (o : Owner) → o ≢ unborn → owner next_small ≢ o
  next_small-owner room o ne e = new-IsSmall room (carved_of_owned next_small o ne e)

  pub next_large-owner : (o : Owner) → o ≢ unborn → owner next_large ≢ o
  next_large-owner o ne e = new-IsLarge (carved_of_owned next_large o ne e)
