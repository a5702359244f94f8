-- ===== src/Alloc/Layout.antt =====
-- Where `init_pools` puts the two pools.
use fastparse.Prelude.{leb, ℕ, ◌+◌, ◌*◌, ◌%◌, ◌^◌, ◌≡◌, ◌<◌, refl, arith, ok, lt→ltb, ap}
use fastparse.Alloc.{
  Pools, BufPool, init_pool, init_pools, pool_alloc, is_large, map_failed, small_size, small_max,
  large_size, large_max,
}

-- 40,000,000 * 256, as a 32-bit word.
abbrev pub small_bytes : ℕ
small_bytes = 1_650_065_408

-- The small buffers that lie below the large pool.
abbrev pub small_safe : ℕ
small_safe = 6_445_568

-- The pools carved from the slab at `base`, with so many buffers given out of each.
pub record Carved (base : ℕ) (pools : Pools) : Type 0 where
  pub small_buf : pools.small.buf ≡ base
  pub small_alloc : pools.small.alloc_max ≡ small_size
  pub small_limit : pools.small.index_max ≡ small_max
  pub large_buf : pools.large.buf ≡ base + small_bytes
  pub large_alloc : pools.large.alloc_max ≡ large_size
  pub large_limit : pools.large.index_max ≡ large_max

-- `init_pools` on a slab that `mmap` gave returns with both pools empty, the large pool
-- 1,650,065,408 bytes behind the small one.
pub init_pools-Carved :
    (slab : ℕ)
    → slab < map_failed
    → (pools : Pools) × (limit : ℕ) × (init_pools slab ≡ ok (pools, limit))
      × Carved slab pools
      × (pools.small.index ≡ 0)
      × (pools.large.index ≡ 0)
unfolding init_pools init_pool
init_pools-Carved slab h = (
  record {
    small = record { buf = slab; index = 0; index_max = small_max; alloc_max = small_size };
    large = record {
      buf = slab + small_bytes;
      index = 0;
      index_max = large_max;
      alloc_max = large_size;
    };
  },
  slab + small_bytes + large_max * large_size % 2 ^ 32,
  ground arith,
  omega arith,
  refl,
  refl,
)

-- The pool gives out each small buffer numbered below its bound of 40,000,000, and a small buffer is
-- taken for a large one exactly when its number is 6,445,568 or more.
pub pool_alloc-is_large :
    (base : ℕ) (pools : Pools)
    → Carved base pools
    → pools.small.index < small_max
    → (p : ℕ) × (pool : BufPool) × (pool_alloc pools.small ≡ ok (p, pool))
      × (is_large pools p ≡ leb small_safe pools.small.index)
unfolding pool_alloc
pool_alloc-is_large base pools c h = (
  pools.small.buf + pools.small.alloc_max * pools.small.index,
  record pools.small { index = (pools.small.index + 1) % 2 ^ 64 },
  rw (lt→ltb pools.small.index pools.small.index_max (omega arith)),
  ground (arith, address),
)
  where
    address :
        pools.small.buf + pools.small.alloc_max * pools.small.index ≡ base + 256 * pools.small.index
    address = rw (c.small_buf, c.small_alloc)

-- Pools that are so carved give out one address twice.
overlap-Carved :
    (base j : ℕ) (pools : Pools)
    → Carved base pools
    → j < 500_000
    → pools.small.index ≡ small_safe + 33 * j
    → pools.large.index ≡ 2 * j
    → (p : ℕ) × (small : BufPool) × (large : BufPool) × (pool_alloc pools.small ≡ ok (p, small))
      × (pool_alloc pools.large ≡ ok (p, large))
unfolding pool_alloc
overlap-Carved base j pools c h e f = (
  pools.small.buf + pools.small.alloc_max * pools.small.index,
  record pools.small { index = (pools.small.index + 1) % 2 ^ 64 },
  record pools.large { index = (pools.large.index + 1) % 2 ^ 64 },
  rw (lt→ltb pools.small.index pools.small.index_max (omega arith)),
  rw (lt→ltb pools.large.index pools.large.index_max (omega arith)) (
      ap (λ (t : ℕ). ok (t, record pools.large { index = (pools.large.index + 1) % 2 ^ 64 })) same),
)
  where
    same :
        pools.large.buf + pools.large.alloc_max * pools.large.index
        ≡ pools.small.buf + pools.small.alloc_max * pools.small.index
    same = rw (c.small_buf, c.small_alloc, c.large_buf, c.large_alloc, e, f) (omega arith)

-- The two pools that `init_pools` makes of a slab overlap: for every j below 500,000 the small buffer
-- numbered 6,445,568 + 33 j and the large buffer numbered 2 j, both within the bounds of their pools, are
-- given out at the same address.
pub init_pools-overlap :
    (slab j : ℕ)
    → slab < map_failed
    → j < 500_000
    → (pools : Pools) × (limit : ℕ) × (p : ℕ) × (small : BufPool) × (large : BufPool) × (init_pools
          slab
        ≡ ok (pools, limit))
      × (pool_alloc (record pools.small { index = small_safe + 33 * j }) ≡ ok (p, small))
      × (pool_alloc (record pools.large { index = 2 * j }) ≡ ok (p, large))
init_pools-overlap slab j given h =
    let (pools, limit, made, c, none_small, none_large) = init_pools-Carved slab given in
    let reached : Pools = record {
      small = record pools.small { index = small_safe + 33 * j };
      large = record pools.large { index = 2 * j };
    } in
    let carved : Carved slab reached = record {
      small_buf = c.small_buf;
      small_alloc = c.small_alloc;
      small_limit = c.small_limit;
      large_buf = c.large_buf;
      large_alloc = c.large_alloc;
      large_limit = c.large_limit;
    } in
    let (p, small, large, e, f) = overlap-Carved slab j reached carved h refl refl in
    (pools, limit, p, small, large, made, e, f)
