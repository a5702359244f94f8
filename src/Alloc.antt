-- ===== src/Alloc.antt =====
-- alloc.c: two pools of buffers carved from one slab, and for each peer a cache of free buffers of
-- each size, linked through the first word of the buffers. An address is a number, NULL is 0, and
-- `words` is the first word of each buffer. `mmap` gives the slab's address.
pub mod Layout
pub mod Addresses
pub mod FreeList
pub mod Owners
pub mod Outcome
pub mod Small
pub mod Large
pub mod Fresh
pub mod Free
use fastparse.Prelude.{
  ℕ, zero, ◌+◌, ◌-◌, ◌*◌, ◌%◌, ◌^◌, Bool, not, ltb, leb, ◌==◌, if◌then◌else◌, Result, ok, ◌>>=◌,
  ◌>>◌, assert, update,
}

abbrev pub large_size : ℕ
large_size = 4096 + 128

abbrev pub large_max : ℕ
large_max = 1_000_000

abbrev pub small_size : ℕ
small_size = 256

abbrev pub small_max : ℕ
small_max = 40_000_000

pub record BufPool : Type 0 where
  pub buf : ℕ
  pub index : ℕ
  pub index_max : ℕ
  pub alloc_max : ℕ

pub record Pools : Type 0 where
  pub small : BufPool
  pub large : BufPool

pub record CacheLine : Type 0 where
  pub free : ℕ
  pub free_count : ℕ

pub record Cache : Type 0 where
  pub small : CacheLine
  pub large : CacheLine

-- A pool at the slab's cursor, and the cursor behind it. The product of an `int32_t` and a
-- `uint32_t` is a `uint32_t`.
unfoldable pub init_pool : ℕ → ℕ → ℕ → BufPool × ℕ
init_pool slab alloc_max index_max = (
  record { buf = slab; index = 0; index_max = index_max; alloc_max = alloc_max },
  slab + index_max * alloc_max % 2 ^ 32,
)

abbrev pub reinit_pool : BufPool → BufPool
reinit_pool pool = record pool { index = 0 }

abbrev pub map_failed : ℕ
map_failed = 2 ^ 64 - 1

-- The pools, and `large_buf_limit`.
unfoldable pub init_pools : ℕ → Result (Pools × ℕ)
unfolding init_pool
init_pools slab = do
  assert (not (map_failed == slab))
  let (small, slab₁) = init_pool slab small_size small_max
  let (large, slab₂) = init_pool slab₁ large_size large_max
  assert (ltb small.buf large.buf)
  ok (record { small = small; large = large }, slab₂)

abbrev pub reinit_pools : Pools → Pools
reinit_pools p = record { small = reinit_pool p.small; large = reinit_pool p.large }

abbrev pub is_large : Pools → ℕ → Bool
is_large pools p = leb pools.large.buf p

-- The atomic counter moves on before the bound is checked; the failed check ends the program.
unfoldable pub pool_alloc : BufPool → Result (ℕ × BufPool)
pool_alloc pool = do
  assert (ltb pool.index pool.index_max)
  ok (pool.buf + pool.alloc_max * pool.index, record pool { index = (pool.index + 1) % 2 ^ 64 })

abbrev pub init_cache : Cache
init_cache = record {
  small = record { free = 0; free_count = 0 };
  large = record { free = 0; free_count = 0 };
}

abbrev pub reinit_cache : Cache → Cache
reinit_cache c = init_cache

-- The first free buffer, or NULL.
unfoldable pub alloc_cache_line : CacheLine → (ℕ → ℕ) → ℕ × CacheLine
alloc_cache_line cl words = if cl.free == 0 then (0, cl) else (
  cl.free,
  record { free = words cl.free; free_count = (cl.free_count + 2 ^ 32 - 1) % 2 ^ 32 },
)

-- Both branches put the buffer at the head; the link is NULL if the list was empty.
unfoldable pub dalloc_cache_line : CacheLine → ℕ → (ℕ → ℕ) → CacheLine × (ℕ → ℕ)
dalloc_cache_line cl p words = (
  record { free = p; free_count = (cl.free_count + 1) % 2 ^ 32 },
  (if cl.free == 0 then update words p 0 else update words p cl.free),
)

-- What the allocator reads and writes: the pools, one peer's cache, and the buffers' first words.
pub record Memory : Type 0 where
  pub pools : Pools
  pub cache : Cache
  pub words : ℕ → ℕ

unfoldable pub dalloc_large : Memory → ℕ → Memory
dalloc_large s p =
    let (cl, words) = dalloc_cache_line s.cache.large p s.words in
    record s { cache = record s.cache { large = cl }; words = words }

unfoldable pub dalloc_small : Memory → ℕ → Memory
dalloc_small s p =
    let (cl, words) = dalloc_cache_line s.cache.small p s.words in
    record s { cache = record s.cache { small = cl }; words = words }

unfoldable pub dalloc : Memory → ℕ → Memory
dalloc s p = if is_large s.pools p then dalloc_large s p else dalloc_small s p

unfoldable pub alloc_small : Memory → Result (ℕ × Memory)
alloc_small s =
    let (p, cl) = alloc_cache_line s.cache.small s.words in
    if p == 0
    then (do
      (q, pool) ← pool_alloc s.pools.small
      assert (not (q == 0))
      ok (
        q,
        record s { pools = record s.pools { small = pool }; cache = record s.cache { small = cl } },
      ))
    else ok (p, record s { cache = record s.cache { small = cl } })

unfoldable pub alloc_large : Memory → Result (ℕ × Memory)
alloc_large s =
    let (p, cl) = alloc_cache_line s.cache.large s.words in
    if p == 0
    then (do
      (q, pool) ← pool_alloc s.pools.large
      assert (not (q == 0))
      ok (
        q,
        record s { pools = record s.pools { large = pool }; cache = record s.cache { large = cl } },
      ))
    else ok (p, record s { cache = record s.cache { large = cl } })

unfoldable pub alloc : Memory → ℕ → Result (ℕ × Memory)
alloc s size = do
  assert (leb size large_size)
  if ltb small_size size then alloc_large s else alloc_small s
