-- ===== src/Tests/Buffers.antt =====
-- The allocator.
use fastparse.Prelude.{ℕ, ◌*◌, ◌+◌, ◌≡◌, ◌⊎◌, inl, refl, [], ◌∷◌, ok, arith, update}
use fastparse.Alloc.{
  BufPool, Pools, Memory, init_cache, init_pools, pool_alloc, alloc, dalloc, small_size, small_max,
  large_size, large_max,
}
use fastparse.Alloc.Layout.{Carved, small_bytes, small_safe, init_pools-overlap}
use fastparse.Alloc.Owners.{
  Owner, unborn, live, free_small, free_large, IsSmall, IsLarge, IsValid, born-update,
}
use fastparse.Alloc.Outcome.{Grows-refl, Given}
use fastparse.Alloc.Fresh.{Fitting, alloc-Given}
use fastparse.Alloc.Free.{dalloc-IsValid}

-- The pools at 4,096 with so many buffers given out of each.
abbrev pools_at : ℕ → ℕ → Pools
pools_at i j = record {
  small = record { buf = 4096; index = i; index_max = small_max; alloc_max = small_size };
  large = record {
    buf = 4096 + small_bytes;
    index = j;
    index_max = large_max;
    alloc_max = large_size;
  };
}

pools_at-Carved : (i j : ℕ) → Carved 4096 (pools_at i j)
pools_at-Carved i j = record {
  small_buf = refl;
  small_alloc = refl;
  small_limit = refl;
  large_buf = refl;
  large_alloc = refl;
  large_limit = refl;
}

abbrev fresh : Memory
fresh = record { pools = pools_at 0 0; cache = init_cache; words = λ _. 0 }

fresh-IsValid : IsValid 4096 fresh (λ _. unborn) [] []
fresh-IsValid = record {
  base_pos = omega arith;
  layout = pools_at-Carved 0 0;
  safe = omega arith;
  large_in = omega arith;
  small_list = record { chain = refl; count = refl; small = omega arith };
  large_list = record { chain = refl; count = refl; small = omega arith };
  smalls_owned = tt;
  larges_owned = tt;
  born = λ x. tt;
}

init_pools-overlap_example :
    (pools : Pools) × (limit : ℕ) × (p : ℕ) × (small : BufPool) × (large : BufPool) × (init_pools
        4096
      ≡ ok (pools, limit))
    × (pool_alloc (record pools.small { index = small_safe + 33 * 1 }) ≡ ok (p, small))
    × (pool_alloc (record pools.large { index = 2 * 1 }) ≡ ok (p, large))
init_pools-overlap_example = init_pools-overlap 4096 1 (omega arith) (omega arith)

alloc-Given_example :
    (p : ℕ) × (s' : Memory) × (alloc fresh 100 ≡ ok (p, s'))
    × Fitting 100 s'.pools p
    × Given 4096 (λ _. unborn) p s'
alloc-Given_example = alloc-Given 100 fresh-IsValid (omega arith) (omega arith) (omega arith)

-- One small buffer is in use.
abbrev one_live : Memory
one_live = record fresh { pools = pools_at 1 0 }

abbrev owners : ℕ → Owner
owners = update (λ _. unborn) 4096 live

one_live-IsValid : IsValid 4096 one_live owners [] []
one_live-IsValid = record {
  base_pos = omega arith;
  layout = pools_at-Carved 1 0;
  safe = omega arith;
  large_in = omega arith;
  small_list = record { chain = refl; count = refl; small = omega arith };
  large_list = record { chain = refl; count = refl; small = omega arith };
  smalls_owned = tt;
  larges_owned = tt;
  born =
      born-update {pools = pools_at 1 0} {pools' = pools_at 1 0} (λ _. unborn) 4096 live
        (Grows-refl (pools_at 1 0)) (λ x. tt)
        (inl (record { number = 0; carved = omega arith; address = refl }));
}

dalloc-IsValid_example :
    (IsSmall one_live.pools 4096
      × IsValid 4096 (dalloc one_live 4096) (update owners 4096 free_small) (4096 ∷ []) [])
    ⊎ (IsLarge one_live.pools 4096
        × IsValid 4096 (dalloc one_live 4096) (update owners 4096 free_large) [] (4096 ∷ []))
dalloc-IsValid_example = dalloc-IsValid one_live-IsValid 4096 refl (omega arith) (omega arith)
