-- ===== src/Alloc/Small.antt =====
-- `alloc_small` keeps the owners apart.
use fastparse.Prelude.{
  ℕ, ◌+◌, ◌*◌, ◌%◌, ◌^◌, ◌≡◌, ◌≢◌, ◌<◌, inl, refl, List, [], ◌∷◌, arith, ok, lt→ltb, subst,
}
use fastparse.Alloc.{CacheLine, alloc_cache_line, BufPool, Pools, Memory, pool_alloc, alloc_small}
use fastparse.Alloc.Layout.{small_safe}
use fastparse.Alloc.FreeList.{alloc_cache_line-nil, alloc_cache_line-cons}
use fastparse.Alloc.Owners.{
  Owner, live, free_small, free_large, IsSmall, BornAs, IsValid, Grows, All-update, All-ne,
  born-update, next_small, next_small_lem, next_small-owner,
}
use fastparse.Alloc.Outcome.{Given, Grows-refl}

-- A run of `alloc_small` where the cache has no free buffer, and where it has one.
module _ (s : Memory) (cl : CacheLine) where
  alloc_small_carves :
      (p : ℕ)
      → alloc_cache_line s.cache.small s.words ≡ (0, cl)
      → s.pools.small.index < s.pools.small.index_max
      → p ≡ s.pools.small.buf + s.pools.small.alloc_max * s.pools.small.index
      → p ≢ 0
      → alloc_small s
        ≡ ok (
          p,
          record s {
            pools = record s.pools {
              small = record s.pools.small { index = (s.pools.small.index + 1) % 2 ^ 64 };
            };
            cache = record s.cache { small = cl };
          },
        )
  unfolding alloc_small pool_alloc
  alloc_small_carves p e room at ne = rw (e, lt→ltb _ _ room, ← at) (ground arith)

  alloc_small_reuses :
      (p : ℕ)
      → alloc_cache_line s.cache.small s.words ≡ (p, cl)
      → p ≢ 0
      → alloc_small s ≡ ok (p, record s { cache = record s.cache { small = cl } })
  unfolding alloc_small
  alloc_small_reuses p e ne = rw e (ground arith)

alloc_small-nil :
    {base : ℕ} {s : Memory} {owner : ℕ → Owner} {larges : List ℕ}
    → IsValid base s owner [] larges
    → s.pools.small.index < small_safe
    → (p : ℕ) × (s' : Memory) × (alloc_small s ≡ ok (p, s'))
      × IsSmall s'.pools p
      × Given base owner p s'
alloc_small-nil {s = s} {owner = owner} {larges = larges} v room =
    let p = next_small v in
    let pool : BufPool = record s.pools.small { index = (s.pools.small.index + 1) % 2 ^ 64 } in
    let pools' : Pools = record s.pools { small = pool } in
    let s' : Memory = record s { pools = pools' } in
    let ne : p ≢ 0 = omega (arith, next_small_lem v, v.base_pos) in
    let at : IsSmall pools' p = record {
      number = s.pools.small.index;
      carved = omega arith;
      address = rw v.layout.small_alloc;
    } in
    let grows : Grows s.pools pools' = record {
      small_buf = refl;
      large_buf = refl;
      small_index = omega arith;
      large_index = omega arith;
    } in
    let none_free = alloc_cache_line-nil s.words s.cache.small v.small_list in
    (
      p,
      s',
      alloc_small_carves s s.cache.small p none_free (omega (arith, v.layout.small_limit)) refl ne,
      at,
      record {
        not_held = next_small-owner v room live (λ e. cc);
        not_null = ne;
        smalls = [];
        larges = larges;
        valid = record {
          base_pos = v.base_pos;
          layout = omega (arith, v.layout);
          safe = omega arith;
          large_in = v.large_in;
          small_list = v.small_list;
          large_list = v.large_list;
          smalls_owned = tt;
          larges_owned =
              All-update owner p live free_large larges
                (All-ne owner p free_large larges (next_small-owner v room free_large (λ e. cc))
                  v.larges_owned)
                v.larges_owned;
          born = born-update owner p live grows v.born (inl at);
        };
      },
    )

alloc_small-cons :
    {base : ℕ} {s : Memory} {owner : ℕ → Owner} {larges : List ℕ} (p : ℕ) (smalls : List ℕ)
    → IsValid base s owner (p ∷ smalls) larges
    → (s' : Memory) × (alloc_small s ≡ ok (p, s')) × IsSmall s'.pools p × Given base owner p s'
alloc_small-cons {s = s} {owner = owner} {larges = larges} p smalls v =
    let (cl, e, l) = alloc_cache_line-cons s.words s.cache.small p smalls v.small_list in
    let ne : p ≢ 0 = v.small_list.chain.1 in
    let mine : owner p ≡ free_small = v.smalls_owned.0 in
    let at : IsSmall s.pools p = subst (λ o. BornAs s.pools o p) mine (v.born p) in
    (
      record s { cache = record s.cache { small = cl } },
      alloc_small_reuses s cl p e ne,
      at,
      record {
        not_held = λ h. cc;
        not_null = ne;
        smalls = smalls;
        larges = larges;
        valid = record {
          base_pos = v.base_pos;
          layout = v.layout;
          safe = v.safe;
          large_in = v.large_in;
          small_list = l;
          large_list = v.large_list;
          smalls_owned =
              All-update owner p live free_small smalls v.small_list.chain.2 v.smalls_owned.1;
          larges_owned =
              All-update owner p live free_large larges
                (All-ne owner p free_large larges (λ h. cc) v.larges_owned) v.larges_owned;
          born = born-update owner p live (Grows-refl s.pools) v.born (inl at);
        };
      },
    )

pub alloc_small-Given :
    {base : ℕ} {s : Memory} {owner : ℕ → Owner} {larges : List ℕ} (smalls : List ℕ)
    → IsValid base s owner smalls larges
    → s.pools.small.index < small_safe
    → (p : ℕ) × (s' : Memory) × (alloc_small s ≡ ok (p, s'))
      × IsSmall s'.pools p
      × Given base owner p s'
alloc_small-Given [] v room = alloc_small-nil v room
alloc_small-Given (p ∷ smalls) v room =
    let (s', e, at, g) = alloc_small-cons p smalls v in (p, s', e, at, g)
