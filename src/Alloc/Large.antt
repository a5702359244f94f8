-- ===== src/Alloc/Large.antt =====
-- `alloc_large` keeps the owners apart.
use fastparse.Prelude.{
  ℕ, ◌+◌, ◌*◌, ◌%◌, ◌^◌, ◌≡◌, ◌≢◌, ◌<◌, inr, refl, List, [], ◌∷◌, arith, ok, lt→ltb, subst,
}
use fastparse.Alloc.{
  CacheLine, alloc_cache_line, BufPool, Pools, Memory, pool_alloc, alloc_large, large_max,
}
use fastparse.Alloc.FreeList.{alloc_cache_line-nil, alloc_cache_line-cons}
use fastparse.Alloc.Owners.{
  Owner, live, free_small, free_large, IsLarge, BornAs, IsValid, Grows, All-update, All-ne,
  born-update, next_large, next_large_lem, next_large-owner,
}
use fastparse.Alloc.Outcome.{Given, Grows-refl}

-- A run of `alloc_large` where the cache has no free buffer, and where it has one.
module _ (s : Memory) (cl : CacheLine) where
  alloc_large_carves :
      (p : ℕ)
      → alloc_cache_line s.cache.large s.words ≡ (0, cl)
      → s.pools.large.index < s.pools.large.index_max
      → p ≡ s.pools.large.buf + s.pools.large.alloc_max * s.pools.large.index
      → p ≢ 0
      → alloc_large s
        ≡ ok (
          p,
          record s {
            pools = record s.pools {
              large = record s.pools.large { index = (s.pools.large.index + 1) % 2 ^ 64 };
            };
            cache = record s.cache { large = cl };
          },
        )
  unfolding alloc_large pool_alloc
  alloc_large_carves p e room at ne = rw (e, lt→ltb _ _ room, ← at) (ground arith)

  alloc_large_reuses :
      (p : ℕ)
      → alloc_cache_line s.cache.large s.words ≡ (p, cl)
      → p ≢ 0
      → alloc_large s ≡ ok (p, record s { cache = record s.cache { large = cl } })
  unfolding alloc_large
  alloc_large_reuses p e ne = rw e (ground arith)

alloc_large-nil :
    {base : ℕ} {s : Memory} {owner : ℕ → Owner} {smalls : List ℕ}
    → IsValid base s owner smalls []
    → s.pools.large.index < large_max
    → (p : ℕ) × (s' : Memory) × (alloc_large s ≡ ok (p, s'))
      × IsLarge s'.pools p
      × Given base owner p s'
alloc_large-nil {s = s} {owner = owner} {smalls = smalls} v room =
    let p = next_large v in
    let pool : BufPool = record s.pools.large { index = (s.pools.large.index + 1) % 2 ^ 64 } in
    let pools' : Pools = record s.pools { large = pool } in
    let s' : Memory = record s { pools = pools' } in
    let ne : p ≢ 0 = omega (arith, next_large_lem v, v.base_pos) in
    let at : IsLarge pools' p = record {
      number = s.pools.large.index;
      carved = omega arith;
      address = rw v.layout.large_alloc;
    } in
    let grows : Grows s.pools pools' = record {
      small_buf = refl;
      large_buf = refl;
      small_index = omega arith;
      large_index = omega arith;
    } in
    let none_free = alloc_cache_line-nil s.words s.cache.large v.large_list in
    (
      p,
      s',
      alloc_large_carves s s.cache.large p none_free (omega (arith, v.layout.large_limit)) refl ne,
      at,
      record {
        not_held = next_large-owner v live (λ e. cc);
        not_null = ne;
        smalls = smalls;
        larges = [];
        valid = record {
          base_pos = v.base_pos;
          layout = omega (arith, v.layout);
          safe = v.safe;
          large_in = omega arith;
          small_list = v.small_list;
          large_list = v.large_list;
          smalls_owned =
              All-update owner p live free_small smalls
                (All-ne owner p free_small smalls (next_large-owner v free_small (λ e. cc))
                  v.smalls_owned)
                v.smalls_owned;
          larges_owned = tt;
          born = born-update owner p live grows v.born (inr at);
        };
      },
    )

alloc_large-cons :
    {base : ℕ} {s : Memory} {owner : ℕ → Owner} {smalls : List ℕ} (p : ℕ) (larges : List ℕ)
    → IsValid base s owner smalls (p ∷ larges)
    → (s' : Memory) × (alloc_large s ≡ ok (p, s')) × IsLarge s'.pools p × Given base owner p s'
alloc_large-cons {s = s} {owner = owner} {smalls = smalls} p larges v =
    let (cl, e, l) = alloc_cache_line-cons s.words s.cache.large p larges v.large_list in
    let ne : p ≢ 0 = v.large_list.chain.1 in
    let mine : owner p ≡ free_large = v.larges_owned.0 in
    let at : IsLarge s.pools p = subst (λ o. BornAs s.pools o p) mine (v.born p) in
    (
      record s { cache = record s.cache { large = cl } },
      alloc_large_reuses s cl p e ne,
      at,
      record {
        not_held = λ h. cc;
        not_null = ne;
        smalls = smalls;
        larges = larges;
        valid = record {
          base_pos = v.base_pos;
          layout = v.layout;
          safe = v.safe;
          large_in = v.large_in;
          small_list = v.small_list;
          large_list = l;
          smalls_owned =
              All-update owner p live free_small smalls
                (All-ne owner p free_small smalls (λ h. cc) v.smalls_owned) v.smalls_owned;
          larges_owned =
              All-update owner p live free_large larges v.large_list.chain.2 v.larges_owned.1;
          born = born-update owner p live (Grows-refl s.pools) v.born (inr at);
        };
      },
    )

pub alloc_large-Given :
    {base : ℕ} {s : Memory} {owner : ℕ → Owner} {smalls : List ℕ} (larges : List ℕ)
    → IsValid base s owner smalls larges
    → s.pools.large.index < large_max
    → (p : ℕ) × (s' : Memory) × (alloc_large s ≡ ok (p, s'))
      × IsLarge s'.pools p
      × Given base owner p s'
alloc_large-Given [] v room = alloc_large-nil v room
alloc_large-Given (p ∷ larges) v room =
    let (s', e, at, g) = alloc_large-cons p larges v in (p, s', e, at, g)
