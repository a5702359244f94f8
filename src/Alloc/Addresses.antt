-- ===== src/Alloc/Addresses.antt =====
-- No buffer is at the address ~0, which `MAP_FAILED` and the marker `EMPTY` of the output are.
use fastparse.Prelude.{
  ℕ, ◌+◌, ◌*◌, ◌^◌, ◌≡◌, ◌≢◌, ◌<◌, ◌∙◌, arith, ok, Result, assert, not, ltb, leb, ◌==◌, >>=-eq-ok,
  if-eq-ok, inl, inr, Bool-cases,
}
use native.Mathlib.Decide.{dec_lt, ℕ_discrete}
use fastparse.Alloc.{
  BufPool, CacheLine, Memory, pool_alloc, is_large, map_failed, small_size, large_size,
  alloc_cache_line, dalloc_cache_line, alloc_small, alloc_large, alloc, dalloc_small, dalloc_large,
  dalloc,
}
use fastparse.Alloc.Layout.{Carved}

-- The pools are carved from a slab in the lower half of the addresses, and no link is ~0.
pub record IsLow (base : ℕ) (s : Memory) : Type 0 where
  pub room : base < 2 ^ 63
  pub layout : Carved base s.pools
  pub small_free : s.cache.small.free ≢ map_failed
  pub large_free : s.cache.large.free ≢ map_failed
  pub words : (x : ℕ) → s.words x ≢ map_failed

-- What a call that gives a buffer leaves.
abbrev Gives : ℕ → ℕ → Memory → Type 0
Gives base p s = (p ≢ map_failed) × IsLow base s

Gives-ok :
    {base p q : ℕ} {s t : Memory}
    → ◌≡◌ {A = Result (ℕ × Memory)} (ok (q, t)) (ok (p, s))
    → Gives base q t
    → Gives base p s
Gives-ok {base} {p} {q} {s} {t} e g =
    let same_p : q ≡ p = cc in let same_s : t ≡ s = cc in rw (← same_p) (rw (← same_s) g)

-- A buffer of a pool, and the pool behind it.
record Carves (pool : BufPool) (p : ℕ) (pool' : BufPool) : Type 0 where
  inside : pool.index < pool.index_max
  address : p ≡ pool.buf + pool.alloc_max * pool.index
  buf : pool'.buf ≡ pool.buf
  alloc_max : pool'.alloc_max ≡ pool.alloc_max
  index_max : pool'.index_max ≡ pool.index_max

pool_alloc-Carves :
    {pool' : BufPool} (pool : BufPool) (p : ℕ)
    → pool_alloc pool ≡ ok (p, pool')
    → Carves pool p pool'
unfolding pool_alloc
pool_alloc-Carves {pool'} pool p e = elim (dec_lt pool.index pool.index_max) [
  | no full ↦ absurd (ground arith)
  | yes room ↦ record {
    inside = room;
    address = ground arith;
    buf = ground arith;
    alloc_max = ground arith;
    index_max = ground arith;
  }
]

alloc_cache_line-free :
    (cl : CacheLine) (words : ℕ → ℕ)
    → cl.free ≢ map_failed
    → ((x : ℕ) → words x ≢ map_failed)
    → ((alloc_cache_line cl words).0 ≢ map_failed)
      × ((alloc_cache_line cl words).1.free ≢ map_failed)
unfolding alloc_cache_line
alloc_cache_line-free cl words h w = elim (ℕ_discrete cl.free 0) [
  | yes empty ↦ (ground arith, ground arith)
  | no there ↦ (ground arith, ground (arith, w cl.free))
]

module _ {base : ℕ} {s : Memory} (low : IsLow base s) where
  small_address :
      {pool : BufPool} (p : ℕ)
      → Carves s.pools.small p pool
      → (p ≢ map_failed) × Carved base (record s.pools { small = pool })
  small_address p c =
      let l = low.layout in
      let at : p ≡ base + 256 * s.pools.small.index = c.address ∙ rw (l.small_buf, l.small_alloc) in
      (
        omega (arith, c.inside, l.small_limit, low.room),
        record {
          small_buf = c.buf ∙ l.small_buf;
          small_alloc = c.alloc_max ∙ l.small_alloc;
          small_limit = c.index_max ∙ l.small_limit;
          large_buf = l.large_buf;
          large_alloc = l.large_alloc;
          large_limit = l.large_limit;
        },
      )

  large_address :
      {pool : BufPool} (p : ℕ)
      → Carves s.pools.large p pool
      → (p ≢ map_failed) × Carved base (record s.pools { large = pool })
  large_address p c =
      let l = low.layout in
      let at : p ≡ s.pools.large.buf + large_size * s.pools.large.index =
        c.address ∙ rw l.large_alloc in
      (
        omega (arith, c.inside, l.large_limit, l.large_buf, low.room),
        record {
          small_buf = l.small_buf;
          small_alloc = l.small_alloc;
          small_limit = l.small_limit;
          large_buf = c.buf ∙ l.large_buf;
          large_alloc = c.alloc_max ∙ l.large_alloc;
          large_limit = c.index_max ∙ l.large_limit;
        },
      )

  alloc_small-IsLow : {s' : Memory} (p : ℕ) → alloc_small s ≡ ok (p, s') → Gives base p s'
  unfolding alloc_small
  alloc_small-IsLow {s'} p e =
      let z = alloc_cache_line s.cache.small s.words in
      let free = alloc_cache_line-free s.cache.small s.words low.small_free low.words in
      elim (if-eq-ok (z.0 == 0) _ _ e) [
        | inl carved ↦
            let ((q, pool), e₁, k₁) = >>=-eq-ok (pool_alloc s.pools.small) _ carved in
            let (u, e₂, k₂) = >>=-eq-ok (assert (not (q == 0))) _ k₁ in
            let (ne, layout) = small_address q (pool_alloc-Carves s.pools.small q e₁) in
            Gives-ok k₂ (
              ne,
              record {
                room = low.room;
                layout = layout;
                small_free = free.1;
                large_free = low.large_free;
                words = low.words;
              },
            )
        | inr reused ↦ Gives-ok reused (
          free.0,
          record {
            room = low.room;
            layout = low.layout;
            small_free = free.1;
            large_free = low.large_free;
            words = low.words;
          },
        )
      ]

  alloc_large-IsLow : {s' : Memory} (p : ℕ) → alloc_large s ≡ ok (p, s') → Gives base p s'
  unfolding alloc_large
  alloc_large-IsLow {s'} p e =
      let z = alloc_cache_line s.cache.large s.words in
      let free = alloc_cache_line-free s.cache.large s.words low.large_free low.words in
      elim (if-eq-ok (z.0 == 0) _ _ e) [
        | inl carved ↦
            let ((q, pool), e₁, k₁) = >>=-eq-ok (pool_alloc s.pools.large) _ carved in
            let (u, e₂, k₂) = >>=-eq-ok (assert (not (q == 0))) _ k₁ in
            let (ne, layout) = large_address q (pool_alloc-Carves s.pools.large q e₁) in
            Gives-ok k₂ (
              ne,
              record {
                room = low.room;
                layout = layout;
                small_free = low.small_free;
                large_free = free.1;
                words = low.words;
              },
            )
        | inr reused ↦ Gives-ok reused (
          free.0,
          record {
            room = low.room;
            layout = low.layout;
            small_free = low.small_free;
            large_free = free.1;
            words = low.words;
          },
        )
      ]

  -- A buffer that `alloc` gives is not at ~0.
  pub alloc-IsLow : {s' : Memory} (p size : ℕ) → alloc s size ≡ ok (p, s') → Gives base p s'
  unfolding alloc
  alloc-IsLow {s'} p size e =
      let (u, e₁, k₁) = >>=-eq-ok (assert (leb size large_size)) _ e in
      elim (if-eq-ok (ltb small_size size) _ _ k₁) [
        | inl big ↦ alloc_large-IsLow p big
        | inr fits ↦ alloc_small-IsLow p fits
      ]

  linked :
      (cl : CacheLine) (p : ℕ)
      → cl.free ≢ map_failed
      → (x : ℕ) → (dalloc_cache_line cl p s.words).1 x ≢ map_failed
  unfolding dalloc_cache_line
  linked cl p h x = ground (arith, low.words x)

  freed :
      (cl : CacheLine) (p : ℕ)
      → p ≢ map_failed
      → (dalloc_cache_line cl p s.words).0.free ≢ map_failed
  unfolding dalloc_cache_line
  freed cl p ne = ne

  -- A buffer that is given back is not at ~0 either.
  pub dalloc-IsLow : (p : ℕ) → p ≢ map_failed → IsLow base (dalloc s p)
  unfolding dalloc dalloc_small dalloc_large
  dalloc-IsLow p ne = elim (Bool-cases (is_large s.pools p)) [
    | inl large ↦ rw large (record {
      room = low.room;
      layout = low.layout;
      small_free = low.small_free;
      large_free = freed s.cache.large p ne;
      words = linked s.cache.large p low.large_free;
    })
    | inr small ↦ rw small (record {
      room = low.room;
      layout = low.layout;
      small_free = freed s.cache.small p ne;
      large_free = low.large_free;
      words = linked s.cache.small p low.small_free;
    })
  ]
