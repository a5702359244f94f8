-- ===== src/Alloc/FreeList.antt =====
-- A free list: the buffers that the links lead through, from the head to NULL.
use fastparse.Prelude.{
  ℕ, ◌+◌, ◌-◌, ◌%◌, ◌^◌, ◌≡◌, ◌≢◌, ◌<◌, refl, List, [], ◌∷◌, All, arith, length, update, update_ne,
  update_self,
}
use native.Mathlib.Decide.{ℕ_discrete}
use fastparse.Alloc.{CacheLine, alloc_cache_line, dalloc_cache_line}

-- From `p` the links lead through the buffers `xs`, no two the same, to NULL.
abbrev pub Chain : (ℕ → ℕ) → ℕ → List ℕ → Type 0
Chain words p [] = p ≡ 0
Chain words p (x ∷ xs) = (p ≡ x) × (x ≢ 0) × All (λ y. y ≢ x) xs × Chain words (words x) xs

-- The free list `xs` of a cache line, and its count.
pub record IsList (words : ℕ → ℕ) (cl : CacheLine) (xs : List ℕ) : Type 0 where
  pub chain : Chain words cl.free xs
  pub count : cl.free_count ≡ length xs
  pub small : length xs < 2 ^ 32

-- A write to a buffer that is not in the list leaves the list.
pub Chain-update :
    (words : ℕ → ℕ) (a v p : ℕ) (xs : List ℕ)
    → All (λ y. y ≢ a) xs
    → Chain words p xs
    → Chain (update words a v) p xs
Chain-update words a v p [] out c = c
Chain-update words a v p (x ∷ xs) out c = (
  c.0,
  c.1,
  c.2,
  rw (update_ne words a v x out.0) (Chain-update words a v (words x) xs out.1 c.3),
)

-- From an empty list nothing is taken.
pub alloc_cache_line-nil :
    (words : ℕ → ℕ) (cl : CacheLine) → IsList words cl [] → alloc_cache_line cl words ≡ (0, cl)
unfolding alloc_cache_line
alloc_cache_line-nil words cl l = let e : cl.free ≡ 0 = l.chain in ground arith

-- From any other the first buffer is taken.
pub alloc_cache_line-cons :
    (words : ℕ → ℕ) (cl : CacheLine) (x : ℕ) (xs : List ℕ)
    → IsList words cl (x ∷ xs)
    → (cl' : CacheLine) × (alloc_cache_line cl words ≡ (x, cl')) × IsList words cl' xs
unfolding alloc_cache_line
alloc_cache_line-cons words cl x xs l =
    let (e, ne, out, rest) = l.chain in
    (
      record { free = words x; free_count = (cl.free_count + 2 ^ 32 - 1) % 2 ^ 32 },
      ground (arith, l.count),
      record {
        chain = rest;
        count = omega (arith, l.count, l.small);
        small = omega (arith, l.small);
      },
    )

-- A buffer that is not in the list goes to its head.
pub dalloc_cache_line-IsList :
    (words : ℕ → ℕ) (cl : CacheLine) (p : ℕ) (xs : List ℕ)
    → p ≢ 0
    → All (λ y. y ≢ p) xs
    → length xs + 1 < 2 ^ 32
    → IsList words cl xs
    → (v : ℕ) × (cl' : CacheLine) × (dalloc_cache_line cl p words ≡ (cl', update words p v))
      × IsList (update words p v) cl' (p ∷ xs)
unfolding dalloc_cache_line
dalloc_cache_line-IsList words cl p xs ne out room l = (
  cl.free,
  record { free = p; free_count = (cl.free_count + 1) % 2 ^ 32 },
  elim (ℕ_discrete cl.free 0) [ yes e ↦ rw e | no e ↦ ground arith ],
  record {
    chain = (
      refl,
      ne,
      out,
      rw (update_self words p cl.free) (Chain-update words p cl.free cl.free xs out l.chain),
    );
    count = omega (arith, l.count);
    small = omega arith;
  },
)
