-- ===== src/Nlri/Count.antt =====
-- Where prefixes stand one behind another: `nlri_iter` steps over them, and `nlri_count` counts them.
use fastparse.Prelude.{
  ℕ, zero, suc, ◌+◌, ◌-◌, ◌*◌, ◌%◌, ◌^◌, ◌≡◌, ◌≤◌, ◌<◌, refl, length, arith, ok, err, undefined,
  ◌∙◌, ap, lt→ltb,
}
use native.Mathlib.Decide.{dec_lt}
use fastparse.Prelude.Bits.{bit_or-shift}
use fastparse.Bytes.{Bytes, get8}
use fastparse.Bytes.Regions.{get8_of_lt}
use fastparse.Nlri.{chunksize, accumulate, nlri_iter, count_from, nlri_count}

-- The memory from `p` to `limit` is cut into `n` prefixes: each is a length byte and its chunks.
pub data Prefixes (m : Bytes) (limit : ℕ) : ℕ → ℕ → Type 0 where
  none : (p : ℕ) → p ≡ limit → Prefixes m limit p 0
  one :
      (p len n : ℕ)
      → get8 m p ≡ ok len
      → p + 1 + chunksize len ≤ limit
      → Prefixes m limit (p + 1 + chunksize len) n
      → Prefixes m limit p (suc n)

accumulate_total :
    (n : ℕ) (m : Bytes) (p acc : ℕ)
    → acc < 2 ^ 32
    → p + n ≤ length m
    → (r : ℕ) × (accumulate n m p acc ≡ ok (r, p + n)) × (r < 2 ^ 32)
unfolding accumulate
accumulate_total zero m p acc ha h = (acc, ap (λ (t : ℕ). ok (acc, t)) (omega arith), ha)
accumulate_total (suc n) m p acc ha h =
    let (b, e) = get8_of_lt m p (omega arith) in
    let (r, e', lt) =
      accumulate_total n m (p + 1) ((acc * 2 ^ 8 % 2 ^ 32 + b) % 2 ^ 32) (omega arith)
        (omega arith) in
    (r, rw (e, e') (ap (λ (t : ℕ). ok (r, t)) (omega arith)), lt)

-- What `nlri_iter` does with the length byte at `p`, its chunks being in the memory.
pub data Outcome (m : Bytes) (p len : ℕ) : Type 0 where
  prefix :
      (a : ℕ)
      → 0 < len
      → len ≤ 32
      → a < 2 ^ 32
      → nlri_iter m p ≡ ok (a + len * 2 ^ 32, p + 1 + chunksize len)
      → Outcome m p len
  zero_length : len ≡ 0 → nlri_iter m p ≡ err undefined → Outcome m p len
  overlong : 32 < len → nlri_iter m p ≡ err undefined → Outcome m p len

module _ (m : Bytes) (p len r : ℕ) (e : get8 m p ≡ ok len)
    (e' : accumulate (chunksize len) m (p + 1) 0 ≡ ok (r, p + 1 + chunksize len)) where
  iter_overlong : 32 < len → nlri_iter m p ≡ err undefined
  unfolding nlri_iter
  iter_overlong h = rw (e, e', lt→ltb 4 (chunksize len) (omega arith))

  iter_zero : len ≡ 0 → nlri_iter m p ≡ err undefined
  unfolding nlri_iter
  iter_zero h = rw (e, e') (ground arith)

  iter_prefix :
      0 < len
      → len ≤ 32
      → nlri_iter m p
        ≡ ok (r * 2 ^ (8 * (4 - chunksize len)) % 2 ^ 32 + len * 2 ^ 32, p + 1 + chunksize len)
  unfolding nlri_iter
  iter_prefix lo hi =
      rw (e, e')
        (ground
          (arith, bit_or-shift 32 (r * 2 ^ (8 * (4 - chunksize len)) % 2 ^ 32) len (len * 2 ^ 32)))

-- With the length byte and its chunks in the memory, `nlri_iter` returns a prefix of that length
-- and the pointer behind it if the length is 1 to 32, and its shift is undefined otherwise.
pub nlri_iter-Outcome :
    (m : Bytes) (p len : ℕ) → get8 m p ≡ ok len → p + 1 + chunksize len ≤ length m → Outcome m p len
nlri_iter-Outcome m p len e h =
    let (r, e', lt) = accumulate_total (chunksize len) m (p + 1) 0 (omega arith) (omega arith) in
    elim (dec_lt 32 len) [
      | yes over ↦ overlong over (iter_overlong m p len r e e' over)
      | no within ↦ elim (dec_lt 0 len) [
        | yes pos ↦
            prefix (r * 2 ^ (8 * (4 - chunksize len)) % 2 ^ 32) pos (omega arith) (omega arith)
              (iter_prefix m p len r e e' pos (omega arith))
        | no z ↦ zero_length (omega arith) (iter_zero m p len r e e' (omega arith))
      ]
    ]

count_from-Prefixes :
    (m : Bytes) (p limit end fuel off pfxc q : ℕ) {n : ℕ}
    → end ≡ p + limit
    → q ≡ p + off
    → limit < fuel + off
    → Prefixes m end q n
    → count_from fuel m p limit off pfxc ≡ ok (pfxc + n)
unfolding count_from
count_from-Prefixes m p limit end zero off pfxc q e eq f (none q' z) = absurd (omega arith)
count_from-Prefixes m p limit end zero off pfxc q e eq f (one q' len n b h rest) =
    absurd (omega arith)
count_from-Prefixes m p limit end (suc fuel) off pfxc q e eq f (none q' z) = ground arith
count_from-Prefixes m p limit end (suc fuel) off pfxc q e eq f (one q' len n b h rest) =
    let step =
      count_from-Prefixes m p limit end fuel (off + 1 + chunksize len) (pfxc + 1)
        (q + 1 + chunksize len) e (omega arith) (omega arith) rest in
    let at : get8 m (p + off) ≡ ok len = rw (← eq) b in
    rw (lt→ltb off limit (omega arith), at, step) (ap (λ (t : ℕ). ok t) (omega arith))

-- `nlri_count` returns the number of prefixes, whatever their lengths, if the `limit` bytes at `p`
-- are cut into prefixes to the last byte.
pub nlri_count-Prefixes :
    (m : Bytes) (p limit n : ℕ) → Prefixes m (p + limit) p n → nlri_count m p limit ≡ ok n
unfolding nlri_count
nlri_count-Prefixes m p limit n h =
    count_from-Prefixes m p limit (p + limit) (limit + 1) 0 0 p refl (omega arith) (omega arith) h
    ∙ ap (λ (t : ℕ). ok t) (omega arith)
