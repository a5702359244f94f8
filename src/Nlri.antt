-- ===== src/Nlri.antt =====
-- nlri2.h: the prefixes of an UPDATE, as a length byte and the bytes of the address that the length
-- needs. A prefix is a 64-bit word, `length << 32 | address`, the address in host order. A pointer
-- is an offset into the memory, and a function that advances one returns it.
pub mod Decode
pub mod RoundTrip
pub mod Count
use fastparse.Prelude.{
  ℕ, zero, suc, ◌+◌, ◌-◌, ◌*◌, ◌/◌, ◌%◌, ◌^◌, bit_or, ltb, if◌then◌else◌, Result, ok, err, ◌>>=◌,
  ◌>>◌, undefined, assertion, out_of_fuel,
}
use fastparse.Bytes.{Bytes, get8, put8, bswap_32}

-- `CHUNKSIZE (L)`
abbrev pub chunksize : ℕ → ℕ
chunksize l = (l + 7) / 8

-- `a << k` on a `uint32_t`: C leaves it undefined from the width on.
abbrev pub shl32 : ℕ → ℕ → Result ℕ
shl32 a k = if ltb k 32 then ok (a * 2 ^ k % 2 ^ 32) else err undefined

-- The final shift `acc << (8 * (4 - chunks))`. Above four chunks the count is negative.
abbrev pub align : ℕ → ℕ → Result ℕ
align acc chunks = if ltb 4 chunks then err undefined else shl32 acc (8 * (4 - chunks))

-- `while (i++ < CHUNKSIZE (length)) acc = (acc << 8) + *(nlri++)`, by the rounds left.
unfoldable pub accumulate : ℕ → Bytes → ℕ → ℕ → Result (ℕ × ℕ)
accumulate zero m p acc = ok (acc, p)
accumulate (suc n) m p acc = do
  b ← get8 m p
  accumulate n m (p + 1) ((acc * 2 ^ 8 % 2 ^ 32 + b) % 2 ^ 32)

-- The prefix at `p`, and the pointer behind it.
unfoldable pub nlri_iter : Bytes → ℕ → Result (ℕ × ℕ)
unfolding accumulate
nlri_iter m p = do
  len ← get8 m p
  (acc, q) ← accumulate (chunksize len) m (p + 1) 0
  address ← align acc (chunksize len)
  ok (bit_or address (len * 2 ^ 32), q)

-- `assert (0)` stands before all else in these two.
unfoldable pub nlri_get : Bytes → ℕ → Result ℕ
nlri_get m p = err assertion

unfoldable pub nlri_list : Bytes → ℕ → ℕ → Result ℕ
nlri_list m p limit = err assertion

-- The loop of `nlri_count` on fuel: each round moves `off` on by one byte at least.
unfoldable pub count_from : ℕ → Bytes → ℕ → ℕ → ℕ → ℕ → Result ℕ
count_from zero m p limit off pfxc = err out_of_fuel
count_from (suc fuel) m p limit off pfxc =
    if ltb off limit
    then (do len ← get8 m (p + off); count_from fuel m p limit (off + 1 + chunksize len) (pfxc + 1))
    else ok pfxc

unfoldable pub nlri_count : Bytes → ℕ → ℕ → Result ℕ
unfolding count_from
nlri_count m p limit = count_from (limit + 1) m p limit 0 0

-- `while (chunk++ < CHUNKSIZE (length)) { *(p++) = address & 0xff; address >>= 8; }`
unfoldable pub emit : ℕ → Bytes → ℕ → ℕ → Result (Bytes × ℕ)
emit zero m p address = ok (m, p)
emit (suc n) m p address = do m' ← put8 m p (address % 256); emit n m' (p + 1) (address / 2 ^ 8)

-- Writes the prefix at `p`, and returns the pointer behind it.
unfoldable pub build_nlri : Bytes → ℕ → ℕ → Result (Bytes × ℕ)
unfolding emit
build_nlri m p prefix = do
  let address = bswap_32 (prefix % 2 ^ 32)
  let len = prefix / 2 ^ 32 % 256
  m' ← put8 m p len
  emit (chunksize len) m' (p + 1) address
