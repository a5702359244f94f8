-- ===== src/Split.antt =====
-- `split_buf` of bgpparse.c: the input cut into a chunk for each peer, at markers. Offsets are from
-- the start of the input; a length is the 64-bit word of a signed number, since the search for a
-- marker may end before the chunk's own start.
pub mod Marker
use fastparse.Prelude.{
  ℕ, zero, suc, ◌+◌, ◌-◌, ◌*◌, ◌/◌, ◌%◌, ◌^◌, ◌==◌, if◌then◌else◌, List, [], ◌∷◌, Result, ok, ◌>>=◌,
  ◌>>◌, assert,
}
use fastparse.Bytes.{Bytes, get8}

-- `struct buf`
pub record Buf : Type 0 where
  pub base : ℕ
  pub length : ℕ

-- `mark_count`, 8 bits wide, after the byte `b`.
unfoldable pub next_count : ℕ → ℕ → ℕ
next_count b mark_count = if b == 0xff then (mark_count + 1) % 256 else 0

-- `while (offset > limit)`, with the limit at 0: down to the byte that makes a run of 16 bytes 0xff.
unfoldable pub scan : Bytes → ℕ → ℕ → ℕ → Result (ℕ × ℕ)
scan m base zero mark_count = ok (0, mark_count)
scan m base (suc o) mark_count = do
  b ← get8 m (base + suc o)
  let count = next_count b mark_count
  let rest = scan m base o count
  if 16 == count then ok (suc o, count) else rest

-- The rounds of the `for` that are left, of `n`; `p` is the round, `offset` where the last one ended.
unfoldable pub split_from : ℕ → ℕ → Bytes → ℕ → ℕ → ℕ → ℕ → Result (List Buf)
split_from zero n m base len p offset = ok []
split_from (suc left) n m base len p offset = do
  (offset', mark_count) ← scan m base ((p + 1) * len / n) 0
  assert (16 == mark_count)
  rest ← split_from left n m base len (p + 1) offset'
  ok (record { base = base + offset; length = (offset' + 2 ^ 64 - offset) % 2 ^ 64 } ∷ rest)

unfoldable pub split_buf : ℕ → Bytes → ℕ → ℕ → Result (List Buf)
split_buf n m base len = split_from n n m base len 0 0
