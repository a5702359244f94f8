-- ===== src/AsPath.antt =====
-- aspath.c: the length of an AS path. `offset` and `path_count` are 16-bit words. The loop runs on
-- fuel: a path of fewer than 64,000 bytes is given enough, since a round moves on by two bytes at least.
pub mod Count
use fastparse.Prelude.{
  ℕ, zero, suc, ◌+◌, ◌*◌, ◌%◌, ◌^◌, ltb, ◌==◌, if◌then◌else◌, Result, ok, err, ◌>>=◌, ◌>>◌, assert,
  out_of_fuel,
}
use fastparse.Bytes.{Bytes, get8}

-- The branch on the segment's type: an AS set counts one, a sequence its length, and the last
-- branch only asserts `seg_type < 3`.
unfoldable pub add_segment : ℕ → ℕ → ℕ → Result ℕ
add_segment seg_type seg_length path_count =
    if 1 == seg_type
    then ok ((path_count + 1) % 2 ^ 16)
    else if 2 == seg_type
    then ok ((path_count + seg_length) % 2 ^ 16)
    else (do assert (ltb seg_type 3); ok path_count)

unfoldable pub count_segments : ℕ → Bytes → ℕ → ℕ → ℕ → ℕ → Result ℕ
count_segments zero m p len offset path_count = err out_of_fuel
count_segments (suc fuel) m p len offset path_count =
    if ltb offset len
    then (do
      seg_type ← get8 m (p + offset)
      seg_length ← get8 m (p + offset + 1)
      path_count' ← add_segment seg_type seg_length path_count
      count_segments fuel m p len ((offset + (2 + 4 * seg_length)) % 2 ^ 16) path_count')
    else (do assert (offset == len); assert (ltb path_count 256); ok (path_count % 256))

unfoldable pub as_path_count : Bytes → ℕ → ℕ → Result ℕ
as_path_count m p len = count_segments (len + 1) m p len 0 0
