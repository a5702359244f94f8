-- ===== src/Route.antt =====
-- libupdates2.h and phase1.c: a route, its tie-break data, and the comparison of two of these. The
-- padding of `struct tiebreak` is zero, since a route is cleared by `memset` before it is filled.
pub mod Tie
use fastparse.Prelude.{
  ℕ, ◌/◌, ◌%◌, ◌^◌, ◌==◌, if◌then◌else◌, Bool, true, false, not, ◌&&◌, List, [], ◌∷◌, ◌++◌,
}
use fastparse.Bytes.{Bytes}

pub record Tiebreak : Type 0 where
  pub local_pref : ℕ
  pub path_length : ℕ
  pub origin : ℕ
  pub med : ℕ
  pub ebgp : ℕ
  pub igp_metric : ℕ
  pub bgpid : ℕ
  pub peer_address : ℕ

abbrev pub zero_tiebreak : Tiebreak
zero_tiebreak = record {
  local_pref = 0;
  path_length = 0;
  origin = 0;
  med = 0;
  ebgp = 0;
  igp_metric = 0;
  bgpid = 0;
  peer_address = 0;
}

-- `struct route` but for its first word, `unique`, with the path attributes that `parse_update`
-- copies behind it. The first word is the memory that the allocator links free buffers by, and
-- stands in `Alloc.Memory`.
pub record Route : Type 0 where
  pub use_count : ℕ
  pub update_length : ℕ
  pub tiebreak : Tiebreak
  pub attributes : Bytes

-- `sizeof (struct route)`: 8 + 2 + 2 + 28 bytes.
abbrev pub sizeof_route : ℕ
sizeof_route = 40

-- The memory of a `uint32_t`.
abbrev pub word_bytes : ℕ → Bytes
word_bytes w = (w % 256) ∷ (w / 2 ^ 8 % 256) ∷ (w / 2 ^ 16 % 256) ∷ (w / 2 ^ 24 % 256) ∷ []

-- The 28 bytes of a `struct tiebreak`: the padding behind `origin` and behind `ebgp` included.
unfoldable pub tiebreak_bytes : Tiebreak → Bytes
tiebreak_bytes t =
    word_bytes t.local_pref
    ++ ((t.path_length % 256) ∷ (t.origin % 256) ∷ 0 ∷ 0 ∷ [])
    ++ word_bytes t.med
    ++ ((t.ebgp % 256) ∷ 0 ∷ 0 ∷ 0 ∷ [])
    ++ word_bytes t.igp_metric
    ++ word_bytes t.bgpid
    ++ word_bytes t.peer_address

-- `0 == memcmp (a, b, n)`, at memories of one length.
unfoldable pub memcmp_equal : Bytes → Bytes → Bool
memcmp_equal [] [] = true
memcmp_equal [] (y ∷ ys) = false
memcmp_equal (x ∷ xs) [] = false
memcmp_equal (x ∷ xs) (y ∷ ys) = (x == y) && memcmp_equal xs ys

unfoldable pub tiebreaker : Tiebreak → Tiebreak → Bool
unfolding tiebreak_bytes memcmp_equal
tiebreaker a b = not (memcmp_equal (tiebreak_bytes a) (tiebreak_bytes b))
