-- ===== src/Attributes.antt =====
-- bgpupdate.c: the path attributes of an UPDATE, read into the route's tie-break data. What the code
-- prints is left out. The loop runs on fuel: a round moves on by three bytes at least, so one round
-- more than the length is enough for a block that ends where its length says.
pub mod Grammar
pub mod Effect
use fastparse.Prelude.{
  ℕ, zero, suc, ◌+◌, ◌*◌, ◌%◌, ◌^◌, bit_and, bit_or, not, ◌&&◌, ltb, ◌==◌, if◌then◌else◌, Result,
  ok, err, ◌>>=◌, ◌>>◌, assert, out_of_fuel,
}
use fastparse.Bytes.{Bytes, get8, load32}
use fastparse.Route.{Route}
use fastparse.AsPath.{as_path_count}

-- The attribute types of libupdates2.h that the code names.
abbrev pub origin : ℕ
origin = 1

abbrev pub as_path : ℕ
as_path = 2

abbrev pub next_hop : ℕ
next_hop = 3

abbrev pub multi_exit_disc : ℕ
multi_exit_disc = 4

abbrev pub local_pref : ℕ
local_pref = 5

abbrev pub atomic_aggregate : ℕ
atomic_aggregate = 6

abbrev pub aggregator : ℕ
aggregator = 7

abbrev pub community : ℕ
community = 8

abbrev pub mp_reach_nlri : ℕ
mp_reach_nlri = 14

abbrev pub mp_unreach_nlri : ℕ
mp_unreach_nlri = 15

abbrev pub extended_communities : ℕ
extended_communities = 16

abbrev pub connector : ℕ
connector = 20

abbrev pub as_pathlimit : ℕ
as_pathlimit = 21

abbrev pub large_community : ℕ
large_community = 32

abbrev pub attr_set : ℕ
attr_set = 128

unfoldable pub set_origin : Bytes → ℕ → Route → Result Route
set_origin m p route = do
  b ← get8 m p
  ok (record route { tiebreak = record route.tiebreak { origin = b } })

unfoldable pub set_path_length : Bytes → ℕ → ℕ → Route → Result Route
set_path_length m p len route = do
  n ← as_path_count m p len
  ok (record route { tiebreak = record route.tiebreak { path_length = n } })

unfoldable pub set_med : Bytes → ℕ → ℕ → Route → Result Route
set_med m p len route = do
  assert (4 == len)
  w ← load32 m p
  ok (record route { tiebreak = record route.tiebreak { med = w } })

unfoldable pub set_local_pref : Bytes → ℕ → ℕ → Route → Result Route
set_local_pref m p len route = do
  assert (4 == len)
  w ← load32 m p
  ok (record route { tiebreak = record route.tiebreak { local_pref = w } })

-- The cases of the `switch`, in the source's order; the cases that only break, the default and the
-- unexpected types all leave the route as it is.
unfoldable pub parse_attribute : ℕ → Bytes → ℕ → ℕ → Route → Result Route
parse_attribute type_code m p len route =
    if ltb 64 type_code && not (attr_set == type_code)
    then ok route
    else if type_code == origin
    then set_origin m p route
    else if type_code == as_path
    then set_path_length m p len route
    else if type_code == next_hop
    then (do assert (4 == len); ok route)
    else if type_code == multi_exit_disc
    then set_med m p len route
    else if type_code == local_pref
    then set_local_pref m p len route
    else if type_code == community
    then (do assert (0 == len % 4); ok route)
    else if type_code == extended_communities
    then (do assert (0 == len % 8); ok route)
    else if type_code == large_community
    then (do assert (0 == len % 12); ok route)
    else if type_code == atomic_aggregate
    then (do assert (0 == len); ok route)
    else if type_code == aggregator
    then (do assert (8 == len); ok route)
    else if type_code == as_pathlimit
    then (do assert (5 == len); ok route)
    else ok route

pub record Header : Type 0 where
  pub flags : ℕ
  pub type_code : ℕ
  pub attr_length : ℕ
  pub value : ℕ

-- The flags, the type, and a length of two bytes if the flags say so; `value` is the pointer behind.
-- `serialize`'s `get` reads a header in the same words.
unfoldable pub read_header : Bytes → ℕ → Result Header
read_header m p = do
  flags ← get8 m p
  type_code ← get8 m (p + 1)
  attr_length ← get8 m (p + 2)
  if bit_and 0x10 flags == 0
      then ok (record {
        flags = flags;
        type_code = type_code;
        attr_length = attr_length;
        value = p + 3;
      })
      else (do
        low ← get8 m (p + 3)
        ok (record {
          flags = flags;
          type_code = type_code;
          attr_length = bit_or (attr_length * 2 ^ 8) low % 2 ^ 16;
          value = p + 4;
        }))

-- `do { … } while (p < limit); assert (p == limit);`
unfoldable pub attributes_from : ℕ → Bytes → ℕ → ℕ → Route → Result Route
attributes_from zero m limit p r = err out_of_fuel
attributes_from (suc fuel) m limit p r = do
  h ← read_header m p
  r' ← parse_attribute h.type_code m h.value h.attr_length r
  let q = h.value + h.attr_length
  let rest = attributes_from fuel m limit q r'
  if ltb q limit then rest else (do assert (q == limit); ok r')

unfoldable pub parse_attributes : Bytes → ℕ → ℕ → Route → Result Route
unfolding attributes_from
parse_attributes m p len r = attributes_from (len + 1) m (p + len) p r
