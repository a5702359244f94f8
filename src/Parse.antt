-- ===== src/Parse.antt =====
-- bgpparse.c: the UPDATE messages of the input, and the division of the input among the peers. The
-- input is a memory, a pointer into it an offset. The loops over prefixes take as many rounds as
-- their bytes, since a prefix takes one at least; the loop over messages takes fuel from its caller.
pub mod Messages
pub mod Loops
pub mod Addresses
pub mod Sound
pub mod Whole
use fastparse.Prelude.{
  ℕ, zero, suc, ◌+◌, ◌-◌, ◌*◌, ◌/◌, ◌%◌, ◌^◌, Bool, true, false, not, ◌&&◌, ◌||◌, ◌==◌,
  if◌then◌else◌, bit_or, ltb, leb, List, [], ◌∷◌, ◌++◌, Result, ok, err, ◌>>=◌, ◌>>◌, assert,
  in_object, out_of_fuel, update,
}
use fastparse.Bytes.{Bytes, get8, getw16}
use fastparse.Nlri.{nlri_iter}
use fastparse.Bigtable.{Bigtable, too_big, lookup_rib64}
use fastparse.Route.{Route, sizeof_route, zero_tiebreak}
use fastparse.Attributes.{parse_attributes}
use fastparse.Alloc.{Memory, alloc, small_size, large_size}
use fastparse.Locrib.{lr_eob}
use fastparse.System.{System}
use fastparse.Rib.{Peer, phase1, update_adj_rib_in}

-- `memcpy` out of the input.
unfoldable pub read_bytes : ℕ → Bytes → ℕ → Result Bytes
read_bytes zero m p = ok []
read_bytes (suc n) m p = do b ← get8 m p; rest ← read_bytes n m (p + 1); ok (b ∷ rest)

-- The bytes of a buffer that `alloc` gives for a request.
abbrev pub buffer_size : ℕ → ℕ
buffer_size size = if ltb small_size size then large_size else small_size

-- A new route: allocated, cleared, and filled from the peer and from the attributes.
unfoldable pub new_route : System → Peer → Bytes → ℕ → ℕ → ℕ → Result (System × Peer × ℕ)
new_route s peer m len path_attributes attr_length = do
  (p, mem) ←
      alloc (record { pools = s.pools; cache = peer.cache; words = s.words }) (len + sizeof_route)
  in_object (leb (attr_length + sizeof_route) (buffer_size (len + sizeof_route)))
  block ← read_bytes attr_length m path_attributes
  let blank : Route = record {
    use_count = 0;
    update_length = attr_length;
    tiebreak = zero_tiebreak;
    attributes = block;
  }
  route ← parse_attributes m path_attributes attr_length (phase1 peer blank)
  ok (
    record s {
      pools = mem.pools;
      words = update mem.words p s.unique;
      routes = update s.routes p route;
      unique = (s.unique + 1) % 2 ^ 64;
    },
    record peer { cache = mem.cache },
    p,
  )

-- One prefix of the reachable ones, `end` being where they end.
unfoldable pub announce : Bool → System → Peer → ℕ → ℕ → ℕ → ℕ → Result (System × Peer)
announce garbage s peer prefix nlrip end route = do
  (addrref, t) ← lookup_rib64 s.bigtable prefix
  let s₁ = record s { bigtable = t }
  if too_big == addrref then ok (record s₁ { too_long = (s₁.too_long + 1) % 2 ^ 32 }, peer) else (do
    let last = nlrip == end
    let marked = (if last then bit_or addrref lr_eob else addrref)
    let s₂ = (if last then record s₁ { updates = (s₁.updates + 1) % 2 ^ 64 } else s₁)
    (s₃, peer') ← update_adj_rib_in garbage s₂ peer marked route
    ok (record s₃ { update_prefixes = (s₃.update_prefixes + 1) % 2 ^ 64 }, peer'))

-- One prefix of the withdrawn ones.
unfoldable pub withdraw : Bool → System → Peer → ℕ → ℕ → ℕ → Result (System × Peer)
withdraw garbage s peer prefix withdrawp end = do
  (addrref, t) ← lookup_rib64 s.bigtable prefix
  let s₁ = record s { bigtable = t }
  if too_big == addrref
      then ok (record s₁ { too_long = (s₁.too_long + 1) % 2 ^ 32 }, peer)
      else update_adj_rib_in garbage s₁ peer
          (if withdrawp == end then bit_or addrref lr_eob else addrref) 0

unfoldable pub announce_all : ℕ → Bool → Bytes → System → Peer → ℕ → ℕ → ℕ → Result (System × Peer)
announce_all zero garbage m s peer nlrip end route =
    if ltb nlrip end then err out_of_fuel else ok (s, peer)
announce_all (suc fuel) garbage m s peer nlrip end route =
    if ltb nlrip end
    then (do
      (prefix, nlrip') ← nlri_iter m nlrip
      (s', peer') ← announce garbage s peer prefix nlrip' end route
      announce_all fuel garbage m s' peer' nlrip' end route)
    else ok (s, peer)

unfoldable pub withdraw_all : ℕ → Bool → Bytes → System → Peer → ℕ → ℕ → Result (System × Peer)
withdraw_all zero garbage m s peer withdrawp end =
    if ltb withdrawp end then err out_of_fuel else ok (s, peer)
withdraw_all (suc fuel) garbage m s peer withdrawp end =
    if ltb withdrawp end
    then (do
      (prefix, withdrawp') ← nlri_iter m withdrawp
      (s', peer') ← withdraw garbage s peer prefix withdrawp' end
      withdraw_all fuel garbage m s' peer' withdrawp' end)
    else ok (s, peer)

-- The three lengths of an UPDATE at `p`; the last one is what is left, as a 16-bit word.
pub record Lengths : Type 0 where
  pub withdrawn : ℕ
  pub attributes : ℕ
  pub nlri : ℕ

unfoldable pub read_lengths : Bytes → ℕ → ℕ → Result Lengths
read_lengths m p len = do
  w ← getw16 m p
  a ← getw16 m (p + 2 + w)
  assert (ltb len 4097)
  ok (record { withdrawn = w; attributes = a; nlri = (len + 3 * 2 ^ 16 - w - a - 4) % 2 ^ 16 })

unfoldable pub parse_update : Bool → Bytes → System → Peer → ℕ → ℕ → Result (System × Peer)
parse_update garbage m s peer p len = do
  l ← read_lengths m p len
  let withdrawn = p + 2
  let path_attributes = p + 4 + l.withdrawn
  let nlri = p + 4 + l.withdrawn + l.attributes
  if (0 == l.nlri) && (0 == l.withdrawn) then ok (s, peer) else (do
    let s₁ = record s { msg_count = (s.msg_count + 1) % 2 ^ 64 }
    (s₂, peer₂, route) ←
        if not (l.attributes == 0) && not (l.nlri == 0)
        then new_route s₁ peer m len path_attributes l.attributes
        else ok (s₁, peer, 0)
    (s₃, peer₃) ← announce_all l.nlri garbage m s₂ peer₂ nlri (nlri + l.nlri) route
    withdraw_all l.withdrawn garbage m s₃ peer₃ withdrawn (withdrawn + l.withdrawn))

-- `0 == memcmp (marker, ptr, 16)`
unfoldable pub is_marker : ℕ → Bytes → ℕ → Result Bool
is_marker zero m p = ok true
is_marker (suc n) m p = do b ← get8 m p; if b == 0xff then is_marker n m (p + 1) else ok false

-- The command line's limits: `msg_max`, 0 for none, and `spare`, how many messages to pass over.
pub record Options : Type 0 where
  pub msg_max : ℕ
  pub spare : ℕ

-- One message at `ptr`: the new state, and its length.
unfoldable pub parse_message :
    Bool → Options → Bytes → System → Peer → ℕ → ℕ → Result (System × Peer × ℕ)
parse_message garbage opts m s peer ptr msg_count = do
  marked ← is_marker 16 m ptr
  assert marked
  msg_length ← getw16 m (ptr + 16)
  msg_type ← get8 m (ptr + 18)
  assert (2 == msg_type)
  (s', peer') ←
      if ltb 23 msg_length && leb opts.spare msg_count
      then parse_update garbage m s peer (ptr + 19) (msg_length - 19)
      else ok (s, peer)
  ok (s', peer', msg_length)

-- `ptr < limit && (msg_max == 0 || msg_count < msg_max)`
abbrev pub goes_on : Options → ℕ → ℕ → ℕ → Bool
goes_on opts ptr limit msg_count =
    ltb ptr limit && ((opts.msg_max == 0) || ltb msg_count opts.msg_max)

unfoldable pub parse_messages :
    ℕ → Bool → Options → Bytes → System → Peer → ℕ → ℕ → ℕ → Result (System × Peer × ℕ)
parse_messages zero garbage opts m s peer ptr limit msg_count = err out_of_fuel
parse_messages (suc fuel) garbage opts m s peer ptr limit msg_count =
    if goes_on opts ptr limit msg_count
    then (do
      (s', peer', msg_length) ← parse_message garbage opts m s peer ptr msg_count
      parse_messages fuel garbage opts m s' peer' (ptr + msg_length) limit
          ((msg_count + 1) % 2 ^ 32))
    else ok (s, peer, msg_count)

unfoldable pub buf_parse_peer :
    ℕ → Bool → Options → Bytes → System → Peer → Result (System × Peer × ℕ)
buf_parse_peer fuel garbage opts m s peer =
    parse_messages fuel garbage opts m s peer peer.base ((peer.base + peer.length) % 2 ^ 64) 0
