-- ===== src/Serialize.antt =====
-- bgpserialize.tpl and its three uses: the path attributes of a route, written for a group of peers.
-- The local variables of the C function are a record; `src` is the block of attributes behind the
-- route, `r` the pointer into it, `out` the buffer and `q` the pointer into that. NULL is `none`.
pub mod Copy
pub mod Block
pub mod Find
pub mod Picked
pub mod Steps
pub mod Whole
pub mod Ibgp
pub mod Prepend
pub mod Ebgp
pub mod Law
use fastparse.Prelude.{
  ℕ, zero, suc, ◌+◌, ◌-◌, ◌/◌, ◌%◌, ◌^◌, bit_and, bit_or, Option, none, some, ltb, leb, ◌==◌,
  if◌then◌else◌, Result, ok, err, ◌>>=◌, ◌>>◌, assert, in_object, assertion, out_of_fuel,
}
use fastparse.Bytes.{Bytes, get8, put8, bswap_32, store32}
use fastparse.Route.{Route}
use fastparse.Attributes.{read_header, origin, as_path, next_hop, local_pref, community}

pub record Writer : Type 0 where
  pub out : Bytes
  pub q : ℕ
  pub r : ℕ
  pub flags : ℕ
  pub type_code : ℕ
  pub attr_length : ℕ
  pub attr_ptr : Option ℕ

-- `memcpy (q, p, n)` from the source to the buffer.
unfoldable pub memcpy : ℕ → Bytes → ℕ → Bytes → ℕ → Result Bytes
memcpy zero src p out q = ok out
memcpy (suc n) src p out q = do
  b ← get8 src p
  out' ← put8 out q b
  memcpy n src (p + 1) out' (q + 1)

-- `*q++ = b`
unfoldable pub emit8 : Writer → ℕ → Result Writer
emit8 w b = do out' ← put8 w.out w.q b; ok (record w { out = out'; q = w.q + 1 })

-- The attribute's header: one length byte below 256, else two and the flag that says so.
unfoldable pub emit_header : Writer → ℕ → ℕ → ℕ → Result Writer
emit_header w len flags type_code =
    if ltb len 256
    then (do w ← emit8 w (bit_and flags 0xef); w ← emit8 w type_code; emit8 w (bit_and len 0xff))
    else (do
      w ← emit8 w (bit_or flags 0x10)
      w ← emit8 w type_code
      w ← emit8 w (len / 2 ^ 8)
      emit8 w (bit_and len 0xff))

-- `memcpy (q, p, n); q += n;`
unfoldable pub emit_bytes : Writer → ℕ → Bytes → ℕ → Result Writer
emit_bytes w n src p = do out' ← memcpy n src p w.out w.q; ok (record w { out = out'; q = w.q + n })

-- `*(uint32_t *)q = __bswap_32 (v); q += 4;`
unfoldable pub emit32 : Writer → ℕ → Result Writer
emit32 w v = do out' ← store32 w.out w.q (bswap_32 v); ok (record w { out = out'; q = w.q + 4 })

unfoldable pub set : Bytes → Writer → ℕ → ℕ → ℕ → Option ℕ → Result Writer
set src w attr_length flags type_code none = err assertion
set src w attr_length flags type_code (some p) = do
  w ← emit_header w attr_length flags type_code
  emit_bytes w attr_length src p

unfoldable pub set4 : Writer → ℕ → ℕ → ℕ → Result Writer
set4 w flags type_code v = do
  w ← emit8 w (bit_and flags 0xef)
  w ← emit8 w type_code
  w ← emit8 w 4
  emit32 w v

unfoldable pub prepend_at : Bytes → Writer → ℕ → ℕ → Result Writer
prepend_at src w as_number p = do
  seg_type ← get8 src p
  assert (2 == seg_type)
  old_seq_length ← get8 src (p + 1)
  assert (ltb old_seq_length 255)
  w' ← emit_header w ((4 + w.attr_length) % 2 ^ 16) w.flags w.type_code
  w' ← emit8 w' 2
  w' ← emit8 w' (old_seq_length + 1)
  w' ← emit32 w' as_number
  in_object (leb 2 w.attr_length)
  emit_bytes w' (w.attr_length - 2) src (p + 6)

unfoldable pub prepend : Bytes → Writer → ℕ → Result Writer
prepend src w as_number = elim w.attr_ptr [ none ↦ ok w | some p ↦ prepend_at src w as_number p ]

unfoldable pub copy : Bytes → Writer → Result Writer
copy src w = elim w.attr_ptr [
  | none ↦ ok w
  | some p ↦ do
    w' ← emit_header w w.attr_length w.flags w.type_code
    emit_bytes w' w.attr_length src p
]

-- The loop of `get` on fuel: a round moves `r` on by three bytes at least.
unfoldable pub get_from : ℕ → Bytes → ℕ → Writer → ℕ → Result Writer
get_from zero src limit w wanted = err out_of_fuel
get_from (suc fuel) src limit w wanted =
    if ltb (w.r + 2) limit
    then (do
      h ← read_header src w.r
      let w' = record w {
        r = h.value + h.attr_length;
        flags = h.flags;
        type_code = h.type_code;
        attr_length = h.attr_length;
      }
      if ltb h.type_code wanted
          then get_from fuel src limit w' wanted
          else if h.type_code == wanted
          then ok (record w' { attr_ptr = some h.value })
          else ok w')
    else ok w

unfoldable pub get : Bytes → ℕ → Writer → ℕ → Result Writer
get src limit w wanted = get_from (limit + 1) src limit (record w { attr_ptr = none }) wanted

-- The values of `flags`, `type_code` and `attr_length` before the first `get` are not read.
abbrev pub start : Bytes → ℕ → Writer
start out q = record {
  out = out;
  q = q;
  r = 0;
  flags = 0;
  type_code = 0;
  attr_length = 0;
  attr_ptr = none;
}

-- A serialiser: the route, the buffer and the pointer into it; it returns these two.
abbrev pub Serializer : Type 0
Serializer = Route → Bytes → ℕ → Result (Bytes × ℕ)

unfoldable pub serialize_ebgp : Serializer
serialize_ebgp route out q_base = do
  let src = route.attributes
  let limit = route.update_length
  w ← get src limit (start out q_base) origin
  w ← set src w 1 0x40 origin w.attr_ptr
  w ← get src limit w as_path
  w ← prepend src w 42
  w ← get src limit w next_hop
  w ← copy src w
  w ← get src limit w community
  w ← copy src w
  ok (w.out, w.q)

unfoldable pub serialize_ibgp : Serializer
serialize_ibgp route out q_base = do
  let src = route.attributes
  let limit = route.update_length
  w ← get src limit (start out q_base) origin
  w ← set src w 1 0x40 origin w.attr_ptr
  w ← get src limit w as_path
  w ← copy src w
  w ← get src limit w next_hop
  w ← copy src w
  w ← set4 w 0x40 local_pref route.tiebreak.local_pref
  ok (w.out, w.q)

unfoldable pub serialize_copy : Serializer
serialize_copy route out q_base = do
  let src = route.attributes
  let limit = route.update_length
  w ← get src limit (start out q_base) origin
  w ← copy src w
  w ← get src limit w as_path
  w ← copy src w
  w ← get src limit w next_hop
  w ← copy src w
  w ← get src limit w community
  w ← copy src w
  ok (w.out, w.q)
