-- ===== src/Bytes.antt =====
-- getw.h, and the memory that the parser and the serialisers walk: a list of bytes, with a pointer
-- into it as an offset. An access outside the list is the fault `out_of_bounds`. The host is little
-- endian, as the code supposes: a 16-bit or 32-bit load has its first byte lowest.
pub mod Regions
use fastparse.Prelude.{
  ℕ, suc, ◌+◌, ◌*◌, ◌/◌, ◌%◌, ◌^◌, ◌≡◌, ◌<◌, List, none, some, arith, ltb, if◌then◌else◌, Result,
  ok, err, ◌>>=◌, out_of_bounds, length, get_elem?, set,
}

abbrev pub Bytes : Type 0
Bytes = List ℕ

-- A byte as the parser finds it.
abbrev pub IsByte : ℕ → Type 0
IsByte b = b < 256

-- `*(uint8_t *)p`; also `getw8`.
unfoldable pub get8 : Bytes → ℕ → Result ℕ
get8 m p = elim (get_elem? m p) [ none ↦ err out_of_bounds | some b ↦ ok b ]

-- `*(uint8_t *)p = b`
unfoldable pub put8 : Bytes → ℕ → ℕ → Result Bytes
put8 m p b = if ltb p (length m) then ok (set m p (b % 256)) else err out_of_bounds

unfoldable pub bswap_16 : ℕ → ℕ
bswap_16 w = w % 256 * 256 + w / 256 % 256

unfoldable pub bswap_32 : ℕ → ℕ
bswap_32 w =
    w % 256 * 2 ^ 24 + w / 2 ^ 8 % 256 * 2 ^ 16 + w / 2 ^ 16 % 256 * 2 ^ 8 + w / 2 ^ 24 % 256

-- `*(uint16_t *)p`
unfoldable pub load16 : Bytes → ℕ → Result ℕ
load16 m p = do a ← get8 m p; b ← get8 m (p + 1); ok (a + b * 256)

-- `*(uint32_t *)p`
unfoldable pub load32 : Bytes → ℕ → Result ℕ
load32 m p = do lo ← load16 m p; hi ← load16 m (p + 2); ok (lo + hi * 2 ^ 16)

unfoldable pub getw16 : Bytes → ℕ → Result ℕ
getw16 m p = do w ← load16 m p; ok (bswap_16 w)

unfoldable pub getw32 : Bytes → ℕ → Result ℕ
getw32 m p = do w ← load32 m p; ok (bswap_32 w)

unfoldable pub putw16 : Bytes → ℕ → ℕ → Result Bytes
putw16 m p w = do let v = bswap_16 (w % 2 ^ 16); m' ← put8 m p (v % 256); put8 m' (p + 1) (v / 256)

-- `*(uint32_t *)p = v`
unfoldable pub store32 : Bytes → ℕ → ℕ → Result Bytes
store32 m p v = do
  m ← put8 m p (v % 256)
  m ← put8 m (p + 1) (v / 2 ^ 8)
  m ← put8 m (p + 2) (v / 2 ^ 16)
  put8 m (p + 3) (v / 2 ^ 24)
