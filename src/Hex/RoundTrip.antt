-- ===== src/Hex/RoundTrip.antt =====
-- The digits that `to_hex` writes are those of the bytes.
use fastparse.Prelude.{
  ℕ, ◌+◌, ◌*◌, ◌-◌, ◌/◌, ◌%◌, ◌≡◌, ◌<◌, refl, true, false, [], ◌∷◌, ◌++◌, ok, arith, length, All,
  ltb, if◌then◌else◌, ◌==◌,
}
use fastparse.Bytes.{Bytes, IsByte}
use fastparse.Bytes.Regions.{Holds}
use fastparse.Hex.{hex_str, hex_from, to_hex, print_hex}

-- The number that a digit stands for.
abbrev pub digit : ℕ → ℕ
digit c = if ltb c 58 then c - 48 else c - 87

-- The bytes that a string stands for, two digits each, up to the zero.
abbrev pub bytes_of : Bytes → Bytes
bytes_of [] = []
bytes_of (c ∷ []) = []
bytes_of (c ∷ d ∷ rest) = (digit c * 16 + digit d) ∷ bytes_of rest

digit-hex_str : (n : ℕ) → n < 16 → digit (hex_str n) ≡ n
digit-hex_str n h = ground arith

hex_from-bytes_of :
    (xs : Bytes) (m : Bytes) (p : ℕ)
    → All IsByte xs
    → Holds m p xs
    → (cs : Bytes) × (hex_from (length xs) m p ≡ ok cs) × (bytes_of (cs ++ (0 ∷ [])) ≡ xs)
unfolding hex_from
hex_from-bytes_of [] m p b h = ([], refl, refl)
hex_from-bytes_of (x ∷ xs) m p b h =
    let (cs, e, back) = hex_from-bytes_of xs m (p + 1) b.1 h.1 in
    let high = digit-hex_str (x / 16 % 16) (omega arith) in
    let low = digit-hex_str (x % 16) (omega arith) in
    let whole : x / 16 % 16 * 16 + x % 16 ≡ x = omega (arith, b.0) in
    (
      hex_str (x / 16 % 16) ∷ hex_str (x % 16) ∷ cs,
      rw (h.0, e) refl,
      rw (high, low, whole, back) refl,
    )

-- Where `malloc` gives memory, the string that `printHex` prints for one byte or more stands for the bytes
-- of the buffer.
pub print_hex-bytes_of :
    (x : ℕ) (xs m : Bytes)
    → All IsByte (x ∷ xs)
    → Holds m 0 (x ∷ xs)
    → (cs : Bytes) × (print_hex true m (length (x ∷ xs)) ≡ ok cs) × (bytes_of cs ≡ x ∷ xs)
unfolding print_hex to_hex
print_hex-bytes_of x xs m b h =
    let (cs, e, back) = hex_from-bytes_of (x ∷ xs) m 0 b h in
    let some_bytes : (length (x ∷ xs) == 0) ≡ false = ground arith in
    (cs ++ (0 ∷ []), rw (some_bytes, e) refl, back)
