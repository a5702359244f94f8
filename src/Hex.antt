-- ===== src/Hex.antt =====
-- hex.h: the bytes of a buffer as hexadecimal digits, for a reader. A string is the codes of its
-- characters with the zero behind them.
pub mod RoundTrip
use fastparse.Prelude.{
  ℕ, zero, suc, ◌+◌, ◌/◌, ◌%◌, Bool, Option, none, some, List, [], ◌∷◌, ◌++◌, Result, ok, err,
  undefined, ◌>>=◌, ◌==◌, ltb, if◌then◌else◌,
}
use fastparse.Bytes.{Bytes, get8}

-- `hex_str[n]`: 48 is the code of 0, and 97 that of a.
abbrev pub hex_str : ℕ → ℕ
hex_str n = if ltb n 10 then 48 + n else 87 + n

-- The loop, by the rounds left: byte `i` gives the characters `2 i` and `2 i + 1`.
unfoldable pub hex_from : ℕ → Bytes → ℕ → Result Bytes
hex_from zero buf i = ok []
hex_from (suc n) buf i = do
  b ← get8 buf i
  rest ← hex_from n buf (i + 1)
  ok (hex_str (b / 16 % 16) ∷ hex_str (b % 16) ∷ rest)

-- `allocated` says that `malloc` gave memory. NULL is `none`.
unfoldable pub to_hex : Bool → Bytes → ℕ → Result (Option Bytes)
to_hex allocated buf l =
    if allocated
    then if l == 0 then ok none else (do digits ← hex_from l buf 0; ok (some (digits ++ (0 ∷ []))))
    else ok none

-- What `fprintf` gets for its `%s`: a NULL there is undefined.
unfoldable pub print_hex : Bool → Bytes → ℕ → Result Bytes
print_hex allocated buf l = do
  hex ← to_hex allocated buf l
  elim hex [ none ↦ err undefined | some string ↦ ok string ]
