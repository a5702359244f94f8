-- ===== src/Bigtable.antt =====
-- bigtable.c: the table that gives each prefix of 24 bits or fewer a small reference. `RIB` maps the
-- encoding of a prefix to its reference, `bigtable` maps a reference back, and `bigtable_index` is
-- the next reference. The code's arrays are functions here; a write past the BIG entries of
-- `bigtable` is the fault `out_of_bounds`.
pub mod Codec
pub mod Inv
pub mod Lookup
pub mod First
pub mod Given
pub mod Threads
pub mod Race
use fastparse.Prelude.{
  ℕ, zero, suc, ◌+◌, ◌-◌, ◌*◌, ◌/◌, ◌%◌, ◌^◌, bit_or, bit_and, ◌||◌, ltb, ◌==◌, if◌then◌else◌,
  Result, ok, err, ◌>>=◌, ◌>>◌, assert, in_object, undefined, update,
}
use fastparse.Nlri.{shl32}

abbrev pub big : ℕ
big = 1_000_000

abbrev pub too_big : ℕ
too_big = big + 1

abbrev pub ribsize : ℕ
ribsize = 2 * 2 ^ 25

pub record Bigtable : Type 0 where
  pub rib : ℕ → ℕ
  pub table : ℕ → ℕ
  pub index : ℕ

-- How many binary digits a number below `2 ^ fuel` has.
unfoldable pub bit_length : ℕ → ℕ → ℕ
bit_length zero x = 0
bit_length (suc fuel) x = let rest = suc (bit_length fuel (x / 2)) in if x == 0 then 0 else rest

-- `__builtin_clz`: the zeros above the highest digit of a `uint32_t`; undefined at 0.
unfoldable pub clz : ℕ → Result ℕ
unfolding bit_length
clz x = if x == 0 then err undefined else ok (32 - bit_length 32 x)

unfoldable pub encode : ℕ → ℕ → Result ℕ
encode l a = do assert (ltb l 25); ok (bit_or 0x1_0000_0000 a / 2 ^ (32 - l) % 2 ^ 32)

unfoldable pub decode : ℕ → Result ℕ
unfolding clz
decode ref = do
  zeros ← clz ref
  let l = 31 - zeros
  a ← shl32 ref (32 - l)
  ok (bit_or (l * 2 ^ 32) a)

unfoldable pub encode64 : ℕ → Result ℕ
unfolding encode
encode64 la = encode (la / 2 ^ 32 % 256) (bit_and la 0xffff_ffff)

-- The arrays come from `calloc`.
abbrev pub init_bigtable : Bigtable
init_bigtable = record { rib = λ _. 0; table = λ _. 0; index = 0 }

abbrev pub reinit_bigtable : Bigtable → Bigtable
reinit_bigtable t = record t { index = 0; rib = λ _. 0; table = λ _. 0 }

unfoldable pub lookup_bigtable : Bigtable → ℕ → Result ℕ
lookup_bigtable t index = do
  assert (ltb index t.index || (too_big == index))
  in_object (ltb index big)
  decode (t.table index)

-- The body of `lookup_rib` under the lock: a reference for a slot that has none.
unfoldable pub new_entry : Bigtable → ℕ → Result (ℕ × Bigtable)
new_entry t index = do
  let btindex = t.index
  in_object (ltb btindex big)
  ok (
    btindex,
    record t {
      index = (btindex + 1) % 2 ^ 32;
      rib = update t.rib index btindex;
      table = update t.table btindex index;
    },
  )

unfoldable pub lookup_rib : Bigtable → ℕ → ℕ → Result (ℕ × Bigtable)
unfolding encode new_entry
lookup_rib t l address = do
  index ← encode l address
  assert (ltb index ribsize)
  let btindex = t.rib index
  if btindex == 0 then new_entry t index else ok (btindex, t)

unfoldable pub lookup_rib64 : Bigtable → ℕ → Result (ℕ × Bigtable)
unfolding lookup_rib
lookup_rib64 t la =
    if ltb (la / 2 ^ 32) 25
    then lookup_rib t (la / 2 ^ 32 % 256) (bit_and la 0xffff_ffff)
    else ok (too_big, t)
