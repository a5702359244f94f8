-- ===== src/Phase3/Wire.antt =====
-- The prefixes that the output writes into a message, and what reading them back gives.
use fastparse.Prelude.{
  ℕ, ◌+◌, ◌-◌, ◌*◌, ◌^◌, ◌≡◌, ◌≤◌, ◌<◌, ◌⊎◌, ap, sym, ◌∙◌, arith, ok, List, [], ◌∷◌, ◌++◌, map,
  length, length-append, All, lt→ltb,
}
use fastparse.Prelude.Bits.{pow-add, pow_pos, mod-of_eq}
use fastparse.Bytes.{Bytes, get8}
use fastparse.Bytes.Regions.{Holds, Holds-split, Writes, Writes-nil, Writes-append}
use fastparse.Nlri.{chunksize, nlri_iter}
use fastparse.Nlri.Decode.{wire, Fits, length-address_bytes, nlri_iter-wire, build_nlri-Writes}
use fastparse.Bigtable.{Bigtable, big, lookup_bigtable}
use fastparse.Bigtable.Codec.{decode_lem}
use fastparse.Phase3.{build_all}

-- A reference, and the prefix that it stands for: its length, and the address above the host bits.
pub record Entry : Type 0 where
  pub ref : ℕ
  pub len : ℕ
  pub high : ℕ

abbrev pub address : Entry → ℕ
address x = x.high * 2 ^ (32 - x.len)

pub record IsEntry (t : Bigtable) (x : Entry) : Type 0 where
  pub given : x.ref < t.index
  pub stands : t.table x.ref ≡ 2 ^ x.len + x.high
  pub some_bits : 0 < x.len
  pub short : x.len < 25
  pub fits : x.high < 2 ^ x.len

abbrev pub wires : List Entry → Bytes
wires [] = []
wires (x ∷ xs) = wire x.len (address x) ++ wires xs

-- The prefixes, read one after the other.
abbrev pub Reads : Bytes → ℕ → List Entry → Type 0
Reads m p [] = Unit
Reads m p (x ∷ xs) =
    (nlri_iter m p ≡ ok (address x + x.len * 2 ^ 32, p + 1 + chunksize x.len))
    × Reads m (p + 1 + chunksize x.len) xs

pub lookup_bigtable-Entry :
    (t : Bigtable) (x : Entry)
    → t.index ≤ big
    → IsEntry t x
    → lookup_bigtable t x.ref ≡ ok (address x + x.len * 2 ^ 32)
unfolding lookup_bigtable
lookup_bigtable-Entry t x small e =
    let inside = lt→ltb x.ref t.index e.given in
    let in_table = lt→ltb x.ref big (omega (arith, e.given)) in
    let back = decode_lem x.len x.high e.some_bits (omega (arith, e.short)) e.fits in
    rw (inside, in_table, e.stands) back

pub address-lt : (x : Entry) → x.len < 25 → x.high < 2 ^ x.len → address x < 2 ^ 32
address-lt x short fits =
    let e : x.len + (32 - x.len) ≡ 32 = omega arith in
    let p : 2 ^ 32 ≡ 2 ^ x.len * 2 ^ (32 - x.len) =
      sym (ap (λ (t : ℕ). 2 ^ t) e) ∙ pow-add 2 x.len (32 - x.len) in
    let q = pow_pos (32 - x.len) in grind arith

-- No bits stand behind the bytes that the length needs.
address-Fits :
    (x : Entry) → 0 < x.len → x.len < 25 → x.high < 2 ^ x.len → Fits (chunksize x.len) (address x)
address-Fits x some_bits short fits =
    let n = 8 * (4 - chunksize x.len) in
    let e : 32 - x.len ≡ (32 - x.len - n) + n = omega arith in
    let p : 2 ^ (32 - x.len) ≡ 2 ^ (32 - x.len - n) * 2 ^ n =
      ap (λ (t : ℕ). 2 ^ t) e ∙ pow-add 2 (32 - x.len - n) n in
    let q : x.high * 2 ^ (32 - x.len) ≡ x.high * 2 ^ (32 - x.len - n) * 2 ^ n + 0 =
      rw p (grind arith) in
    (address-lt x short fits, mod-of_eq (2 ^ n) (x.high * 2 ^ (32 - x.len - n)) 0 (pow_pos n) q)

pub wires-Reads :
    (t : Bigtable) (m : Bytes) (p : ℕ) (xs : List Entry)
    → All (IsEntry t) xs
    → Holds m p (wires xs)
    → Reads m p xs
wires-Reads t m p [] e h = tt
wires-Reads t m p (x ∷ xs) e h =
    let a = address x in
    let size : p + 1 + chunksize x.len ≡ p + length (wire x.len a) =
      omega (arith, length-address_bytes (chunksize x.len) a) in
    let (now, later) = Holds-split m p (p + 1 + chunksize x.len) (wire x.len a) (wires xs) size h in
    let f = address-Fits x e.0.some_bits e.0.short e.0.fits in
    (
      nlri_iter-wire m p x.len a e.0.some_bits (omega (arith, e.0.short)) f now,
      wires-Reads t m (p + 1 + chunksize x.len) xs e.1 later,
    )

pub build_all-Writes :
    (t : Bigtable) (m : Bytes) (p : ℕ) (xs : List Entry)
    → t.index ≤ big
    → All (IsEntry t) xs
    → p + length (wires xs) ≤ length m
    → (m' : Bytes) × (build_all t (map (λ x. x.ref) xs) m p ≡ ok (m', p + length (wires xs)))
      × Writes m p (wires xs) m'
unfolding build_all
build_all-Writes t m p [] small e room = (m, ground arith, Writes-nil m p)
build_all-Writes t m p (x ∷ xs) small e room =
    let a = address x in
    let q = p + 1 + chunksize x.len in
    let all = length-append (wire x.len a) (wires xs) in
    let one = length-address_bytes (chunksize x.len) a in
    let (m₁, e₁, w₁) =
      build_nlri-Writes m p x.len a (omega (arith, e.0.short)) (address-lt x e.0.short e.0.fits)
        (omega arith) in
    let (m₂, e₂, w₂) = build_all-Writes t m₁ q xs small e.1 (omega (arith, w₁.same_length)) in
    let end : q + length (wires xs) ≡ p + length (wires (x ∷ xs)) = omega arith in
    (
      m₂,
      rw (lookup_bigtable-Entry t x small e.0, e₁, e₂) (ap (λ (t : ℕ). ok (m₂, t)) end),
      Writes-append p q (wire x.len a) (wires xs) (omega arith) w₁ w₂,
    )

-- The references of a run, each of which stands for a prefix of 1 to 24 bits, with room for the prefixes
-- in the buffer: the loop over them returns, behind the last prefix; nothing outside changes; and
-- `nlri_iter` reads the prefixes back one after the other, host bits cleared.
pub build_all-Reads :
    (t : Bigtable) (m : Bytes) (p : ℕ) (xs : List Entry)
    → t.index ≤ big
    → All (IsEntry t) xs
    → p + length (wires xs) ≤ length m
    → (m' : Bytes) × (build_all t (map (λ x. x.ref) xs) m p ≡ ok (m', p + length (wires xs)))
      × Reads m' p xs
      × ((i : ℕ) → (i < p) ⊎ (p + length (wires xs) ≤ i) → get8 m' i ≡ get8 m i)
build_all-Reads t m p xs small e room =
    let (m', e', w) = build_all-Writes t m p xs small e room in
    (m', e', wires-Reads t m' p xs e w.written, w.same)
