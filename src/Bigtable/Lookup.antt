-- ===== src/Bigtable/Lookup.antt =====
-- `lookup_rib64` and `lookup_bigtable` on a valid table.
use fastparse.Prelude.{
  ℕ, ◌+◌, ◌-◌, ◌*◌, ◌/◌, ◌%◌, ◌^◌, ◌≡◌, ◌≢◌, ◌≤◌, ◌<◌, refl, arith, ok, err, ◌==◌, lt→ltb,
  if◌then◌else◌, bit_and, ◌∙◌, out_of_bounds,
}
use native.Mathlib.Decide.{ℕ_discrete, dec_lt}
use fastparse.Prelude.Bits.{bit_and-mask}
use fastparse.Bigtable.{Bigtable, big, ribsize, too_big, new_entry, lookup_rib64, lookup_bigtable}
use fastparse.Bigtable.Codec.{canonical, slot, encode_lem, encode-lt, encode-lt-ribsize, decode_lem}
use fastparse.Bigtable.Inv.{IsValid, Looked, new_entry-Looked}

module _ (t : Bigtable) (l a : ℕ) (hl : l < 25) (ha : a < 2 ^ 32) where
  -- A prefix of 24 bits or fewer goes to `RIB`.
  pub lookup_rib64_lem :
      lookup_rib64 t (a + l * 2 ^ 32)
      ≡ (if t.rib (slot l a) == 0 then new_entry t (slot l a) else ok (t.rib (slot l a), t))
  unfolding lookup_rib64
  lookup_rib64_lem =
      let la = a + l * 2 ^ 32 in
      let high : la / 2 ^ 32 ≡ l = omega arith in
      let low : bit_and la 0xffff_ffff ≡ a = bit_and-mask 32 la 0xffff_ffff refl ∙ omega arith in
      let byte : l % 256 ≡ l = omega arith in
      rw (
        high,
        lt→ltb l 25 hl,
        low,
        byte,
        encode_lem l a hl ha,
        lt→ltb (slot l a) ribsize (encode-lt-ribsize l a hl ha),
      )

  -- In a valid table with room for one more entry, `lookup_rib64` of a prefix of 24 bits or fewer
  -- returns a reference that stands for the encoding of the prefix, and keeps the table valid and
  -- every reference given out before.
  pub lookup_rib64-Looked :
      IsValid t
      → t.index < big
      → (r : ℕ) × (t' : Bigtable) × (lookup_rib64 t (a + l * 2 ^ 32) ≡ ok (r, t'))
        × Looked t (slot l a) r t'
  lookup_rib64-Looked v room = elim (ℕ_discrete (t.rib (slot l a)) 0) [
    | yes empty ↦
        let (t', e, d) = new_entry-Looked t (slot l a) v empty room in
        (t.index, t', rw (lookup_rib64_lem, empty) e, d)
    | no there ↦
        let old = v.filled (slot l a) there in
        (
          t.rib (slot l a),
          t,
          ground (arith, lookup_rib64_lem),
          record {
            valid = v;
            given = old.0;
            stands = old.1;
            grows = omega arith;
            keeps = λ i h. refl;
            stored = refl;
          },
        )
  ]

  -- A prefix that is in the table is found in it, and nothing changes.
  pub lookup_rib64-found :
      (r : ℕ) → r ≢ 0 → t.rib (slot l a) ≡ r → lookup_rib64 t (a + l * 2 ^ 32) ≡ ok (r, t)
  lookup_rib64-found r there e = ground (arith, lookup_rib64_lem)

  -- A prefix of 24 bits or fewer with no reference of its own gets none when the BIG entries are used
  -- up: the code writes past the end of `bigtable`.
  pub lookup_rib64-full :
      t.index ≡ big → t.rib (slot l a) ≡ 0 → lookup_rib64 t (a + l * 2 ^ 32) ≡ err out_of_bounds
  unfolding new_entry
  lookup_rib64-full full empty = rw (lookup_rib64_lem, empty) (ground arith)

-- A prefix longer than 24 bits gets no reference, and leaves the table as it is.
pub lookup_rib64-too_big :
    (t : Bigtable) (l a : ℕ)
    → 24 < l
    → a < 2 ^ 32
    → lookup_rib64 t (a + l * 2 ^ 32) ≡ ok (too_big, t)
unfolding lookup_rib64
lookup_rib64-too_big t l a hl ha = ground arith

-- A run of look-ups, whatever the prefixes.
pub data Run (t : Bigtable) : Bigtable → Type 0 where
  here : Run t t
  next : {u v : Bigtable} (la r : ℕ) → Run t u → lookup_rib64 u la ≡ ok (r, v) → Run t v

-- `v` is a valid table that keeps the references of `t`.
pub record Extends (t v : Bigtable) : Type 0 where
  pub valid : IsValid v
  pub grows : t.index ≤ v.index
  pub keeps : (i : ℕ) → i < t.index → v.table i ≡ t.table i

Extends-refl : {t : Bigtable} → IsValid t → Extends t t
Extends-refl v = record { valid = v; grows = omega arith; keeps = λ i h. refl }

Extends-trans : {t u v : Bigtable} → Extends t u → Extends u v → Extends t v
Extends-trans e f = record {
  valid = f.valid;
  grows = omega arith;
  keeps = λ i h. f.keeps i (omega (arith, e.grows)) ∙ e.keeps i h;
}

module _ {t u : Bigtable} (l a r : ℕ) (ha : a < 2 ^ 32) (v : IsValid t)
    (e : lookup_rib64 t (a + l * 2 ^ 32) ≡ ok (r, u)) where
  -- A look-up that returns, in a full table too, if the prefix is in it.
  pub Looked-lookup : l < 25 → Looked t (slot l a) r u
  Looked-lookup hl = elim (dec_lt t.index big) [
    | yes room ↦
        let (r₁, t₁, e₁, d) = lookup_rib64-Looked t l a hl ha v room in
        let same_r : r₁ ≡ r = cc in let same_t : t₁ ≡ u = cc in rw (← same_r) (rw (← same_t) d)
    | no full ↦ elim (ℕ_discrete (t.rib (slot l a)) 0) [
      | yes empty ↦
          let bad = lookup_rib64-full t l a hl ha (omega (arith, v.small)) empty in absurd (cc)
      | no there ↦
          let found = lookup_rib64-found t l a hl ha (t.rib (slot l a)) there refl in
          let same_r : t.rib (slot l a) ≡ r = cc in
          let same_t : t ≡ u = cc in
          let old = v.filled (slot l a) there in
          rw (← same_t) (record {
            valid = v;
            given = rw (← same_r) old.0;
            stands = rw (← same_r) old.1;
            grows = omega arith;
            keeps = λ i h. refl;
            stored = same_r;
          })
    ]
  ]

  Extends-short : l < 25 → Extends t u
  Extends-short hl =
      let d = Looked-lookup hl in record { valid = d.valid; grows = d.grows; keeps = d.keeps }

  -- A look-up that returns extends the table.
  pub Extends-lookup : Extends t u
  Extends-lookup = elim (dec_lt l 25) [
    | yes hl ↦ Extends-short hl
    | no long ↦
        let same : t ≡ u = ground (arith, lookup_rib64-too_big t l a (omega arith) ha) in
        rw (← same) (Extends-refl v)
  ]

-- Every run of look-ups from a valid table leaves a valid table, in which each reference given out
-- before the run stands for what it stood for.
pub Run-Extends : {t v : Bigtable} → IsValid t → Run t v → Extends t v
Run-Extends ok_t here = Extends-refl ok_t
Run-Extends ok_t (next la r run e) =
    let before = Run-Extends ok_t run in
    let split : la % 2 ^ 32 + la / 2 ^ 32 * 2 ^ 32 ≡ la = omega arith in
    Extends-trans before
      (Extends-lookup (la / 2 ^ 32) (la % 2 ^ 32) r (omega arith) before.valid (rw split e))

-- A reference that stands for the encoding of a prefix stands for the prefix after any run.
lookup_bigtable-Looked :
    {t t' v : Bigtable} (l a r : ℕ)
    → 0 < l
    → l < 25
    → a < 2 ^ 32
    → Looked t (slot l a) r t'
    → Run t' v
    → lookup_bigtable v r ≡ ok (canonical l a)
unfolding lookup_bigtable
lookup_bigtable-Looked {t} {t'} {v} l a r lo hi ha d run =
    let x : Extends t' v = Run-Extends d.valid run in
    let back = decode_lem l (a / 2 ^ (32 - l)) lo (omega arith) (encode-lt l a (omega arith) ha) in
    let same : v.table r ≡ slot l a = x.keeps r d.given ∙ d.stands in
    rw
      (
        lt→ltb r v.index (omega (arith, x.grows, d.given)),
        lt→ltb r big (omega (arith, x.grows, d.given, x.valid.small)),
        same,
      )
      back

-- The reference that `lookup_rib64` gives a prefix of 1 to 24 bits, in a valid table with room for an
-- entry, is mapped back by `lookup_bigtable` to the prefix, its host bits cleared, right away and
-- after any run of look-ups.
pub lookup_bigtable-lookup_rib64 :
    (t t' v : Bigtable) (l a r : ℕ)
    → IsValid t
    → t.index < big
    → 0 < l
    → l < 25
    → a < 2 ^ 32
    → lookup_rib64 t (a + l * 2 ^ 32) ≡ ok (r, t')
    → Run t' v
    → lookup_bigtable v r ≡ ok (canonical l a)
lookup_bigtable-lookup_rib64 t t' v l a r ok_t room lo hi ha e run =
    lookup_bigtable-Looked l a r lo hi ha (Looked-lookup l a r ha ok_t e hi) run

-- References do not collide: in a valid table, full or not, two prefixes of 1 to 24 bits that look-ups
-- have given the same reference, with any run of look-ups between the two, are the same prefix, host bits
-- cleared.
pub lookup_rib64-injective :
    (t t' u u' : Bigtable) (l a k b r : ℕ)
    → IsValid t
    → (0 < l) × (l < 25) × (a < 2 ^ 32)
    → (0 < k) × (k < 25) × (b < 2 ^ 32)
    → lookup_rib64 t (a + l * 2 ^ 32) ≡ ok (r, t')
    → Run t' u
    → lookup_rib64 u (b + k * 2 ^ 32) ≡ ok (r, u')
    → canonical l a ≡ canonical k b
lookup_rib64-injective t t' u u' l a k b r ok_t pa pb e run e' =
    let d = Looked-lookup l a r pa.2 ok_t e pa.1 in
    let valid_u = (Run-Extends d.valid run).valid in
    let d' = Looked-lookup k b r pb.2 valid_u e' pb.1 in
    let x = lookup_bigtable-Looked l a r pa.0 pa.1 pa.2 d (next (b + k * 2 ^ 32) r run e') in
    let y = lookup_bigtable-Looked k b r pb.0 pb.1 pb.2 d' here in cc
