-- ===== src/Bigtable/Given.antt =====
-- A look-up that returns gives a reference inside the table, or the marker of a long prefix.
use fastparse.Prelude.{ℕ, ◌+◌, ◌*◌, ◌/◌, ◌%◌, ◌^◌, ◌≡◌, ◌<◌, ◌⊎◌, inl, inr, arith, ok}
use native.Mathlib.Decide.{dec_lt, ℕ_discrete}
use fastparse.Bigtable.{Bigtable, big, too_big, lookup_rib64}
use fastparse.Bigtable.Codec.{slot}
use fastparse.Bigtable.Inv.{IsValid}
use fastparse.Bigtable.Lookup.{
  lookup_rib64_lem, lookup_rib64-Looked, lookup_rib64-full, lookup_rib64-too_big, Extends,
  Extends-lookup,
}

given_short :
    {t u : Bigtable} (l a r : ℕ)
    → l < 25
    → a < 2 ^ 32
    → IsValid t
    → lookup_rib64 t (a + l * 2 ^ 32) ≡ ok (r, u)
    → r < u.index
given_short {t} {u} l a r hl ha v e = elim (dec_lt t.index big) [
  | yes room ↦
      let (r', u', e', d) = lookup_rib64-Looked t l a hl ha v room in
      let same_r : r' ≡ r = cc in let same_u : u' ≡ u = cc in rw (← same_r) (rw (← same_u) d.given)
  | no full ↦ elim (ℕ_discrete (t.rib (slot l a)) 0) [
    | yes empty ↦
        let bad = lookup_rib64-full t l a hl ha (omega (arith, v.small)) empty in absurd (cc)
    | no there ↦
        let old = v.filled (slot l a) there in
        let same_r : t.rib (slot l a) ≡ r = ground (arith, lookup_rib64_lem t l a hl ha) in
        let same_u : t ≡ u = ground (arith, lookup_rib64_lem t l a hl ha) in
        rw (← same_r) (rw (← same_u) old.0)
  ]
]

-- The table after a look-up, and the reference.
pub record Given (t : Bigtable) (r : ℕ) (u : Bigtable) : Type 0 where
  pub extends : Extends t u
  pub inside : (r ≡ too_big) ⊎ (r < u.index)

pub lookup_rib64-Given :
    {t u : Bigtable} (la r : ℕ) → IsValid t → lookup_rib64 t la ≡ ok (r, u) → Given t r u
lookup_rib64-Given {t} {u} la r v e =
    let split : la % 2 ^ 32 + la / 2 ^ 32 * 2 ^ 32 ≡ la = omega arith in
    let e' : lookup_rib64 t (la % 2 ^ 32 + la / 2 ^ 32 * 2 ^ 32) ≡ ok (r, u) = rw split e in
    record {
      extends = Extends-lookup (la / 2 ^ 32) (la % 2 ^ 32) r (omega arith) v e';
      inside = elim (dec_lt (la / 2 ^ 32) 25) [
        | yes hl ↦ inr (given_short (la / 2 ^ 32) (la % 2 ^ 32) r hl (omega arith) v e')
        | no long ↦
            let marked =
              lookup_rib64-too_big t (la / 2 ^ 32) (la % 2 ^ 32) (omega arith) (omega arith) in
            inl (cc)
      ];
    }
