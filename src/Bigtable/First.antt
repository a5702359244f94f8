-- ===== src/Bigtable/First.antt =====
-- Looking one prefix up again: the reference is stable, but for reference 0.
use fastparse.Prelude.{
  ℕ, ◌+◌, ◌*◌, ◌^◌, ◌≡◌, ◌≢◌, ◌<◌, arith, ok, lt→ltb, update, update_self, ◌∙◌, ◌%◌,
}
use native.Mathlib.Decide.{ℕ_discrete}
use fastparse.Bigtable.{Bigtable, big, new_entry, lookup_rib64}
use fastparse.Bigtable.Codec.{slot}
use fastparse.Bigtable.Inv.{IsValid}
use fastparse.Bigtable.Lookup.{lookup_rib64_lem, lookup_rib64-Looked, lookup_rib64-found}

-- In a valid table with room, looking a prefix of 24 bits or fewer up again at once gives the same
-- reference and changes nothing, unless the reference is 0.
pub lookup_rib64_twice :
    (t t' : Bigtable) (l a r : ℕ)
    → IsValid t
    → t.index < big
    → l < 25
    → a < 2 ^ 32
    → lookup_rib64 t (a + l * 2 ^ 32) ≡ ok (r, t')
    → r ≢ 0
    → lookup_rib64 t' (a + l * 2 ^ 32) ≡ ok (r, t')
lookup_rib64_twice t t' l a r v room hl ha e ne =
    let (r₁, t₁, e₁, d) = lookup_rib64-Looked t l a hl ha v room in
    let same_r : r₁ ≡ r = cc in
    let same_t : t₁ ≡ t' = cc in
    rw (← same_t) (lookup_rib64-found t₁ l a hl ha r ne (d.stored ∙ same_r))

-- The table with a new entry for the encoding `x`.
abbrev entered : Bigtable → ℕ → Bigtable
entered t x = record t {
  index = (t.index + 1) % 2 ^ 32;
  rib = update t.rib x t.index;
  table = update t.table t.index x;
}

new_entry_lem : (t : Bigtable) (x : ℕ) → t.index < big → new_entry t x ≡ ok (t.index, entered t x)
unfolding new_entry
new_entry_lem t x h = rw (lt→ltb t.index big h)

-- In a valid table with no entry yet, a prefix of 24 bits or fewer, whichever is looked up first, gets
-- reference 0, which reads as an empty slot: the next look-up of the same prefix gives it reference 1.
pub lookup_rib64_first :
    (t : Bigtable) (l a : ℕ)
    → IsValid t
    → t.index ≡ 0
    → l < 25
    → a < 2 ^ 32
    → (t' : Bigtable) × (t'' : Bigtable) × (lookup_rib64 t (a + l * 2 ^ 32) ≡ ok (0, t'))
      × (lookup_rib64 t' (a + l * 2 ^ 32) ≡ ok (1, t''))
lookup_rib64_first t l a v z hl ha =
    let x = slot l a in
    let t' = entered t x in
    let empty : t.rib x ≡ 0 = elim (ℕ_discrete (t.rib x) 0) [
      | yes e ↦ e
      | no ne ↦ absurd (omega (arith, (v.filled x ne).0))
    ] in
    let first : lookup_rib64 t (a + l * 2 ^ 32) ≡ ok (0, t') =
      rw (lookup_rib64_lem t l a hl ha, empty, new_entry_lem t x (omega arith)) (ground arith) in
    let still : t'.rib x ≡ 0 = update_self t.rib x t.index ∙ z in
    let at : t'.index ≡ 1 = omega arith in
    (
      t',
      entered t' x,
      first,
      rw (lookup_rib64_lem t' l a hl ha, still, new_entry_lem t' x (omega arith)) (ground arith),
    )
