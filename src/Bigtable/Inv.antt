-- ===== src/Bigtable/Inv.antt =====
-- The invariant of the two arrays and the cursor.
use fastparse.Prelude.{
  ℕ, ◌+◌, ◌%◌, ◌^◌, ◌≡◌, ◌≢◌, ◌≤◌, ◌<◌, refl, arith, ok, lt→ltb, update, update_ne, ◌∙◌,
}
use native.Mathlib.Decide.{ℕ_discrete}
use fastparse.Bigtable.{Bigtable, big, init_bigtable, new_entry}

-- Reference 0 stands outside the correspondence: `RIB` cannot tell it from an empty slot.
pub record IsValid (t : Bigtable) : Type 0 where
  pub small : t.index ≤ big
  pub listed : (i : ℕ) → 0 < i → i < t.index → t.rib (t.table i) ≡ i
  pub filled : (x : ℕ) → t.rib x ≢ 0 → (t.rib x < t.index) × (t.table (t.rib x) ≡ x)

pub init-IsValid : IsValid init_bigtable
init-IsValid = record {
  small = omega arith;
  listed = λ i lo hi. absurd (omega arith);
  filled = λ x h. absurd (h refl);
}

-- What a look-up of the encoding `x` leaves: the reference `r` stands for `x`, references given out
-- before keep what they stand for, and the table is valid.
pub record Looked (t : Bigtable) (x r : ℕ) (t' : Bigtable) : Type 0 where
  pub valid : IsValid t'
  pub given : r < t'.index
  pub stands : t'.table r ≡ x
  pub grows : t.index ≤ t'.index
  pub keeps : (i : ℕ) → i < t.index → t'.table i ≡ t.table i
  pub stored : t'.rib x ≡ r

pub new_entry-Looked :
    (t : Bigtable) (x : ℕ)
    → IsValid t
    → t.rib x ≡ 0
    → t.index < big
    → (t' : Bigtable) × (new_entry t x ≡ ok (t.index, t')) × Looked t x t.index t'
unfolding new_entry
new_entry-Looked t x v empty room = (
  record t {
    index = (t.index + 1) % 2 ^ 32;
    rib = update t.rib x t.index;
    table = update t.table t.index x;
  },
  rw (lt→ltb t.index big room),
  record {
    valid = record {
      small = omega (arith, v.small);
      listed = λ i lo hi. elim (ℕ_discrete i t.index) [
        | yes e ↦ ground arith
        | no ne ↦ ground (arith, v.listed i lo)
      ];
      filled = λ y h. elim (ℕ_discrete y x) [
        | yes e ↦ (ground arith, ground arith)
        | no ne ↦
            let old = v.filled y (λ z. h (update_ne t.rib x t.index y ne ∙ z)) in
            (ground arith, ground arith)
      ];
    };
    given = omega (arith, v.small);
    stands = ground arith;
    grows = omega (arith, v.small);
    keeps = λ i h. ground arith;
    stored = ground arith;
  },
)
