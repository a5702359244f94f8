-- ===== src/Tests/Prefixes.antt =====
-- Prefixes, their table and the journal.
use fastparse.Prelude.{ℕ, ◌+◌, ◌*◌, ◌^◌, ◌≡◌, ◌≤◌, ◌<◌, ◌⊎◌, refl, List, [], ◌∷◌, ok, arith, update}
use fastparse.Bytes.{Bytes, get8}
use fastparse.Nlri.{chunksize, nlri_iter, build_nlri}
use fastparse.Nlri.RoundTrip.{nlri_iter-build_nlri}
use fastparse.Nlri.Count.{Outcome, nlri_iter-Outcome}
use fastparse.Bigtable.{
  Bigtable, ribsize, init_bigtable, bit_length, clz, encode, decode, new_entry, lookup_rib,
  lookup_rib64, lookup_bigtable,
}
use fastparse.Bigtable.Codec.{slot, canonical, decode-encode}
use fastparse.Bigtable.Inv.{IsValid, init-IsValid}
use fastparse.Bigtable.Lookup.{
  here, next, lookup_bigtable-lookup_rib64, lookup_rib64-injective, Run-Extends,
}
use fastparse.Bigtable.First.{lookup_rib64_first}
use fastparse.Journal.{locribj_init}
use fastparse.Journal.Queue
use fastparse.Journal.Queue.{Op, push, pull}
use fastparse.Journal.Refine
use fastparse.Journal.Refine.{init-Contents, run_refines}

-- 10.0.0.0 and 11.0.0.0
abbrev ten : ℕ
ten = 0x0a00_0000

abbrev eleven : ℕ
eleven = 0x0b00_0000

abbrev buffer : Bytes
buffer = 1 ∷ 2 ∷ 3 ∷ 4 ∷ []

nlri_iter-build_nlri_example :
    (m' : Bytes) × (build_nlri buffer 0 (ten + 8 * 2 ^ 32) ≡ ok (m', 0 + 1 + chunksize 8))
    × (nlri_iter m' 0 ≡ ok (ten + 8 * 2 ^ 32, 0 + 1 + chunksize 8))
    × ((i : ℕ) → (i < 0) ⊎ (0 + 1 + chunksize 8 ≤ i) → get8 m' i ≡ get8 buffer i)
nlri_iter-build_nlri_example =
    nlri_iter-build_nlri buffer 0 8 ten (omega arith) (omega arith) (omega arith, refl)
      (omega arith)

-- 10.0.0.0/8 and 11.128.0.0/9
abbrev two_prefixes : Bytes
two_prefixes = 8 ∷ 10 ∷ 9 ∷ 11 ∷ 128 ∷ []

nlri_iter-Outcome_example : Outcome two_prefixes 2 9
unfolding get8
nlri_iter-Outcome_example = nlri_iter-Outcome two_prefixes 2 9 refl (omega arith)

decode-encode_example :
    (ref : ℕ) × (encode 8 ten ≡ ok ref)
    × (ref < ribsize)
    × (0 < ref)
    × (decode ref ≡ ok (canonical 8 ten))
decode-encode_example = decode-encode 8 ten (omega arith) (omega arith) (omega arith)

-- The table after one look-up, and after two.
abbrev table₁ : Bigtable
table₁ = record init_bigtable {
  index = 1;
  rib = update (λ _. 0) (slot 8 ten) 0;
  table = update (λ _. 0) 0 (slot 8 ten);
}

abbrev table₂ : Bigtable
table₂ = record {
  index = 2;
  rib = update table₁.rib (slot 8 eleven) 1;
  table = update table₁.table 1 (slot 8 eleven);
}

first_lookup : lookup_rib64 init_bigtable (ten + 8 * 2 ^ 32) ≡ ok (0, table₁)
unfolding lookup_rib64 new_entry lookup_rib encode bit_length clz
first_lookup = refl

second_lookup : lookup_rib64 table₁ (eleven + 8 * 2 ^ 32) ≡ ok (1, table₂)
unfolding lookup_rib64 new_entry lookup_rib encode bit_length clz
second_lookup = refl

table₁-IsValid : IsValid table₁
table₁-IsValid = (Run-Extends init-IsValid (next (ten + 8 * 2 ^ 32) 0 here first_lookup)).valid

lookup_bigtable-lookup_rib64_example : lookup_bigtable table₂ 0 ≡ ok (canonical 8 ten)
lookup_bigtable-lookup_rib64_example =
    lookup_bigtable-lookup_rib64 init_bigtable table₁ table₂ 8 ten 0 init-IsValid (omega arith)
      (omega arith) (omega arith) (omega arith) first_lookup
      (next (eleven + 8 * 2 ^ 32) 1 here second_lookup)

-- 11.0.0.1/8 is the prefix 11.0.0.0/8.
third_lookup : lookup_rib64 table₂ (eleven + 1 + 8 * 2 ^ 32) ≡ ok (1, table₂)
unfolding lookup_rib64 new_entry lookup_rib encode bit_length clz
third_lookup = refl

lookup_rib64-injective_example : canonical 8 eleven ≡ canonical 8 (eleven + 1)
lookup_rib64-injective_example =
    lookup_rib64-injective table₁ table₂ table₂ table₂ 8 eleven 8 (eleven + 1) 1 table₁-IsValid
      (omega arith, omega arith, omega arith) (omega arith, omega arith, omega arith) second_lookup
      here third_lookup

lookup_rib64_first_example :
    (t' : Bigtable) × (t'' : Bigtable) × (lookup_rib64 init_bigtable (ten + 8 * 2 ^ 32)
      ≡ ok (0, t'))
    × (lookup_rib64 t' (ten + 8 * 2 ^ 32) ≡ ok (1, t''))
lookup_rib64_first_example =
    lookup_rib64_first init_bigtable 8 ten init-IsValid refl (omega arith) (omega arith)

abbrev calls : List Op
calls = push 7 ∷ push 9 ∷ pull ∷ pull ∷ pull ∷ []

run_refines_example : Refine.run (locribj_init (λ _. 5)) calls ≡ Queue.run [] calls
run_refines_example = run_refines calls (locribj_init (λ _. 5)) [] (init-Contents (λ _. 5))
