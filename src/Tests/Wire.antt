-- ===== src/Tests/Wire.antt =====
-- Prefixes and withdrawals in the output's buffer.
use fastparse.Prelude.{
  true, ◌==◌, if◌then◌else◌, ℕ, ◌+◌, ◌≡◌, ◌≤◌, ◌<◌, ◌⊎◌, refl, List, [], ◌∷◌, length, map, All, ok,
  err, out_of_bounds, arith,
}
use fastparse.Bytes.{Bytes, get8, getw16}
use fastparse.Bigtable.{Bigtable}
use fastparse.System.{System}
use fastparse.Phase3.{build_all, write_all, send_withdraw}
use fastparse.Phase3.Wire.{Entry, IsEntry, wires, Reads, build_all-Reads}
use fastparse.Phase3.Message.{build_all-full, send_withdraw-stale}
use fastparse.Hex.{print_hex}
use fastparse.Hex.RoundTrip.{bytes_of, print_hex-bytes_of}
use fastparse.Tests.Data.{idle}

-- 10.0.0.0/8 and 11.128.0.0/9 have the references 1 and 2.
abbrev table : Bigtable
table = record { rib = λ _. 0; table = λ r. if r == 1 then 266 else 535; index = 3 }

abbrev entries : List Entry
entries = record { ref = 1; len = 8; high = 10 } ∷ record { ref = 2; len = 9; high = 23 } ∷ []

entries-IsEntry : All (IsEntry table) entries
entries-IsEntry = (
  record {
    given = omega arith;
    stands = refl;
    some_bits = omega arith;
    short = omega arith;
    fits = omega arith;
  },
  (
    record {
      given = omega arith;
      stands = refl;
      some_bits = omega arith;
      short = omega arith;
      fits = omega arith;
    },
    tt,
  ),
)

abbrev buffer : Bytes
buffer = 1 ∷ 2 ∷ 3 ∷ 4 ∷ 5 ∷ 6 ∷ 7 ∷ []

build_all-Reads_example :
    (m' : Bytes) × (build_all table (map (λ x. x.ref) entries) buffer 1
      ≡ ok (m', 1 + length (wires entries)))
    × Reads m' 1 entries
    × ((i : ℕ) → (i < 1) ⊎ (1 + length (wires entries) ≤ i) → get8 m' i ≡ get8 buffer i)
build_all-Reads_example =
    build_all-Reads table buffer 1 entries (omega arith) entries-IsEntry (omega arith)

build_all-full_example : build_all table (map (λ x. x.ref) entries) buffer 3 ≡ err out_of_bounds
build_all-full_example =
    build_all-full table buffer 3 entries (omega arith) entries-IsEntry (omega arith) (omega arith)

abbrev full_table : System
full_table = record idle { bigtable = table; tx_buffer = 9 ∷ 9 ∷ idle.tx_buffer }

send_withdraw-stale_example :
    (m : Bytes) × (send_withdraw full_table (map (λ x. x.ref) entries)
      ≡ ok (record full_table {
        tx_buffer = m;
        peergroups = write_all m (25 + length (wires entries)) full_table.peergroups;
      }))
    × (getw16 m 19 ≡ ok (length (wires entries) + 2))
    × Reads m 23 entries
    × (get8 m 21 ≡ get8 full_table.tx_buffer 21)
    × (get8 m 22 ≡ get8 full_table.tx_buffer 22)
send_withdraw-stale_example =
    send_withdraw-stale full_table entries (omega arith) entries-IsEntry (omega arith) (omega arith)

-- The string 01ff.
print_hex-bytes_of_example :
    (cs : Bytes) × (print_hex true (1 ∷ 255 ∷ []) 2 ≡ ok cs) × (bytes_of cs ≡ 1 ∷ 255 ∷ [])
unfolding get8
print_hex-bytes_of_example =
    print_hex-bytes_of 1 (255 ∷ []) (1 ∷ 255 ∷ []) (omega arith, (omega arith, tt))
      (refl, (refl, tt))
