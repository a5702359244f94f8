-- ===== src/Phase3.antt =====
-- phase3.c: the journal is read in runs of references with one best route, and each run becomes one
-- UPDATE or withdrawal for every group of peers. Within a call nothing else runs: the calls of one
-- thread in order. The loops take fuel: the inner one 4,097 rounds, since its table's bound stops it
-- before, the outer one BIG rounds, since each takes a reference from a journal of fewer.
pub mod Frame
pub mod Runs
pub mod Place
pub mod Collect
pub mod Drain
pub mod Schedule
pub mod Wire
pub mod Message
pub mod Format
pub mod Update
pub mod Output
use fastparse.Prelude.{
  ℕ, zero, suc, ◌+◌, ◌-◌, ◌*◌, ◌%◌, ◌^◌, Bool, true, false, not, ◌&&◌, ◌==◌, if◌then◌else◌, ltb,
  Option, none, some, List, [], ◌∷◌, ◌++◌, Result, ok, err, ◌>>=◌, ◌>>◌, assert, out_of_fuel, take,
  length,
}
use fastparse.Bytes.{Bytes, put8, putw16}
use fastparse.Bigtable.{big, lookup_bigtable, Bigtable}
use fastparse.Journal.{journal_empty, locribj_pull}
use fastparse.Locrib.{read_and_clear}
use fastparse.Nlri.{build_nlri}
use fastparse.Route.{Route}
use fastparse.System.{System, PeerGroup}

-- `EMPTY`, and `NULL-1`.
abbrev pub empty_route : ℕ
empty_route = 2 ^ 64 - 1

-- The next reference, and the best route of it if there is one.
unfoldable pub pull_route : System → ℕ → Result (ℕ × ℕ × System)
pull_route s at_end =
    let (addrref, journal) = locribj_pull s.journal in
    if addrref == journal_empty then ok (addrref, at_end, record s { journal = journal }) else (do
      (route, locrib) ← read_and_clear s.locrib addrref
      ok (addrref, route, record s { journal = journal; locrib = locrib }))

pub record Run : Type 0 where
  pub table : List ℕ
  pub addrref : ℕ
  pub route2 : ℕ
  pub rest : System

-- `while (route2 == route1)`: the references of the run, the first reference behind it and its route.
unfoldable pub collect : ℕ → System → ℕ → ℕ → ℕ → List ℕ → Result Run
collect zero s route1 route2 addrref table = err out_of_fuel
collect (suc fuel) s route1 route2 addrref table =
    if route2 == route1
    then (do
      assert (ltb (length table) 4096)
      (addrref', route2', s') ← pull_route s empty_route
      collect fuel s' route1 route2' addrref' (table ++ (addrref ∷ [])))
    else ok (record { table = table; addrref = addrref; route2 = route2; rest = s })

-- `for (…) build_nlri (&txp, lookup_bigtable (addrreftable[index]))`
unfoldable pub build_all : Bigtable → List ℕ → Bytes → ℕ → Result (Bytes × ℕ)
build_all t [] m txp = ok (m, txp)
build_all t (ref ∷ refs) m txp = do
  prefix ← lookup_bigtable t ref
  (m', txp') ← build_nlri m txp prefix
  build_all t refs m' txp'

-- `fwrite (tx_buffer, update_length, 1, file)`, where there is a file. A write that fails is left out.
unfoldable pub write_message : Bytes → ℕ → PeerGroup → PeerGroup
write_message m n g = elim g.file [
  | none ↦ g
  | some msgs ↦ record g { file = some (msgs ++ (take n m ∷ [])) }
]

unfoldable pub write_all : Bytes → ℕ → List PeerGroup → List PeerGroup
write_all m n [] = []
write_all m n (g ∷ gs) = write_message m n g ∷ write_all m n gs

unfoldable pub send_withdraw : System → List ℕ → Result System
send_withdraw s table = do
  (m, txp) ← build_all s.bigtable table s.tx_buffer 23
  let withdraw_length = (txp - 21) % 2 ^ 16
  let update_length = (withdraw_length + 23) % 2 ^ 16
  m ← putw16 m 16 update_length
  m ← putw16 m 19 withdraw_length
  m ← putw16 m txp 0
  ok (record s { tx_buffer = m; peergroups = write_all m update_length s.peergroups })

pub record Sent : Type 0 where
  pub buffer : Bytes
  pub group : PeerGroup
  pub over_length : Bool

-- One group's message for a run with the route `route1`, in the buffer `m`.
unfoldable pub send_group : Bigtable → Route → List ℕ → Bytes → Bool → PeerGroup → Result Sent
send_group t route1 table m over g = do
  (m, txp) ← g.serialize route1 m 23
  let attribute_length = (txp - 23) % 2 ^ 16
  m ← putw16 m 21 attribute_length
  (m, txp) ← build_all t table m txp
  let update_length = txp % 2 ^ 16
  m ← putw16 m 16 update_length
  ok (record {
    buffer = m;
    group = write_message m update_length g;
    over_length = if ltb 4096 update_length && not over then true else over;
  })

unfoldable pub send_groups :
    Bigtable
    → Route
    → List ℕ
    → Bytes
    → Bool
    → List PeerGroup
    → Result (Bytes × Bool × List PeerGroup)
send_groups t route1 table m over [] = ok (m, over, [])
send_groups t route1 table m over (g ∷ gs) = do
  sent ← send_group t route1 table m over g
  (m', over', gs') ← send_groups t route1 table sent.buffer sent.over_length gs
  ok (m', over', sent.group ∷ gs')

unfoldable pub send_update : System → ℕ → List ℕ → Result System
send_update s route1 table = do
  m ← putw16 s.tx_buffer 19 0
  (m', over, gs) ←
      send_groups s.bigtable (s.routes route1) table m s.over_length_detected s.peergroups
  ok (record s { tx_buffer = m'; over_length_detected = over; peergroups = gs })

-- A run of references, sent as a withdrawal where its route is NULL.
unfoldable pub send_block : System → ℕ → List ℕ → Result System
send_block s route1 table = do
  let s₁ = record s { propagated_prefixes = (s.propagated_prefixes + length table) % 2 ^ 64 }
  m ← put8 s₁.tx_buffer 18 2
  let s₂ = record s₁ { tx_buffer = m }
  if route1 == 0 then send_withdraw s₂ table else send_update s₂ route1 table

-- `if (EMPTY == route2) … else route1 = route2`: the reference and the route that a run begins with.
unfoldable pub next_run : System → ℕ → ℕ → Result (ℕ × ℕ × System)
next_run s addrref route2 =
    if route2 == empty_route then pull_route s empty_route else ok (addrref, route2, s)

-- The outer loop, with the reference and the route that were read last.
unfoldable pub blocks : ℕ → System → ℕ → ℕ → Result System
blocks zero s addrref route2 = err out_of_fuel
blocks (suc fuel) s addrref route2 = do
  (addrref₁, route1, s₁) ← next_run s addrref route2
  let sent = (do
    run ← collect 4097 s₁ route1 route1 addrref₁ []
    s' ← send_block run.rest route1 run.table
    let rest = blocks fuel s' run.addrref run.route2
    if run.addrref == journal_empty then ok s' else rest)
  if addrref₁ == journal_empty then ok s₁ else sent

-- The body under the lock: nothing has been read, and `addrref` has no value that is used.
unfoldable pub drain : System → Result System
drain s = blocks big s journal_empty empty_route

unfoldable pub schedule_phase3 : System → Result System
schedule_phase3 s = if s.phase3_locked then ok s else (do
  assert (0 == s.phase3_debug)
  s' ← drain (record s { phase3_locked = true; phase3_debug = s.phase3_debug + 1 })
  assert (1 == s'.phase3_debug)
  ok (record s' { phase3_locked = false; phase3_debug = s'.phase3_debug - 1 }))
