-- ===== src/Phase3/Output.antt =====
-- The output of a call of `schedule_phase3` on a queue of references whose best routes are routes.
use fastparse.Prelude.{
  ℕ, ◌+◌, ◌%◌, ◌^◌, ◌≡◌, ◌≢◌, ◌≤◌, ◌<◌, refl, ap, subst, sym, ◌∙◌, false, arith, ok, List, [], ◌∷◌,
  map, length, le→leb, All,
}
use fastparse.Bytes.{Bytes}
use fastparse.Bytes.Regions.{Holds}
use fastparse.Bigtable.{Bigtable, big}
use fastparse.System.{System, PeerGroup}
use fastparse.Serialize.{Serializer}
use fastparse.Phase3.{send_block, schedule_phase3}
use fastparse.Phase3.Runs.{Block, runs, send_runs}
use fastparse.Phase3.Collect.{Queued}
use fastparse.Phase3.Place.{map_ok}
use fastparse.Phase3.Schedule.{flushed, Flushed, schedule_phase3-send_runs, schedule_phase3-Flushed}
use fastparse.Phase3.Wire.{Entry, IsEntry, wires}
use fastparse.Phase3.Update.{Fits, send_block-update}
use fastparse.Phase3.Format.{marker, update_message, deliver}

-- Several messages for a group's file, the first one first.
abbrev pub delivers : List Bytes → PeerGroup → PeerGroup
delivers [] g = g
delivers (msg ∷ msgs) g = delivers msgs (deliver msg g)

-- What stands behind a reference, and what a serialiser writes for a route.
module _ (entry : ℕ → Entry) (written : ℕ → Serializer → Bytes) where
  -- The message for a run, and the messages for some runs, of a group.
  abbrev pub message : PeerGroup → Block → Bytes
  message g b = update_message (written b.0 g.serialize) (wires (map entry b.1))

  abbrev pub output : List Block → PeerGroup → PeerGroup
  output bs g = delivers (map (message g) bs) g

  -- A run that can be sent.
  pub record Sendable (s : System) (b : Block) : Type 0 where
    pub some_route : b.0 ≢ 0
    pub few : length b.1 ≤ 4096
    pub known : All (λ x. x < s.bigtable.index) b.1
    pub fits :
        All (Fits (s.routes b.0) (map entry b.1) (written b.0) (length s.tx_buffer)) s.peergroups

  -- The state of the output between two runs.
  pub record Ready (s : System) : Type 0 where
    pub small : s.bigtable.index ≤ big
    pub entries :
        (x : ℕ) → x < s.bigtable.index → IsEntry s.bigtable (entry x) × ((entry x).ref ≡ x)
    pub marked : Holds s.tx_buffer 0 marker
    pub long : 23 ≤ length s.tx_buffer
    pub short : length s.tx_buffer < 2 ^ 16

  -- The references of a run, from what stands behind them.
  refs_back :
      (t : Bigtable) (refs : List ℕ)
      → ((x : ℕ) → x < t.index → IsEntry t (entry x) × ((entry x).ref ≡ x))
      → All (λ x. x < t.index) refs
      → All (IsEntry t) (map entry refs) × (map (λ (x : Entry). x.ref) (map entry refs) ≡ refs)
  refs_back t [] e known = (tt, refl)
  refs_back t (x ∷ refs) e known =
      let (is, same) = e x known.0 in
      let (rest, back) = refs_back t refs e known.1 in ((is, rest), rw (same, back) refl)

  Sendable-deliver :
      (s s' : System) (b : Block) (msg : PeerGroup → Bytes)
      → s'.bigtable ≡ s.bigtable
      → s'.routes ≡ s.routes
      → length s'.tx_buffer ≡ length s.tx_buffer
      → s'.peergroups ≡ map (λ g. deliver (msg g) g) s.peergroups
      → Sendable s b
      → Sendable s' b
  Sendable-deliver s s' b msg table routes size groups c = record {
    some_route = c.some_route;
    few = c.few;
    known = rw table c.known;
    fits = rw (routes, size, groups) (all s.peergroups c.fits);
  }
    where
      all :
          (gs : List PeerGroup)
          → All (Fits (s.routes b.0) (map entry b.1) (written b.0) (length s.tx_buffer)) gs
          → All
              (Fits (s.routes b.0) (map entry b.1) (written b.0) (length s.tx_buffer))
              (map (λ g. deliver (msg g) g) gs)
      all [] h = tt
      all (g ∷ gs) h = (record { serializes = h.0.serializes; room = h.0.room }, all gs h.1)

  output-deliver :
      (b : Block) (bs : List Block) (gs : List PeerGroup)
      → map (output bs) (map (λ g. deliver (message g b) g) gs) ≡ map (output (b ∷ bs)) gs
  output-deliver b bs [] = refl
  output-deliver b bs (g ∷ gs) = ap (λ rest. output (b ∷ bs) g ∷ rest) (output-deliver b bs gs)

  output-nil : (gs : List PeerGroup) → map (output []) gs ≡ gs
  output-nil [] = refl
  output-nil (g ∷ gs) = ap (λ rest. g ∷ rest) (output-nil gs)

  Sendable-all :
      (s s' : System) (bs : List Block) (msg : PeerGroup → Bytes)
      → s'.bigtable ≡ s.bigtable
      → s'.routes ≡ s.routes
      → length s'.tx_buffer ≡ length s.tx_buffer
      → s'.peergroups ≡ map (λ g. deliver (msg g) g) s.peergroups
      → All (Sendable s) bs
      → All (Sendable s') bs
  Sendable-all s s' [] msg table routes size groups c = tt
  Sendable-all s s' (b ∷ bs) msg table routes size groups c = (
    Sendable-deliver s s' b msg table routes size groups c.0,
    Sendable-all s s' bs msg table routes size groups c.1,
  )

  send_runs-output :
      (bs : List Block) (s : System)
      → Ready s
      → All (Sendable s) bs
      → (s' : System) × (send_runs s bs ≡ ok s')
        × (s'.peergroups ≡ map (output bs) s.peergroups)
        × Ready s'
  unfolding send_runs
  send_runs-output [] s r c = (s, refl, sym (output-nil s.peergroups), r)
  send_runs-output ((route, refs) ∷ bs) s r c =
      let es = map entry refs in
      let (is, back) = refs_back s.bigtable refs r.entries c.0.known in
      let (m, over, e, marked, size) =
        send_block-update s route es r.small is (written route) c.0.some_route r.marked r.long
          r.short c.0.fits in
      let s₁ = record s {
        propagated_prefixes =
            (s.propagated_prefixes + length (map (λ (x : Entry). x.ref) es)) % 2 ^ 64;
        tx_buffer = m;
        over_length_detected = over;
        peergroups = map (λ g. deliver (message g (route, refs)) g) s.peergroups;
      } in
      let sent : send_block s route refs ≡ ok s₁ =
        subst (λ refs. send_block s route refs ≡ ok s₁) back e in
      let r₁ : Ready s₁ = record {
        small = r.small;
        entries = r.entries;
        marked = marked;
        long = omega (arith, size, r.long);
        short = omega (arith, size, r.short);
      } in
      let c₁ = Sendable-all s s₁ bs (λ g. message g (route, refs)) refl refl size refl c.1 in
      let (s', e', out, ready) = send_runs-output bs s₁ r₁ c₁ in
      (
        s',
        rw (le→leb (length refs) 4096 c.0.few, sent) e',
        out ∙ output-deliver (route, refs) bs s.peergroups,
        ready,
      )

  -- Let `entry` give the prefix of 1 to 24 bits that each reference given out by the prefix table, which has
  -- at most BIG, stands for, and `written` the bytes that a serialiser writes for a route. On a journal that
  -- holds the queue `q`, with the lock free, a buffer of 23 to 65,535 bytes that begins with the marker, and
  -- for every run of `q` a route other than NULL and the marker ~0, at most 4,096 references, all given out,
  -- and a message of each group that fits into the buffer: `schedule_phase3` returns; each group's file, if
  -- it has one, has got one message for each run, in order, with the attributes of the run's route as the
  -- group's serialiser writes them and the prefixes of its references; the journal is empty, the flags of
  -- its references are off, and the lock is free; and the buffer again begins with the marker and has a
  -- length in those bounds.
  pub schedule_phase3-output :
      (s : System) (q : List ℕ)
      → s.phase3_locked ≡ false
      → s.phase3_debug ≡ 0
      → Queued s s.locrib.head q
      → Ready s
      → All (Sendable s) (runs s.locrib.head q)
      → (s' : System) × (schedule_phase3 s ≡ ok s')
        × (s'.peergroups ≡ map (output (runs s.locrib.head q)) s.peergroups)
        × Flushed s q s'
        × Ready s'
  schedule_phase3-output s q free idle queued r c =
      let (t, e, out, ready) = send_runs-output (runs s.locrib.head q) s r c in
      let ready' : Ready (flushed s q t) = record {
        small = ready.small;
        entries = ready.entries;
        marked = ready.marked;
        long = ready.long;
        short = ready.short;
      } in
      let done : schedule_phase3 s ≡ ok (flushed s q t) =
        schedule_phase3-send_runs s q free idle queued ∙ ap (λ m. map_ok (flushed s q) m) e in
      (
        flushed s q t,
        done,
        out,
        schedule_phase3-Flushed s (flushed s q t) q free idle queued done,
        ready',
      )
