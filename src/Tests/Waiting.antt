-- ===== src/Tests/Waiting.antt =====
-- A reference that waits in the journal, and two threads that look up one prefix.
use fastparse.Prelude.{ℕ, List, ◌≡◌, ◌⊎◌, refl, true, [], ◌∷◌, ◌++◌, ok, arith, ◌==◌, update}
use fastparse.Bigtable.{Bigtable, init_bigtable, lookup_bigtable, decode, clz, bit_length}
use fastparse.Bigtable.Threads.{State, start, loaded, returned, Reach}
use fastparse.Bigtable.Race.{Reach-two_references}
use fastparse.Bytes.{put8, putw16, bswap_16}
use fastparse.Nlri.{build_nlri, emit}
use fastparse.Journal.{locribj_push, locribj_pull}
use fastparse.Locrib.{decide, offer, push, read_and_clear}
use fastparse.System.{System}
use fastparse.Phase3.{
  schedule_phase3, drain, blocks, next_run, pull_route, collect, send_block, send_withdraw,
  build_all, write_all,
}
use fastparse.Phase3.Runs.{runs, send_runs}
use fastparse.Phase3.Place.{map_ok}
use fastparse.Phase3.Schedule.{flushed, schedule_phase3-send_runs}
use fastparse.Rib.{Peer, release, locrib, update_adj_rib_in}
use fastparse.Rib.Pending.{Pending, Pending-Queued}
use fastparse.Rib.Offers.{locrib-returns}
use fastparse.Locrib.Entry.{Changes}
use fastparse.Prelude.Distinct.{contains}
use fastparse.Rib.Sound.{Sound}
use fastparse.Tests.Data.{idle, peer_1, value}

-- Reference 0 has been given out, and waits with the route NULL.
abbrev held : System
held = record idle {
  bigtable = record { rib = λ _. 0; table = λ _. 266; index = 1 };
  journal = record { entries = λ _. 0; jread = 0; jwrite = 1 };
  locrib = record { head = λ _. 0; push_flag = λ x. x == 0 };
}

held-Pending : Pending held (0 ∷ [])
held-Pending = record {
  contents = record {
    room = omega arith;
    read_in = omega arith;
    write_at = refl;
    window = (refl, refl);
  };
  flagged = λ x. ground arith;
  distinct = (refl, tt);
  given = (omega arith, tt);
  small = omega arith;
  routes = λ x. omega arith;
  unlocked = refl;
  idle = refl;
}

held-Sound : Sound held
held-Sound = record {
  table = record {
    small = omega arith;
    listed = λ i lo hi. absurd (omega arith);
    filled = λ x h. absurd (h refl);
  };
  queue = 0 ∷ [];
  pending = held-Pending;
}

schedule_phase3-send_runs_example :
    schedule_phase3 held
    ≡ map_ok (flushed held (0 ∷ [])) (send_runs held (runs held.locrib.head (0 ∷ [])))
schedule_phase3-send_runs_example =
    schedule_phase3-send_runs held (0 ∷ []) refl refl (Pending-Queued held-Pending)

abbrev sent : System
sent = value held (schedule_phase3 held)

held-sent : schedule_phase3 held ≡ ok sent
unfolding schedule_phase3 drain blocks next_run pull_route collect send_block send_withdraw
    build_all write_all locribj_pull read_and_clear lookup_bigtable decode clz bit_length build_nlri
    emit put8 putw16 bswap_16
held-sent = refl

locrib-returns_example :
    (s' : System) × (locrib true held 0 1 true ≡ ok s')
    × ((Changes held.routes held.locrib 0 1 true
          × (s'.locrib.head ≡ update held.locrib.head 0 1)
          × (q' : List ℕ) × Pending s' q'
          × (contains q' 0 ≡ true)
          × ((q' ≡ 0 ∷ []) ⊎ (q' ≡ (0 ∷ []) ++ (0 ∷ []))))
        ⊎ ((¬ Changes held.routes held.locrib 0 1 true) × (s' ≡ held) × Pending s' (0 ∷ [])))
locrib-returns_example =
    locrib-returns 0 1 true held-Pending (omega arith) (omega arith) (omega arith) refl

abbrev changed : System × Peer
changed = value (held, peer_1) (update_adj_rib_in true held peer_1 0 4352)

held-changed : update_adj_rib_in true held peer_1 0 4352 ≡ ok (changed.0, changed.1)
unfolding update_adj_rib_in release locrib decide offer push locribj_push
held-changed = refl

-- Every thread looks up the prefix of 266.
abbrev many : State
many = record { bigtable = init_bigtable; threads = λ _. start 266 }

abbrev made : Bigtable
made = record init_bigtable {
  index = 1;
  rib = update (λ _. 0) 266 0;
  table = update (λ _. 0) 0 266;
}

abbrev after_two : State
after_two = record {
  bigtable = made;
  threads = update (update (λ _. start 266) 1 (loaded 266 0)) 1 (returned 266 0);
}

Reach-two_references_example :
    (t : State) × Reach many t × (t.threads 1 ≡ returned 266 0) × (t.threads 2 ≡ returned 266 1)
Reach-two_references_example =
    Reach-two_references many 1 2 266 (omega arith) refl refl refl (omega arith)
