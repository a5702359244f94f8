-- ===== src/Tests/Output.antt =====
-- A call of the scheduler with one reference to announce.
use fastparse.Prelude.{
  ℕ, zero, suc, ◌≡◌, ◌<◌, ◌==◌, if◌then◌else◌, some, [], ◌∷◌, ◌++◌, map, ok, refl, arith,
}
use fastparse.Bytes.{Bytes, get8}
use fastparse.System.{System}
use fastparse.Serialize.{Serializer, serialize_ibgp}
use fastparse.Serialize.Find.{find}
use fastparse.Serialize.Picked.{picked}
use fastparse.Serialize.Ibgp.{ibgp_bytes}
use fastparse.Serialize.Law.{serialize_ibgp-Serializes}
use fastparse.Phase3.{schedule_phase3}
use fastparse.Phase3.Runs.{runs, attach}
use fastparse.Phase3.Collect.{Queued}
use fastparse.Phase3.Schedule.{Flushed}
use fastparse.Phase3.Wire.{Entry, IsEntry}
use fastparse.Phase3.Format.{marker}
use fastparse.Phase3.Output.{output, Sendable, Ready, schedule_phase3-output}
use fastparse.Tests.Data.{idle, no_route}
use fastparse.Tests.Serialized.{route, path, hop, first, route-Carries}

-- Reference 0 stands for 10.0.0.0/8, and the others for 11.128.0.0/9.
abbrev entry : ℕ → Entry
entry x = record { ref = x; len = if x == 0 then 8 else 9; high = if x == 0 then 10 else 23 }

abbrev written : ℕ → Serializer → Bytes
written address f = ibgp_bytes 0 100 (path ∷ hop ∷ [])

-- Reference 1 waits with the route at 4,352, and one group of peers has a file.
abbrev waiting : System
waiting = record idle {
  bigtable = record { rib = λ _. 0; table = λ x. if x == 0 then 266 else 535; index = 2 };
  journal = record { entries = λ _. 1; jread = 0; jwrite = 1 };
  locrib = record { head = λ _. 4352; push_flag = λ x. x == 1 };
  routes = λ r. if r == 4352 then route else no_route;
  peergroups = record { serialize = serialize_ibgp; file = some [] } ∷ [];
  tx_buffer =
      marker
      ++ (0 ∷ 0 ∷ 0 ∷ 0 ∷ 0 ∷ 0 ∷ 0 ∷ 0 ∷ 0 ∷ 0 ∷ 0 ∷ 0 ∷ 0 ∷ 0 ∷ 0 ∷ 0 ∷ 0 ∷ 0 ∷ 0 ∷ 0 ∷ 0 ∷ 0 ∷ 0
          ∷ 0 ∷ 0 ∷ 0 ∷ 0 ∷ 0 ∷ 0 ∷ 0 ∷ 0 ∷ 0 ∷ 0 ∷ 0 ∷ 0 ∷ 0 ∷ 0 ∷ 0 ∷ 0 ∷ 0 ∷ 0 ∷ 0 ∷ 0 ∷ 0 ∷ 0
          ∷ 0 ∷ 0 ∷ 0 ∷ []);
}

waiting-Queued : Queued waiting waiting.locrib.head (1 ∷ [])
waiting-Queued = record {
  heads = λ x. refl;
  contents = record {
    room = omega arith;
    read_in = omega arith;
    write_at = refl;
    window = (refl, refl);
  };
  inside = (omega arith, tt);
  routes = (omega arith, tt);
}

entry-IsEntry : (x : ℕ) → x < 2 → IsEntry waiting.bigtable (entry x)
entry-IsEntry zero h = record {
  given = omega arith;
  stands = refl;
  some_bits = omega arith;
  short = omega arith;
  fits = omega arith;
}
entry-IsEntry (suc zero) h = record {
  given = omega arith;
  stands = refl;
  some_bits = omega arith;
  short = omega arith;
  fits = omega arith;
}
entry-IsEntry (suc (suc x)) h = absurd (omega arith)

waiting-Ready : Ready entry written waiting
unfolding get8
waiting-Ready = record {
  small = omega arith;
  entries = λ x h. (entry-IsEntry x h, refl);
  marked = (
    refl,
    (
      refl,
      (
        refl,
        (
          refl,
          (
            refl,
            (
              refl,
              (refl, (refl, (refl, (refl, (refl, (refl, (refl, (refl, (refl, (refl, tt)))))))))),
            ),
          ),
        ),
      ),
    ),
  );
  long = omega arith;
  short = omega arith;
}

waiting-Sendable : Sendable entry written waiting (4352, 1 ∷ [])
unfolding picked find
waiting-Sendable = record {
  some_route = omega arith;
  few = omega arith;
  known = (omega arith, tt);
  fits = (
    record {
      serializes = serialize_ibgp-Serializes route-Carries first 0 [] (path ∷ hop ∷ []) refl refl;
      room = omega arith;
    },
    tt,
  );
}

schedule_phase3-output_example :
    (s' : System) × (schedule_phase3 waiting ≡ ok s')
    × (s'.peergroups
        ≡ map (output entry written (runs waiting.locrib.head (1 ∷ []))) waiting.peergroups)
    × Flushed waiting (1 ∷ []) s'
    × Ready entry written s'
unfolding runs attach
schedule_phase3-output_example =
    schedule_phase3-output entry written waiting (1 ∷ []) refl refl waiting-Queued waiting-Ready
      (waiting-Sendable, tt)
