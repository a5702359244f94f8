-- ===== src/Tests/Data.antt =====
-- The routes, the peer and the state that the examples start from.
use fastparse.Prelude.{
  zero, suc, true, false, [], ◌∷◌, All, ok, err, Result, arith, ◌==◌, if◌then◌else◌,
}
use fastparse.Bytes.{Bytes, IsByte, get8}
use fastparse.Route.{Route, zero_tiebreak}
use fastparse.Route.Tie.{InRange}
use fastparse.Attributes.Effect.{IsMemory}
use fastparse.Bigtable.{init_bigtable}
use fastparse.Journal.{locribj_init}
use fastparse.Locrib.{locrib_init}
use fastparse.Alloc.{init_cache, small_size, small_max, large_size, large_max}
use fastparse.System.{System}
use fastparse.Rib.{Peer}

abbrev pub no_route : Route
no_route = record { use_count = 0; update_length = 0; tiebreak = zero_tiebreak; attributes = [] }

pub zero-InRange : InRange zero_tiebreak
zero-InRange = record {
  local_pref = omega arith;
  path_length = omega arith;
  origin = omega arith;
  med = omega arith;
  ebgp = omega arith;
  igp_metric = omega arith;
  bgpid = omega arith;
  peer_address = omega arith;
}

-- Nothing is in the tables, and the routes have one use each.
abbrev pub idle : System
idle = record {
  pools = record {
    small = record { buf = 4096; index = 9; index_max = small_max; alloc_max = small_size };
    large = record { buf = 1_000_000; index = 0; index_max = large_max; alloc_max = large_size };
  };
  words = λ _. 0;
  routes = λ _. record no_route { use_count = 1 };
  bigtable = init_bigtable;
  locrib = locrib_init;
  journal = locribj_init (λ _. 0);
  peergroups = [];
  tx_buffer =
      0 ∷ 0 ∷ 0 ∷ 0 ∷ 0 ∷ 0 ∷ 0 ∷ 0 ∷ 0 ∷ 0 ∷ 0 ∷ 0 ∷ 0 ∷ 0 ∷ 0 ∷ 0 ∷ 0 ∷ 0 ∷ 0 ∷ 0 ∷ 0 ∷ 0 ∷ 0 ∷ 0
      ∷ 0 ∷ 0 ∷ 0 ∷ 0 ∷ [];
  over_length_detected = false;
  propagated_prefixes = 0;
  phase3_locked = false;
  phase3_debug = 0;
  received_prefixes = 0;
  updates = 0;
  update_prefixes = 0;
  too_long = 0;
  msg_count = 0;
  unique = 1;
}

-- A peer whose entry 3 has the route at 4,352.
abbrev pub peer_1 : Peer
peer_1 = record {
  static_local_pref = 100;
  ebgp = true;
  bgpid = 1;
  peer_address = 1;
  adj_rib_in = λ i. if i == 3 then 4352 else 0;
  base = 0;
  length = 0;
  cache = init_cache;
}

-- The value of a computation that has one.
abbrev pub value : {A : Type 0} → A → Result A → A
value a (ok b) = b
value a (err e) = a

pub All-IsMemory : (m : Bytes) → All IsByte m → IsMemory m
unfolding get8
All-IsMemory [] h i b e = cc
All-IsMemory (x ∷ m) h zero b e = ground arith
All-IsMemory (x ∷ m) h (suc i) b e = All-IsMemory m h.1 i b e
