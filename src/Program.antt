-- ===== src/Program.antt =====
-- bgpparse.c, peer.c, peergroup.c: start-up, the state before each pass over the input, and a pass,
-- `buf_parse`, whose threads are joined one after the other.
pub mod Passes
pub mod Whole
pub mod Main
pub mod Ends
use fastparse.Prelude.{
  ℕ, zero, suc, ◌+◌, ◌-◌, ◌%◌, ◌^◌, Bool, true, false, not, Option, none, some, map, List, [], ◌∷◌,
  ◌++◌, Result, ok, ◌>>=◌, ◌>>◌, assert, length,
}
use fastparse.Bytes.{Bytes}
use fastparse.Bigtable.{init_bigtable, reinit_bigtable}
use fastparse.Journal.{locribj_init}
use fastparse.Locrib.{Locrib}
use fastparse.Locrib
use fastparse.Route.{Route, zero_tiebreak}
use fastparse.Alloc.{init_pools, reinit_pools, init_cache, reinit_cache}
use fastparse.Serialize.{serialize_ibgp}
use fastparse.System.{System, PeerGroup}
use fastparse.Phase3.{schedule_phase3}
use fastparse.Rib.{Peer}
use fastparse.Split.{Buf, split_buf}
use fastparse.Parse.{Options, buf_parse_peer}

-- The state of the program: `allocated` says that LOCRIB is not NULL.
pub record Program : Type 0 where
  pub system : System
  pub allocated : Bool
  pub peers : List Peer
  pub consumed : ℕ

abbrev pub zeros : ℕ → Bytes
zeros zero = []
zeros (suc n) = 0 ∷ zeros n

-- The first contents of `tx_buffer`, 8,192 bytes.
abbrev pub first_tx_buffer : Bytes
first_tx_buffer =
    0xff
    ∷ 0xff
    ∷ 0xff
    ∷ 0xff
    ∷ 0xff
    ∷ 0xff
    ∷ 0xff
    ∷ 0xff
    ∷ 0xff
    ∷ 0xff
    ∷ 0xff
    ∷ 0xff
    ∷ 0xff
    ∷ 0xff
    ∷ 0xff
    ∷ 0xff
    ∷ zeros 8176

-- The two peers of `init_peers`. `host_1` and `host_2` are what `toHostAddress` makes of their
-- addresses by `inet_aton`.
unfoldable pub init_peers : ℕ → ℕ → List Peer
init_peers host_1 host_2 =
    record {
      static_local_pref = 42;
      ebgp = true;
      bgpid = host_1;
      peer_address = host_1;
      adj_rib_in = λ _. 0;
      base = 0;
      length = 0;
      cache = init_cache;
    }
    ∷ record {
      static_local_pref = 43;
      ebgp = false;
      bgpid = host_2;
      peer_address = host_2;
      adj_rib_in = λ _. 0;
      base = 0;
      length = 0;
      cache = init_cache;
    }
    ∷ []

unfoldable pub init_peergroups : List PeerGroup
init_peergroups = record { serialize = serialize_ibgp; file = none } ∷ []

-- The entries of LOCRIB and of the journal do not exist before the first pass; any values stand here.
unfoldable pub init : ℕ → ℕ → ℕ → Locrib → (ℕ → ℕ) → (ℕ → ℕ) → Result Program
init host_1 host_2 slab no_locrib no_journal words = do
  (pools, limit) ← init_pools slab
  ok (record {
    system = record {
      pools = pools;
      words = words;
      routes = λ _. record {
        use_count = 0;
        update_length = 0;
        tiebreak = zero_tiebreak;
        attributes = [];
      };
      bigtable = init_bigtable;
      locrib = no_locrib;
      journal = record { entries = no_journal; jread = 0; jwrite = 0 };
      peergroups = init_peergroups;
      tx_buffer = first_tx_buffer;
      over_length_detected = false;
      propagated_prefixes = 0;
      phase3_locked = false;
      phase3_debug = 0;
      received_prefixes = 0;
      updates = 0;
      update_prefixes = 0;
      too_long = 0;
      msg_count = 0;
      unique = 0;
    };
    allocated = false;
    peers = init_peers host_1 host_2;
    consumed = 0;
  })

-- `rewind`: what is written from now on stands at the start of the file.
unfoldable pub reinit_peergroup : PeerGroup → PeerGroup
reinit_peergroup g = elim g.file [ none ↦ g | some msgs ↦ record g { file = some [] } ]

unfoldable pub reinit_peer : Peer → Peer
reinit_peer peer = record peer { adj_rib_in = λ _. 0; cache = reinit_cache peer.cache }

-- `locrib_init` expects that it has not run before.
unfoldable pub reinit : (ℕ → ℕ) → Program → Result Program
reinit garbage p = do
  assert (not p.allocated)
  ok (record {
    system = record p.system {
      peergroups = map reinit_peergroup p.system.peergroups;
      bigtable = reinit_bigtable p.system.bigtable;
      pools = reinit_pools p.system.pools;
      locrib = Locrib.locrib_init;
      journal = locribj_init garbage;
      propagated_prefixes = 0;
      received_prefixes = 0;
      updates = 0;
      update_prefixes = 0;
    };
    allocated = true;
    peers = map reinit_peer p.peers;
    consumed = 0;
  })

-- The loop over the peers, each with its chunk; the last peer's count of messages is the result.
unfoldable pub parse_peers :
    ℕ → Bool → Options → Bytes → System → List Peer → List Buf → ℕ → Result (System × List Peer × ℕ)
parse_peers fuel garbage opts m s [] bufs msg_count = ok (s, [], msg_count)
parse_peers fuel garbage opts m s (peer ∷ peers) [] msg_count = ok (s, peer ∷ peers, msg_count)
parse_peers fuel garbage opts m s (peer ∷ peers) (buf ∷ bufs) msg_count = do
  (s', peer', n) ←
      buf_parse_peer fuel garbage opts m s (record peer { base = buf.base; length = buf.length })
  (s'', peers', n') ← parse_peers fuel garbage opts m s' peers bufs n
  ok (s'', peer' ∷ peers', n')

unfoldable pub buf_parse :
    ℕ → Bool → (ℕ → ℕ) → Options → Bytes → Program → ℕ → ℕ → Result (Program × ℕ)
buf_parse fuel garbage entries opts m p base len = do
  p' ← reinit entries p
  bufs ← split_buf (length p'.peers) m base len
  (s, peers, msg_count) ← parse_peers fuel garbage opts m p'.system p'.peers bufs 0
  s' ← schedule_phase3 s
  ok (record p' { system = s'; peers = peers }, msg_count)
