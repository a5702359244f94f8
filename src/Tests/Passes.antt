-- ===== src/Tests/Passes.antt =====
-- A pass over an input.
use fastparse.Prelude.{ℕ, ◌+◌, ◌≡◌, refl, false, [], ◌∷◌, ◌++◌, ok}
use fastparse.Bytes.{Bytes, get8, getw16, load16, bswap_16}
use fastparse.Journal.{locribj_pull}
use fastparse.Alloc.{small_size, small_max, large_size, large_max}
use fastparse.Alloc.Layout.{small_bytes}
use fastparse.Phase3.{blocks, next_run, schedule_phase3, drain, pull_route}
use fastparse.Split.{split_buf, split_from, scan, next_count}
use fastparse.Parse.{Options, buf_parse_peer, parse_messages, parse_message, is_marker}
use fastparse.Program.{Program, reinit, reinit_peer, reinit_peergroup, parse_peers, buf_parse}
use fastparse.Tests.Data.{idle, peer_1, value}

abbrev marker : Bytes
marker =
    0xff ∷ 0xff ∷ 0xff ∷ 0xff ∷ 0xff ∷ 0xff ∷ 0xff ∷ 0xff ∷ 0xff ∷ 0xff ∷ 0xff ∷ 0xff ∷ 0xff ∷ 0xff
    ∷ 0xff ∷ 0xff ∷ []

-- An end-of-RIB marker, the marker of a second message, and a byte behind it.
abbrev input : Bytes
input = marker ++ (0 ∷ 23 ∷ 2 ∷ 0 ∷ 0 ∷ 0 ∷ 0 ∷ (marker ++ (0 ∷ [])))

abbrev started : Program
started = record {
  system = record idle {
    pools = record {
      small = record { buf = 4096; index = 9; index_max = small_max; alloc_max = small_size };
      large = record {
        buf = 4096 + small_bytes;
        index = 4;
        index_max = large_max;
        alloc_max = large_size;
      };
    };
  };
  allocated = false;
  peers = peer_1 ∷ [];
  consumed = 0;
}

abbrev options : Options
options = record { msg_max = 0; spare = 0 }

abbrev passed : Program × ℕ
passed = value (started, 0) (buf_parse 24 false (λ _. 0) options input started 0 39)

one_pass : buf_parse 24 false (λ _. 0) options input started 0 39 ≡ ok (passed.0, 1)
unfolding buf_parse reinit reinit_peer reinit_peergroup parse_peers buf_parse_peer parse_messages
    parse_message is_marker split_buf split_from scan next_count schedule_phase3 drain blocks
    next_run pull_route locribj_pull get8 getw16 load16 bswap_16
one_pass = refl

abbrev ready : Program
ready = value started (reinit (λ _. 0) started)

one_reinit : reinit (λ _. 0) started ≡ ok ready
unfolding reinit
one_reinit = refl
