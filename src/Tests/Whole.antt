-- ===== src/Tests/Whole.antt =====
-- A pass over an input with one UPDATE.
use fastparse.Prelude.{ℕ, ◌+◌, ◌≡◌, refl, true, false, [], ◌∷◌, ◌++◌, ok, arith}
use fastparse.Bytes.{Bytes, get8, getw16, getw32, load16, load32, bswap_16, bswap_32, put8, putw16}
use fastparse.Nlri.{nlri_iter, accumulate}
use fastparse.Bigtable.{encode, lookup_rib, lookup_rib64, new_entry}
use fastparse.Route.{tiebreaker, tiebreak_bytes, memcmp_equal}
use fastparse.Attributes.{
  set_origin, parse_attribute, read_header, attributes_from, parse_attributes,
}
use fastparse.Alloc.{
  small_size, small_max, large_size, large_max, pool_alloc, alloc_cache_line, alloc_small, alloc,
}
use fastparse.Alloc.Layout.{small_bytes}
use fastparse.Journal.{locribj_push, locribj_pull}
use fastparse.Locrib.{push, offer, decide, read_and_clear}
use fastparse.Phase3.{
  schedule_phase3, drain, blocks, next_run, pull_route, collect, send_block, send_update,
  send_groups,
}
use fastparse.Rib.{phase1, locrib, update_adj_rib_in}
use fastparse.Split.{split_buf, split_from, scan, next_count}
use fastparse.Parse.{
  Options, read_bytes, new_route, announce, announce_all, withdraw_all, read_lengths, parse_update,
  buf_parse_peer, parse_messages, parse_message, is_marker,
}
use fastparse.Program.{Program, reinit, reinit_peer, reinit_peergroup, parse_peers, buf_parse}
use fastparse.Program.Whole.{Awaits, Settled, buf_parse-Settled}
use fastparse.Tests.Data.{idle, peer_1, value}

abbrev marker : Bytes
marker =
    0xff ∷ 0xff ∷ 0xff ∷ 0xff ∷ 0xff ∷ 0xff ∷ 0xff ∷ 0xff ∷ 0xff ∷ 0xff ∷ 0xff ∷ 0xff ∷ 0xff ∷ 0xff
    ∷ 0xff ∷ 0xff ∷ []

-- 10.0.0.0/8 with the attribute ORIGIN, and the marker of a second message with a byte behind it.
abbrev input : Bytes
input = marker ++ (0 ∷ 29 ∷ 2 ∷ 0 ∷ 0 ∷ 0 ∷ 4 ∷ 0x40 ∷ 1 ∷ 1 ∷ 0 ∷ 8 ∷ 10 ∷ (marker ++ (0 ∷ [])))

abbrev before : Program
before = record {
  system = record idle {
    pools = record {
      small = record { buf = 4096; index = 9; index_max = small_max; alloc_max = small_size };
      large = record {
        buf = 4096 + small_bytes;
        index = 4;
        index_max = large_max;
        alloc_max = large_size;
      };
    };
  };
  allocated = false;
  peers = peer_1 ∷ [];
  consumed = 0;
}

before-Awaits : Awaits 4096 2 before
before-Awaits = record {
  low = omega arith;
  layout = record {
    small_buf = refl;
    small_alloc = refl;
    small_limit = refl;
    large_buf = refl;
    large_alloc = refl;
    large_limit = refl;
  };
  words = λ x. omega arith;
  count = omega arith;
  unlocked = refl;
  idle = refl;
}

abbrev options : Options
options = record { msg_max = 0; spare = 0 }

abbrev after : Program × ℕ
after = value (before, 0) (buf_parse 2 true (λ _. 0) options input before 0 45)

-- The pass returns, and the prefix is sent.
one_pass :
    (buf_parse 2 true (λ _. 0) options input before 0 45 ≡ ok (after.0, 1))
    × (after.0.system.propagated_prefixes ≡ 1)
unfolding buf_parse reinit reinit_peer reinit_peergroup parse_peers buf_parse_peer parse_messages
    parse_message is_marker split_buf split_from scan next_count schedule_phase3 drain pull_route
    locribj_pull get8 getw16 getw32 load16 load32 bswap_16 bswap_32 put8 putw16 nlri_iter accumulate
    encode lookup_rib lookup_rib64 new_entry tiebreaker tiebreak_bytes memcmp_equal set_origin
    parse_attribute read_header attributes_from parse_attributes pool_alloc alloc_cache_line
    alloc_small alloc locribj_push push offer decide read_and_clear blocks next_run collect
    send_block send_update send_groups phase1 locrib update_adj_rib_in read_bytes new_route announce
    announce_all withdraw_all read_lengths parse_update
one_pass = (refl, refl)

buf_parse-Settled_example : Settled after.0.system
buf_parse-Settled_example =
    buf_parse-Settled 2 4096 (λ _. 0) options input before after.0 0 45 1 before-Awaits one_pass.0
