-- ===== src/Tests/Runs.antt =====
-- The program from its start, over an input of three UPDATEs for its two peers.
use fastparse.Prelude.{
  ℕ, ◌^◌, ◌≡◌, ◌≤◌, ◌⊎◌, refl, true, false, [], ◌∷◌, ◌++◌, none, some, ok, err, assertion,
  undefined, arith,
}
use fastparse.Bytes.{
  get8, put8, bswap_16, bswap_32, load16, load32, getw16, getw32, putw16, store32,
}
use fastparse.Nlri.{accumulate, nlri_iter, emit, build_nlri}
use fastparse.Bigtable.{
  bit_length, clz, encode, decode, lookup_bigtable, new_entry, lookup_rib, lookup_rib64,
}
use fastparse.Route.{tiebreak_bytes, memcmp_equal, tiebreaker}
use fastparse.Attributes.{
  set_origin, set_path_length, set_med, set_local_pref, parse_attribute, read_header,
  attributes_from, parse_attributes,
}
use fastparse.AsPath.{add_segment, count_segments, as_path_count}
use fastparse.Alloc.{
  init_pool, init_pools, pool_alloc, alloc_cache_line, dalloc_cache_line, dalloc_large,
  dalloc_small, dalloc, alloc_small, alloc_large, alloc,
}
use fastparse.Journal.{locribj_push, locribj_pull}
use fastparse.Locrib.{push, offer, retract, decide, read_and_clear}
use fastparse.Serialize.{
  memcpy, emit8, emit_header, emit_bytes, emit32, set, set4, prepend_at, prepend, copy, get_from,
  get, serialize_ibgp,
}
use fastparse.Phase3.{
  pull_route, collect, build_all, write_message, write_all, send_withdraw, send_group, send_groups,
  send_update, send_block, blocks, next_run, drain, schedule_phase3,
}
use fastparse.Rib.{phase1, locrib, release, update_adj_rib_in}
use fastparse.Split.{next_count, scan, split_from, split_buf}
use fastparse.Parse.{
  read_bytes, new_route, announce, withdraw, announce_all, withdraw_all, read_lengths, parse_update,
  is_marker, parse_message, parse_messages, buf_parse_peer,
}
use fastparse.Program.{
  init_peers, init_peergroups, init, reinit_peergroup, reinit_peer, reinit, parse_peers, buf_parse,
}
use fastparse.Program.Main.{options, divide, passes, warm_up, main}
use fastparse.Locrib.{Locrib}
use fastparse.Program.{Program}
use fastparse.Program.Main.{Arguments, Setting, given_or, one_pass}
use fastparse.Program.Whole.{Settled}
use fastparse.Program.Ends.{main-repeated, main-zero, main-Settled}
use fastparse.Bytes.{Bytes}
use fastparse.Tests.Data.{idle, value}

abbrev marker : Bytes
marker =
    0xff ∷ 0xff ∷ 0xff ∷ 0xff ∷ 0xff ∷ 0xff ∷ 0xff ∷ 0xff ∷ 0xff ∷ 0xff ∷ 0xff ∷ 0xff ∷ 0xff ∷ 0xff
    ∷ 0xff ∷ 0xff ∷ []

-- 10.0.0.0/8 with the attribute ORIGIN.
abbrev update_message : Bytes
update_message = marker ++ (0 ∷ 29 ∷ 2 ∷ 0 ∷ 0 ∷ 0 ∷ 4 ∷ 0x40 ∷ 1 ∷ 1 ∷ 0 ∷ 8 ∷ 10 ∷ [])

abbrev setting : Setting
setting = record {
  fuel = 3;
  garbage = true;
  entries = λ _ _. 0;
  file = update_message ++ (update_message ++ (update_message ++ (marker ++ (0 ∷ 0 ∷ []))));
  length = 104;
}

abbrev arguments : ℕ → Arguments
arguments n = record { repeat = some n; msg_max = none; spare = none }

abbrev no_locrib : Locrib
no_locrib = record { head = λ _. 0; push_flag = λ _. false }

abbrev nothing_yet : Program
nothing_yet = record { system = idle; allocated = false; peers = []; consumed = 0 }

abbrev after : Program × ℕ
after = value (nothing_yet, 0) (main (arguments 1) setting 1 2 4096 no_locrib (λ _. 0) (λ _. 0))

one_run : main (arguments 1) setting 1 2 4096 no_locrib (λ _. 0) (λ _. 0) ≡ ok (after.0, 0)
unfolding get8 put8 bswap_16 bswap_32 load16 load32 getw16 getw32 putw16 store32 accumulate
    nlri_iter emit build_nlri bit_length clz encode decode lookup_bigtable new_entry lookup_rib
    lookup_rib64 tiebreak_bytes memcmp_equal tiebreaker set_origin set_path_length set_med
    set_local_pref parse_attribute read_header attributes_from parse_attributes add_segment
    count_segments as_path_count init_pool init_pools pool_alloc alloc_cache_line dalloc_cache_line
    dalloc_large dalloc_small dalloc alloc_small alloc_large alloc locribj_push locribj_pull push
    offer retract decide read_and_clear memcpy emit8 emit_header emit_bytes emit32 set set4
    prepend_at prepend copy get_from get serialize_ibgp pull_route collect build_all write_message
    write_all send_withdraw send_group send_groups send_update send_block blocks next_run drain
    schedule_phase3 phase1 locrib release update_adj_rib_in next_count scan split_from split_buf
    read_bytes new_route announce withdraw announce_all withdraw_all read_lengths parse_update
    is_marker parse_message parse_messages buf_parse_peer init_peers init_peergroups init
    reinit_peergroup reinit_peer reinit parse_peers buf_parse options divide passes warm_up main
one_run = refl

main-Settled_example :
    (2 ^ 31 ≤ given_or (arguments 1).repeat 1)
    ⊎ ((given_or (arguments 1).repeat 1 ≡ 1) × Settled after.0.system)
main-Settled_example =
    main-Settled (arguments 1) setting 1 2 4096 no_locrib (λ _. 0) (λ _. 0) after.0 0 refl
      (omega arith) (λ x. omega arith) (omega arith) one_run

abbrev begun : Program
begun = value nothing_yet (init 1 2 4096 no_locrib (λ _. 0) (λ _. 0))

one_init : init 1 2 4096 no_locrib (λ _. 0) (λ _. 0) ≡ ok begun
unfolding init init_pools init_pool
one_init = refl

-- The first of two passes.
abbrev passed : Program × ℕ
passed = value (nothing_yet, 0) (one_pass setting (options (arguments 2)) 2 begun)

first_pass : one_pass setting (options (arguments 2)) 2 begun ≡ ok (passed.0, passed.1)
unfolding get8 put8 bswap_16 bswap_32 load16 load32 getw16 getw32 putw16 store32 accumulate
    nlri_iter emit build_nlri bit_length clz encode decode lookup_bigtable new_entry lookup_rib
    lookup_rib64 tiebreak_bytes memcmp_equal tiebreaker set_origin set_path_length set_med
    set_local_pref parse_attribute read_header attributes_from parse_attributes add_segment
    count_segments as_path_count init_pool init_pools pool_alloc alloc_cache_line dalloc_cache_line
    dalloc_large dalloc_small dalloc alloc_small alloc_large alloc locribj_push locribj_pull push
    offer retract decide read_and_clear memcpy emit8 emit_header emit_bytes emit32 set set4
    prepend_at prepend copy get_from get serialize_ibgp pull_route collect build_all write_message
    write_all send_withdraw send_group send_groups send_update send_block blocks next_run drain
    schedule_phase3 phase1 locrib release update_adj_rib_in next_count scan split_from split_buf
    read_bytes new_route announce withdraw announce_all withdraw_all read_lengths parse_update
    is_marker parse_message parse_messages buf_parse_peer init_peers init_peergroups init
    reinit_peergroup reinit_peer reinit parse_peers buf_parse options divide passes warm_up main
first_pass = refl

main-repeated_example :
    main (arguments 2) setting 1 2 4096 no_locrib (λ _. 0) (λ _. 0) ≡ err assertion
main-repeated_example =
    main-repeated (arguments 2) setting 1 2 4096 no_locrib (λ _. 0) (λ _. 0) begun passed.0 passed.1
      (omega arith) (omega arith) one_init first_pass

main-zero_example : main (arguments 0) setting 1 2 4096 no_locrib (λ _. 0) (λ _. 0) ≡ err undefined
main-zero_example =
    main-zero (arguments 0) setting 1 2 4096 no_locrib (λ _. 0) (λ _. 0) begun refl one_init
