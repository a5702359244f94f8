-- ===== src/Tests/Messages.antt =====
-- Attributes, AS paths, and the input of messages.
use fastparse.Prelude.{◌*◌, ◌^◌, ◌≡◌, refl, false, [], ◌∷◌, ◌++◌, ok, err, out_of_fuel, arith, ◌↔◌}
use fastparse.Bytes.{Bytes, get8, getw16, bswap_32, bswap_16, load16, load32}
use fastparse.AsPath.{as_path_count}
use fastparse.AsPath.Count.{none, one, as_sequence, as_path_count-Segments}
use fastparse.Route.{Route, zero_tiebreak}
use fastparse.Route.Tie.{InRange}
use fastparse.Attributes.{
  parse_attributes, parse_attribute, local_pref, read_header, attributes_from, set_origin,
  set_local_pref,
}
use fastparse.Attributes.Grammar.{Attributes, parse_attributes_iff}
use fastparse.Attributes.Effect.{
  Keeps, IsMemory, parse_attributes-Keeps, parse_attribute-local_pref,
}
use fastparse.Split.{split_buf, split_from, scan, next_count}
use fastparse.Split.Marker.{Chunks, split_buf-Chunks}
use fastparse.Parse.{Options, parse_messages}
use fastparse.Parse.Messages.{parse_framed, parse_messages-zero_length, parse_messages-Framed}
use fastparse.Tests.Data.{no_route, zero-InRange, All-IsMemory, idle, peer_1}

-- A sequence of two ASes.
abbrev path : Bytes
path = 2 ∷ 2 ∷ 0 ∷ 0 ∷ 0 ∷ 1 ∷ 0 ∷ 0 ∷ 0 ∷ 2 ∷ []

as_path_count-Segments_example : as_path_count path 0 10 ≡ ok 2
unfolding get8
as_path_count-Segments_example = as_path_count-Segments path 0 10 2 (omega arith) (
    one 0 2 2 2 0 2 refl refl (omega arith) (as_sequence 2 2 2 refl refl) (omega arith)
      (none 10 refl) refl)

-- ORIGIN INCOMPLETE, and LOCAL_PREF 100.
abbrev block : Bytes
block = 0x40 ∷ 1 ∷ 1 ∷ 2 ∷ 0x40 ∷ 5 ∷ 4 ∷ 0 ∷ 0 ∷ 0 ∷ 100 ∷ []

abbrev parsed : Route
parsed = record no_route {
  tiebreak = record zero_tiebreak { origin = 2; local_pref = 100 * 2 ^ 24 };
}

block-parsed : parse_attributes block 0 11 no_route ≡ ok parsed
unfolding parse_attributes attributes_from read_header parse_attribute set_origin set_local_pref
    get8 load32 load16
block-parsed = refl

parse_attributes_iff_example :
    (parse_attributes block 0 11 no_route ≡ ok parsed) ↔ Attributes block 11 parsed 0 no_route
parse_attributes_iff_example = parse_attributes_iff block 0 11 no_route parsed

block-IsMemory : IsMemory block
block-IsMemory = All-IsMemory block (
  omega arith,
  (
    omega arith,
    (
      omega arith,
      (
        omega arith,
        (
          omega arith,
          (
            omega arith,
            (omega arith, (omega arith, (omega arith, (omega arith, (omega arith, tt))))),
          ),
        ),
      ),
    ),
  ),
)

parse_attributes-Keeps_example : Keeps no_route parsed × InRange parsed.tiebreak
parse_attributes-Keeps_example =
    parse_attributes-Keeps block 0 11 no_route parsed block-IsMemory zero-InRange block-parsed

parse_attribute-local_pref_example :
    parse_attribute local_pref (0 ∷ 0 ∷ 0 ∷ 100 ∷ []) 0 4 no_route
    ≡ ok (record no_route { tiebreak = record zero_tiebreak { local_pref = bswap_32 100 } })
unfolding get8
parse_attribute-local_pref_example =
    parse_attribute-local_pref (0 ∷ 0 ∷ 0 ∷ 100 ∷ []) 0 0 0 0 100 no_route
      (omega arith, omega arith, omega arith, omega arith) (refl, (refl, (refl, (refl, tt))))

abbrev marker : Bytes
marker =
    0xff ∷ 0xff ∷ 0xff ∷ 0xff ∷ 0xff ∷ 0xff ∷ 0xff ∷ 0xff ∷ 0xff ∷ 0xff ∷ 0xff ∷ 0xff ∷ 0xff ∷ 0xff
    ∷ 0xff ∷ 0xff ∷ []

-- Three bytes, a marker, and a byte behind it: 19 bytes of input and one more.
abbrev input : Bytes
input = 1 ∷ 2 ∷ 3 ∷ (marker ++ (4 ∷ []))

one_chunk : split_buf 1 input 0 19 ≡ ok (record { base = 0; length = 3 } ∷ [])
unfolding split_buf split_from scan next_count get8
one_chunk = refl

split_buf-Chunks_example : Chunks input 1 0 19 0 0 (record { base = 0; length = 3 } ∷ [])
split_buf-Chunks_example =
    split_buf-Chunks 1 input 0 19 (record { base = 0; length = 3 } ∷ []) one_chunk

abbrev options : Options
options = record { msg_max = 0; spare = 0 }

-- A message of length 0.
abbrev stuck : Bytes
stuck = marker ++ (0 ∷ 0 ∷ 2 ∷ [])

parse_messages-zero_length_example :
    parse_messages 5000 false options stuck idle peer_1 0 19 0 ≡ err out_of_fuel
unfolding getw16 load16 bswap_16 get8
parse_messages-zero_length_example =
    parse_messages-zero_length false options stuck idle peer_1 5000 0 19 0
      (record {
        marker = (
          refl,
          (
            refl,
            (
              refl,
              (
                refl,
                (
                  refl,
                  (
                    refl,
                    (
                      refl,
                      (refl, (refl, (refl, (refl, (refl, (refl, (refl, (refl, (refl, tt))))))))),
                    ),
                  ),
                ),
              ),
            ),
          ),
        );
        msg_length = refl;
        msg_type = refl;
      })
      (omega arith) refl

-- An end-of-RIB marker.
abbrev end_of_rib : Bytes
end_of_rib = marker ++ (0 ∷ 23 ∷ 2 ∷ 0 ∷ 0 ∷ 0 ∷ 0 ∷ [])

-- Two of them, and a third that is not parsed, since two messages are allowed.
abbrev three_ends : Bytes
three_ends = end_of_rib ++ (end_of_rib ++ end_of_rib)

parse_messages-Framed_example :
    parse_messages 70 false (record options { msg_max = 2 }) three_ends idle peer_1 0 69 0
    ≡ parse_framed false
        (record options { msg_max = 2 })
        three_ends
        69
        (23 ∷ 23 ∷ 23 ∷ [])
        idle
        peer_1
        0
        0
unfolding getw16 load16 bswap_16 get8
parse_messages-Framed_example =
    parse_messages-Framed false (record options { msg_max = 2 }) three_ends 69 (23 ∷ 23 ∷ 23 ∷ [])
      70 idle peer_1 0 0 (omega arith) (omega arith)
      (
        omega arith,
        refl,
        omega arith,
        (omega arith, refl, omega arith, (omega arith, refl, omega arith, omega arith)),
      )
