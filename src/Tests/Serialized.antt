-- ===== src/Tests/Serialized.antt =====
-- A route of two ASes, written for peers of each kind.
use fastparse.Prelude.{◌+◌, ◌≡◌, refl, List, [], ◌∷◌, All, ok, arith, length}
use fastparse.Bytes.{Bytes, get8}
use fastparse.Bytes.Regions.{Writes}
use fastparse.Route.{Route, zero_tiebreak}
use fastparse.Attributes.{as_path}
use fastparse.Serialize.{Writer, get, start, serialize_ibgp, serialize_ebgp}
use fastparse.Serialize.Block.{Attribute, IsAttribute, block}
use fastparse.Serialize.Find.{find, Got, get-find}
use fastparse.Serialize.Picked.{picked}
use fastparse.Serialize.Whole.{Carries, start-At}
use fastparse.Serialize.Ibgp.{ibgp_bytes, serialize_ibgp-picked}
use fastparse.Serialize.Ebgp.{Sequence, ebgp_bytes, serialize_ebgp-prepended}
use fastparse.Tests.Data.{no_route}

abbrev pub first : Attribute
first = record { flags = 0x40; type_code = 1; value = 0 ∷ [] }

abbrev pub path : Attribute
path = record { flags = 0x40; type_code = 2; value = 2 ∷ 2 ∷ 0 ∷ 0 ∷ 0 ∷ 7 ∷ 0 ∷ 0 ∷ 0 ∷ 9 ∷ [] }

abbrev pub hop : Attribute
hop = record { flags = 0x40; type_code = 3; value = 10 ∷ 0 ∷ 0 ∷ 1 ∷ [] }

abbrev pub attributes : List Attribute
attributes = first ∷ path ∷ hop ∷ []

abbrev pub route : Route
route = record no_route {
  update_length = 24;
  attributes = block attributes;
  tiebreak = record zero_tiebreak { local_pref = 100 };
}

abbrev room : Bytes
room =
    0 ∷ 0 ∷ 0 ∷ 0 ∷ 0 ∷ 0 ∷ 0 ∷ 0 ∷ 0 ∷ 0 ∷ 0 ∷ 0 ∷ 0 ∷ 0 ∷ 0 ∷ 0 ∷ 0 ∷ 0 ∷ 0 ∷ 0 ∷ 0 ∷ 0 ∷ 0 ∷ 0
    ∷ 0 ∷ 0 ∷ 0 ∷ 0 ∷ 0 ∷ 0 ∷ 0 ∷ 0 ∷ []

attributes-IsAttribute : All IsAttribute attributes
attributes-IsAttribute = (
  record { bytes = (omega arith, tt); size = omega arith; short = λ e. omega arith },
  (
    record {
      bytes = (
        omega arith,
        (
          omega arith,
          (
            omega arith,
            (
              omega arith,
              (
                omega arith,
                (omega arith, (omega arith, (omega arith, (omega arith, (omega arith, tt))))),
              ),
            ),
          ),
        ),
      );
      size = omega arith;
      short = λ e. omega arith;
    },
    (
      record {
        bytes = (omega arith, (omega arith, (omega arith, (omega arith, tt))));
        size = omega arith;
        short = λ e. omega arith;
      },
      tt,
    ),
  ),
)

pub route-Carries : Carries route attributes
unfolding get8
route-Carries = record {
  held = (
    refl,
    (
      refl,
      (
        refl,
        (
          refl,
          (
            refl,
            (
              refl,
              (
                refl,
                (
                  refl,
                  (
                    refl,
                    (
                      refl,
                      (
                        refl,
                        (
                          refl,
                          (
                            refl,
                            (
                              refl,
                              (
                                refl,
                                (
                                  refl,
                                  (
                                    refl,
                                    (refl, (refl, (refl, (refl, (refl, (refl, (refl, tt))))))),
                                  ),
                                ),
                              ),
                            ),
                          ),
                        ),
                      ),
                    ),
                  ),
                ),
              ),
            ),
          ),
        ),
      ),
    ),
  );
  length_is = refl;
  valid = attributes-IsAttribute;
}

get-find_example :
    (w' : Writer) × (get route.attributes 24 (start room 0) as_path ≡ ok w')
    × Got route.attributes 24 as_path (start room 0) (find as_path attributes) w'
get-find_example =
    get-find route.attributes 24 (start room 0) as_path attributes
      (start-At route attributes room 0 route-Carries)

serialize_ibgp-picked_example :
    (out' : Bytes) × (serialize_ibgp route room 0
      ≡ ok (out', 0 + length (ibgp_bytes 0 100 (path ∷ hop ∷ []))))
    × Writes room 0 (ibgp_bytes 0 100 (path ∷ hop ∷ [])) out'
unfolding picked find
serialize_ibgp-picked_example =
    serialize_ibgp-picked route attributes (path ∷ hop ∷ []) first 0 [] room 0 route-Carries refl
      refl (omega arith)

-- The first AS of the route is 7, the second 9.
path-Sequence : Sequence path (hop ∷ []) 2 (0 ∷ 0 ∷ 0 ∷ 9 ∷ []) (0x40 ∷ 3 ∷ 4 ∷ 10 ∷ [])
path-Sequence = record {
  first = 0 ∷ 0 ∷ 0 ∷ 7 ∷ [];
  more = 0 ∷ 0 ∷ 1 ∷ [];
  starts = refl;
  four = refl;
  few = omega arith;
  goes_on = refl;
  four_more = refl;
  bytes = (omega arith, (omega arith, (omega arith, (omega arith, tt))));
}

serialize_ebgp-prepended_example :
    (out' : Bytes) × (serialize_ebgp route room 0
      ≡ ok (
        out',
        0 + length (ebgp_bytes 0 path 2 (0 ∷ 0 ∷ 0 ∷ 9 ∷ 0x40 ∷ 3 ∷ 4 ∷ 10 ∷ []) (hop ∷ [])),
      ))
    × Writes room 0 (ebgp_bytes 0 path 2 (0 ∷ 0 ∷ 0 ∷ 9 ∷ 0x40 ∷ 3 ∷ 4 ∷ 10 ∷ []) (hop ∷ [])) out'
unfolding picked find
serialize_ebgp-prepended_example =
    serialize_ebgp-prepended route attributes (path ∷ hop ∷ []) (hop ∷ []) first path 0 [] 2
      (0 ∷ 0 ∷ 0 ∷ 9 ∷ []) (0x40 ∷ 3 ∷ 4 ∷ 10 ∷ []) room 0 route-Carries refl refl refl
      path-Sequence (omega arith)
