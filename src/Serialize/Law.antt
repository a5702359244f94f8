-- ===== src/Serialize/Law.antt =====
-- What the output may rely on of a serialiser.
use fastparse.Prelude.{ℕ, ◌+◌, ◌≡◌, ◌≤◌, List, [], ◌∷◌, ◌++◌, ok, some, length}
use fastparse.Bytes.{Bytes}
use fastparse.Bytes.Regions.{Writes}
use fastparse.Route.{Route}
use fastparse.Attributes.{origin, as_path, next_hop, community}
use fastparse.Serialize.{Serializer, serialize_copy, serialize_ibgp, serialize_ebgp}
use fastparse.Serialize.Block.{Attribute}
use fastparse.Serialize.Find.{find}
use fastparse.Serialize.Picked.{picked}
use fastparse.Serialize.Whole.{Carries, serialize_copy-picked}
use fastparse.Serialize.Ibgp.{ibgp_bytes, serialize_ibgp-picked}
use fastparse.Serialize.Ebgp.{Sequence, ebgp_bytes, serialize_ebgp-prepended}

-- Wherever there is room, the serialiser writes these bytes for the route, and nothing else.
pub record Serializes (f : Serializer) (route : Route) (xs : Bytes) : Type 0 where
  pub law :
      (out : Bytes) (q : ℕ)
      → q + length xs ≤ length out
      → (out' : Bytes) × (f route out q ≡ ok (out', q + length xs)) × Writes out q xs out'

module _ {route : Route} {rest : List Attribute} (c : Carries route rest) where
  pub serialize_copy-Serializes :
      Serializes serialize_copy route (picked (origin ∷ as_path ∷ next_hop ∷ community ∷ []) rest)
  serialize_copy-Serializes = record {
    law = λ out q room. serialize_copy-picked route rest out q c room;
  }

  pub serialize_ibgp-Serializes :
      (a : Attribute) (b : ℕ) (bs : Bytes) (behind : List Attribute)
      → find origin rest ≡ (some a, behind)
      → a.value ≡ b ∷ bs
      → Serializes serialize_ibgp route (ibgp_bytes b route.tiebreak.local_pref behind)
  serialize_ibgp-Serializes a b bs behind is_first starts = record {
    law = λ out q room. serialize_ibgp-picked route rest behind a b bs out q c is_first starts room;
  }

  pub serialize_ebgp-Serializes :
      (o a : Attribute) (b : ℕ) (bs : Bytes) (after_origin behind : List Attribute) (n : ℕ)
      (others spill : Bytes)
      → find origin rest ≡ (some o, after_origin)
      → o.value ≡ b ∷ bs
      → find as_path after_origin ≡ (some a, behind)
      → Sequence a behind n others spill
      → Serializes serialize_ebgp route (ebgp_bytes b a n (others ++ spill) behind)
  serialize_ebgp-Serializes o a b bs after_origin behind n others spill is_first starts is_next
        path =
      record {
        law = λ out q room.
            serialize_ebgp-prepended route rest after_origin behind o a b bs n others spill out q c
              is_first starts is_next path room;
      }
