-- ===== src/Attributes/Effect.antt =====
-- What the attributes change of a route, and what they leave.
use fastparse.Prelude.{ℕ, ◌+◌, ◌*◌, ◌^◌, ◌≡◌, ◌<◌, arith, [], ◌∷◌, ◌==◌, ok, >>=-eq-ok, assert, ◌∙◌}
use fastparse.Bytes.{Bytes, IsByte, get8, load16, load32, bswap_32}
use fastparse.Bytes.Regions.{Holds}
use fastparse.Route.{Route}
use fastparse.Route.Tie.{InRange}
use fastparse.AsPath.{as_path_count}
use fastparse.AsPath.Count.{as_path_count-lt}
use fastparse.Attributes.{
  parse_attribute, parse_attributes, set_origin, set_path_length, set_med, set_local_pref,
  local_pref,
}
use fastparse.Attributes.Grammar.{Attributes, last, more, parse_attributes_iff}

-- The parts of a route that no attribute sets.
pub record Keeps (r r' : Route) : Type 0 where
  pub use_count : r'.use_count ≡ r.use_count
  pub update_length : r'.update_length ≡ r.update_length
  pub attributes : r'.attributes ≡ r.attributes
  pub ebgp : r'.tiebreak.ebgp ≡ r.tiebreak.ebgp
  pub igp_metric : r'.tiebreak.igp_metric ≡ r.tiebreak.igp_metric
  pub bgpid : r'.tiebreak.bgpid ≡ r.tiebreak.bgpid
  pub peer_address : r'.tiebreak.peer_address ≡ r.tiebreak.peer_address

-- Every byte that can be read is one.
abbrev pub IsMemory : Bytes → Type 0
IsMemory m = (i b : ℕ) → get8 m i ≡ ok b → b < 256

-- The four ways in which an attribute that is accepted acts.
pub data Effect (m : Bytes) (p len : ℕ) (r r' : Route) : Type 0 where
  same : r' ≡ r → Effect m p len r r'
  origin : set_origin m p r ≡ ok r' → Effect m p len r r'
  path : set_path_length m p len r ≡ ok r' → Effect m p len r r'
  med : set_med m p len r ≡ ok r' → Effect m p len r r'
  pref : set_local_pref m p len r ≡ ok r' → Effect m p len r r'

parse_attribute-Effect :
    (kind : ℕ) (m : Bytes) (p len : ℕ) (r r' : Route)
    → parse_attribute kind m p len r ≡ ok r'
    → Effect m p len r r'
unfolding parse_attribute
parse_attribute-Effect kind m p len r r' e = ground arith

Keeps-refl : (r : Route) → Keeps r r
Keeps-refl r = ground arith

Keeps-trans : {r s t : Route} → Keeps r s → Keeps s t → Keeps r t
Keeps-trans k l = record {
  use_count = l.use_count ∙ k.use_count;
  update_length = l.update_length ∙ k.update_length;
  attributes = l.attributes ∙ k.attributes;
  ebgp = l.ebgp ∙ k.ebgp;
  igp_metric = l.igp_metric ∙ k.igp_metric;
  bgpid = l.bgpid ∙ k.bgpid;
  peer_address = l.peer_address ∙ k.peer_address;
}

Effect-Keeps : {m : Bytes} {p len : ℕ} {r r' : Route} → Effect m p len r r' → Keeps r r'
unfolding set_origin set_path_length set_med set_local_pref
Effect-Keeps {r = r} (same e) = rw e (Keeps-refl r)
Effect-Keeps {m} {p} (origin e) = let (b, e₁, k) = >>=-eq-ok (get8 m p) _ e in ground arith
Effect-Keeps {m} {p} {len} (path e) =
    let (n, e₁, k) = >>=-eq-ok (as_path_count m p len) _ e in ground arith
Effect-Keeps {m} {p} {len} (med e) =
    let (u, e₀, k₀) = >>=-eq-ok (assert (4 == len)) _ e in
    let (w, e₁, k) = >>=-eq-ok (load32 m p) _ k₀ in ground arith
Effect-Keeps {m} {p} {len} (pref e) =
    let (u, e₀, k₀) = >>=-eq-ok (assert (4 == len)) _ e in
    let (w, e₁, k) = >>=-eq-ok (load32 m p) _ k₀ in ground arith

load16-lt : (m : Bytes) (p w : ℕ) → IsMemory m → load16 m p ≡ ok w → w < 2 ^ 16
unfolding load16
load16-lt m p w ok_m e =
    let (a, e₁, k) = >>=-eq-ok (get8 m p) _ e in
    let (b, e₂, k') = >>=-eq-ok (get8 m (p + 1)) _ k in
    ground (arith, ok_m p a e₁, ok_m (p + 1) b e₂)

load32-lt : (m : Bytes) (p w : ℕ) → IsMemory m → load32 m p ≡ ok w → w < 2 ^ 32
unfolding load32
load32-lt m p w ok_m e =
    let (lo, e₁, k) = >>=-eq-ok (load16 m p) _ e in
    let (hi, e₂, k') = >>=-eq-ok (load16 m (p + 2)) _ k in
    ground (arith, load16-lt m p lo ok_m e₁, load16-lt m (p + 2) hi ok_m e₂)

Effect-InRange :
    {m : Bytes} {p len : ℕ} {r r' : Route}
    → IsMemory m
    → Effect m p len r r'
    → InRange r.tiebreak
    → InRange r'.tiebreak
unfolding set_origin set_path_length set_med set_local_pref
Effect-InRange ok_m (same e) h = rw e h
Effect-InRange {m} {p} ok_m (origin e) h =
    let (b, e₁, k) = >>=-eq-ok (get8 m p) _ e in ground (arith, ok_m p b e₁)
Effect-InRange {m} {p} {len} ok_m (path e) h =
    let (n, e₁, k) = >>=-eq-ok (as_path_count m p len) _ e in
    ground (arith, as_path_count-lt m p len n e₁)
Effect-InRange {m} {p} {len} ok_m (med e) h =
    let (u, e₀, k₀) = >>=-eq-ok (assert (4 == len)) _ e in
    let (w, e₁, k) = >>=-eq-ok (load32 m p) _ k₀ in ground (arith, load32-lt m p w ok_m e₁)
Effect-InRange {m} {p} {len} ok_m (pref e) h =
    let (u, e₀, k₀) = >>=-eq-ok (assert (4 == len)) _ e in
    let (w, e₁, k) = >>=-eq-ok (load32 m p) _ k₀ in ground (arith, load32-lt m p w ok_m e₁)

Attributes-Keeps :
    {m : Bytes} {limit : ℕ} {r' : Route} {p : ℕ} {r : Route}
    → IsMemory m
    → Attributes m limit r' p r
    → InRange r.tiebreak
    → Keeps r r' × InRange r'.tiebreak
Attributes-Keeps {m} {r' = r'} {r = r} ok_m (last h e e' z) i =
    let f = parse_attribute-Effect h.type_code m h.value h.attr_length r r' e' in
    (Effect-Keeps f, Effect-InRange ok_m f i)
Attributes-Keeps {m} {r = r} ok_m (more h s e e' lt rest) i =
    let f = parse_attribute-Effect h.type_code m h.value h.attr_length r s e' in
    let (k, j) = Attributes-Keeps ok_m rest (Effect-InRange ok_m f i) in
    (Keeps-trans (Effect-Keeps f) k, j)

-- A block that `parse_attributes` accepts leaves of the tie-break data the kind, the identifier and the
-- address of the peer and the metric of the way there as they were, and of the route its use count, its
-- length and the copied block; only the preference, which `phase1` takes from the peer, the length of the
-- path, the origin and the MED may be others. Every field of the tie-break data is in the range of its
-- type after it, if each was so before and the memory holds bytes.
pub parse_attributes-Keeps :
    (m : Bytes) (p len : ℕ) (r r' : Route)
    → IsMemory m
    → InRange r.tiebreak
    → parse_attributes m p len r ≡ ok r'
    → Keeps r r' × InRange r'.tiebreak
parse_attributes-Keeps m p len r r' ok_m i e =
    Attributes-Keeps ok_m ((parse_attributes_iff m p len r r').0 e) i

load32_lem :
    (m : Bytes) (p a b c d : ℕ)
    → Holds m p (a ∷ b ∷ c ∷ d ∷ [])
    → load32 m p ≡ ok (a + b * 256 + (c + d * 256) * 2 ^ 16)
unfolding load32 load16
load32_lem m p a b c d h =
    let two : p + 1 + 1 ≡ p + 2 = omega arith in
    let c' : get8 m (p + 2) ≡ ok c = rw two at h.1.1.0 in
    let d' : get8 m (p + 2 + 1) ≡ ok d = rw two at h.1.1.1.0 in rw (h.0, h.1.0, c', d')

bswap_32-bytes :
    (a b c d : ℕ)
    → IsByte a × IsByte b × IsByte c × IsByte d
    → bswap_32 (a * 2 ^ 24 + b * 2 ^ 16 + c * 2 ^ 8 + d) ≡ a + b * 256 + (c + d * 256) * 2 ^ 16
unfolding bswap_32
bswap_32-bytes a b c d k = omega arith

-- A LOCAL_PREF attribute is read with its first byte lowest: the stored preference is the byte-swapped
-- word of the preference `a b c d` that the attribute carries.
pub parse_attribute-local_pref :
    (m : Bytes) (p a b c d : ℕ) (r : Route)
    → IsByte a × IsByte b × IsByte c × IsByte d
    → Holds m p (a ∷ b ∷ c ∷ d ∷ [])
    → parse_attribute local_pref m p 4 r
      ≡ ok (record r {
        tiebreak = record r.tiebreak {
          local_pref = bswap_32 (a * 2 ^ 24 + b * 2 ^ 16 + c * 2 ^ 8 + d);
        };
      })
unfolding parse_attribute set_local_pref
parse_attribute-local_pref m p a b c d r k h =
    rw (load32_lem m p a b c d h, bswap_32-bytes a b c d k)
