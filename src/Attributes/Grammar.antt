-- ===== src/Attributes/Grammar.antt =====
-- `parse_attributes` accepts exactly the blocks that are cut into attributes.
use fastparse.Prelude.{ℕ, zero, suc, ◌+◌, ◌≡◌, ◌≤◌, ◌<◌, ◌↔◌, arith, lt→ltb, ok, >>=-eq-ok}
use native.Mathlib.Decide.{dec_lt}
use fastparse.Bytes.{Bytes, get8}
use fastparse.Route.{Route}
use fastparse.Attributes.{Header, read_header, parse_attribute, attributes_from, parse_attributes}

-- From `p` to `limit` the memory is cut into one or more attributes, whose effects, in order, lead
-- from the route `r` to the route `r'`.
pub data Attributes (m : Bytes) (limit : ℕ) (r' : Route) : ℕ → Route → Type 0 where
  last :
      {p : ℕ} {r : Route} (h : Header)
      → read_header m p ≡ ok h
      → parse_attribute h.type_code m h.value h.attr_length r ≡ ok r'
      → h.value + h.attr_length ≡ limit
      → Attributes m limit r' p r
  more :
      {p : ℕ} {r : Route} (h : Header) (s : Route)
      → read_header m p ≡ ok h
      → parse_attribute h.type_code m h.value h.attr_length r ≡ ok s
      → h.value + h.attr_length < limit
      → Attributes m limit r' (h.value + h.attr_length) s
      → Attributes m limit r' p r

-- A header is three bytes at least.
pub read_header-value : (m : Bytes) (p : ℕ) (h : Header) → read_header m p ≡ ok h → p + 3 ≤ h.value
unfolding read_header
read_header-value m p h e =
    let (flags, e₁, k₁) = >>=-eq-ok (get8 m p) _ e in
    let (kind, e₂, k₂) = >>=-eq-ok (get8 m (p + 1)) _ k₁ in
    let (high, e₃, k₃) = >>=-eq-ok (get8 m (p + 2)) _ k₂ in ground arith

module _ (m : Bytes) (limit : ℕ) {r' : Route} where
  attributes_from_complete :
      (fuel : ℕ) {p : ℕ} {r : Route}
      → limit < fuel + p
      → Attributes m limit r' p r
      → attributes_from fuel m limit p r ≡ ok r'
  unfolding attributes_from
  attributes_from_complete zero {p} f (last h e e' z) =
      absurd (omega (arith, read_header-value m p h e))
  attributes_from_complete zero {p} f (more h s e e' lt rest) =
      absurd (omega (arith, read_header-value m p h e))
  attributes_from_complete (suc fuel) f (last h e e' z) = rw (e, e', z) (ground arith)
  attributes_from_complete (suc fuel) {p} f (more h s e e' lt rest) =
      let step = attributes_from_complete fuel (omega (arith, read_header-value m p h e)) rest in
      rw (e, e', step, lt→ltb (h.value + h.attr_length) limit lt)

  attributes_from_sound :
      (fuel : ℕ) (p : ℕ) (r : Route)
      → attributes_from fuel m limit p r ≡ ok r'
      → Attributes m limit r' p r
  unfolding attributes_from
  attributes_from_sound zero p r h = cc
  attributes_from_sound (suc fuel) p r e =
      let (h, e₁, k₁) = >>=-eq-ok (read_header m p) _ e in
      let (s, e₂, k₂) = >>=-eq-ok (parse_attribute h.type_code m h.value h.attr_length r) _ k₁ in
      elim (dec_lt (h.value + h.attr_length) limit) [
        | yes lt ↦ more h s e₁ e₂ lt (
            attributes_from_sound fuel (h.value + h.attr_length) s
              (rw (lt→ltb (h.value + h.attr_length) limit lt) at k₂))
        | no stop ↦
            let at_end : (h.value + h.attr_length ≡ limit) × (s ≡ r') = ground arith in
            last h e₁ (rw (← at_end.1) e₂) at_end.0
      ]

-- `parse_attributes` returns a route exactly when the block is cut into one or more attributes, each
-- accepted by `parse_attribute`, that end where the length says; the route is then the one that the
-- attributes lead to in order. So the loop has ended on every such block.
pub parse_attributes_iff :
    (m : Bytes) (p len : ℕ) (r r' : Route)
    → (parse_attributes m p len r ≡ ok r') ↔ Attributes m (p + len) r' p r
unfolding parse_attributes
parse_attributes_iff m p len r r' = (
  attributes_from_sound m (p + len) (len + 1) p r,
  attributes_from_complete m (p + len) (len + 1) (omega arith),
)
