-- ===== src/Serialize/Copy.antt =====
-- What `set` and `copy` write: an attribute's header and its value.
use fastparse.Prelude.{
  ℕ, ◌+◌, ◌≡◌, ◌<◌, ◌≤◌, ◌⊎◌, refl, [], ◌∷◌, arith, some, ok, length, All, lt→ltb, bit_and, ap, ◌∙◌,
}
use fastparse.Prelude.Bits.{bit_and-mask}
use fastparse.Bytes.{Bytes, IsByte, get8}
use fastparse.Bytes.Regions.{Holds, Writes, Writes-nil, Writes-append, put8-Writes}
use fastparse.Attributes.{read_header}
use fastparse.Serialize.{Writer, memcpy, emit8, emit_header, emit_bytes, set}

-- Bytes that the source holds are copied, and nothing else changes.
pub memcpy-Writes :
    (xs : Bytes) (src out : Bytes) (p q : ℕ)
    → Holds src p xs
    → All IsByte xs
    → q + length xs ≤ length out
    → (out' : Bytes) × (memcpy (length xs) src p out q ≡ ok out') × Writes out q xs out'
unfolding memcpy
memcpy-Writes [] src out p q h bytes room = (out, refl, Writes-nil out q)
memcpy-Writes (x ∷ xs) src out p q h bytes room =
    let (out₁, e₁, w₁) = put8-Writes out q x x (omega (arith, bytes.0)) (omega arith) in
    let (out₂, e₂, w₂) =
      memcpy-Writes xs src out₁ (p + 1) (q + 1) h.1 bytes.1 (omega (arith, w₁.same_length)) in
    (out₂, rw (h.0, e₁) e₂, Writes-append q (q + 1) (x ∷ []) xs (omega arith) w₁ w₂)

emit8-Writes :
    (w : Writer) (b : ℕ)
    → b < 256
    → w.q < length w.out
    → (out' : Bytes) × (emit8 w b ≡ ok (record w { out = out'; q = w.q + 1 }))
      × Writes w.out w.q (b ∷ []) out'
unfolding emit8
emit8-Writes w b byte room =
    let (out', e, v) = put8-Writes w.out w.q b b (omega arith) room in (out', rw e refl, v)

-- The flags 0x40 have no bit for a long length.
emit_header-Writes :
    (w : Writer) (len type_code : ℕ)
    → len < 256
    → type_code < 256
    → w.q + 3 ≤ length w.out
    → (out' : Bytes) × (emit_header w len 0x40 type_code
        ≡ ok (record w { out = out'; q = w.q + 3 }))
      × Writes w.out w.q (0x40 ∷ type_code ∷ len ∷ []) out'
unfolding emit_header
emit_header-Writes w len type_code short byte room =
    let (a, e₁, w₁) = emit8-Writes w 0x40 (omega arith) (omega arith) in
    let (b, e₂, w₂) =
      emit8-Writes (record w { out = a; q = w.q + 1 }) type_code byte
        (omega (arith, w₁.same_length)) in
    let (c, e₃, w₃) =
      emit8-Writes (record w { out = b; q = w.q + 1 + 1 }) len short
        (omega (arith, w₁.same_length, w₂.same_length)) in
    let mask : bit_and len 0xff ≡ len = bit_and-mask 8 len 0xff refl ∙ omega arith in
    (
      c,
      rw (lt→ltb len 256 short, mask, e₁, e₂, e₃)
          (ap (λ (t : ℕ). ok (record w { out = c; q = t })) (omega arith)),
      Writes-append w.q (w.q + 1) (0x40 ∷ []) (type_code ∷ len ∷ []) (omega arith) w₁
          (Writes-append (w.q + 1) (w.q + 1 + 1) (type_code ∷ []) (len ∷ []) (omega arith) w₂ w₃),
    )

-- `set` of a value of fewer than 256 bytes, with the flags 0x40 that the serialisers give it and room
-- in the buffer, returns; the parser reads the attribute's header back from where it was written, the
-- value stands behind the header, the pointer moves past it, and no other byte of the buffer changes.
pub read_header-set :
    (src : Bytes) (w : Writer) (p type_code : ℕ) (xs : Bytes)
    → length xs < 256
    → type_code < 256
    → Holds src p xs
    → All IsByte xs
    → w.q + 3 + length xs ≤ length w.out
    → (out' : Bytes) × (set src w (length xs) 0x40 type_code (some p)
        ≡ ok (record w { out = out'; q = w.q + 3 + length xs }))
      × (read_header out' w.q
          ≡ ok (record {
            flags = 0x40;
            type_code = type_code;
            attr_length = length xs;
            value = w.q + 3;
          }))
      × Holds out' (w.q + 3) xs
      × ((i : ℕ) → (i < w.q) ⊎ (w.q + 3 + length xs ≤ i) → get8 out' i ≡ get8 w.out i)
unfolding set emit_bytes read_header
read_header-set src w p type_code xs short byte h bytes room =
    let (a, e₁, w₁) = emit_header-Writes w (length xs) type_code short byte (omega arith) in
    let (b, e₂, w₂) = memcpy-Writes xs src a p (w.q + 3) h bytes (omega (arith, w₁.same_length)) in
    let all =
      Writes-append w.q (w.q + 3) (0x40 ∷ type_code ∷ length xs ∷ []) xs (omega arith) w₁ w₂ in
    let flags_at = all.written.0 in
    let type_at = all.written.1.0 in
    let second : get8 b (w.q + 1 + 1) ≡ ok (length xs) = all.written.1.1.0 in
    let value_at : Holds b (w.q + 1 + 1 + 1) xs = all.written.1.1.1 in
    let place : w.q + 1 + 1 ≡ w.q + 2 = omega arith in
    let place' : w.q + 1 + 1 + 1 ≡ w.q + 3 = omega arith in
    (
      b,
      rw (e₁, e₂) refl,
      rw (flags_at, type_at, rw place at second) refl,
      rw place' at value_at,
      λ i o. all.same i (omega arith),
    )
