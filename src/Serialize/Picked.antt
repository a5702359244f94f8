-- ===== src/Serialize/Picked.antt =====
-- What the serialisers write, from the attributes as a list.
use fastparse.Prelude.{
  ℕ, ◌+◌, ◌/◌, ◌%◌, ◌^◌, ◌≡◌, ◌≤◌, ◌<◌, refl, ap, subst, sym, ◌∙◌, Bool, true, false, bit_and,
  bit_or, Option, none, some, List, [], ◌∷◌, ◌++◌, ltb, arith, ok, ◌>>=◌, length, length-append,
  Bool-cases, inl, inr,
}
use fastparse.Bytes.{Bytes}
use fastparse.Bytes.Regions.{Writes, Writes-append, put8-Writes}
use fastparse.Serialize.{Writer, emit8, emit_header}
use fastparse.Serialize.Block.{Attribute}
use fastparse.Serialize.Find.{find}

abbrev pub header_of : Bool → ℕ → ℕ → ℕ → Bytes
header_of true len flags type_code =
    (bit_and flags 0xef % 256) ∷ (type_code % 256) ∷ (bit_and len 0xff % 256) ∷ []
header_of false len flags type_code =
    (bit_or flags 0x10 % 256)
    ∷ (type_code % 256)
    ∷ (len / 2 ^ 8 % 256)
    ∷ (bit_and len 0xff % 256)
    ∷ []

-- The header that is written for a value of so many bytes.
abbrev pub header : ℕ → ℕ → ℕ → Bytes
header len flags type_code = header_of (ltb len 256) len flags type_code

abbrev pub copied : Option Attribute → Bytes
copied none = []
copied (some a) = header (length a.value) a.flags a.type_code ++ a.value

-- The attributes of these types, one after the other.
unfoldable pub picked : List ℕ → List Attribute → Bytes
unfolding find
picked [] rest = []
picked (wanted ∷ types) rest =
    let (found, behind) = find wanted rest in copied found ++ picked types behind

-- Some bytes more have been written; the pointer into the block stands where it stood.
pub record Wrote (w : Writer) (xs : Bytes) (w' : Writer) : Type 0 where
  pub writes : Writes w.out w.q xs w'.out
  pub q : w'.q ≡ w.q + length xs
  pub r : w'.r ≡ w.r

pub Wrote-trans :
    {w v u : Writer} (xs ys : Bytes) → Wrote w xs v → Wrote v ys u → Wrote w (xs ++ ys) u
Wrote-trans {w} {v} {u} xs ys a b = record {
  writes = Writes-append w.q v.q xs ys a.q a.writes b.writes;
  q = omega (arith, a.q, b.q, length-append xs ys);
  r = b.r ∙ a.r;
}

pub emit8-any :
    (w : Writer) (b : ℕ)
    → w.q < length w.out
    → (out' : Bytes) × (emit8 w b ≡ ok (record w { out = out'; q = w.q + 1 }))
      × Writes w.out w.q ((b % 256) ∷ []) out'
unfolding emit8
emit8-any w b room =
    let (out', e, v) = put8-Writes w.out w.q b (b % 256) refl room in (out', rw e refl, v)

-- Three bytes, and a fourth.
pub three :
    (w : Writer) (a b c : ℕ)
    → w.q + 3 ≤ length w.out
    → (out' : Bytes) × ((emit8 w a >>= λ v. emit8 v b >>= λ u. emit8 u c)
        ≡ ok (record w { out = out'; q = w.q + 3 }))
      × Writes w.out w.q ((a % 256) ∷ (b % 256) ∷ (c % 256) ∷ []) out'
three w a b c room =
    let (m₁, e₁, w₁) = emit8-any w a (omega arith) in
    let (m₂, e₂, w₂) =
      emit8-any (record w { out = m₁; q = w.q + 1 }) b (omega (arith, w₁.same_length)) in
    let (m₃, e₃, w₃) =
      emit8-any (record w { out = m₂; q = w.q + 1 + 1 }) c
        (omega (arith, w₁.same_length, w₂.same_length)) in
    (
      m₃,
      rw (e₁, e₂, e₃) (ap (λ (t : ℕ). ok (record w { out = m₃; q = t })) (omega arith)),
      Writes-append w.q (w.q + 1) ((a % 256) ∷ []) ((b % 256) ∷ (c % 256) ∷ []) (omega arith) w₁ (
          Writes-append (w.q + 1) (w.q + 1 + 1) ((b % 256) ∷ []) ((c % 256) ∷ []) (omega arith) w₂
            w₃),
    )

-- A header whose form is `b`.
abbrev Headed : Bool → Writer → ℕ → ℕ → ℕ → Type 0
Headed b w len flags type_code =
    (out' : Bytes) × (emit_header w len flags type_code
      ≡ ok (record w { out = out'; q = w.q + length (header_of b len flags type_code) }))
    × Writes w.out w.q (header_of b len flags type_code) out'

module _ (w : Writer) (len flags type_code : ℕ) where
  Headed-short : ltb len 256 ≡ true → w.q + 3 ≤ length w.out → Headed true w len flags type_code
  unfolding emit_header
  Headed-short short room =
      let (m, e, v) = three w (bit_and flags 0xef) type_code (bit_and len 0xff) room in
      (m, rw short e, v)

  Headed-long : ltb len 256 ≡ false → w.q + 4 ≤ length w.out → Headed false w len flags type_code
  unfolding emit_header
  Headed-long long room =
      let (m₁, e₁, w₁) = emit8-any w (bit_or flags 0x10) (omega arith) in
      let w' = record w { out = m₁; q = w.q + 1 } in
      let (m₂, e₂, w₂) =
        three w' type_code (len / 2 ^ 8) (bit_and len 0xff) (omega (arith, w₁.same_length)) in
      let rest = (type_code % 256) ∷ (len / 2 ^ 8 % 256) ∷ (bit_and len 0xff % 256) ∷ [] in
      (
        m₂,
        rw (long, e₁) (e₂ ∙ ap (λ (t : ℕ). ok (record w { out = m₂; q = t })) (omega arith)),
        Writes-append w.q (w.q + 1) ((bit_or flags 0x10 % 256) ∷ []) rest (omega arith) w₁ w₂,
      )

  pub emit_header-Writes :
      w.q + length (header len flags type_code) ≤ length w.out
      → Headed (ltb len 256) w len flags type_code
  emit_header-Writes room = elim (Bool-cases (ltb len 256)) [
    | inl short ↦
        let room' =
          subst (λ b. w.q + length (header_of b len flags type_code) ≤ length w.out) short room in
        subst (λ b. Headed b w len flags type_code) (sym short) (Headed-short short room')
    | inr long ↦
        let room' =
          subst (λ b. w.q + length (header_of b len flags type_code) ≤ length w.out) long room in
        subst (λ b. Headed b w len flags type_code) (sym long) (Headed-long long room')
  ]
