-- ===== src/Serialize/Block.antt =====
-- A block of path attributes as a list.
use fastparse.Prelude.{
  ℕ, ◌+◌, ◌*◌, ◌/◌, ◌%◌, ◌^◌, ◌≡◌, ◌<◌, refl, subst, ◌∙◌, Bool, true, false, bit_and, bit_or, List,
  [], ◌∷◌, ◌++◌, ◌==◌, arith, ok, length, All, Bool-cases, inl, inr,
}
use fastparse.Prelude.Bits.{bit_or-shift, bit_or_comm}
use fastparse.Bytes.{Bytes, IsByte, get8}
use fastparse.Bytes.Regions.{Holds}
use fastparse.Attributes.{read_header}

pub record Attribute : Type 0 where
  pub flags : ℕ
  pub type_code : ℕ
  pub value : Bytes

-- The flags tell whether the length has two bytes.
abbrev pub is_short : Attribute → Bool
is_short a = bit_and 0x10 a.flags == 0

pub record IsAttribute (a : Attribute) : Type 0 where
  pub bytes : All IsByte a.value
  pub size : length a.value < 2 ^ 16
  pub short : is_short a ≡ true → length a.value < 256

abbrev pub head_of : Bool → Attribute → Bytes
head_of true a = a.flags ∷ a.type_code ∷ length a.value ∷ []
head_of false a = a.flags ∷ a.type_code ∷ (length a.value / 256) ∷ (length a.value % 256) ∷ []

abbrev pub head : Attribute → Bytes
head a = head_of (is_short a) a

abbrev pub block : List Attribute → Bytes
block [] = []
block (a ∷ rest) = head a ++ (a.value ++ block rest)

read_short :
    (m : Bytes) (p flags type_code len : ℕ)
    → (bit_and 0x10 flags == 0) ≡ true
    → Holds m p (flags ∷ type_code ∷ len ∷ [])
    → read_header m p
      ≡ ok (record { flags = flags; type_code = type_code; attr_length = len; value = p + 3 })
unfolding read_header
read_short m p flags type_code len short h =
    let place : p + 1 + 1 ≡ p + 2 = omega arith in
    let third : get8 m (p + 2) ≡ ok len = rw (← place) h.1.1.0 in rw (h.0, h.1.0, third, short) refl

read_long :
    (m : Bytes) (p flags type_code len : ℕ)
    → (bit_and 0x10 flags == 0) ≡ false
    → len < 2 ^ 16
    → Holds m p (flags ∷ type_code ∷ (len / 256) ∷ (len % 256) ∷ [])
    → read_header m p
      ≡ ok (record { flags = flags; type_code = type_code; attr_length = len; value = p + 4 })
unfolding read_header
read_long m p flags type_code len long fits h =
    let place : p + 1 + 1 ≡ p + 2 = omega arith in
    let place' : p + 1 + 1 + 1 ≡ p + 3 = omega arith in
    let third : get8 m (p + 2) ≡ ok (len / 256) = rw (← place) h.1.1.0 in
    let fourth : get8 m (p + 3) ≡ ok (len % 256) = rw (← place') h.1.1.1.0 in
    let both : bit_or (len / 256 * 2 ^ 8) (len % 256) ≡ len =
      bit_or_comm (len / 256 * 2 ^ 8) (len % 256)
      ∙ bit_or-shift 8 (len % 256) (len / 256) (len / 256 * 2 ^ 8) (omega arith) refl
      ∙ omega arith in
    let whole : len % 2 ^ 16 ≡ len = omega arith in
    rw (h.0, h.1.0, third, fourth, long, both, whole) refl

-- The header that the parser reads.
pub read_header-head :
    (m : Bytes) (p : ℕ) (a : Attribute)
    → IsAttribute a
    → Holds m p (head a)
    → read_header m p
      ≡ ok (record {
        flags = a.flags;
        type_code = a.type_code;
        attr_length = length a.value;
        value = p + length (head a);
      })
read_header-head m p a i h = elim (Bool-cases (is_short a)) [
  | inl short ↦
      let held : Holds m p (a.flags ∷ a.type_code ∷ length a.value ∷ []) =
        subst (λ b. Holds m p (head_of b a)) short h in
      rw short (read_short m p a.flags a.type_code (length a.value) short held)
  | inr long ↦
      let held : Holds m p
          (a.flags ∷ a.type_code ∷ (length a.value / 256) ∷ (length a.value % 256) ∷ []) =
        subst (λ b. Holds m p (head_of b a)) long h in
      rw long (read_long m p a.flags a.type_code (length a.value) long i.size held)
]
