-- ===== src/Serialize/Steps.antt =====
-- The statements of the serialisers, one at a time.
use fastparse.Prelude.{
  ℕ, ◌+◌, ◌*◌, ◌/◌, ◌%◌, ◌^◌, ◌≡◌, ◌≤◌, refl, ap, subst, sym, ◌∙◌, bit_and, Option, none, some, [],
  ◌∷◌, ◌++◌, arith, Result, ok, ◌>>=◌, >>=-eq-ok, length, length-append, All,
}
use fastparse.Bytes.{Bytes, IsByte, store32, bswap_32}
use fastparse.Bytes.Regions.{Holds, Writes, Writes-nil, Writes-append, put8-Writes}
use fastparse.Serialize.{Writer, emit8, emit_header, emit_bytes, emit32, set, set4, copy}
use fastparse.Serialize.Copy.{memcpy-Writes}
use fastparse.Serialize.Block.{Attribute}
use fastparse.Serialize.Find.{Current}
use fastparse.Serialize.Picked.{header, copied, Wrote, emit_header-Writes, three}

-- A header, and so many bytes from the block.
head_and_bytes :
    (src : Bytes) (w : Writer) (flags type_code p : ℕ) (xs : Bytes)
    → Holds src p xs
    → All IsByte xs
    → w.q + length (header (length xs) flags type_code ++ xs) ≤ length w.out
    → (out' : Bytes) × ((emit_header w (length xs) flags type_code >>= λ v.
          emit_bytes v (length xs) src p)
        ≡ ok (record w {
          out = out';
          q = w.q + length (header (length xs) flags type_code) + length xs;
        }))
      × Writes w.out w.q (header (length xs) flags type_code ++ xs) out'
unfolding emit_bytes
head_and_bytes src w flags type_code p xs h bytes room =
    let n = length-append (header (length xs) flags type_code) xs in
    let (a, e₁, w₁) = emit_header-Writes w (length xs) flags type_code (omega arith) in
    let q = w.q + length (header (length xs) flags type_code) in
    let (b, e₂, w₂) = memcpy-Writes xs src a p q h bytes (omega (arith, w₁.same_length)) in
    (b, rw (e₁, e₂) refl, Writes-append w.q q (header (length xs) flags type_code) xs refl w₁ w₂)

-- What a statement leaves: it has written some bytes.
pub record Did (w : Writer) (xs : Bytes) (m : Result Writer) : Type 0 where
  pub after : Writer
  pub returns : m ≡ ok after
  pub wrote : Wrote w xs after

set_at :
    (src : Bytes) (w : Writer) (n flags type_code p : ℕ) {o : Option ℕ} {u : Writer}
    → o ≡ some p
    → (emit_header w n flags type_code >>= λ v. emit_bytes v n src p) ≡ ok u
    → set src w n flags type_code o ≡ ok u
unfolding set
set_at src w n flags type_code p {o} {u} at e =
    subst (λ o. set src w n flags type_code o ≡ ok u) (sym at) e

copy_at :
    (src : Bytes) (w : Writer) (p : ℕ) {n flags type_code : ℕ} {u : Writer}
    → w.attr_ptr ≡ some p
    → w.attr_length ≡ n
    → w.flags ≡ flags
    → w.type_code ≡ type_code
    → (emit_header w n flags type_code >>= λ v. emit_bytes v n src p) ≡ ok u
    → copy src w ≡ ok u
unfolding copy
copy_at src w p {n} {flags} {type_code} {u} at len same_flags kind e =
    let write : ℕ → ℕ → ℕ → Result Writer =
      λ n f t. emit_header w n f t >>= λ v. emit_bytes v n src p in
    subst
      (λ o.
        elim o [
          | none ↦ ok w
          | some p ↦ emit_header w w.attr_length w.flags w.type_code >>= λ v.
              emit_bytes v w.attr_length src p
        ]
        ≡ ok u)
      (sym at)
      (ap (λ n. write n w.flags w.type_code) len
        ∙ ap (λ f. write n f w.type_code) same_flags
        ∙ ap (λ t. write n flags t) kind
        ∙ e)

pub copy-Did :
    (src : Bytes) (w : Writer) (found : Option Attribute)
    → Current src w found
    → w.q + length (copied found) ≤ length w.out
    → Did w (copied found) (copy src w)
unfolding copy
copy-Did src w none c room = record {
  after = w;
  returns = rw c refl;
  wrote = record { writes = Writes-nil w.out w.q; q = omega arith; r = refl };
}
copy-Did src w (some a) (p, at, value, flags, kind, len, behind, valid) room =
    let (m, e, v) = head_and_bytes src w a.flags a.type_code p a.value value valid.bytes room in
    let n = length-append (header (length a.value) a.flags a.type_code) a.value in
    record {
      after = record w {
        out = m;
        q = w.q + length (header (length a.value) a.flags a.type_code) + length a.value;
      };
      returns = copy_at src w p at len flags kind e;
      wrote = record { writes = v; q = omega arith; r = refl };
    }

-- The first byte of the attribute that was found.
pub set-Did :
    (src : Bytes) (w : Writer) (a : Attribute) (b : ℕ) (bs : Bytes) (flags type_code : ℕ)
    → a.value ≡ b ∷ bs
    → Current src w (some a)
    → w.q + length (header 1 flags type_code ++ (b ∷ [])) ≤ length w.out
    → Did w (header 1 flags type_code ++ (b ∷ [])) (set src w 1 flags type_code w.attr_ptr)
unfolding set
set-Did src w a b bs flags type_code starts (p, at, value, same_flags, kind, len, behind, valid)
      room =
    let held : Holds src p (b ∷ bs) = subst (λ v. Holds src p v) starts value in
    let valid : All IsByte (b ∷ bs) = subst (λ v. All IsByte v) starts valid.bytes in
    let (m, e, v) =
      head_and_bytes src w flags type_code p (b ∷ []) (held.0, tt) (valid.0, tt) room in
    record {
      after = record w { out = m; q = w.q + length (header 1 flags type_code) + 1 };
      returns = set_at src w 1 flags type_code p at e;
      wrote = record { writes = v; q = omega arith; r = refl };
    }

-- The four bytes of a word, the highest first.
abbrev pub word_bytes : ℕ → Bytes
word_bytes v = (v / 2 ^ 24 % 256) ∷ (v / 2 ^ 16 % 256) ∷ (v / 2 ^ 8 % 256) ∷ (v % 256) ∷ []

pub store32-Writes :
    (m : Bytes) (p v : ℕ)
    → p + 4 ≤ length m
    → (m' : Bytes) × (store32 m p (bswap_32 v) ≡ ok m') × Writes m p (word_bytes v) m'
unfolding store32 bswap_32
store32-Writes m p v room =
    let w =
      v % 256 * 2 ^ 24 + v / 2 ^ 8 % 256 * 2 ^ 16 + v / 2 ^ 16 % 256 * 2 ^ 8 + v / 2 ^ 24 % 256 in
    let (m₁, e₁, w₁) = put8-Writes m p (w % 256) (v / 2 ^ 24 % 256) (omega arith) (omega arith) in
    let (m₂, e₂, w₂) =
      put8-Writes m₁ (p + 1) (w / 2 ^ 8) (v / 2 ^ 16 % 256) (omega arith)
        (omega (arith, w₁.same_length)) in
    let (m₃, e₃, w₃) =
      put8-Writes m₂ (p + 2) (w / 2 ^ 16) (v / 2 ^ 8 % 256) (omega arith)
        (omega (arith, w₁.same_length, w₂.same_length)) in
    let (m₄, e₄, w₄) =
      put8-Writes m₃ (p + 3) (w / 2 ^ 24) (v % 256) (omega arith)
        (omega (arith, w₁.same_length, w₂.same_length, w₃.same_length)) in
    let tail =
      Writes-append {m = m₂} {m' = m₃} {m'' = m₄} (p + 2) (p + 3) ((v / 2 ^ 8 % 256) ∷ [])
        ((v % 256) ∷ []) (omega arith) w₃ w₄ in
    let low =
      Writes-append {m = m₁} {m' = m₂} {m'' = m₄} (p + 1) (p + 2) ((v / 2 ^ 16 % 256) ∷ [])
        ((v / 2 ^ 8 % 256) ∷ (v % 256) ∷ []) (omega arith) w₂ tail in
    (
      m₄,
      rw (e₁, e₂, e₃) e₄,
      Writes-append {m = m} {m' = m₁} {m'' = m₄} p (p + 1) ((v / 2 ^ 24 % 256) ∷ [])
          ((v / 2 ^ 16 % 256) ∷ (v / 2 ^ 8 % 256) ∷ (v % 256) ∷ []) (omega arith) w₁ low,
    )

three_then :
    (w : Writer) (a b c : ℕ) (k : Writer → Result Writer) {u : Writer}
    → (emit8 w a >>= λ v. emit8 v b >>= λ v. emit8 v c) ≡ ok u
    → (emit8 w a >>= λ v. emit8 v b >>= λ v. emit8 v c >>= k) ≡ k u
three_then w a b c k e =
    let (v₁, e₁, after) = >>=-eq-ok (emit8 w a) (λ v. emit8 v b >>= λ v. emit8 v c) e in
    let (v₂, e₂, e₃) = >>=-eq-ok (emit8 v₁ b) (λ v. emit8 v c) after in rw (e₁, e₂, e₃) refl

abbrev pub set4_bytes : ℕ → ℕ → ℕ → Bytes
set4_bytes flags type_code v = (bit_and flags 0xef % 256) ∷ (type_code % 256) ∷ 4 ∷ word_bytes v

pub set4-Did :
    (w : Writer) (flags type_code v : ℕ)
    → w.q + 7 ≤ length w.out
    → Did w (set4_bytes flags type_code v) (set4 w flags type_code v)
unfolding set4 emit32
set4-Did w flags type_code v room =
    let (m₁, e₁, w₁) = three w (bit_and flags 0xef) type_code 4 (omega arith) in
    let (m₂, e₂, w₂) = store32-Writes m₁ (w.q + 3) v (omega (arith, w₁.same_length)) in
    let front = (bit_and flags 0xef % 256) ∷ (type_code % 256) ∷ 4 ∷ [] in
    record {
      after = record w { out = m₂; q = w.q + 3 + 4 };
      returns = three_then w (bit_and flags 0xef) type_code 4 (λ u. emit32 u v) e₁ ∙ rw e₂ refl;
      wrote = record {
        writes = Writes-append w.q (w.q + 3) front (word_bytes v) refl w₁ w₂;
        q = omega arith;
        r = refl;
      };
    }
