-- ===== src/Nlri/Decode.antt =====
-- `nlri_iter` and `build_nlri` against the encoding of a prefix as a list of bytes.
use fastparse.Prelude.{
  ℕ, zero, suc, ◌+◌, ◌-◌, ◌*◌, ◌/◌, ◌%◌, ◌^◌, ◌≡◌, ◌≤◌, ◌<◌, refl, [], ◌∷◌, length, arith, ok, ◌∙◌,
  ap,
}
use native.Mathlib.Nat.{mod-mod}
use fastparse.Prelude.Bits.{bit_or-shift}
use fastparse.Bytes.{Bytes, put8, bswap_32}
use fastparse.Bytes.Regions.{Holds, Writes, Writes-nil, Writes-append, put8-Writes}
use fastparse.Nlri.{chunksize, align, accumulate, nlri_iter, emit, build_nlri}

-- The first `n` bytes of an address, the highest first.
abbrev pub address_bytes : ℕ → ℕ → Bytes
address_bytes zero a = []
address_bytes (suc n) a = (a / 2 ^ 24 % 256) ∷ address_bytes n (a * 2 ^ 8 % 2 ^ 32)

-- A prefix on the wire: its length, and the bytes of the address that the length needs.
abbrev pub wire : ℕ → ℕ → Bytes
wire len address = len ∷ address_bytes (chunksize len) address

-- An address of `n` chunks has no bits behind them.
abbrev pub Fits : ℕ → ℕ → Type 0
Fits n address = (address < 2 ^ 32) × (address % 2 ^ (8 * (4 - n)) ≡ 0)

pub length-address_bytes : (n a : ℕ) → length (address_bytes n a) ≡ n
length-address_bytes zero a = refl
length-address_bytes (suc n) a = ap suc (length-address_bytes n (a * 2 ^ 8 % 2 ^ 32))

swap_shift : (a : ℕ) → a < 2 ^ 32 → bswap_32 a / 2 ^ 8 ≡ bswap_32 (a * 2 ^ 8 % 2 ^ 32)
unfolding bswap_32
swap_shift a h = omega arith

swap_low : (a : ℕ) → a < 2 ^ 32 → bswap_32 a % 256 ≡ a / 2 ^ 24 % 256
unfolding bswap_32
swap_low a h = omega arith

pub emit-Writes :
    (n : ℕ) (m : Bytes) (p a : ℕ)
    → a < 2 ^ 32
    → p + n ≤ length m
    → (m' : Bytes) × (emit n m p (bswap_32 a) ≡ ok (m', p + n)) × Writes m p (address_bytes n a) m'
unfolding emit
emit-Writes zero m p a ha h = (m, ground arith, Writes-nil m p)
emit-Writes (suc n) m p a ha h =
    let b : ℕ = a * 2 ^ 8 % 2 ^ 32 in
    let (m₁, e₁, w₁) =
      put8-Writes m p (bswap_32 a % 256) (a / 2 ^ 24 % 256)
        (mod-mod (bswap_32 a) 256 ∙ swap_low a ha) (omega arith) in
    let (m₂, e₂, w₂) = emit-Writes n m₁ (p + 1) b (omega arith) (omega (arith, w₁.same_length)) in
    (
      m₂,
      rw (e₁, swap_shift a ha, e₂) (ap (λ (t : ℕ). ok (m₂, t)) (omega arith)),
      Writes-append p (p + 1) ((a / 2 ^ 24 % 256) ∷ []) (address_bytes n b) refl w₁ w₂,
    )

pub accumulate-four :
    (n : ℕ) (m : Bytes) (p a : ℕ)
    → n ≤ 4
    → a < 2 ^ 32
    → Holds m p (address_bytes n a)
    → accumulate n m p 0 ≡ ok (a / 2 ^ (8 * (4 - n)), p + n)
unfolding accumulate
accumulate-four zero m p a hn ha h = ground arith
accumulate-four (suc zero) m p a hn ha h = ground arith
accumulate-four (suc (suc zero)) m p a hn ha h = ground arith
accumulate-four (suc (suc (suc zero))) m p a hn ha h = ground arith
accumulate-four (suc (suc (suc (suc zero)))) m p a hn ha h = ground arith
accumulate-four (suc (suc (suc (suc (suc n))))) m p a hn ha h = absurd (omega arith)

align_lem : (n a : ℕ) → 0 < n → n ≤ 4 → Fits n a → align (a / 2 ^ (8 * (4 - n))) n ≡ ok a
align_lem zero a lo hn f = absurd (omega arith)
align_lem (suc zero) a lo hn f = ground arith
align_lem (suc (suc zero)) a lo hn f = ground arith
align_lem (suc (suc (suc zero))) a lo hn f = ground arith
align_lem (suc (suc (suc (suc zero)))) a lo hn f = ground arith
align_lem (suc (suc (suc (suc (suc n))))) a lo hn f = absurd (omega arith)

-- `nlri_iter` on the encoding of a prefix of 1 to 32 bits returns that prefix, and the pointer behind.
pub nlri_iter-wire :
    (m : Bytes) (p len a : ℕ)
    → 0 < len
    → len ≤ 32
    → Fits (chunksize len) a
    → Holds m p (wire len a)
    → nlri_iter m p ≡ ok (a + len * 2 ^ 32, p + 1 + chunksize len)
unfolding nlri_iter
nlri_iter-wire m p len a lo hi f h =
    let four = accumulate-four (chunksize len) m (p + 1) a (omega arith) f.0 h.1 in
    let back = align_lem (chunksize len) a (omega arith) (omega arith) f in
    rw (h.0, four, back, bit_or-shift 32 a len (len * 2 ^ 32) f.0 refl)

build_nlri_lem :
    (m m₁ : Bytes) (p len a : ℕ) {r : Bytes × ℕ}
    → len < 256
    → a < 2 ^ 32
    → put8 m p len ≡ ok m₁
    → emit (chunksize len) m₁ (p + 1) (bswap_32 a) ≡ ok r
    → build_nlri m p (a + len * 2 ^ 32) ≡ ok r
unfolding build_nlri
build_nlri_lem m m₁ p len a hl ha e₁ e₂ =
    let low : (a + len * 2 ^ 32) % 2 ^ 32 ≡ a = omega arith in
    let high : (a + len * 2 ^ 32) / 2 ^ 32 % 256 ≡ len = omega arith in rw (high, low, e₁) e₂

-- `build_nlri` writes the encoding of its prefix, and returns the pointer behind it.
pub build_nlri-Writes :
    (m : Bytes) (p len a : ℕ)
    → len < 256
    → a < 2 ^ 32
    → p + 1 + chunksize len ≤ length m
    → (m' : Bytes) × (build_nlri m p (a + len * 2 ^ 32) ≡ ok (m', p + 1 + chunksize len))
      × Writes m p (wire len a) m'
build_nlri-Writes m p len a hl ha h =
    let (m₁, e₁, w₁) = put8-Writes m p len len (omega arith) (omega arith) in
    let (m₂, e₂, w₂) =
      emit-Writes (chunksize len) m₁ (p + 1) a ha (omega (arith, w₁.same_length)) in
    (
      m₂,
      build_nlri_lem m m₁ p len a hl ha e₁ e₂,
      Writes-append p (p + 1) (len ∷ []) (address_bytes (chunksize len) a) refl w₁ w₂,
    )
