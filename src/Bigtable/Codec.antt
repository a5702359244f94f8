-- ===== src/Bigtable/Codec.antt =====
-- `encode` and `decode`: a prefix of 24 bits or fewer as a 25-bit number, and back.
use native.Mathlib.Nat.{pow-suc, div-lt_iff_lt-mul, add-mul-div_right}
use fastparse.Prelude.{
  ℕ, zero, suc, ◌+◌, ◌-◌, ◌*◌, ◌/◌, ◌%◌, ◌^◌, ◌≡◌, ◌≤◌, ◌<◌, refl, bit_or, arith, ok, err,
  undefined, ap, ◌∙◌, lt→ltb,
}
use fastparse.Prelude.Bits.{bit_or-shift, bit_or_comm, pow-add, pow_pos, mod-of_eq}
use fastparse.Bigtable.{ribsize, bit_length, clz, encode, decode}

-- The prefix with the address bits behind its length cleared.
abbrev pub canonical : ℕ → ℕ → ℕ
canonical l a = a / 2 ^ (32 - l) * 2 ^ (32 - l) + l * 2 ^ 32

-- The place of a prefix in `RIB`.
abbrev pub slot : ℕ → ℕ → ℕ
slot l a = 2 ^ l + a / 2 ^ (32 - l)

powers : (l : ℕ) → l ≤ 32 → 2 ^ l * 2 ^ (32 - l) ≡ 2 ^ 32
powers l h =
    let e : l + (32 - l) ≡ 32 = omega arith in rw (← pow-add 2 l (32 - l)) (ap (λ (t : ℕ). 2 ^ t) e)

bit_length_lem : (l fuel x : ℕ) → l < fuel → 2 ^ l ≤ x → x < 2 ^ l * 2 → bit_length fuel x ≡ l + 1
unfolding bit_length
bit_length_lem l zero x h lo hi = absurd (omega arith)
bit_length_lem zero (suc zero) x h lo hi = ground arith
bit_length_lem zero (suc (suc fuel)) x h lo hi = ground arith
bit_length_lem (suc l) (suc fuel) x h lo hi =
    let p = pow-suc 2 l in
    let rest = bit_length_lem l fuel (x / 2) (omega arith) (omega arith) (omega arith) in
    ground (arith, rest, pow_pos l)

-- `31 - __builtin_clz (x)` is the place of the highest digit.
clz_lem : (l x : ℕ) → l < 32 → 2 ^ l ≤ x → x < 2 ^ l * 2 → clz x ≡ ok (31 - l)
unfolding clz
clz_lem l x h lo hi = ground (arith, bit_length_lem l 32 x h lo hi, pow_pos l)

pow_le : (l k : ℕ) → l ≤ k → 2 ^ l ≤ 2 ^ k
pow_le l k h =
    let e : l + (k - l) ≡ k = omega arith in
    let p : 2 ^ k ≡ 2 ^ l * 2 ^ (k - l) = rw (← pow-add 2 l (k - l), e) in
    let q = pow_pos (k - l) in grind arith

-- The address above its host bits has `l` digits.
pub encode-lt : (l a : ℕ) → l ≤ 32 → a < 2 ^ 32 → a / 2 ^ (32 - l) < 2 ^ l
encode-lt l a h ha = (div-lt_iff_lt-mul (pow_pos (32 - l))).1 (omega (arith, powers l h))

leading_one : (a : ℕ) → a < 2 ^ 32 → bit_or 0x1_0000_0000 a ≡ a + 2 ^ 32
leading_one a ha = bit_or_comm 0x1_0000_0000 a ∙ bit_or-shift 32 a 1 (2 ^ 32) ha refl

-- `encode` shifts the address down behind a leading one, and loses nothing of it to the width.
pub encode_lem : (l a : ℕ) → l < 25 → a < 2 ^ 32 → encode l a ≡ ok (2 ^ l + a / 2 ^ (32 - l))
unfolding encode
encode_lem l a h ha =
    let d : (a + 2 ^ 32) / 2 ^ (32 - l) ≡ a / 2 ^ (32 - l) + 2 ^ l =
      rw (← powers l (omega arith)) (add-mul-div_right a (2 ^ l) (pow_pos (32 - l))) in
    rw (lt→ltb l 25 h, leading_one a ha, d)
      (ap (λ (t : ℕ). ok t)
        (omega (arith, encode-lt l a (omega arith) ha, pow_le l 24 (omega arith))))

-- The code's test against RIBSIZE never fails.
pub encode-lt-ribsize : (l a : ℕ) → l < 25 → a < 2 ^ 32 → 2 ^ l + a / 2 ^ (32 - l) < ribsize
encode-lt-ribsize l a h ha =
    omega (arith, encode-lt l a (omega arith) ha, pow_le l 24 (omega arith))

shift_back : (l h : ℕ) → l ≤ 32 → h < 2 ^ l → (2 ^ l + h) * 2 ^ (32 - l) % 2 ^ 32 ≡ h * 2 ^ (32 - l)
shift_back l h hl hh =
    let p = powers l hl in
    let q = pow_pos (32 - l) in mod-of_eq (2 ^ 32) 1 (h * 2 ^ (32 - l)) (grind arith) (omega arith)

-- `decode` of such a number, of 1 digit or more.
pub decode_lem :
    (l h : ℕ) → 0 < l → l < 32 → h < 2 ^ l → decode (2 ^ l + h) ≡ ok (h * 2 ^ (32 - l) + l * 2 ^ 32)
unfolding decode
decode_lem l h lo hi hh =
    let e : 31 - (31 - l) ≡ l = omega arith in
    let lt : h * 2 ^ (32 - l) < 2 ^ 32 =
      let p = powers l (omega arith) in let q = pow_pos (32 - l) in grind arith in
    rw (
      clz_lem l (2 ^ l + h) hi (omega arith) (omega arith),
      e,
      lt→ltb (32 - l) 32 (omega arith),
      shift_back l h (omega arith) hh,
      bit_or_comm (l * 2 ^ 32) (h * 2 ^ (32 - l)),
      bit_or-shift 32 (h * 2 ^ (32 - l)) l (l * 2 ^ 32) lt refl,
    )

-- For a prefix of 1 to 24 bits `encode` returns, its result is inside RIBSIZE and not 0, and `decode`
-- of the result returns the prefix with the address bits behind its length cleared.
pub decode-encode :
    (l a : ℕ)
    → 0 < l
    → l < 25
    → a < 2 ^ 32
    → (ref : ℕ) × (encode l a ≡ ok ref)
      × (ref < ribsize)
      × (0 < ref)
      × (decode ref ≡ ok (canonical l a))
decode-encode l a lo hi ha =
    let h = encode-lt l a (omega arith) ha in
    (
      2 ^ l + a / 2 ^ (32 - l),
      encode_lem l a hi ha,
      encode-lt-ribsize l a hi ha,
      omega arith,
      decode_lem l (a / 2 ^ (32 - l)) lo (omega arith) h,
    )

-- `encode` of the prefix of no bits is 1 whatever the address, and `decode` of 1 shifts a 32-bit
-- word by 32, which C leaves undefined.
pub decode-encode_zero : (a : ℕ) → a < 2 ^ 32 → (encode 0 a ≡ ok 1) × (decode 1 ≡ err undefined)
unfolding decode
decode-encode_zero a ha =
    (encode_lem 0 a (omega arith) ha ∙ ap (λ (t : ℕ). ok t) (omega arith), refl)
