-- ===== src/Prelude/Bits.antt =====
-- The bit operations at variables: masks of low bits, and the disjoint `|` as a sum.
use Prim.Native.Nat.{
  ℕ, zero, suc, ◌+◌, ◌*◌, ◌/◌, ◌%◌, ◌^◌, ◌≤◌, ◌<◌, min, max, bit_and, bit_or, digits,
  bit_and-bitwise, bit_or-bitwise,
}
use mathlib.Core.Path.{◌≡◌, refl, ap, sym, ◌∙◌}
use native.Mathlib.Nat.{
  pow-suc, pow-zero, zero-add, add-zero, add-suc, mul_assoc, mul-add-div_right, div-eq_of_lt,
  div-add-mod', mod-lt,
}
use native.Mathlib.Omega.{arith}

-- Both operations go over the digits with an operation `op` on one digit, and `rest` where the first
-- number has run out.
module _ (rest : ℕ → ℕ) (op : ℕ → ℕ → ℕ) where
  -- A count of digits that covers the first number is as good as any other.
  digits-eq :
      (a : ℕ) {k j : ℕ} (b : ℕ) → a ≤ k → a ≤ j → digits rest op k a b ≡ digits rest op j a b
  digits-eq zero {k = zero} {j = zero} b hk hj = refl
  digits-eq zero {k = zero} {j = suc j} b hk hj = refl
  digits-eq zero {k = suc k} {j = zero} b hk hj = refl
  digits-eq zero {k = suc k} {j = suc j} b hk hj = refl
  digits-eq (suc a) {k = zero} b hk hj = absurd (omega arith)
  digits-eq (suc a) {k = suc k} {j = zero} b hk hj = absurd (omega arith)
  digits-eq (suc a) {k = suc k} {j = suc j} b hk hj =
      let higher = digits-eq (suc a / 2) {k = k} {j = j} (b / 2) (omega arith) (omega arith) in
      ap (λ (t : ℕ). t * 2 + op (suc a % 2) (b % 2)) higher

  -- The lowest digit, and the others.
  digits-halves :
      (a b : ℕ)
      → rest b ≡ rest (b / 2) * 2 + op 0 (b % 2)
      → digits rest op a a b ≡ digits rest op (a / 2) (a / 2) (b / 2) * 2 + op (a % 2) (b % 2)
  digits-halves zero b at_end = at_end
  digits-halves (suc a) b at_end =
      ap (λ (t : ℕ). t * 2 + op (suc a % 2) (b % 2))
        (digits-eq (suc a / 2) {k = a} {j = suc a / 2} (b / 2) (omega arith) (omega arith))

and-halves : (a b : ℕ) → bit_and a b ≡ bit_and (a / 2) (b / 2) * 2 + min (a % 2) (b % 2)
and-halves a b =
    let d = digits-halves (λ b. zero) min a b (omega arith) in
    omega (arith, d, bit_and-bitwise a b, bit_and-bitwise (a / 2) (b / 2))

or-halves : (a b : ℕ) → bit_or a b ≡ bit_or (a / 2) (b / 2) * 2 + max (a % 2) (b % 2)
or-halves a b =
    let d = digits-halves (λ b. b) max a b (omega arith) in
    omega (arith, d, bit_or-bitwise a b, bit_or-bitwise (a / 2) (b / 2))

zero-bit_or : (b : ℕ) → bit_or 0 b ≡ b
zero-bit_or b = bit_or-bitwise 0 b

-- With 0 on the right, by as many halvings as `k`.
or_nothing : (k : ℕ) {a : ℕ} → a ≤ k → bit_or a 0 ≡ a
or_nothing k {a = zero} small = zero-bit_or 0
or_nothing zero {a = suc a} small = absurd (omega arith)
or_nothing (suc k) {a = suc a} small =
    let half = or_nothing k {a = suc a / 2} (omega arith) in omega (arith, or-halves (suc a) 0)

and_nothing : (k : ℕ) {a : ℕ} → a ≤ k → bit_and a 0 ≡ 0
and_nothing k {a = zero} small = bit_and-bitwise 0 0
and_nothing zero {a = suc a} small = absurd (omega arith)
and_nothing (suc k) {a = suc a} small =
    let half = and_nothing k {a = suc a / 2} (omega arith) in omega (arith, and-halves (suc a) 0)

-- `a | (b << k)` is a sum where `a` is below the shifted bits.
pub bit_or-shift : (k a b s : ℕ) → a < 2 ^ k → s ≡ b * 2 ^ k → bit_or a s ≡ a + s
bit_or-shift zero a b s h e = let z : a ≡ 0 = omega arith in rw (z, zero-bit_or, zero-add)
bit_or-shift (suc k) a b s h e =
    let p = pow-suc 2 k in
    let t : b * 2 ^ suc k ≡ 2 * (b * 2 ^ k) = omega (arith, ap (λ (t : ℕ). b * t) p) in
    let r : bit_or (a / 2) (s / 2) ≡ a / 2 + s / 2 =
      bit_or-shift k (a / 2) b (s / 2) (omega arith) (omega arith) in
    omega (arith, or-halves a s)

-- Quotient and remainder are determined.
pub div-of_eq : (m q r : ℕ) {n : ℕ} → r < m → n ≡ q * m + r → n / m ≡ q
div-of_eq m q r h e =
    rw e
      (omega (arith, mul-add-div_right {m = m} (omega arith) q r, div-eq_of_lt {n = r} {m = m} h))

pub mod-of_eq : (m q r : ℕ) {n : ℕ} → r < m → n ≡ q * m + r → n % m ≡ r
mod-of_eq m q r {n} h e =
    let d = ap (λ (t : ℕ). t * m) (div-of_eq m q r h e) in omega (arith, div-add-mod' n m)

half_mod : (a p : ℕ) → 0 < p → (a / 2 % p) * 2 + a % 2 ≡ a % (p * 2)
half_mod a p h =
    let r : a / 2 % p < p = mod-lt (a / 2) h in
    sym (
      mod-of_eq (p * 2) (a / 2 / p) (a / 2 % p * 2 + a % 2) (omega arith)
        (omega (arith, div-add-mod' (a / 2) p)))

-- `a & (2^k - 1)` is the remainder: the mask is written as the number below a power.
pub bit_and-mask : (k a m : ℕ) → m + 1 ≡ 2 ^ k → bit_and a m ≡ a % 2 ^ k
bit_and-mask zero a m e =
    let z : m ≡ 0 = omega arith in rw z (omega (arith, and_nothing a {a = a} (omega arith)))
bit_and-mask (suc k) a m e =
    let p = pow-suc 2 k in
    let r : bit_and (a / 2) (m / 2) ≡ a / 2 % 2 ^ k =
      bit_and-mask k (a / 2) (m / 2) (omega arith) in
    rw p (omega (arith, and-halves a m, half_mod a (2 ^ k) (omega arith)))

pub pow-add : (k m n : ℕ) → k ^ (m + n) ≡ k ^ m * k ^ n
pow-add k m zero = rw (add-zero, pow-zero) (omega arith)
pow-add k m (suc n) = rw (add-suc, pow-suc, pow-suc, pow-add k m n) (mul_assoc (k ^ m) (k ^ n) k)

pub pow_pos : (k : ℕ) → 0 < 2 ^ k
pow_pos zero = omega arith
pow_pos (suc k) = omega (arith, pow_pos k, pow-suc 2 k)

bit_or_comm_fuel : (n a b : ℕ) → a ≤ n → bit_or a b ≡ bit_or b a
bit_or_comm_fuel n zero b h = omega (arith, zero-bit_or b, or_nothing b {a = b} (omega arith))
bit_or_comm_fuel zero (suc a) b h = absurd (omega arith)
bit_or_comm_fuel (suc n) (suc a) b h = omega (
  arith,
  or-halves (suc a) b,
  or-halves b (suc a),
  bit_or_comm_fuel n (suc a / 2) (b / 2) (omega arith),
)

pub bit_or_comm : (a b : ℕ) → bit_or a b ≡ bit_or b a
bit_or_comm a b = bit_or_comm_fuel a a b (omega arith)

bit_and_comm_fuel : (n : ℕ) {a : ℕ} (b : ℕ) → a ≤ n → bit_and a b ≡ bit_and b a
bit_and_comm_fuel n {a = zero} b h = bit_and-bitwise 0 b ∙ sym (and_nothing b {a = b} (omega arith))
bit_and_comm_fuel zero {a = suc a} b h = absurd (omega arith)
bit_and_comm_fuel (suc n) {a = suc a} b h =
    let halves = bit_and_comm_fuel n {a = suc a / 2} (b / 2) (omega arith) in
    omega (arith, and-halves (suc a) b, and-halves b (suc a))

pub bit_and_comm : (a b : ℕ) → bit_and a b ≡ bit_and b a
bit_and_comm a b = bit_and_comm_fuel a {a = a} b (omega arith)
