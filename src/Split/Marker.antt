-- ===== src/Split/Marker.antt =====
-- Where the chunks begin and end.
use fastparse.Prelude.{
  ℕ, zero, suc, ◌+◌, ◌-◌, ◌*◌, ◌/◌, ◌%◌, ◌^◌, ◌≡◌, ◌≢◌, ◌≤◌, ◌<◌, refl, ◌==◌, if◌then◌else◌, List,
  [], ◌∷◌, arith, Result, ok, ◌>>◌, assert, >>=-eq-ok, true, false, sym, ◌∙◌, Bool, ==_iff,
}
use native.Mathlib.Decide.{ℕ_discrete}
use fastparse.Bytes.{Bytes, get8}
use fastparse.Split.{Buf, next_count, scan, split_from, split_buf}

-- `k` bytes 0xff stand from `p` on.
abbrev pub Ones : Bytes → ℕ → ℕ → Type 0
Ones m p zero = Unit
Ones m p (suc k) = (get8 m p ≡ ok 0xff) × Ones m (p + 1) k

next_count_hit : (b k : ℕ) → b ≡ 0xff → k < 16 → next_count b k ≡ k + 1
unfolding next_count
next_count_hit b k h hk = ground arith

next_count_miss : (b k : ℕ) → b ≢ 0xff → next_count b k ≡ 0
unfolding next_count
next_count_miss b k h = ground arith

scan_hit :
    (m : Bytes) (base n k b : ℕ)
    → get8 m (base + suc n) ≡ ok b
    → b ≡ 0xff
    → k < 16
    → scan m base (suc n) k ≡ (if k == 15 then ok (suc n, 16) else scan m base n (k + 1))
unfolding scan
scan_hit m base n k b e h hk = rw (e, next_count_hit b k h hk) (ground arith)

scan_miss :
    (m : Bytes) (base n k b : ℕ)
    → get8 m (base + suc n) ≡ ok b
    → b ≢ 0xff
    → scan m base (suc n) k ≡ scan m base n 0
unfolding scan
scan_miss m base n k b e h = rw (e, next_count_miss b k h)

scan-get8 :
    (m : Bytes) (base n k : ℕ) {r : ℕ × ℕ}
    → scan m base (suc n) k ≡ ok r
    → (b : ℕ) × (get8 m (base + suc n) ≡ ok b)
unfolding scan
scan-get8 m base n k e = let (b, e₁, k₁) = >>=-eq-ok (get8 m (base + suc n)) _ e in (b, e₁)

-- What a search that ends with a count of 16 found: 16 bytes 0xff at the offset `o`.
pub record Found (m : Bytes) (base offset o : ℕ) : Type 0 where
  pub below : o ≤ offset
  pub pos : 0 < o
  pub ones : Ones m (base + o) 16

scan-Found :
    (m : Bytes) (base offset k o k' q : ℕ)
    → k < 16
    → q ≡ base + offset + 1
    → Ones m q k
    → scan m base offset k ≡ ok (o, k')
    → k' ≡ 16
    → Found m base offset o
unfolding scan
scan-Found m base zero k o k' q hk eq ones e z = absurd (ground arith)
scan-Found m base (suc n) k o k' q hk eq ones e z =
    let (b, e₁) = scan-get8 m base n k e in
    elim (ℕ_discrete b 0xff) [
      | yes hit ↦ elim (ℕ_discrete k 15) [
        | yes full ↦
            let same : suc n ≡ o = ground (arith, scan_hit m base n k b e₁ hit hk) in
            record {
              below = omega arith;
              pos = omega arith;
              ones = rw (← same) (rw hit at e₁, rw (eq, full) at ones);
            }
        | no less ↦
            let step : scan m base n (k + 1) ≡ ok (o, k') =
              ground (arith, scan_hit m base n k b e₁ hit hk) in
            let at : base + suc n ≡ base + n + 1 = omega arith in
            let one : get8 m (base + n + 1) ≡ ok 0xff = rw (at, hit) at e₁ in
            let behind : q ≡ base + n + 1 + 1 = omega arith in
            let more : Ones m (base + n + 1) (suc k) = (one, rw behind at ones) in
            let same : k + 1 ≡ suc k = omega arith in
            let f =
              scan-Found m base n (suc k) o k' (base + n + 1) (omega arith) refl more
                (rw same at step) z in
            record { below = omega (arith, f.below); pos = f.pos; ones = f.ones }
      ]
      | no miss ↦
          let step : scan m base n 0 ≡ ok (o, k') = sym (scan_miss m base n k b e₁ miss) ∙ e in
          let f = scan-Found m base n 0 o k' (base + n + 1) (omega arith) refl tt step z in
          record { below = omega (arith, f.below); pos = f.pos; ones = f.ones }
    ]

-- The chunks of `split_buf`: each begins where the one before it ends, the first at the start of the
-- input, and each ends at 16 bytes 0xff, at or before its share of the input. Lengths are signed.
pub data Chunks (m : Bytes) (n base len : ℕ) : ℕ → ℕ → List Buf → Type 0 where
  done : (p offset : ℕ) → p ≡ n → Chunks m n base len p offset []
  chunk :
      (p offset o : ℕ) (rest : List Buf)
      → Found m base ((p + 1) * len / n) o
      → Chunks m n base len (p + 1) o rest
      → Chunks m n base len p offset
          (record { base = base + offset; length = (o + 2 ^ 64 - offset) % 2 ^ 64 } ∷ rest)

assert-true :
    (b : Bool) {A : Type 0} {r : Result A} {a : A}
    → (assert b >> r) ≡ ok a
    → (b ≡ true) × (r ≡ ok a)
assert-true true h = (refl, h)
assert-true false h = cc

split_from-Chunks :
    (left n : ℕ) (m : Bytes) (base len p offset : ℕ) (bufs : List Buf)
    → p + left ≡ n
    → split_from left n m base len p offset ≡ ok bufs
    → Chunks m n base len p offset bufs
unfolding split_from
split_from-Chunks zero n m base len p offset bufs e h =
    let same : [] ≡ bufs = cc in rw (← same) (done p offset (omega arith))
split_from-Chunks (suc left) n m base len p offset bufs e h =
    let ((o, k'), e₁, k₁) = >>=-eq-ok (scan m base ((p + 1) * len / n) 0) _ h in
    let (full, k₂) = assert-true (16 == k') k₁ in
    let (rest, e₃, k₃) = >>=-eq-ok (split_from left n m base len (p + 1) o) _ k₂ in
    let found =
      scan-Found m base ((p + 1) * len / n) 0 o k' (base + (p + 1) * len / n + 1) (omega arith) refl
        tt e₁ (sym ((==_iff 16 k').0 full)) in
    let more = split_from-Chunks left n m base len (p + 1) o rest (omega arith) e₃ in
    let same : record { base = base + offset; length = (o + 2 ^ 64 - offset) % 2 ^ 64 } ∷ rest
        ≡ bufs =
      cc in
    rw (← same) (chunk p offset o rest found more)

-- The chunks that `split_buf` returns follow one another from the start of the input, each ends
-- where 16 bytes 0xff stand, and none reaches past its share, a part in `n` for each chunk so far.
pub split_buf-Chunks :
    (n : ℕ) (m : Bytes) (base len : ℕ) (bufs : List Buf)
    → split_buf n m base len ≡ ok bufs
    → Chunks m n base len 0 0 bufs
unfolding split_buf
split_buf-Chunks n m base len bufs h = split_from-Chunks n n m base len 0 0 bufs (omega arith) h
