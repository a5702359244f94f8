-- ===== src/AsPath/Count.antt =====
-- `as_path_count` against the segments of a path.
use fastparse.Prelude.{
  ℕ, zero, suc, ◌+◌, ◌*◌, ◌%◌, ◌^◌, ◌≡◌, ◌≤◌, ◌<◌, refl, arith, ltb, lt→ltb, if◌then◌else◌, ok, err,
  assertion, ◌∙◌, ap, inl, inr, Bool-cases, >>=-eq-ok,
}
use fastparse.Bytes.{Bytes, get8}
use fastparse.AsPath.{add_segment, count_segments, as_path_count}

-- What a segment adds to the length of its path (RFC 4271, 9.1.2.2): an AS set counts one, a
-- sequence counts its members.
pub data Weight : ℕ → ℕ → ℕ → Type 0 where
  as_set : (kind n w : ℕ) → kind ≡ 1 → w ≡ 1 → Weight kind n w
  as_sequence : (kind n w : ℕ) → kind ≡ 2 → w ≡ n → Weight kind n w

-- The memory from `p` to `limit` is cut into segments of total weight `total`.
pub data Segments (m : Bytes) (limit : ℕ) : ℕ → ℕ → Type 0 where
  none : (p : ℕ) → p ≡ limit → Segments m limit p 0
  one :
      (p kind n w rest total : ℕ)
      → get8 m p ≡ ok kind
      → get8 m (p + 1) ≡ ok n
      → n < 256
      → Weight kind n w
      → p + 2 + 4 * n ≤ limit
      → Segments m limit (p + 2 + 4 * n) rest
      → total ≡ w + rest
      → Segments m limit p total

add_segment-Weight :
    {kind n w : ℕ} (acc : ℕ)
    → Weight kind n w
    → n < 256
    → acc < 60000
    → add_segment kind n acc ≡ ok (acc + w)
unfolding add_segment
add_segment-Weight acc (as_set kind n w k e) hn ha = ground arith
add_segment-Weight acc (as_sequence kind n w k e) hn ha = ground arith

Segments-le : {m : Bytes} {limit p total : ℕ} → Segments m limit p total → p ≤ limit
Segments-le (none p e) = omega arith
Segments-le (one p kind n w rest total ek en hn hw fits s e) = omega arith

Weight-le : {kind n w : ℕ} → Weight kind n w → n < 256 → w ≤ 1 + n
Weight-le (as_set kind n w k e) hn = omega arith
Weight-le (as_sequence kind n w k e) hn = omega arith

pub Segments-total : {m : Bytes} {limit p total : ℕ} → Segments m limit p total → p + total ≤ limit
Segments-total (none p e) = omega arith
Segments-total (one p kind n w rest total ek en hn hw fits s e) =
    omega (arith, Segments-total s, Weight-le hw hn)

module _ (m : Bytes) (p len limit : ℕ) (el : limit ≡ p + len) (short : len < 60000) where
  count_segments_lem :
      (fuel offset acc q : ℕ) {total : ℕ}
      → q ≡ p + offset
      → len < fuel + offset
      → acc + total < 60000
      → Segments m limit q total
      → count_segments fuel m p len offset acc
        ≡ (if ltb (acc + total) 256 then ok (acc + total) else err assertion)
  unfolding count_segments
  count_segments_lem zero offset acc q eq f a s = absurd (omega (arith, Segments-le s))
  count_segments_lem (suc fuel) offset acc q eq f a (none q' e) = ground arith
  count_segments_lem (suc fuel) offset acc q eq f a
        (one q' kind n w rest total ek en hn hw fits s e) =
      let next : (offset + (2 + 4 * n)) % 2 ^ 16 ≡ offset + (2 + 4 * n) = omega arith in
      let step =
        count_segments_lem fuel (offset + (2 + 4 * n)) (acc + w) (q + 2 + 4 * n) (omega arith)
          (omega arith) (omega arith) s in
      let sum : acc + w + rest ≡ acc + total = omega arith in
      let ek' : get8 m (p + offset) ≡ ok kind = rw (← eq) ek in
      let en' : get8 m (p + offset + 1) ≡ ok n = rw (← eq) en in
      rw (
        lt→ltb offset len (omega arith),
        ek',
        en',
        add_segment-Weight acc hw hn (omega arith),
        next,
        step,
        sum,
      )

-- On a path of fewer than 60,000 bytes that is cut into AS sets and AS sequences, `as_path_count`
-- returns the total weight of the segments if that is below 256, and its assertion fails otherwise.
pub as_path_count-Segments :
    (m : Bytes) (p len total : ℕ)
    → len < 60000
    → Segments m (p + len) p total
    → as_path_count m p len ≡ (if ltb total 256 then ok total else err assertion)
unfolding as_path_count
as_path_count-Segments m p len total short s =
    count_segments_lem m p len (p + len) refl short (len + 1) 0 0 p (omega arith) (omega arith)
      (omega (arith, Segments-total s)) s
    ∙ ap (λ (t : ℕ). if ltb t 256 then ok t else err assertion) (omega arith)

count_segments-lt :
    (fuel : ℕ) (m : Bytes) (p len offset acc n : ℕ)
    → count_segments fuel m p len offset acc ≡ ok n
    → n < 256
unfolding count_segments
count_segments-lt zero m p len offset acc n e = cc
count_segments-lt (suc fuel) m p len offset acc n e = elim (Bool-cases (ltb offset len)) [
  | inl more ↦
      let (kind, e₁, k₁) = >>=-eq-ok (get8 m (p + offset)) _ (rw more at e) in
      let (size, e₂, k₂) = >>=-eq-ok (get8 m (p + offset + 1)) _ k₁ in
      let (acc', e₃, k₃) = >>=-eq-ok (add_segment kind size acc) _ k₂ in
      count_segments-lt fuel m p len ((offset + (2 + 4 * size)) % 2 ^ 16) acc' n k₃
  | inr stop ↦ ground arith
]

-- Whatever the path, what `as_path_count` returns fits its byte.
pub as_path_count-lt : (m : Bytes) (p len n : ℕ) → as_path_count m p len ≡ ok n → n < 256
unfolding as_path_count
as_path_count-lt m p len n e = count_segments-lt (len + 1) m p len 0 0 n e
