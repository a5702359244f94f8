-- ===== src/Phase3/Message.antt =====
-- The withdrawals that the output writes, and the end of its buffer.
use fastparse.Prelude.{
  ℕ, zero, suc, ◌+◌, ◌-◌, ◌*◌, ◌/◌, ◌%◌, ◌^◌, ◌≡◌, ◌≤◌, ◌<◌, inl, inr, refl, ap, ◌∙◌, arith, ok,
  err, out_of_bounds, List, [], ◌∷◌, map, length, length-append, length-set, set, All, lt→ltb,
  not_lt→ltb,
}
use native.Mathlib.Decide.{dec_lt}
use fastparse.Bytes.{Bytes, get8, put8, getw16, putw16, bswap_32}
use fastparse.Bytes.Regions.{Holds, Holds-frame, putw16-Writes, getw16-big_endian}
use fastparse.Nlri.{chunksize, emit, build_nlri}
use fastparse.Nlri.Decode.{wire, length-address_bytes, build_nlri-Writes}
use fastparse.Bigtable.{Bigtable, big}
use fastparse.System.{System}
use fastparse.Phase3.{build_all, write_all, send_withdraw}
use fastparse.Phase3.Wire.{
  Entry, IsEntry, address, address-lt, wires, Reads, wires-Reads, lookup_bigtable-Entry,
  build_all-Writes,
}

emit-full :
    (n : ℕ) (m : Bytes) (p a : ℕ)
    → length m < p + n
    → p ≤ length m
    → emit n m p a ≡ err out_of_bounds
unfolding emit put8
emit-full zero m p a h q = absurd (omega arith)
emit-full (suc n) m p a h q = elim (dec_lt p (length m)) [
  | yes inside ↦
      let m₁ = set m p (a % 256 % 256) in
      let same = length-set m p (a % 256 % 256) in
      rw (lt→ltb p (length m) inside)
        (emit-full n m₁ (p + 1) (a / 2 ^ 8) (omega arith) (omega arith))
  | no outside ↦ rw (not_lt→ltb p (length m) outside) refl
]

build_nlri-full :
    (m : Bytes) (p prefix : ℕ)
    → p ≤ length m
    → length m < p + 1 + chunksize (prefix / 2 ^ 32 % 256)
    → build_nlri m p prefix ≡ err out_of_bounds
unfolding build_nlri put8
build_nlri-full m p prefix q h =
    let len = prefix / 2 ^ 32 % 256 in
    elim (dec_lt p (length m)) [
      | yes inside ↦
          let same = length-set m p (len % 256) in
          rw (lt→ltb p (length m) inside) (
            emit-full (chunksize len) (set m p (len % 256)) (p + 1) (bswap_32 (prefix % 2 ^ 32))
              (omega arith) (omega arith))
      | no outside ↦ rw (not_lt→ltb p (length m) outside) refl
    ]

-- The references of a run, each of which stands for a prefix of 1 to 24 bits, whose prefixes do not fit
-- into the rest of the buffer: the loop over them writes past its end.
pub build_all-full :
    (t : Bigtable) (m : Bytes) (p : ℕ) (xs : List Entry)
    → t.index ≤ big
    → All (IsEntry t) xs
    → p ≤ length m
    → length m < p + length (wires xs)
    → build_all t (map (λ x. x.ref) xs) m p ≡ err out_of_bounds
unfolding build_all
build_all-full t m p [] small e q h = absurd (omega arith)
build_all-full t m p (x ∷ xs) small e q h =
    let a = address x in
    let prefix = a + x.len * 2 ^ 32 in
    let short = address-lt x e.0.short e.0.fits in
    let all = length-append (wire x.len a) (wires xs) in
    let one = length-address_bytes (chunksize x.len) a in
    let len : prefix / 2 ^ 32 % 256 ≡ x.len = omega (arith, e.0.short) in
    elim (dec_lt (length m) (p + 1 + chunksize x.len)) [
      | yes full ↦
          let bad = build_nlri-full m p prefix q (rw len full) in
          rw (lookup_bigtable-Entry t x small e.0, bad) refl
      | no room ↦
          let (m₁, e₁, w₁) =
            build_nlri-Writes m p x.len a (omega (arith, e.0.short)) short (omega arith) in
          let rest =
            build_all-full t m₁ (p + 1 + chunksize x.len) xs small e.1
              (omega (arith, w₁.same_length)) (omega (arith, w₁.same_length)) in
          rw (lookup_bigtable-Entry t x small e.0, e₁, rest) refl
    ]

send_withdraw_lem :
    (s : System) (refs : List ℕ) (n : ℕ) (m₁ m₂ m₃ m₄ : Bytes)
    → 25 + n < 2 ^ 16
    → build_all s.bigtable refs s.tx_buffer 23 ≡ ok (m₁, 23 + n)
    → putw16 m₁ 16 (25 + n) ≡ ok m₂
    → putw16 m₂ 19 (n + 2) ≡ ok m₃
    → putw16 m₃ (23 + n) 0 ≡ ok m₄
    → send_withdraw s refs
      ≡ ok (record s { tx_buffer = m₄; peergroups = write_all m₄ (25 + n) s.peergroups })
unfolding send_withdraw
send_withdraw_lem s refs n m₁ m₂ m₃ m₄ fits e₁ e₂ e₃ e₄ =
    let inner : (23 + n - 21) % 2 ^ 16 ≡ n + 2 = omega arith in
    let outer : (n + 2 + 23) % 2 ^ 16 ≡ 25 + n = omega arith in
    rw (e₁, inner, outer, e₂, e₃, e₄) refl

-- A withdrawal of references that stand for prefixes of 1 to 24 bits, with room for it in the buffer, is
-- written to every file. Its field of withdrawn routes begins at offset 21, and is said to be two
-- bytes longer than the prefixes, which can be read back from offset 23 on: the first two bytes of the
-- field are what the buffer held before.
pub send_withdraw-stale :
    (s : System) (xs : List Entry)
    → s.bigtable.index ≤ big
    → All (IsEntry s.bigtable) xs
    → 25 + length (wires xs) ≤ length s.tx_buffer
    → 25 + length (wires xs) < 2 ^ 16
    → (m : Bytes) × (send_withdraw s (map (λ x. x.ref) xs)
        ≡ ok (record s {
          tx_buffer = m;
          peergroups = write_all m (25 + length (wires xs)) s.peergroups;
        }))
      × (getw16 m 19 ≡ ok (length (wires xs) + 2))
      × Reads m 23 xs
      × (get8 m 21 ≡ get8 s.tx_buffer 21)
      × (get8 m 22 ≡ get8 s.tx_buffer 22)
send_withdraw-stale s xs small e room fits =
    let n = length (wires xs) in
    let (m₁, e₁, w₁) = build_all-Writes s.bigtable s.tx_buffer 23 xs small e (omega arith) in
    let (m₂, e₂, w₂) = putw16-Writes m₁ 16 (25 + n) (omega (arith, w₁.same_length)) (omega arith) in
    let (m₃, e₃, w₃) =
      putw16-Writes m₂ 19 (n + 2) (omega (arith, w₁.same_length, w₂.same_length)) (omega arith) in
    let (m₄, e₄, w₄) =
      putw16-Writes m₃ (23 + n) 0 (omega (arith, w₁.same_length, w₂.same_length, w₃.same_length))
        (omega arith) in
    let kept : (i : ℕ) → 21 ≤ i → i < 23 + n → get8 m₄ i ≡ get8 m₁ i = λ i lo hi.
      w₄.same i (inl hi) ∙ w₃.same i (inr (omega arith)) ∙ w₂.same i (inr (omega arith)) in
    let two : Bytes = ((n + 2) / 256) ∷ ((n + 2) % 256) ∷ [] in
    let field : Holds m₄ 19 two =
      Holds-frame m₃ m₄ 19 two (λ i lo hi. w₄.same i (inl (omega arith))) w₃.written in
    let prefixes : Holds m₄ 23 (wires xs) =
      Holds-frame m₁ m₄ 23 (wires xs) (λ i lo hi. kept i (omega arith) hi) w₁.written in
    (
      m₄,
      send_withdraw_lem s (map (λ x. x.ref) xs) n m₁ m₂ m₃ m₄ fits e₁ e₂ e₃ e₄,
      getw16-big_endian m₄ 19 ((n + 2) / 256) ((n + 2) % 256) (omega arith) (omega arith) field
          ∙ ap (λ (t : ℕ). ok t) (omega arith),
      wires-Reads s.bigtable m₄ 23 xs e prefixes,
      kept 21 (omega arith) (omega arith) ∙ w₁.same 21 (inl (omega arith)),
      kept 22 (omega arith) (omega arith) ∙ w₁.same 22 (inl (omega arith)),
    )
