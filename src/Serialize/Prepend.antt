-- ===== src/Serialize/Prepend.antt =====
-- What `prepend` writes, and `serialize_ebgp` with it.
use fastparse.Prelude.{
  ℕ, suc, ◌+◌, ◌-◌, ◌%◌, ◌^◌, ◌≡◌, ◌≤◌, ◌<◌, refl, ap, subst, sym, ◌∙◌, none, some, List, [], ◌∷◌,
  ◌++◌, arith, Result, ok, ◌>>=◌, length, length-append, All, All-append, All-append_right, leb,
  lt→ltb, le→leb, true, in_object, ◌>>◌,
}
use fastparse.Bytes.{Bytes, IsByte, get8}
use fastparse.Bytes.Regions.{Holds, Holds-append, Holds-split, Writes, Writes-append}
use fastparse.Serialize.{Writer, emit8, emit32, emit_bytes, prepend, prepend_at}
use fastparse.Serialize.Block.{Attribute, block}
use fastparse.Serialize.Find.{At, Current}
use fastparse.Serialize.Copy.{memcpy-Writes}
use fastparse.Serialize.Picked.{header, emit8-any, emit_header-Writes}
use fastparse.Serialize.Steps.{Did, word_bytes, store32-Writes}

-- An attribute with a sequence of AS numbers that is longer by `as_number`, and then some bytes.
abbrev pub prepended : ℕ → ℕ → ℕ → ℕ → ℕ → Bytes → Bytes
prepended len flags type_code n as_number zs =
    header ((4 + len) % 2 ^ 16) flags type_code
    ++ ((2 ∷ ((n + 1) % 256) ∷ word_bytes as_number) ++ zs)

-- The segment's head: its type, the number of ASes and the first of them.
segment-Did :
    (w : Writer) (n v : ℕ)
    → w.q + 6 ≤ length w.out
    → (m : Bytes) × ((k : Writer → Result Writer)
        → (emit8 w 2 >>= λ w. emit8 w (n + 1) >>= λ w. emit32 w v >>= k)
          ≡ k (record w { out = m; q = w.q + 6 }))
      × Writes w.out w.q (2 ∷ ((n + 1) % 256) ∷ word_bytes v) m
unfolding emit32
segment-Did w n v room =
    let (m₁, e₁, w₁) = emit8-any w 2 (omega arith) in
    let (m₂, e₂, w₂) =
      emit8-any (record w { out = m₁; q = w.q + 1 }) (n + 1) (omega (arith, w₁.same_length)) in
    let (m₃, e₃, w₃) =
      store32-Writes m₂ (w.q + 1 + 1) v (omega (arith, w₁.same_length, w₂.same_length)) in
    let tail =
      Writes-append {m = m₁} {m' = m₂} {m'' = m₃} (w.q + 1) (w.q + 1 + 1) (((n + 1) % 256) ∷ [])
        (word_bytes v) refl w₂ w₃ in
    (
      m₃,
      λ k. rw (e₁, e₂, e₃) (ap (λ (p : ℕ). k (record w { out = m₃; q = p })) (omega arith)),
      Writes-append {m' = m₁} w.q (w.q + 1) (2 ∷ []) (((n + 1) % 256) ∷ word_bytes v) refl w₁ tail,
    )

prepend_at-Did :
    (src : Bytes) (w : Writer) (as_number p n : ℕ) (zs : Bytes)
    → get8 src p ≡ ok 2
    → get8 src (p + 1) ≡ ok n
    → n < 255
    → w.attr_length ≡ 2 + length zs
    → Holds src (p + 6) zs
    → All IsByte zs
    → w.q + length (prepended w.attr_length w.flags w.type_code n as_number zs) ≤ length w.out
    → Did w
        (prepended w.attr_length w.flags w.type_code n as_number zs)
        (prepend_at src w as_number p)
unfolding prepend_at emit_bytes
prepend_at-Did src w as_number p n zs sequence count few len held bytes room =
    let len' = (4 + w.attr_length) % 2 ^ 16 in
    let hs = header len' w.flags w.type_code in
    let ss = 2 ∷ ((n + 1) % 256) ∷ word_bytes as_number in
    let l = length-append hs (ss ++ zs) in
    let (m₁, e₁, w₁) = emit_header-Writes w len' w.flags w.type_code (omega arith) in
    let v : Writer = record w { out = m₁; q = w.q + length hs } in
    let (m₂, e₂, w₂) = segment-Did v n as_number (omega (arith, w₁.same_length)) in
    let (m₃, e₃, w₃) =
      memcpy-Writes zs src m₂ (p + 6) (v.q + 6) held bytes
        (omega (arith, w₁.same_length, w₂.same_length)) in
    let long : leb 2 w.attr_length ≡ true = le→leb 2 w.attr_length (omega (arith, len)) in
    let left : w.attr_length - 2 ≡ length zs = omega (arith, len) in
    let tail = Writes-append {m = m₁} {m' = m₂} {m'' = m₃} v.q (v.q + 6) ss zs refl w₂ w₃ in
    record {
      after = record w { out = m₃; q = v.q + 6 + length zs };
      returns =
          rw (sequence, count, lt→ltb n 255 few, e₁)
            (e₂ (λ u.
                in_object (leb 2 w.attr_length) >> emit_bytes u (w.attr_length - 2) src (p + 6))
              ∙ rw (long, left, e₃) refl);
      wrote = record {
        writes = Writes-append {m' = m₁} w.q v.q hs (ss ++ zs) refl w₁ tail;
        q = omega (arith);
        r = refl;
      };
    }

prepend-some :
    (src : Bytes) (w : Writer) (as_number p : ℕ)
    → w.attr_ptr ≡ some p
    → prepend src w as_number ≡ prepend_at src w as_number p
unfolding prepend
prepend-some src w as_number p at =
    ap (λ o. elim o [ none ↦ ok w | some p ↦ prepend_at src w as_number p ]) at

-- The attribute that was found holds a sequence with its first AS number and others; the bytes behind
-- it are known.
pub prepend-Did :
    (src : Bytes) (limit : ℕ) (w : Writer) (as_number : ℕ) (a : Attribute) (behind : List Attribute)
    (n : ℕ) (first others spill more : Bytes)
    → Current src w (some a)
    → At src limit w behind
    → a.value ≡ 2 ∷ n ∷ (first ++ others)
    → length first ≡ 4
    → n < 255
    → block behind ≡ spill ++ more
    → length spill ≡ 4
    → All IsByte spill
    → w.q + length (prepended (length a.value) a.flags a.type_code n as_number (others ++ spill))
      ≤ length w.out
    → Did w
        (prepended (length a.value) a.flags a.type_code n as_number (others ++ spill))
        (prepend src w as_number)
prepend-Did src limit w as_number a behind n first others spill more
      (p, at, value, same_flags, kind, len, next, valid) here starts four few goes_on four' bytes
      room =
    let zs = others ++ spill in
    let held : Holds src p (2 ∷ n ∷ (first ++ others)) = subst (λ v. Holds src p v) starts value in
    let inner : All IsByte (2 ∷ n ∷ (first ++ others)) =
      subst (λ v. All IsByte v) starts valid.bytes in
    let l : length a.value ≡ suc (suc (length (first ++ others))) = ap length starts in
    let l₁ = length-append first others in
    let l₂ = length-append others spill in
    let others_at =
      (Holds-split src (p + 1 + 1) (p + 6) first others (omega (arith, four)) held.1.1).1 in
    let after : Holds src w.r (spill ++ more) = subst (λ v. Holds src w.r v) goes_on here.held in
    let spill_at = (Holds-split src w.r (w.r + 4) spill more (omega (arith, four')) after).0 in
    let both =
      Holds-append src (p + 6) w.r others spill (omega (arith, next, four)) others_at spill_at in
    let same : prepended w.attr_length w.flags w.type_code n as_number zs
        ≡ prepended (length a.value) a.flags a.type_code n as_number zs =
      ap (λ x. prepended x w.flags w.type_code n as_number zs) len
      ∙ ap (λ f. prepended (length a.value) f w.type_code n as_number zs) same_flags
      ∙ ap (λ t. prepended (length a.value) a.flags t n as_number zs) kind in
    let did =
      prepend_at-Did src w as_number p n zs held.0 held.1.0 few (omega (arith, len, four, four'))
        both (All-append IsByte others spill (All-append_right IsByte first others inner.1.1) bytes)
        (subst (λ xs. w.q + length xs ≤ length w.out) (sym same) room) in
    subst (λ m. Did w (prepended (length a.value) a.flags a.type_code n as_number zs) m)
      (sym (prepend-some src w as_number p at))
      (subst (λ xs. Did w xs (prepend_at src w as_number p)) same did)
