-- ===== src/Bytes/Regions.antt =====
-- What a region of memory holds, and that a write changes its own bytes only.
use fastparse.Prelude.{
  ℕ, ◌+◌, ◌*◌, ◌/◌, ◌%◌, ◌≡◌, ◌<◌, ◌≤◌, refl, ◌⊎◌, [], ◌∷◌, ◌++◌, arith, ok, set, ap, ◌∙◌, length,
  take, suc, subst, length-append, length-set, get_elem?-set_self, get_elem?-set_ne,
  get_elem?_of_lt, lt→ltb,
}
use fastparse.Bytes.{Bytes, IsByte, get8, put8, bswap_16, load16, getw16, putw16}

-- The bytes `xs` stand in `m` from `p` on.
abbrev pub Holds : Bytes → ℕ → Bytes → Type 0
Holds m p [] = Unit
Holds m p (x ∷ xs) = (get8 m p ≡ ok x) × Holds m (p + 1) xs

-- `m'` is `m` with the bytes `xs` written from `p` on, and nothing else changed.
pub record Writes (m : Bytes) (p : ℕ) (xs : Bytes) (m' : Bytes) : Type 0 where
  pub same_length : length m' ≡ length m
  pub written : Holds m' p xs
  pub same : (i : ℕ) → (i < p) ⊎ (p + length xs ≤ i) → get8 m' i ≡ get8 m i

pub get8_of_lt : (m : Bytes) (p : ℕ) → p < length m → (x : ℕ) × (get8 m p ≡ ok x)
unfolding get8
get8_of_lt m p h = let (x, e) = get_elem?_of_lt m p h in (x, ground arith)

-- `getw16` reads two bytes, the first the higher one.
pub getw16-big_endian :
    (m : Bytes) (p a b : ℕ)
    → IsByte a
    → IsByte b
    → Holds m p (a ∷ b ∷ [])
    → getw16 m p ≡ ok (a * 256 + b)
unfolding getw16 load16 bswap_16
getw16-big_endian m p a b ha hb h = ground arith

pub Writes-nil : (m : Bytes) (p : ℕ) → Writes m p [] m
Writes-nil m p = record { same_length = refl; written = tt; same = λ i h. refl }

pub Holds-append :
    (m : Bytes) (p q : ℕ) (xs ys : Bytes)
    → q ≡ p + length xs
    → Holds m p xs
    → Holds m q ys
    → Holds m p (xs ++ ys)
Holds-append m p q [] ys e hx hy = let e' : q ≡ p = omega arith in rw (← e') hy
Holds-append m p q (x ∷ xs) ys e hx hy =
    (hx.0, Holds-append m (p + 1) q xs ys (omega arith) hx.1 hy)

pub Holds-split :
    (m : Bytes) (p q : ℕ) (xs ys : Bytes)
    → q ≡ p + length xs
    → Holds m p (xs ++ ys)
    → Holds m p xs × Holds m q ys
Holds-split m p q [] ys e h = let same : q ≡ p = omega arith in (tt, rw same h)
Holds-split m p q (x ∷ xs) ys e h =
    let (a, b) = Holds-split m (p + 1) q xs ys (omega arith) h.1 in ((h.0, a), b)

-- A region keeps what it holds under a change elsewhere.
pub Holds-frame :
    (m m' : Bytes) (p : ℕ) (xs : Bytes)
    → ((i : ℕ) → p ≤ i → i < p + length xs → get8 m' i ≡ get8 m i)
    → Holds m p xs
    → Holds m' p xs
Holds-frame m m' p [] same h = tt
Holds-frame m m' p (x ∷ xs) same h = (
  same p (omega arith) (omega arith) ∙ h.0,
  Holds-frame m m' (p + 1) xs (λ i a b. same i (omega arith) (omega arith)) h.1,
)

-- A region beside the bytes that are written keeps what it holds.
pub Holds-Writes :
    {m m' : Bytes} (p q : ℕ) (xs ys : Bytes)
    → Writes m p xs m'
    → (q + length ys ≤ p) ⊎ (p + length xs ≤ q)
    → Holds m q ys
    → Holds m' q ys
Holds-Writes {m} {m'} p q xs ys w apart h =
    Holds-frame m m' q ys (λ i a b. w.same i (omega arith)) h

Holds-tail : (y : ℕ) (m : Bytes) (p : ℕ) (xs : Bytes) → Holds (y ∷ m) (suc p) xs → Holds m p xs
unfolding get8
Holds-tail y m p [] h = tt
Holds-tail y m p (x ∷ xs) h =
    let e : suc p + 1 ≡ suc (p + 1) = omega arith in
    (h.0, Holds-tail y m (p + 1) xs (subst (λ i. Holds (y ∷ m) i xs) e h.1))

-- The bytes at the front.
pub take-Holds : (m xs : Bytes) → Holds m 0 xs → take (length xs) m ≡ xs
unfolding get8
take-Holds m [] h = refl
take-Holds [] (x ∷ xs) h = cc
take-Holds (y ∷ m) (x ∷ xs) h =
    let same : y ≡ x = ground arith in rw (same, take-Holds m xs (Holds-tail y m 0 xs h.1)) refl

pub Writes-append :
    {m m' m'' : Bytes} (p q : ℕ) (xs ys : Bytes)
    → q ≡ p + length xs
    → Writes m p xs m'
    → Writes m' q ys m''
    → Writes m p (xs ++ ys) m''
Writes-append {m' = m'} {m'' = m''} p q xs ys e w v = record {
  same_length = v.same_length ∙ w.same_length;
  written =
      Holds-append m'' p q xs ys e
        (Holds-frame m' m'' p xs (λ i a b. v.same i (omega arith)) w.written) v.written;
  same = λ i o.
      v.same i (omega (arith, length-append xs ys)) ∙ w.same i (omega (arith, length-append xs ys));
}

pub put8-Writes :
    (m : Bytes) (p b x : ℕ)
    → b % 256 ≡ x
    → p < length m
    → (m' : Bytes) × (put8 m p b ≡ ok m') × Writes m p (x ∷ []) m'
unfolding put8 get8
put8-Writes m p b x e h = (
  set m p (b % 256),
  rw (lt→ltb p (length m) h),
  record {
    same_length = length-set m p (b % 256);
    written = (ground (arith, get_elem?-set_self m p (b % 256) h), tt);
    same = λ i o. ground (arith, get_elem?-set_ne m p i (b % 256) (omega arith));
  },
)

-- `putw16` writes the two bytes of `w`, the higher first, inside the buffer.
pub putw16-Writes :
    (m : Bytes) (p w : ℕ)
    → p + 1 < length m
    → w < 65536
    → (m' : Bytes) × (putw16 m p w ≡ ok m') × Writes m p ((w / 256) ∷ (w % 256) ∷ []) m'
unfolding putw16 bswap_16
putw16-Writes m p w h hw =
    let v = w % 65536 % 256 * 256 + w % 65536 / 256 % 256 in
    let (m₁, e₁, w₁) = put8-Writes m p (v % 256) (w / 256) (omega arith) (omega arith) in
    let (m₂, e₂, w₂) =
      put8-Writes m₁ (p + 1) (v / 256) (w % 256) (omega arith) (omega (arith, w₁.same_length)) in
    (m₂, rw e₁ e₂, Writes-append p (p + 1) ((w / 256) ∷ []) ((w % 256) ∷ []) refl w₁ w₂)

-- What `putw16` writes inside the buffer, `getw16` reads back, and no other byte changes.
pub getw16-putw16 :
    (m : Bytes) (p w : ℕ)
    → p + 1 < length m
    → w < 65536
    → (m' : Bytes) × (putw16 m p w ≡ ok m')
      × (getw16 m' p ≡ ok w)
      × ((i : ℕ) → (i < p) ⊎ (p + 2 ≤ i) → get8 m' i ≡ get8 m i)
getw16-putw16 m p w h hw =
    let (m', e, v) = putw16-Writes m p w h hw in
    (
      m',
      e,
      getw16-big_endian m' p (w / 256) (w % 256) (omega arith) (omega arith) v.written
          ∙ ap (λ (t : ℕ). ok t) (omega arith),
      v.same,
    )
