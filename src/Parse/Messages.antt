-- ===== src/Parse/Messages.antt =====
-- The loop over messages.
use fastparse.Prelude.{
  ℕ, zero, suc, ◌+◌, ◌%◌, ◌^◌, ◌≡◌, ◌<◌, refl, Bool, true, false, not_lt→ltb, arith, ok, err,
  out_of_fuel, List, [], ◌∷◌, ◌≤◌, Result, ◌>>=◌, >>=-eq-ok, assert, ◌==◌, if◌then◌else◌, ap, ◌∙◌,
  sym,
}
use fastparse.Bytes.{Bytes, get8, getw16}
use fastparse.Split.Marker.{Ones}
use fastparse.System.{System}
use fastparse.Rib.{Peer}
use fastparse.Parse.{Options, goes_on, is_marker, parse_message, parse_messages}

-- A message header at `ptr`: the marker, the length and the type of an UPDATE.
pub record HeaderAt (m : Bytes) (ptr len : ℕ) : Type 0 where
  pub marker : Ones m ptr 16
  pub msg_length : getw16 m (ptr + 16) ≡ ok len
  pub msg_type : get8 m (ptr + 18) ≡ ok 2

is_marker-Ones : (n : ℕ) (m : Bytes) (p : ℕ) → Ones m p n → is_marker n m p ≡ ok true
unfolding is_marker
is_marker-Ones zero m p h = refl
is_marker-Ones (suc n) m p h = rw (h.0, is_marker-Ones n m (p + 1) h.1)

module _ (garbage : Bool) (opts : Options) (m : Bytes) (s : System) (peer : Peer) where
  -- A message of 23 bytes or fewer, an end-of-RIB marker among them, is stepped over.
  parse_message-short :
      (ptr len n : ℕ)
      → HeaderAt m ptr len
      → len < 24
      → parse_message garbage opts m s peer ptr n ≡ ok (s, peer, len)
  unfolding parse_message
  parse_message-short ptr len n h short =
      rw (
        is_marker-Ones 16 m ptr h.marker,
        h.msg_length,
        h.msg_type,
        not_lt→ltb 23 len (omega arith),
      )

  -- A message that says its length is 0 is never got past: with no limit on the number of messages
  -- the loop uses up any number of rounds.
  pub parse_messages-zero_length :
      (fuel ptr limit n : ℕ)
      → HeaderAt m ptr 0
      → ptr < limit
      → opts.msg_max ≡ 0
      → parse_messages fuel garbage opts m s peer ptr limit n ≡ err out_of_fuel
  unfolding parse_messages
  parse_messages-zero_length zero ptr limit n h in_input free = refl
  parse_messages-zero_length (suc fuel) ptr limit n h in_input free =
      let again = parse_messages-zero_length fuel ptr limit ((n + 1) % 2 ^ 32) h in_input free in
      let same : ptr + 0 ≡ ptr = omega arith in
      let more : goes_on opts ptr limit n ≡ true = ground arith in
      rw (more, parse_message-short ptr 0 n h (omega arith), same) again

-- The input from `ptr` to `limit` is cut into messages of these lengths, each above 0, by the length
-- fields alone; the last one may reach past `limit`.
abbrev pub Framed : Bytes → ℕ → ℕ → List ℕ → Type 0
Framed m limit ptr [] = limit ≤ ptr
Framed m limit ptr (len ∷ lens) =
    (ptr < limit) × (getw16 m (ptr + 16) ≡ ok len) × (0 < len) × Framed m limit (ptr + len) lens

-- The messages of these lengths, parsed one after the other, or as many as are allowed.
unfoldable pub parse_framed :
    Bool → Options → Bytes → ℕ → List ℕ → System → Peer → ℕ → ℕ → Result (System × Peer × ℕ)
parse_framed garbage opts m limit [] s peer ptr n = ok (s, peer, n)
parse_framed garbage opts m limit (len ∷ lens) s peer ptr n =
    if goes_on opts ptr limit n
    then (do
      (s', peer', parsed) ← parse_message garbage opts m s peer ptr n
      parse_framed garbage opts m limit lens s' peer' (ptr + len) ((n + 1) % 2 ^ 32))
    else ok (s, peer, n)

ok-eq : {a b : ℕ} → ◌≡◌ {A = Result ℕ} (ok a) (ok b) → a ≡ b
ok-eq e = cc

length-ok :
    (parsed : Result (System × Peer)) {t : System} {q : Peer} (w len : ℕ)
    → ◌≡◌ {A = Result (System × Peer × ℕ)} (parsed >>= λ z. ok (z.0, z.1, w)) (ok (t, q, len))
    → w ≡ len
length-ok (ok (t, q)) w len e = cc
length-ok (err f) w len e = cc

-- A message that is parsed has the length that its header says.
parse_message-length :
    (garbage : Bool) (opts : Options) (m : Bytes) (s : System) (peer : Peer) (ptr n : ℕ)
    (t : System) (q : Peer) (len : ℕ)
    → parse_message garbage opts m s peer ptr n ≡ ok (t, q, len)
    → getw16 m (ptr + 16) ≡ ok len
unfolding parse_message
parse_message-length garbage opts m s peer ptr n t q len e =
    let (b, e₁, k₁) = >>=-eq-ok (is_marker 16 m ptr) _ e in
    let (u, e₂, k₂) = >>=-eq-ok (assert b) _ k₁ in
    let (w, e₃, k₃) = >>=-eq-ok (getw16 m (ptr + 16)) _ k₂ in
    let (kind, e₄, k₄) = >>=-eq-ok (get8 m (ptr + 18)) _ k₃ in
    let (v, e₅, k₅) = >>=-eq-ok (assert (2 == kind)) _ k₄ in
    e₃ ∙ ap (λ (t : ℕ). ok t) (length-ok _ w len k₅)

goes_on-stops : (opts : Options) (ptr limit n : ℕ) → limit ≤ ptr → goes_on opts ptr limit n ≡ false
goes_on-stops opts ptr limit n h = ground arith

-- The length of the message that was parsed is the one of the frame.
parse_rest :
    {A : Type 0} (parsed : Result (System × Peer × ℕ)) (rest : System → Peer → ℕ → Result A)
    (rest' : System → Peer → Result A) (len : ℕ)
    → ((t : System) (q : Peer) (n : ℕ) → parsed ≡ ok (t, q, n) → rest t q n ≡ rest' t q)
    → (parsed >>= λ z. rest z.0 z.1 z.2) ≡ (parsed >>= λ z. rest' z.0 z.1)
parse_rest (ok (t, q, n)) rest rest' len h = h t q n refl
parse_rest (err f) rest rest' len h = refl

-- Where the length fields of the input cut it into messages of lengths above 0, up to `limit` or beyond,
-- the loop with more rounds than the bytes that are left does what parsing these messages one after the
-- other does, as many as are allowed, the fault that ends it included: it is never short of rounds.
pub parse_messages-Framed :
    (garbage : Bool) (opts : Options) (m : Bytes) (limit : ℕ) (lens : List ℕ) (fuel : ℕ)
    (s : System) (peer : Peer) (ptr n : ℕ)
    → 0 < fuel
    → limit < fuel + ptr
    → Framed m limit ptr lens
    → parse_messages fuel garbage opts m s peer ptr limit n
      ≡ parse_framed garbage opts m limit lens s peer ptr n
unfolding parse_messages parse_framed
parse_messages-Framed garbage opts m limit lens zero s peer ptr n some_fuel enough f =
    absurd (omega arith)
parse_messages-Framed garbage opts m limit [] (suc fuel) s peer ptr n some_fuel enough f =
    rw (goes_on-stops opts ptr limit n f) refl
parse_messages-Framed garbage opts m limit (len ∷ lens) (suc fuel) s peer ptr n some_fuel enough f =
    ap (λ r. if goes_on opts ptr limit n then r else ok (s, peer, n))
      (parse_rest (parse_message garbage opts m s peer ptr n) _ _ len (λ t q parsed e.
        let same : parsed ≡ len =
          ok-eq (sym (parse_message-length garbage opts m s peer ptr n t q parsed e) ∙ f.1) in
        ap (λ k. parse_messages fuel garbage opts m t q (ptr + k) limit ((n + 1) % 2 ^ 32)) same
        ∙ parse_messages-Framed garbage opts m limit lens fuel t q (ptr + len) ((n + 1) % 2 ^ 32)
            (omega (arith, f.0)) (omega (arith, f.0, f.2)) f.3))
