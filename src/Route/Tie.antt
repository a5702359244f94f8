-- ===== src/Route/Tie.antt =====
-- `tiebreaker` tells two routes apart, and prefers neither.
use fastparse.Prelude.{
  ℕ, zero, suc, ◌+◌, ◌*◌, ◌/◌, ◌%◌, ◌^◌, ◌≡◌, ◌<◌, ◌↔◌, refl, true, false, [], ◌∷◌, arith, ap, sym,
  ◌∙◌,
}
use fastparse.Bytes.{Bytes}
use fastparse.Route.{Tiebreak, tiebreak_bytes, memcmp_equal, tiebreaker}

memcmp_equal_sound : (xs ys : Bytes) → memcmp_equal xs ys ≡ true → xs ≡ ys
unfolding memcmp_equal
memcmp_equal_sound [] [] h = refl
memcmp_equal_sound [] (y ∷ ys) h = cc
memcmp_equal_sound (x ∷ xs) [] h = cc
memcmp_equal_sound (x ∷ xs) (y ∷ ys) h = ground (arith, memcmp_equal_sound xs ys)

memcmp_equal_refl : (xs : Bytes) → memcmp_equal xs xs ≡ true
unfolding memcmp_equal
memcmp_equal_refl [] = refl
memcmp_equal_refl (x ∷ xs) = ground (arith, memcmp_equal_refl xs)

-- Every field is a value of its C type.
pub record InRange (t : Tiebreak) : Type 0 where
  pub local_pref : t.local_pref < 2 ^ 32
  pub path_length : t.path_length < 256
  pub origin : t.origin < 256
  pub med : t.med < 2 ^ 32
  pub ebgp : t.ebgp < 256
  pub igp_metric : t.igp_metric < 2 ^ 32
  pub bgpid : t.bgpid < 2 ^ 32
  pub peer_address : t.peer_address < 2 ^ 32

byte : Bytes → ℕ → ℕ
byte [] i = 0
byte (x ∷ xs) zero = x
byte (x ∷ xs) (suc i) = byte xs i

abbrev word : Bytes → ℕ → ℕ
word m i = byte m i + byte m (i + 1) * 2 ^ 8 + byte m (i + 2) * 2 ^ 16 + byte m (i + 3) * 2 ^ 24

read_back : Bytes → Tiebreak
unfolding byte
read_back m = record {
  local_pref = word m 0;
  path_length = byte m 4;
  origin = byte m 5;
  med = word m 8;
  ebgp = byte m 12;
  igp_metric = word m 16;
  bgpid = word m 20;
  peer_address = word m 24;
}

word-word_bytes :
    (w : ℕ)
    → w < 2 ^ 32
    → w % 256 + w / 2 ^ 8 % 256 * 2 ^ 8 + w / 2 ^ 16 % 256 * 2 ^ 16 + w / 2 ^ 24 % 256 * 2 ^ 24 ≡ w
word-word_bytes w h = omega arith

byte-mod : (b : ℕ) → b < 256 → b % 256 ≡ b
byte-mod b h = omega arith

read_back-tiebreak_bytes : (t : Tiebreak) → InRange t → read_back (tiebreak_bytes t) ≡ t
unfolding read_back tiebreak_bytes
read_back-tiebreak_bytes t r = λ i. record {
  local_pref = word-word_bytes t.local_pref r.local_pref i;
  path_length = byte-mod t.path_length r.path_length i;
  origin = byte-mod t.origin r.origin i;
  med = word-word_bytes t.med r.med i;
  ebgp = byte-mod t.ebgp r.ebgp i;
  igp_metric = word-word_bytes t.igp_metric r.igp_metric i;
  bgpid = word-word_bytes t.bgpid r.bgpid i;
  peer_address = word-word_bytes t.peer_address r.peer_address i;
}

-- On fields in the range of their types `tiebreaker` is false exactly when the tie-break data are
-- equal: it holds both ways round for any two routes that differ.
pub tiebreaker_iff : (a b : Tiebreak) → InRange a → InRange b → (tiebreaker a b ≡ false) ↔ (a ≡ b)
unfolding tiebreaker
tiebreaker_iff a b ra rb = (
  λ h.
      let e : tiebreak_bytes a ≡ tiebreak_bytes b =
        memcmp_equal_sound (tiebreak_bytes a) (tiebreak_bytes b) (ground arith) in
      sym (read_back-tiebreak_bytes a ra) ∙ ap read_back e ∙ read_back-tiebreak_bytes b rb,
  λ e. rw (e, memcmp_equal_refl (tiebreak_bytes b)),
)
