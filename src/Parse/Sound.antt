-- ===== src/Parse/Sound.antt =====
-- The invariant of `Rib.Sound` along the prefixes of an UPDATE.
use fastparse.Prelude.{
  ℕ, ◌+◌, ◌%◌, ◌^◌, ◌≡◌, ◌≢◌, ◌≤◌, ◌<◌, refl, sym, ◌∙◌, Bool, true, false, ◌==◌, if◌then◌else◌,
  List, [], ◌∷◌, arith, ok, All, bit_and, bit_or, >>=-eq-ok, if_true-eq, if_false, Bool-cases, inl,
  inr,
}
use fastparse.Prelude.Bits.{bit_and_comm, bit_and-mask, bit_or-shift}
use fastparse.Bytes.{Bytes}
use fastparse.Bigtable.{Bigtable, big, too_big, lookup_rib64}
use fastparse.Bigtable.Given.{Given, lookup_rib64-Given}
use fastparse.Locrib.{lr_index_mask, lr_eob}
use fastparse.System.{System}
use fastparse.Phase3.{empty_route}
use fastparse.Rib.{Peer, update_adj_rib_in}
use fastparse.Rib.Sound.{Apart, Apart-of, Sound, Sound-Apart, Sound-pair, update_adj_rib_in-Sound}
use fastparse.Parse.{announce, withdraw, announce_all, withdraw_all}
use fastparse.Parse.Loops.{announce_all-keeps, withdraw_all-keeps}

-- The mark of a block's end is masked off.
marked-index :
    (last : Bool) (r : ℕ)
    → r < big
    → bit_and lr_index_mask (if last then bit_or r lr_eob else r) ≡ r
marked-index false r h =
    bit_and_comm lr_index_mask r ∙ bit_and-mask 31 r lr_index_mask refl ∙ omega arith
marked-index true r h =
    let sum : bit_or r lr_eob ≡ r + lr_eob = bit_or-shift 31 r 1 lr_eob (omega arith) refl in
    bit_and_comm lr_index_mask (bit_or r lr_eob)
    ∙ bit_and-mask 31 (bit_or r lr_eob) lr_index_mask refl
    ∙ omega arith

given_later : (n k : ℕ) (q : List ℕ) → n ≤ k → All (λ x. x < n) q → All (λ x. x < k) q
given_later n k [] h g = tt
given_later n k (x ∷ q) h g = (omega arith, given_later n k q h g.1)

Sound-lookup :
    {s : System} {r : ℕ} {t : Bigtable}
    → Sound s
    → Given s.bigtable r t
    → Sound (record s { bigtable = t })
Sound-lookup {s} {r} {t} c g = record {
  table = g.extends.valid;
  queue = c.queue;
  pending = record {
    contents = c.pending.contents;
    flagged = c.pending.flagged;
    distinct = c.pending.distinct;
    given = given_later s.bigtable.index t.index c.queue g.extends.grows c.pending.given;
    small = g.extends.valid.small;
    routes = c.pending.routes;
    unlocked = c.pending.unlocked;
    idle = c.pending.idle;
  };
}

-- Counting the updates at a block's end.
abbrev counted : Bool → System → System
counted last u = if last then record u { updates = (u.updates + 1) % 2 ^ 64 } else u

counted-Apart : (last : Bool) (u : System) → Apart u (counted last u)
counted-Apart true u = Apart-of refl
counted-Apart false u = Apart-of refl

inside_of_not : {r : ℕ} {t₀ t : Bigtable} → Given t₀ r t → (too_big == r) ≡ false → r < t.index
inside_of_not g short = elim g.inside [ inl long ↦ absurd (ground arith) | inr h ↦ h ]

-- One prefix.
announce-Sound :
    {s : System} (peer : Peer) (prefix nlrip end route : ℕ) (s' : System) (peer' : Peer)
    → Sound s
    → route ≢ empty_route
    → announce true s peer prefix nlrip end route ≡ ok (s', peer')
    → Sound s'
unfolding announce
announce-Sound {s} peer prefix nlrip end route s' peer' c ne e =
    let ((r, t), e₁, k₁) = >>=-eq-ok (lookup_rib64 s.bigtable prefix) _ e in
    let g : Given s.bigtable r t = lookup_rib64-Given prefix r c.table e₁ in
    let c₁ : Sound (record s { bigtable = t }) = Sound-lookup c g in
    elim (Bool-cases (too_big == r)) [
      | inl long ↦
          Sound-pair (if_true-eq (too_big == r) _ _ long k₁) (Sound-Apart (Apart-of refl) c₁)
      | inr short ↦
          let h : r < t.index = inside_of_not g short in
          let k₂ = sym (if_false (too_big == r) _ _ short) ∙ k₁ in
          let last = nlrip == end in
          let a = counted-Apart last (record s { bigtable = t }) in
          let ((s₃, peer₃), e₃, k₄) =
            >>=-eq-ok
              (update_adj_rib_in true (counted last (record s { bigtable = t })) peer
                (if last then bit_or r lr_eob else r) route)
              _ k₂ in
          let index = marked-index last r (omega (arith, g.extends.valid.small)) in
          let given : bit_and lr_index_mask (if last then bit_or r lr_eob else r)
              < (counted last (record s { bigtable = t })).bigtable.index =
            rw (a.bigtable, index) h in
          Sound-pair k₄ (
            Sound-Apart (Apart-of refl) (
              update_adj_rib_in-Sound peer (if last then bit_or r lr_eob else r) route s₃ peer₃
                (Sound-Apart a c₁) ne given e₃))
    ]

withdraw-Sound :
    {s : System} (peer : Peer) (prefix withdrawp end : ℕ) (s' : System) (peer' : Peer)
    → Sound s
    → withdraw true s peer prefix withdrawp end ≡ ok (s', peer')
    → Sound s'
unfolding withdraw
withdraw-Sound {s} peer prefix withdrawp end s' peer' c e =
    let ((r, t), e₁, k₁) = >>=-eq-ok (lookup_rib64 s.bigtable prefix) _ e in
    let g : Given s.bigtable r t = lookup_rib64-Given prefix r c.table e₁ in
    let c₁ : Sound (record s { bigtable = t }) = Sound-lookup c g in
    elim (Bool-cases (too_big == r)) [
      | inl long ↦
          Sound-pair (if_true-eq (too_big == r) _ _ long k₁) (Sound-Apart (Apart-of refl) c₁)
      | inr short ↦
          let h : r < t.index = inside_of_not g short in
          let k₂ = sym (if_false (too_big == r) _ _ short) ∙ k₁ in
          let index = marked-index (withdrawp == end) r (omega (arith, g.extends.valid.small)) in
          update_adj_rib_in-Sound peer _ 0 s' peer' c₁ (omega arith) (rw index h) k₂
    ]

-- The prefixes of an UPDATE, announced with a route whose address is not the marker ~0: if the loop
-- returns, the table of prefixes is valid, and the references that wait in the journal are different
-- ones of it, exactly those whose flag is set, as before.
pub announce_all-Sound :
    (fuel : ℕ) (m : Bytes) {s : System} (peer : Peer) (p : ℕ) (end route : ℕ) (s' : System)
    (peer' : Peer)
    → Sound s
    → route ≢ empty_route
    → announce_all fuel true m s peer p end route ≡ ok (s', peer')
    → Sound s'
announce_all-Sound fuel m peer p end route s' peer' c ne e =
    announce_all-keeps (λ t q. Sound t) true m end fuel route p
      (λ t t' q q' prefix at d k. announce-Sound q prefix at end route t' q' d ne k) c e

-- The prefixes of an UPDATE, withdrawn: if the loop returns, the table of prefixes is valid, and the
-- references that wait in the journal are different ones of it, exactly those whose flag is set, as
-- before.
pub withdraw_all-Sound :
    (fuel : ℕ) (m : Bytes) {s : System} (peer : Peer) (p : ℕ) (end : ℕ) (s' : System) (peer' : Peer)
    → Sound s
    → withdraw_all fuel true m s peer p end ≡ ok (s', peer')
    → Sound s'
withdraw_all-Sound fuel m peer p end s' peer' c e =
    withdraw_all-keeps (λ t q. Sound t) true m end fuel p
      (λ t t' q q' prefix at d k. withdraw-Sound q prefix at end t' q' d k) c e
