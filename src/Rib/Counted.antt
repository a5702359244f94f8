-- ===== src/Rib/Counted.antt =====
-- The use count of a route.
use fastparse.Prelude.{
  ℕ, ◌+◌, ◌-◌, ◌%◌, ◌^◌, ◌≡◌, ◌≢◌, ◌<◌, ap, sym, ◌∙◌, Bool, true, false, not, ◌==◌, if◌then◌else◌,
  arith, Result, ok, in_object, ltb, update, bit_and, >>=-eq-ok, if-eq-ok, if_true-eq, if_false,
  Bool-cases, inl, inr,
}
use native.Mathlib.Decide.{ℕ_discrete}
use fastparse.Bigtable.{big}
use fastparse.Locrib.{lr_index_mask}
use fastparse.Locrib.Entry.{in_object-lt}
use fastparse.System.{System}
use fastparse.Rib.{Peer, set_use_count, release, locrib, update_adj_rib_in}
use fastparse.Rib.Frame.{locrib-Keeps}
use fastparse.Rib.Uses.{one_if, uses, uses-update, uses-pos}

abbrev pub count : System → ℕ → ℕ
count s r = (s.routes r).use_count

-- The count of a route is the number of the peer's entries that hold it and of the `others`, the entries
-- of other peers.
pub record Counted (others : ℕ → ℕ) (s : System) (peer : Peer) : Type 0 where
  pub counted : (r : ℕ) → r ≢ 0 → count s r ≡ uses big peer.adj_rib_in r + others r
  pub small : (r : ℕ) → r ≢ 0 → count s r < 2 ^ 16

-- What `release` does to the counts.
count-release :
    (s : System) (peer : Peer) (old r : ℕ)
    → 0 < count s old
    → count s old < 2 ^ 16
    → count (release s peer old).0 r ≡ (if r == old then count s old - 1 else count s r)
unfolding release
count-release s peer old r some small =
    let less : (count s old + 2 ^ 16 - 1) % 2 ^ 16 ≡ count s old - 1 = omega arith in
    ground (arith, less)

-- Where the entry held no route, or its old route has been released: one use of it less.
count-let_go :
    (s : System) (peer : Peer) (old r : ℕ)
    → (old ≢ 0 → 0 < count s old)
    → (old ≢ 0 → count s old < 2 ^ 16)
    → r ≢ 0
    → count (if old == 0 then (s, peer) else release s peer old).0 r + one_if old r ≡ count s r
count-let_go s peer old r some small r≢0 = elim (Bool-cases (old == 0)) [
  | inl nothing ↦ rw nothing (ground arith)
  | inr held ↦
      let old≢0 : old ≢ 0 = ground arith in
      let e = count-release s peer old r (some old≢0) (small old≢0) in
      let some' = some old≢0 in rw (held, e) (ground arith)
]

adj_rib_in-let_go :
    (s : System) (peer : Peer) (old : ℕ)
    → (if old == 0 then (s, peer) else release s peer old).1.adj_rib_in ≡ peer.adj_rib_in
unfolding release
adj_rib_in-let_go s peer old = ground arith

count-set :
    (s : System) (route r : ℕ)
    → count s route + 1 < 2 ^ 16
    → count (set_use_count s route (count s route + 1)) r ≡ count s r + one_if route r
count-set s route r room = ground arith

module _ {others : ℕ → ℕ} {s : System} {peer : Peer} (a route : ℕ) (inside : a < big)
    (c : Counted others s peer) where
  -- The peer's entries with the new route in.
  abbrev entries : ℕ → ℕ
  entries = update peer.adj_rib_in a route

  held-pos : peer.adj_rib_in a ≢ 0 → 0 < count s (peer.adj_rib_in a)
  held-pos ne =
      let held = uses-pos big peer.adj_rib_in a inside in
      omega (arith, c.counted (peer.adj_rib_in a) ne, held)

  -- The counts as they are when the entry has changed.
  changed-Counted :
      (t : System) (peer' : Peer)
      → peer'.adj_rib_in ≡ entries
      → ((r : ℕ) → r ≢ 0 → count t r + one_if (peer.adj_rib_in a) r ≡ count s r + one_if route r)
      → (route ≢ 0 → count t route < 2 ^ 16)
      → Counted others t peer'
  changed-Counted t peer' same moved room = record {
    counted = λ r ne.
        let uses_moved = uses-update peer.adj_rib_in a route r big inside in
        rw same (omega (arith, moved r ne, uses_moved, c.counted r ne));
    small = λ r ne. elim (ℕ_discrete r route) [
      | yes e ↦ rw e (room (rw (← e) ne))
      | no other ↦
          let none_more : one_if route r ≡ 0 = ground arith in
          omega (arith, moved r ne, none_more, c.small r ne)
    ];
  }

  -- The old route of the entry, with no use left, is in no entry.
  unused :
      peer.adj_rib_in a ≢ 0
      → peer.adj_rib_in a ≢ route
      → count s (peer.adj_rib_in a) ≡ 1
      → (i : ℕ) → i < big
      → entries i ≢ peer.adj_rib_in a
  unused ne other one i lt held =
      let old = peer.adj_rib_in a in
      let uses_moved = uses-update peer.adj_rib_in a route old big inside in
      let used = uses-pos big entries i lt in
      let used_old : 0 < uses big entries old = rw (← held) used in
      let none_more : one_if route old ≡ 0 = ground arith in
      let one_less : one_if old old ≡ 1 = ground arith in
      omega (arith, uses_moved, used_old, c.counted old ne, one, none_more, one_less)

  -- The pair that the call ends with.
  ends :
      (s₃ : System) (peer₂ : Peer) (s' : System) (peer' : Peer)
      → peer₂.adj_rib_in ≡ entries
      → ((r : ℕ) → r ≢ 0 → count s₃ r + one_if (peer.adj_rib_in a) r ≡ count s r + one_if route r)
      → (route ≢ 0 → count s₃ route < 2 ^ 16)
      → ◌≡◌ {A = Result (System × Peer)} (ok (s₃, peer₂)) (ok (s', peer'))
      → Counted others s' peer'
        × (peer.adj_rib_in a ≢ 0
            → peer.adj_rib_in a ≢ route
            → count s (peer.adj_rib_in a) ≡ 1
            → (i : ℕ) → i < big
            → peer'.adj_rib_in i ≢ peer.adj_rib_in a)
  ends s₃ peer₂ s' peer' same moved room e =
      let left : s₃ ≡ s' = cc in
      let right : peer₂ ≡ peer' = cc in
      let same' : peer'.adj_rib_in ≡ entries = ap (λ p. p.adj_rib_in) (sym right) ∙ same in
      (
        rw (← left) (rw (← right) (changed-Counted s₃ peer₂ same moved room)),
        λ ne other one i lt h. unused ne other one i lt (ap (λ f. f i) (sym same') ∙ h),
      )

-- Let the use count of every route be the number of entries that hold it, those of the peer and the
-- `others` of other peers, below 2 ^ 16, and let the new route, if there is one, have room for one use more.
-- Then a change of an entry, an announcement or a withdrawal, if it returns, leaves the counts so; and
-- where the entry's old route is another one and had one use, so that it is given back, no entry of the
-- peer holds it.
pub update_adj_rib_in-Counted :
    {others : ℕ → ℕ} {s : System} {peer : Peer} (garbage : Bool) (ref route : ℕ) (s' : System)
    (peer' : Peer)
    → Counted others s peer
    → (route ≢ 0 → count s route + 1 < 2 ^ 16)
    → update_adj_rib_in garbage s peer ref route ≡ ok (s', peer')
    → Counted others s' peer'
      × (peer.adj_rib_in (bit_and ref lr_index_mask) ≢ 0
          → peer.adj_rib_in (bit_and ref lr_index_mask) ≢ route
          → count s (peer.adj_rib_in (bit_and ref lr_index_mask)) ≡ 1
          → (i : ℕ) → i < big
          → peer'.adj_rib_in i ≢ peer.adj_rib_in (bit_and ref lr_index_mask))
unfolding update_adj_rib_in
update_adj_rib_in-Counted {others} {s} {peer} garbage ref route s' peer' c room e =
    let a = bit_and ref lr_index_mask in
    let old = peer.adj_rib_in a in
    let s₁ = record s { received_prefixes = (s.received_prefixes + 1) % 2 ^ 64 } in
    let peer₁ = record peer { adj_rib_in = update peer.adj_rib_in a route } in
    let z : System × Peer = if old == 0 then (s₁, peer₁) else release s₁ peer₁ old in
    let (u, e₁, k₁) = >>=-eq-ok (in_object (ltb a big)) _ e in
    let inside = in_object-lt a big e₁ in
    let same : z.1.adj_rib_in ≡ peer₁.adj_rib_in = adj_rib_in-let_go s₁ peer₁ old in
    let less : (r : ℕ) → r ≢ 0 → count z.0 r + one_if old r ≡ count s r =
      λ r ne. count-let_go s₁ peer₁ old r (held-pos a route inside c) (c.small old) ne in
    let ends' = ends a route inside c in
    let no_more : (r : ℕ) → r ≢ 0 → route ≡ 0 → one_if route r ≡ 0 = λ r ne none. ground arith in
    elim (ℕ_discrete route 0) [
      | no is_route ↦
          let announced = if_true-eq (not (route == 0)) _ _ (ground arith) k₁ in
          let (s₃, e₃, k₃) =
            >>=-eq-ok
              (locrib garbage (set_use_count z.0 route (count z.0 route + 1)) ref route true) _
              announced in
          let routes = (locrib-Keeps garbage _ ref route true s₃ e₃).routes in
          let kept : (r : ℕ)
              → count s₃ r ≡ count (set_use_count z.0 route (count z.0 route + 1)) r =
            λ r. ap (λ f. (f r).use_count) routes in
          let room₁ : count z.0 route + 1 < 2 ^ 16 =
            omega (arith, less route is_route, room is_route) in
          let more : (r : ℕ) → count s₃ r ≡ count z.0 r + one_if route r =
            λ r. kept r ∙ count-set z.0 route r room₁ in
          let one_more : one_if route route ≡ 1 = ground arith in
          ends' s₃ z.1 s' peer' same (λ r ne. omega (arith, more r, less r ne))
            (λ ne. omega (arith, more route, one_more, room₁)) k₃
      | yes none ↦
          let withdrawn = sym (if_false (not (route == 0)) _ _ (ground arith)) ∙ k₁ in
          elim (if-eq-ok (not (old == 0)) _ _ withdrawn) [
            | inl held ↦
                let (s₃, e₃, k₃) = >>=-eq-ok (locrib garbage z.0 ref route false) _ held in
                let routes = (locrib-Keeps garbage _ ref route false s₃ e₃).routes in
                let kept : (r : ℕ) → count s₃ r ≡ count z.0 r =
                  λ r. ap (λ f. (f r).use_count) routes in
                ends' s₃ z.1 s' peer' same
                  (λ r ne. omega (arith, kept r, less r ne, no_more r ne none))
                  (λ ne. absurd (ne none)) k₃
            | inr nothing ↦
                ends' z.0 z.1 s' peer' same (λ r ne. omega (arith, less r ne, no_more r ne none))
                  (λ ne. absurd (ne none)) nothing
          ]
    ]
