-- ===== src/Rib/Withdraw.antt =====
-- A route that its peer's entry is given a second time.
use fastparse.Prelude.{
  ℕ, ◌+◌, ◌%◌, ◌^◌, ◌≡◌, ◌≢◌, ◌∙◌, refl, ap, Bool, true, not, ◌==◌, if◌then◌else◌, arith, update,
  update_self, ltb, ok, Result, bit_and, >>=-eq-ok, if_true-eq, in_object,
}
use fastparse.Bigtable.{big}
use fastparse.Locrib.{lr_index_mask}
use fastparse.System.{System}
use fastparse.Rib.{Peer, set_use_count, release, locrib, update_adj_rib_in}
use fastparse.Rib.Frame.{locrib-Keeps}
use fastparse.Rib.Release.{first_free, release-last}

locrib-first_free :
    (garbage : Bool) (t : System) (q : Peer) (n ref p new : ℕ) (is_update : Bool) (s' : System)
    → locrib garbage (set_use_count t p n) ref new is_update ≡ ok s'
    → first_free t q p ≡ p
    → first_free s' q p ≡ p
locrib-first_free garbage t q n ref p new is_update s' e first =
    let same : s'.pools ≡ t.pools =
      (locrib-Keeps garbage (set_use_count t p n) ref new is_update s' e).pools in
    rw same first

release-adj_rib_in :
    (s : System) (peer : Peer) (p : ℕ) → (release s peer p).1.adj_rib_in ≡ peer.adj_rib_in
unfolding release
release-adj_rib_in s peer p = ground arith

released :
    (s : System) (peer : Peer) (old p : ℕ)
    → p ≢ 0
    → old ≡ p
    → (s.routes p).use_count ≡ 1
    → (q : System × Peer) → q ≡ (if old == 0 then (s, peer) else release s peer old)
    → (q.1.adj_rib_in ≡ peer.adj_rib_in) × (first_free q.0 q.1 p ≡ p)
released s peer old p p≢0 same one q e =
    let given_back : q ≡ release s peer p = ground arith in
    rw given_back (release-adj_rib_in s peer p, release-last s peer p one)

-- The pair that the call ends with.
ends :
    (s₃ : System) (q : Peer) (s' : System) (peer' : Peer) (a p : ℕ)
    → ◌≡◌ {A = Result (System × Peer)} (ok (s₃, q)) (ok (s', peer'))
    → (q.adj_rib_in a ≡ p) × (first_free s₃ q p ≡ p)
    → (peer'.adj_rib_in a ≡ p) × (first_free s' peer' p ≡ p)
ends s₃ q s' peer' a p e k =
    let left : s₃ ≡ s' = cc in let right : q ≡ peer' = cc in rw (← left) (rw (← right) k)

-- A route that the entry already holds, as its only use, and that the peer is given for the entry
-- again, as when an UPDATE names a prefix twice, is given back and used all the same: if the call
-- returns, the route stands in the entry, and it is the first buffer that the peer's next allocation
-- of its size takes.
pub update_adj_rib_in-again :
    (garbage : Bool) (s : System) (peer : Peer) (ref p : ℕ) (s' : System) (peer' : Peer)
    → p ≢ 0
    → peer.adj_rib_in (bit_and ref lr_index_mask) ≡ p
    → (s.routes p).use_count ≡ 1
    → update_adj_rib_in garbage s peer ref p ≡ ok (s', peer')
    → (peer'.adj_rib_in (bit_and ref lr_index_mask) ≡ p) × (first_free s' peer' p ≡ p)
unfolding update_adj_rib_in
update_adj_rib_in-again garbage s peer ref p s' peer' p≢0 held one e =
    let a = bit_and ref lr_index_mask in
    let s₁ = record s { received_prefixes = (s.received_prefixes + 1) % 2 ^ 64 } in
    let peer₁ = record peer { adj_rib_in = update peer.adj_rib_in a p } in
    let (u, e₁, k₁) = >>=-eq-ok (in_object (ltb a big)) _ e in
    let q : System × Peer =
      if peer.adj_rib_in a == 0 then (s₁, peer₁) else release s₁ peer₁ (peer.adj_rib_in a) in
    let (held', first) = released s₁ peer₁ (peer.adj_rib_in a) p p≢0 held one q refl in
    let is_route : not (p == 0) ≡ true = ground arith in
    let (s₃, e₃, k₃) =
      >>=-eq-ok (locrib garbage _ ref p true) _ (if_true-eq (not (p == 0)) _ _ is_route k₁) in
    ends s₃ _ s' peer' a p k₃ (
      ap (λ f. f a) held' ∙ update_self peer.adj_rib_in a p,
      locrib-first_free garbage q.0 q.1 _ ref p p true s₃ e₃ first,
    )
