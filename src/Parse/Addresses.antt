-- ===== src/Parse/Addresses.antt =====
-- The routes that a peer's entries name, along the prefixes of an UPDATE.
use fastparse.Prelude.{
  ℕ, ◌+◌, ◌%◌, ◌^◌, ◌≡◌, ◌≢◌, refl, ap, ◌∙◌, Bool, true, false, ◌==◌, if◌then◌else◌, arith, ok,
  bit_or, >>=-eq-ok, if-eq-ok, inl, inr,
}
use fastparse.Bytes.{Bytes}
use fastparse.Bigtable.{too_big, lookup_rib64}
use fastparse.Alloc.{Pools, map_failed}
use fastparse.Locrib.{lr_eob}
use fastparse.System.{System}
use fastparse.Rib.{Peer, update_adj_rib_in}
use fastparse.Rib.Addresses.{Named, update_adj_rib_in-Named}
use fastparse.Parse.{announce, withdraw, announce_all, withdraw_all}
use fastparse.Parse.Loops.{pair-ok, announce_all-keeps, withdraw_all-keeps}

-- With `n` routes made so far.
abbrev pub NamedAt : ℕ → ℕ → System → Peer → Type 0
NamedAt base n s peer = Named base s peer × (s.unique ≡ n)

-- What the allocator has, and the number of routes.
abbrev books : System → Pools × (ℕ → ℕ) × ℕ
books s = (s.pools, s.words, s.unique)

module _ (base n : ℕ) (garbage : Bool) where
  -- A change of the counters and of the table of prefixes.
  recorded :
      {s t : System} {peer : Peer}
      → books t ≡ books s
      → NamedAt base n s peer
      → NamedAt base n t peer
  recorded {s} {t} {peer} e c =
      let pools : t.pools ≡ s.pools = ap (λ v. v.0) e in
      let words : t.words ≡ s.words = ap (λ v. v.1) e in
      (
        record {
          low = record {
            room = c.0.low.room;
            layout = rw pools c.0.low.layout;
            small_free = c.0.low.small_free;
            large_free = c.0.low.large_free;
            words = rw words c.0.low.words;
          };
          entries = c.0.entries;
        },
        ap (λ v. v.2) e ∙ c.1,
      )

  either :
      (b : Bool) {u v : System} {peer : Peer}
      → NamedAt base n u peer
      → NamedAt base n v peer
      → NamedAt base n (if b then u else v) peer
  either true c d = c
  either false c d = d

  announce-NamedAt :
      {s s' : System} {peer peer' : Peer} (end route prefix at : ℕ)
      → route ≢ map_failed
      → NamedAt base n s peer
      → announce garbage s peer prefix at end route ≡ ok (s', peer')
      → NamedAt base n s' peer'
  unfolding announce
  announce-NamedAt {s} {s'} {peer} {peer'} end route prefix at ne c e =
      let ((r, t), e₁, k₁) = >>=-eq-ok (lookup_rib64 s.bigtable prefix) _ e in
      let last = at == end in
      let s₂ : System =
        if last
        then record s { bigtable = t; updates = (s.updates + 1) % 2 ^ 64 }
        else record s { bigtable = t } in
      let c₂ : NamedAt base n s₂ peer = either last (recorded refl c) (recorded refl c) in
      elim (if-eq-ok (too_big == r) _ _ k₁) [
        | inl long ↦ pair-ok (NamedAt base n) long (recorded refl c)
        | inr short ↦
            let ((s₃, peer₃), e₃, k₃) =
              >>=-eq-ok
                (update_adj_rib_in garbage s₂ peer (if last then bit_or r lr_eob else r) route) _
                short in
            let (d, same) = update_adj_rib_in-Named garbage _ route c₂.0 ne e₃ in
            pair-ok (NamedAt base n) k₃ (recorded refl (d, same ∙ c₂.1))
      ]

  withdraw-NamedAt :
      {s s' : System} {peer peer' : Peer} (end prefix at : ℕ)
      → NamedAt base n s peer
      → withdraw garbage s peer prefix at end ≡ ok (s', peer')
      → NamedAt base n s' peer'
  unfolding withdraw
  withdraw-NamedAt {s} {s'} {peer} {peer'} end prefix at c e =
      let ((r, t), e₁, k₁) = >>=-eq-ok (lookup_rib64 s.bigtable prefix) _ e in
      let c₁ : NamedAt base n (record s { bigtable = t }) peer = recorded refl c in
      elim (if-eq-ok (too_big == r) _ _ k₁) [
        | inl long ↦ pair-ok (NamedAt base n) long (recorded refl c)
        | inr short ↦
            let (d, same) = update_adj_rib_in-Named garbage _ 0 c₁.0 (omega arith) short in
            (d, same ∙ c₁.1)
      ]

  -- A route made for an UPDATE, and the prefixes announced and withdrawn.
  pub announce_all-NamedAt :
      (fuel : ℕ) (m : Bytes) {s s' : System} {peer peer' : Peer} (p end route : ℕ)
      → route ≢ map_failed
      → NamedAt base n s peer
      → announce_all fuel garbage m s peer p end route ≡ ok (s', peer')
      → NamedAt base n s' peer'
  announce_all-NamedAt fuel m p end route ne c e =
      announce_all-keeps (NamedAt base n) garbage m end fuel route p
        (λ t t' q q' prefix at d k. announce-NamedAt end route prefix at ne d k) c e

  pub withdraw_all-NamedAt :
      (fuel : ℕ) (m : Bytes) {s s' : System} {peer peer' : Peer} (p end : ℕ)
      → NamedAt base n s peer
      → withdraw_all fuel garbage m s peer p end ≡ ok (s', peer')
      → NamedAt base n s' peer'
  withdraw_all-NamedAt fuel m p end c e =
      withdraw_all-keeps (NamedAt base n) garbage m end fuel p
        (λ t t' q q' prefix at d k. withdraw-NamedAt end prefix at d k) c e
