-- ===== src/Rib/Addresses.antt =====
-- The routes that a peer's entries name, and the allocator, along the changes of the entries.
use fastparse.Prelude.{
  true, false, ℕ, ◌+◌, ◌-◌, ◌%◌, ◌^◌, ◌≡◌, ◌≢◌, refl, ◌∙◌, Bool, not, ◌==◌, if◌then◌else◌, arith,
  Result, ok, in_object, ltb, update, bit_and, >>=-eq-ok, if-eq-ok, Bool-cases, inl, inr,
}
use fastparse.Bigtable.{big}
use fastparse.Alloc.{Memory, map_failed}
use fastparse.Alloc.Addresses.{IsLow, dalloc-IsLow}
use fastparse.Locrib.{lr_index_mask}
use fastparse.System.{System}
use fastparse.Phase3.Frame.{Keeps}
use fastparse.Rib.{Peer, set_use_count, release, locrib, update_adj_rib_in}
use fastparse.Rib.Frame.{locrib-Keeps}

-- The allocator as the peer sees it.
abbrev pub memory : System → Peer → Memory
memory s peer = record { pools = s.pools; cache = peer.cache; words = s.words }

-- No entry names a route at ~0, and no such address is given out.
pub record Named (base : ℕ) (s : System) (peer : Peer) : Type 0 where
  pub low : IsLow base (memory s peer)
  pub entries : (x : ℕ) → peer.adj_rib_in x ≢ map_failed

pub Named-Keeps :
    {base : ℕ} {s t : System} {peer : Peer} → Keeps s t → Named base s peer → Named base t peer
Named-Keeps {base} {s} {t} {peer} k c = record {
  low = record {
    room = c.low.room;
    layout = rw k.pools c.low.layout;
    small_free = c.low.small_free;
    large_free = c.low.large_free;
    words = rw k.words c.low.words;
  };
  entries = c.entries;
}

release-unique : (s : System) (peer : Peer) (old : ℕ) → (release s peer old).0.unique ≡ s.unique
unfolding release
release-unique s peer old = ground arith

release-Named :
    {base : ℕ} {s : System} {peer : Peer} (old : ℕ)
    → old ≢ map_failed
    → Named base s peer
    → Named base (release s peer old).0 (release s peer old).1
unfolding release
release-Named {base} {s} {peer} old ne c =
    let s₁ = set_use_count s old ((s.routes old).use_count + 2 ^ 16 - 1) in
    elim (Bool-cases ((s₁.routes old).use_count == 0)) [
      | inl last ↦ rw last (record { low = dalloc-IsLow c.low old ne; entries = c.entries })
      | inr others ↦ rw others (record { low = c.low; entries = c.entries })
    ]

-- The number of routes is as it was.
record Counted (base n : ℕ) (s : System) (peer : Peer) : Type 0 where
  named : Named base s peer
  count : s.unique ≡ n

let_go-Counted :
    {base : ℕ} {s : System} {peer : Peer} (old : ℕ)
    → old ≢ map_failed
    → Named base s peer
    → (q : System × Peer) → q ≡ (if old == 0 then (s, peer) else release s peer old)
    → Counted base s.unique q.0 q.1
let_go-Counted {base} {s} {peer} old ne c q e = elim (Bool-cases (old == 0)) [
  | inl nothing ↦
      let same : q ≡ (s, peer) = e ∙ (rw nothing refl) in
      rw same (record { named = c; count = refl })
  | inr held ↦
      let same : q ≡ release s peer old = e ∙ (rw held refl) in
      rw same (record { named = release-Named old ne c; count = release-unique s peer old })
]

Counted-ok :
    {base n : ℕ} {t s' : System} {peer peer' : Peer}
    → ◌≡◌ {A = Result (System × Peer)} (ok (t, peer)) (ok (s', peer'))
    → Counted base n t peer
    → Counted base n s' peer'
Counted-ok {base} {n} {t} {s'} {peer} {peer'} k c =
    let same_s : t ≡ s' = cc in
    let same_peer : peer ≡ peer' = cc in rw (← same_s) (rw (← same_peer) c)

Counted-locrib :
    {base n : ℕ} {s t s' : System} {peer peer' : Peer} (garbage : Bool) (ref new : ℕ)
    (is_update : Bool)
    → Counted base n s peer
    → locrib garbage s ref new is_update ≡ ok t
    → ◌≡◌ {A = Result (System × Peer)} (ok (t, peer)) (ok (s', peer'))
    → Counted base n s' peer'
Counted-locrib {base} {n} {s} {t} {s'} {peer} {peer'} garbage ref new is_update c e k =
    let kept = locrib-Keeps garbage s ref new is_update t e in
    Counted-ok k (record { named = Named-Keeps kept c.named; count = kept.unique ∙ c.count })

pub update_adj_rib_in-Named :
    {base : ℕ} {s s' : System} {peer peer' : Peer} (garbage : Bool) (ref route : ℕ)
    → Named base s peer
    → route ≢ map_failed
    → update_adj_rib_in garbage s peer ref route ≡ ok (s', peer')
    → Named base s' peer' × (s'.unique ≡ s.unique)
unfolding update_adj_rib_in
update_adj_rib_in-Named {base} {s} {s'} {peer} {peer'} garbage ref route c ne e =
    let a = bit_and ref lr_index_mask in
    let old = peer.adj_rib_in a in
    let s₁ = record s { received_prefixes = (s.received_prefixes + 1) % 2 ^ 64 } in
    let peer₁ = record peer { adj_rib_in = update peer.adj_rib_in a route } in
    let z : System × Peer = if old == 0 then (s₁, peer₁) else release s₁ peer₁ old in
    let stored : (x : ℕ) → peer₁.adj_rib_in x ≢ map_failed = (λ x. ground (arith, c.entries x)) in
    let c₁ : Named base s₁ peer₁ = record { low = c.low; entries = stored } in
    let d : Counted base s.unique z.0 z.1 = let_go-Counted old (c.entries a) c₁ z refl in
    let (u, e₁, k₁) = >>=-eq-ok (in_object (ltb a big)) _ e in
    let done : Counted base s.unique s' peer' = elim (if-eq-ok (not (route == 0)) _ _ k₁) [
      | inl announced ↦
          let (s₃, e₃, k₃) =
            >>=-eq-ok (locrib garbage (set_use_count z.0 route _) ref route true) _ announced in
          Counted-locrib garbage ref route true
            (record {
              named = record { low = d.named.low; entries = d.named.entries };
              count = d.count;
            })
            e₃ k₃
      | inr withdrawn ↦ elim (if-eq-ok (not (old == 0)) _ _ withdrawn) [
        | inl held ↦
            let (s₃, e₃, k₃) = >>=-eq-ok (locrib garbage z.0 ref route false) _ held in
            Counted-locrib garbage ref route false d e₃ k₃
        | inr nothing ↦ Counted-ok nothing d
      ]
    ] in
    (done.named, done.count)
