-- ===== src/Rib/Sound.antt =====
-- The invariant of the prefix table, the table of best routes and the journal along the changes of a
-- peer's entries.
use fastparse.Prelude.{
  ℕ, ◌+◌, ◌%◌, ◌^◌, ◌≡◌, ◌≢◌, ◌<◌, refl, ap, ◌∙◌, Bool, true, false, not, ◌==◌, if◌then◌else◌, List,
  arith, Result, ok, in_object, ltb, update, bit_and, >>=-eq-ok, if-eq-ok, Bool-cases, inl, inr,
}
use fastparse.Bigtable.{Bigtable, big}
use fastparse.Bigtable.Inv.{IsValid}
use fastparse.Journal.{Journal}
use fastparse.Locrib.{Locrib, lr_index_mask}
use fastparse.System.{System}
use fastparse.Phase3.{empty_route}
use fastparse.Rib.{Peer, set_use_count, release, locrib, update_adj_rib_in}
use fastparse.Rib.Frame.{locrib-Keeps}
use fastparse.Rib.Pending.{Pending}
use fastparse.Rib.Offers.{locrib-Pending}

-- The parts that the invariant is about are those of `s`.
pub record Apart (s t : System) : Type 0 where
  pub journal : t.journal ≡ s.journal
  pub locrib : t.locrib ≡ s.locrib
  pub bigtable : t.bigtable ≡ s.bigtable
  pub locked : t.phase3_locked ≡ s.phase3_locked
  pub debug : t.phase3_debug ≡ s.phase3_debug

-- Those parts.
abbrev pub view : System → Journal × Locrib × Bigtable × Bool × ℕ
view s = (s.journal, s.locrib, s.bigtable, s.phase3_locked, s.phase3_debug)

pub Apart-of : {s t : System} → view t ≡ view s → Apart s t
Apart-of e = record {
  journal = ap (λ v. v.0) e;
  locrib = ap (λ v. v.1) e;
  bigtable = ap (λ v. v.2) e;
  locked = ap (λ v. v.3) e;
  debug = ap (λ v. v.4) e;
}

pub Pending-Apart : {s t : System} {q : List ℕ} → Apart s t → Pending s q → Pending t q
Pending-Apart {s} {t} {q} a c = record {
  contents = rw a.journal c.contents;
  flagged = rw a.locrib c.flagged;
  distinct = c.distinct;
  given = rw a.bigtable c.given;
  small = rw a.bigtable c.small;
  routes = rw a.locrib c.routes;
  unlocked = a.locked ∙ c.unlocked;
  idle = a.debug ∙ c.idle;
}

release-Apart : (s : System) (peer : Peer) (old : ℕ) → Apart s (release s peer old).0
unfolding release
release-Apart s peer old = record {
  journal = ground arith;
  locrib = ground arith;
  bigtable = ground arith;
  locked = ground arith;
  debug = ground arith;
}

let_go :
    (s : System) (peer : Peer) (old : ℕ)
    → Apart s (if old == 0 then (s, peer) else release s peer old).0
let_go s peer old = elim (Bool-cases (old == 0)) [
  | inl nothing ↦ rw nothing (Apart-of refl)
  | inr held ↦ rw held (release-Apart s peer old)
]

-- The prefix table is valid, and the references that wait are different ones of it, those whose flag
-- is set.
pub record Sound (s : System) : Type 0 where
  pub table : IsValid s.bigtable
  pub queue : List ℕ
  pub pending : Pending s queue

pub Sound-Apart : {s t : System} → Apart s t → Sound s → Sound t
Sound-Apart a c = record {
  table = rw a.bigtable c.table;
  queue = c.queue;
  pending = Pending-Apart a c.pending;
}

locrib-Sound :
    {s : System} (ref new : ℕ) (is_update : Bool) (s' : System)
    → Sound s
    → new ≢ empty_route
    → bit_and lr_index_mask ref < s.bigtable.index
    → locrib true s ref new is_update ≡ ok s'
    → Sound s'
locrib-Sound {s} ref new is_update s' c ne given e =
    let (q, p) = locrib-Pending ref new is_update s' c.pending ne given e in
    let same : s'.bigtable ≡ s.bigtable = (locrib-Keeps true s ref new is_update s' e).bigtable in
    record { table = rw same c.table; queue = q; pending = p }

pub Sound-pair :
    {s₃ s' : System} {peer peer' : Peer}
    → ◌≡◌ {A = Result (System × Peer)} (ok (s₃, peer)) (ok (s', peer'))
    → Sound s₃
    → Sound s'
Sound-pair {s₃} {s'} e c = let same : s₃ ≡ s' = cc in rw (← same) c

-- A change of a peer's entry for a reference that the prefix table has given out, whether it is an
-- announcement or a withdrawal: if it returns, the table of prefixes is valid, and the references that
-- wait in the journal are again different ones of it, exactly those whose flag is set.
pub update_adj_rib_in-Sound :
    {s : System} (peer : Peer) (ref route : ℕ) (s' : System) (peer' : Peer)
    → Sound s
    → route ≢ empty_route
    → bit_and lr_index_mask ref < s.bigtable.index
    → update_adj_rib_in true s peer ref route ≡ ok (s', peer')
    → Sound s'
unfolding update_adj_rib_in
update_adj_rib_in-Sound {s} peer ref route s' peer' c ne given e =
    let a = bit_and ref lr_index_mask in
    let old = peer.adj_rib_in a in
    let s₁ = record s { received_prefixes = (s.received_prefixes + 1) % 2 ^ 64 } in
    let peer₁ = record peer { adj_rib_in = update peer.adj_rib_in a route } in
    let z : System × Peer = if old == 0 then (s₁, peer₁) else release s₁ peer₁ old in
    let apart : Apart s₁ z.0 = let_go s₁ peer₁ old in
    let c₁ : Sound z.0 = Sound-Apart apart (Sound-Apart (Apart-of refl) c) in
    let given₁ : bit_and lr_index_mask ref < z.0.bigtable.index = rw apart.bigtable given in
    let (u, e₁, k₁) = >>=-eq-ok (in_object (ltb a big)) _ e in
    elim (if-eq-ok (not (route == 0)) _ _ k₁) [
      | inl announced ↦
          let (s₃, e₃, k₃) =
            >>=-eq-ok (locrib true (set_use_count z.0 route _) ref route true) _ announced in
          Sound-pair k₃
            (locrib-Sound ref route true s₃ (Sound-Apart (Apart-of refl) c₁) ne given₁ e₃)
      | inr withdrawn ↦ elim (if-eq-ok (not (old == 0)) _ _ withdrawn) [
        | inl held ↦
            let (s₃, e₃, k₃) = >>=-eq-ok (locrib true z.0 ref route false) _ held in
            Sound-pair k₃ (locrib-Sound ref route false s₃ c₁ ne given₁ e₃)
        | inr nothing ↦ Sound-pair nothing c₁
      ]
    ]
