-- ===== src/Program/Passes.antt =====
-- What a pass starts from, and that there is only one.
use fastparse.Prelude.{
  ℕ, ◌<◌, ◌≡◌, refl, Bool, true, not, map, List, [], ◌∷◌, All, arith, ok, err, >>=-eq-ok, assert,
  assertion, length,
}
use fastparse.Bytes.{Bytes}
use fastparse.Bigtable.Inv.{IsValid, init-IsValid}
use fastparse.Journal.Refine.{Contents, init-Contents}
use fastparse.Alloc.{Pools, reinit_pools}
use fastparse.Alloc.Layout.{Carved}
use fastparse.Alloc.Owners
use fastparse.Alloc.Owners.{unborn}
use fastparse.Rib.{Peer}
use fastparse.Split.{split_buf}
use fastparse.Parse.{Options}
use fastparse.Phase3.{schedule_phase3}
use fastparse.Program.{Program, reinit, reinit_peer, parse_peers, buf_parse}

reinit-allocated :
    (garbage : ℕ → ℕ) (p p' : Program) → reinit garbage p ≡ ok p' → p'.allocated ≡ true
unfolding reinit
reinit-allocated garbage p p' e =
    let (u, e₁, k₁) = >>=-eq-ok (assert (not p.allocated)) _ e in ground arith

reinit-again :
    (garbage : ℕ → ℕ) (p : Program) → p.allocated ≡ true → reinit garbage p ≡ err assertion
unfolding reinit
reinit-again garbage p there = rw there

-- After a pass that returned, every further pass fails at the assertion of `locrib_init`, whatever the
-- input is.
pub buf_parse_again :
    (fuel fuel' : ℕ) (garbage garbage' : Bool) (entries entries' : ℕ → ℕ) (opts opts' : Options)
    (m m' : Bytes) (p p' : Program) (base base' len len' n : ℕ)
    → buf_parse fuel garbage entries opts m p base len ≡ ok (p', n)
    → buf_parse fuel' garbage' entries' opts' m' p' base' len' ≡ err assertion
unfolding buf_parse
buf_parse_again fuel fuel' garbage garbage' entries entries' opts opts' m m' p p' base base' len
      len' n e =
    let (q, e₁, k₁) = >>=-eq-ok (reinit entries p) _ e in
    let (bufs, e₂, k₂) = >>=-eq-ok (split_buf (length q.peers) m base len) _ k₁ in
    let ((s, peers, c), e₃, k₃) =
      >>=-eq-ok (parse_peers fuel garbage opts m q.system q.peers bufs 0) _ k₂ in
    let (s', e₄, k₄) = >>=-eq-ok (schedule_phase3 s) _ k₃ in
    let there : p'.allocated ≡ true = ground (arith, reinit-allocated entries p q e₁) in
    rw (reinit-again entries' p' there)

-- The allocator with this cache is in a valid state in which no buffer has been carved.
abbrev pub Unused : ℕ → Pools → (ℕ → ℕ) → Peer → Type 0
Unused base pools words q =
    Owners.IsValid base (record { pools = pools; cache = q.cache; words = words }) (λ _. unborn) []
      []

reinit_peer-Unused :
    (base : ℕ) (pools : Pools) (words : ℕ → ℕ) (peers : List Peer)
    → 0 < base
    → Carved base pools
    → (pools.small.index ≡ 0) × (pools.large.index ≡ 0)
    → All (Unused base pools words) (map reinit_peer peers)
unfolding reinit_peer
reinit_peer-Unused base pools words [] pos c z = tt
reinit_peer-Unused base pools words (q ∷ peers) pos c z = (
  record {
    base_pos = pos;
    layout = c;
    safe = omega (arith, z.0);
    large_in = omega (arith, z.1);
    small_list = record { chain = refl; count = refl; small = omega arith };
    large_list = record { chain = refl; count = refl; small = omega arith };
    smalls_owned = tt;
    larges_owned = tt;
    born = λ x. tt;
  },
  reinit_peer-Unused base pools words peers pos c z,
)

pub reinit-Carved :
    (base : ℕ) (pools : Pools) → Carved base pools → Carved base (reinit_pools pools)
reinit-Carved base pools c = record {
  small_buf = c.small_buf;
  small_alloc = c.small_alloc;
  small_limit = c.small_limit;
  large_buf = c.large_buf;
  large_alloc = c.large_alloc;
  large_limit = c.large_limit;
}

-- A pass over pools carved from a slab starts from a valid table of prefixes, an empty journal, and for
-- every peer a valid allocator that has given nothing out.
pub reinit-IsValid :
    (garbage : ℕ → ℕ) (base : ℕ) (p p' : Program)
    → 0 < base
    → Carved base p.system.pools
    → reinit garbage p ≡ ok p'
    → IsValid p'.system.bigtable
      × Contents p'.system.journal []
      × All (Unused base p'.system.pools p'.system.words) p'.peers
unfolding reinit
reinit-IsValid garbage base p p' pos c e =
    let (u, e₁, k₁) = >>=-eq-ok (assert (not p.allocated)) _ e in
    moved _ p' k₁ (
      init-IsValid,
      init-Contents garbage,
      reinit_peer-Unused base (reinit_pools p.system.pools) p.system.words p.peers pos
          (reinit-Carved base p.system.pools c) (refl, refl),
    )
  where
    Ready : Program → Type 0
    Ready q =
        IsValid q.system.bigtable
        × Contents q.system.journal []
        × All (Unused base q.system.pools q.system.words) q.peers

    moved : (q r : Program) → ok q ≡ ok r → Ready q → Ready r
    moved q r e h = let same : q ≡ r = cc in rw (← same) h
