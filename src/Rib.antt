-- ===== src/Rib.antt =====
-- peer.c, phase1.c, `locrib` with what it calls outside the entry's lock, and `update_adj_rib_in` of
-- bgpparse.c: a peer's routes, and how a change of one reaches the table of best routes.
pub mod Frame
pub mod Release
pub mod Withdraw
pub mod Pending
pub mod Offers
pub mod Addresses
pub mod Sound
pub mod Uses
pub mod Counted
use fastparse.Prelude.{
  ℕ, ◌+◌, ◌-◌, ◌*◌, ◌%◌, ◌^◌, Bool, true, false, not, ◌==◌, if◌then◌else◌, bit_and, ltb, Option,
  none, some, Result, ok, ◌>>=◌, ◌>>◌, in_object, update,
}
use fastparse.Bigtable.{big}
use fastparse.Journal.{locribj_push}
use fastparse.Route.{Route, Tiebreak}
use fastparse.Alloc.{Cache, Memory, dalloc}
use fastparse.Locrib.{lr_index_mask, lr_eob, decide}
use fastparse.System.{System}
use fastparse.Phase3.{schedule_phase3}

-- `struct peer` without its thread; `base` and `length` are the part of the input
-- that it reads, `length` as the 64-bit word of a signed number.
pub record Peer : Type 0 where
  pub static_local_pref : ℕ
  pub ebgp : Bool
  pub bgpid : ℕ
  pub peer_address : ℕ
  pub adj_rib_in : ℕ → ℕ
  pub base : ℕ
  pub length : ℕ
  pub cache : Cache

unfoldable pub phase1 : Peer → Route → Route
phase1 peer r = record r {
  tiebreak = record r.tiebreak {
    ebgp = (if peer.ebgp then 1 else 0);
    peer_address = peer.peer_address;
    local_pref = peer.static_local_pref;
    bgpid = peer.bgpid;
  };
}

-- The journal is pushed to, and its reader called, outside the lock.
unfoldable pub locrib : Bool → System → ℕ → ℕ → Bool → Result System
locrib garbage s extended_addrref new is_update = do
  let addrref = bit_and lr_index_mask extended_addrref
  let eob_flag = not (bit_and lr_eob extended_addrref == 0)
  (push_flag, l) ← decide garbage s.routes s.locrib addrref new is_update
  let s' = record s { locrib = l }
  if push_flag then ok s' else (do
    j ← locribj_push s'.journal addrref
    let s'' = record s' { journal = j }
    if eob_flag then schedule_phase3 s'' else ok s'')

-- A `use_count` of 16 bits changes.
abbrev pub set_use_count : System → ℕ → ℕ → System
set_use_count s p n = record s {
  routes = update s.routes p (record (s.routes p) { use_count = n % 2 ^ 16 });
}

-- The use that the entry made of its old route ends; a route with no use left is given back.
unfoldable pub release : System → Peer → ℕ → System × Peer
release s peer old =
    let s' = set_use_count s old ((s.routes old).use_count + 2 ^ 16 - 1) in
    if (s'.routes old).use_count == 0
    then (let mem =
          dalloc (record { pools = s'.pools; cache = peer.cache; words = s'.words }) old in
        (record s' { pools = mem.pools; words = mem.words }, record peer { cache = mem.cache }))
    else (s', peer)

-- `route` is 0 for a withdrawal.
unfoldable pub update_adj_rib_in : Bool → System → Peer → ℕ → ℕ → Result (System × Peer)
update_adj_rib_in garbage s peer addrref route = do
  let addrindex = bit_and addrref lr_index_mask
  let s₁ = record s { received_prefixes = (s.received_prefixes + 1) % 2 ^ 64 }
  in_object (ltb addrindex big)
  let old_route = peer.adj_rib_in addrindex
  let peer₁ = record peer { adj_rib_in = update peer.adj_rib_in addrindex route }
  let (s₂, peer₂) = (if old_route == 0 then (s₁, peer₁) else release s₁ peer₁ old_route)
  if not (route == 0)
      then (do
        s₃ ←
            locrib garbage (set_use_count s₂ route ((s₂.routes route).use_count + 1)) addrref route
              true
        ok (s₃, peer₂))
      else if not (old_route == 0)
      then (do s₃ ← locrib garbage s₂ addrref route false; ok (s₃, peer₂))
      else ok (s₂, peer₂)
