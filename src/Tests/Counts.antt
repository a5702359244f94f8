-- ===== src/Tests/Counts.antt =====
-- An entry whose only route is replaced.
use fastparse.Prelude.{
  ℕ, zero, suc, ◌≡◌, ◌≢◌, ◌<◌, ◌==◌, if◌then◌else◌, true, refl, ok, arith, update,
}
use fastparse.Alloc.{dalloc, dalloc_small, dalloc_large, dalloc_cache_line}
use fastparse.Bigtable.{big}
use fastparse.Journal.{locribj_push}
use fastparse.Locrib.{decide, offer, push}
use fastparse.System.{System}
use fastparse.Rib.{Peer, release, locrib, update_adj_rib_in}
use fastparse.Rib.Uses.{uses, uses-update}
use fastparse.Rib.Counted.{Counted, count, update_adj_rib_in-Counted}
use fastparse.Tests.Data.{idle, peer_1, value}

abbrev holder : Peer
holder = record peer_1 { adj_rib_in = update (λ _. 0) 3 4352 }

-- Another peer holds every route but the one at 4,352.
abbrev elsewhere : ℕ → ℕ
elsewhere r = if r == 4352 then 0 else 1

no_uses : (n r : ℕ) → r ≢ 0 → uses n (λ _. 0) r ≡ 0
unfolding uses
no_uses zero r ne = refl
no_uses (suc n) r ne = let rest = no_uses n r ne in ground arith

holder-Counted : Counted elsewhere idle holder
holder-Counted = record {
  counted = λ r ne.
      let moved = uses-update (λ _. 0) 3 4352 r big (omega arith) in
      let none = no_uses big r ne in ground arith;
  small = λ r ne. omega arith;
}

abbrev replaced : System × Peer
replaced = value (idle, holder) (update_adj_rib_in true idle holder 3 4608)

holder-replaced : update_adj_rib_in true idle holder 3 4608 ≡ ok (replaced.0, replaced.1)
unfolding update_adj_rib_in release dalloc dalloc_small dalloc_large dalloc_cache_line locrib decide
    offer push locribj_push
holder-replaced = refl

update_adj_rib_in-Counted_example :
    Counted elsewhere replaced.0 replaced.1
    × (holder.adj_rib_in 3 ≢ 0
        → holder.adj_rib_in 3 ≢ 4608
        → count idle 4352 ≡ 1
        → (i : ℕ) → i < big
        → replaced.1.adj_rib_in i ≢ 4352)
update_adj_rib_in-Counted_example =
    update_adj_rib_in-Counted true 3 4608 replaced.0 replaced.1 holder-Counted (λ ne. omega arith)
      holder-replaced
