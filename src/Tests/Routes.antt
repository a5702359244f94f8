-- ===== src/Tests/Routes.antt =====
-- The table of best routes, its output, and a peer's routes.
use fastparse.Prelude.{
  ℕ, ◌≡◌, inr, refl, true, false, ok, arith, ap, ◌↔◌, bit_and, ◌==◌, if◌then◌else◌,
}
use fastparse.Journal.{locribj_push}
use fastparse.Route.{Route, Tiebreak, zero_tiebreak, tiebreaker}
use fastparse.Route.Tie.{InRange, tiebreaker_iff}
use fastparse.Alloc.{dalloc, dalloc_small, dalloc_large, dalloc_cache_line}
use fastparse.Locrib.{Locrib, lr_index_mask, decide, offer, push}
use fastparse.Locrib.Entry.{won, decide-offer, decide-withdraw}
use fastparse.System.{System}
use fastparse.Rib.{Peer, release, locrib, update_adj_rib_in}
use fastparse.Rib.Release.{first_free}
use fastparse.Rib.Withdraw.{update_adj_rib_in-again}
use fastparse.Tests.Data.{no_route, zero-InRange, idle, peer_1, value}

abbrev preferred : Tiebreak
preferred = record zero_tiebreak { local_pref = 100 }

preferred-InRange : InRange preferred
preferred-InRange = record {
  local_pref = omega arith;
  path_length = omega arith;
  origin = omega arith;
  med = omega arith;
  ebgp = omega arith;
  igp_metric = omega arith;
  bgpid = omega arith;
  peer_address = omega arith;
}

tiebreaker_iff_example : (tiebreaker preferred zero_tiebreak ≡ false) ↔ (preferred ≡ zero_tiebreak)
tiebreaker_iff_example = tiebreaker_iff preferred zero_tiebreak preferred-InRange zero-InRange

-- The route at 1 has a higher preference than the others.
abbrev routes : ℕ → Route
routes p = if p == 1 then record no_route { tiebreak = preferred } else no_route

-- Entry 3 has the preferred route.
abbrev best : Locrib
best = record { head = λ _. 1; push_flag = λ _. false }

-- The worse route becomes the best one.
decide-offer_example :
    decide false routes best 3 2 true ≡ ok (false, won false routes best 3 2 (omega arith))
decide-offer_example =
    decide-offer false routes best 3 2 (omega arith) zero-InRange preferred-InRange
      (inr (λ e. absurd (let same : 0 ≡ 100 = ap (λ t. t.local_pref) e in omega arith)))

decide-withdraw_example : decide true routes best 3 0 false ≡ ok (true, best)
decide-withdraw_example = decide-withdraw true routes best 3 (omega arith)

abbrev again : System × Peer
again = value (idle, peer_1) (update_adj_rib_in false idle peer_1 3 4352)

given_again : update_adj_rib_in false idle peer_1 3 4352 ≡ ok (again.0, again.1)
unfolding update_adj_rib_in release dalloc dalloc_small dalloc_large dalloc_cache_line locrib decide
    offer push locribj_push
given_again = refl

update_adj_rib_in-again_example :
    (again.1.adj_rib_in (bit_and 3 lr_index_mask) ≡ 4352) × (first_free again.0 again.1 4352 ≡ 4352)
update_adj_rib_in-again_example =
    update_adj_rib_in-again false idle peer_1 3 4352 again.0 again.1 (omega arith) refl refl
      given_again
