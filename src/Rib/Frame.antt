-- ===== src/Rib/Frame.antt =====
-- What a call of `locrib` leaves alone.
use fastparse.Prelude.{ℕ, ◌≡◌, refl, Bool, not, ◌==◌, ok, bit_and, >>=-eq-ok, if-eq-ok, inl, inr}
use fastparse.Journal.{locribj_push}
use fastparse.Locrib.{decide, lr_index_mask, lr_eob}
use fastparse.System.{System}
use fastparse.Phase3.{schedule_phase3}
use fastparse.Phase3.Frame.{Keeps, Keeps-eq, schedule_phase3-Keeps}
use fastparse.Rib.{locrib}

-- The pools, the routes, their number and the table of prefixes, also where the output runs.
pub locrib-Keeps :
    (garbage : Bool) (s : System) (ref new : ℕ) (is_update : Bool) (s' : System)
    → locrib garbage s ref new is_update ≡ ok s'
    → Keeps s s'
unfolding locrib
locrib-Keeps garbage s ref new is_update s' e =
    let ((flag, l), e₁, k₁) =
      >>=-eq-ok (decide garbage s.routes s.locrib (bit_and lr_index_mask ref) new is_update) _ e in
    elim (if-eq-ok flag (ok _) _ k₁) [
      | inl pushed ↦
          Keeps-eq
            (record { pools = refl; words = refl; routes = refl; bigtable = refl; unique = refl })
            pushed
      | inr first ↦
          let (j, e₂, k₂) =
            >>=-eq-ok (locribj_push s.journal (bit_and lr_index_mask ref)) _ first in
          elim (if-eq-ok (not (bit_and lr_eob ref == 0)) (schedule_phase3 _) _ k₂) [
            | inl eob ↦
                let k = schedule_phase3-Keeps _ s' eob in
                record {
                  pools = k.pools;
                  words = k.words;
                  routes = k.routes;
                  bigtable = k.bigtable;
                  unique = k.unique;
                }
            | inr more ↦
                Keeps-eq
                  (record {
                    pools = refl;
                    words = refl;
                    routes = refl;
                    bigtable = refl;
                    unique = refl;
                  })
                  more
          ]
    ]
