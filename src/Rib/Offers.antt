-- ===== src/Rib/Offers.antt =====
-- `locrib` keeps the correspondence of the flags and the journal.
use fastparse.Prelude.{
  ℕ, ◌+◌, ◌≡◌, ◌≢◌, ◌<◌, ◌⊎◌, inl, inr, sym, ◌∙◌, Bool, true, false, not, ◌==◌, List, [], ◌∷◌, ◌++◌,
  arith, ok, length, bit_and, >>=-eq-ok, if-eq-ok, Bool-cases, update, update_self, refl,
}
use native.Mathlib.Decide.{dec_lt}
use fastparse.Prelude.Distinct.{length-le_of_Distinct}
use fastparse.Bigtable.{big}
use fastparse.Journal.{Journal, locribj_push}
use fastparse.Journal.Refine.{push-full}
use fastparse.Locrib.{lr_index_mask, lr_eob}
use fastparse.System.{System}
use fastparse.Phase3.{empty_route, schedule_phase3}
use fastparse.Rib.{locrib}
use fastparse.Locrib.Entry.{set_entry, decide-cases, Changes, decide-Changes}
use fastparse.Prelude.Distinct.{contains}
use fastparse.Rib.Pending.{Pending, set_entry-Pending, push-Pending, schedule_phase3-Pending}

-- `locrib` on an entry for a reference that the prefix table has given out, where the table is not full,
-- with no end of a block, and with the flag that it may read unset taken to be true: it returns, so the
-- journal is not overrun. A call that changes the entry stores the new route, and the reference waits in
-- the journal after it, behind the references that waited before unless it was one of them; any other
-- call changes nothing. The references that wait are those whose flag is set, each once.
pub locrib-returns :
    {s : System} {q : List ℕ} (extended_addrref new : ℕ) (is_update : Bool)
    → Pending s q
    → new ≢ empty_route
    → bit_and lr_index_mask extended_addrref < s.bigtable.index
    → s.bigtable.index < big
    → bit_and lr_eob extended_addrref ≡ 0
    → (s' : System) × (locrib true s extended_addrref new is_update ≡ ok s')
      × ((Changes s.routes s.locrib (bit_and lr_index_mask extended_addrref) new is_update
            × (s'.locrib.head ≡ update s.locrib.head (bit_and lr_index_mask extended_addrref) new)
            × (q' : List ℕ) × Pending s' q'
            × (contains q' (bit_and lr_index_mask extended_addrref) ≡ true)
            × ((q' ≡ q) ⊎ (q' ≡ q ++ (bit_and lr_index_mask extended_addrref ∷ []))))
          ⊎ ((¬ Changes s.routes s.locrib (bit_and lr_index_mask extended_addrref) new is_update)
              × (s' ≡ s)
              × Pending s' q))
unfolding locrib
locrib-returns {s} {q} ext new is_update c ne given room no_end =
    let ref = bit_and lr_index_mask ext in
    elim (decide-Changes true s.routes s.locrib ref new is_update (omega arith)) [
      | inr (kept, same) ↦ (s, rw same, inr (kept, refl, c))
      | inl (changes, changed) ↦ elim (Bool-cases (s.locrib.push_flag ref)) [
        | inl on ↦ (
          record s { locrib = set_entry s.locrib ref new },
          rw (changed, on),
          inl (
            changes,
            refl,
            q,
            set_entry-Pending ref new c ne on,
            sym (c.flagged ref) ∙ on,
            inl refl,
          ),
        )
        | inr off ↦
            let off' = sym (c.flagged ref) ∙ off in
            let few =
              length-le_of_Distinct s.bigtable.index (ref ∷ q) (off', c.distinct)
                (given, c.given) in
            let (j, e, p) = push-Pending ref new c ne given (omega arith) off in
            (
              record s { locrib = set_entry s.locrib ref new; journal = j },
              rw (changed, off, e, no_end),
              inl (
                changes,
                refl,
                q ++ (ref ∷ []),
                p,
                sym (p.flagged ref) ∙ update_self s.locrib.push_flag ref true,
                inr refl,
              ),
            )
      ]
    ]

push-Pending_of_ok :
    {s : System} {q : List ℕ} (ref new : ℕ) (j : Journal)
    → Pending s q
    → new ≢ empty_route
    → ref < s.bigtable.index
    → s.locrib.push_flag ref ≡ false
    → locribj_push s.journal ref ≡ ok j
    → Pending (record s { locrib = set_entry s.locrib ref new; journal = j }) (q ++ (ref ∷ []))
push-Pending_of_ok {s} {q} ref new j c ne given off e = elim (dec_lt (length q + 1) big) [
  | yes room ↦
      let (j', e', p) = push-Pending ref new c ne given room off in
      let same : j' ≡ j = cc in rw (← same) p
  | no full ↦
      let bad = push-full s.journal q ref (omega (arith, c.contents.room)) c.contents in absurd (cc)
]

pub Pending-ok :
    {t s' : System} {q : List ℕ} → Pending t q → ok t ≡ ok s' → (q' : List ℕ) × Pending s' q'
Pending-ok {t} {s'} {q} c e = let same : t ≡ s' = cc in (q, rw (← same) c)

-- Whatever the call of `locrib` is, at the end of a block too: if it returns, the invariant holds.
pub locrib-Pending :
    {s : System} {q : List ℕ} (extended_addrref new : ℕ) (is_update : Bool) (s' : System)
    → Pending s q
    → new ≢ empty_route
    → bit_and lr_index_mask extended_addrref < s.bigtable.index
    → locrib true s extended_addrref new is_update ≡ ok s'
    → (q' : List ℕ) × Pending s' q'
unfolding locrib
locrib-Pending {s} {q} ext new is_update s' c ne given e =
    let ref = bit_and lr_index_mask ext in
    elim (decide-cases s.routes s.locrib ref new is_update (omega (arith, c.small))) [
      | inl same ↦ Pending-ok c (rw same at e)
      | inr changed ↦ elim (Bool-cases (s.locrib.push_flag ref)) [
        | inl on ↦ Pending-ok (set_entry-Pending ref new c ne on) (rw (changed, on) at e)
        | inr off ↦
            let (j, e₁, k₁) = >>=-eq-ok (locribj_push s.journal ref) _ (rw (changed, off) at e) in
            let p = push-Pending_of_ok ref new j c ne given off e₁ in
            elim (if-eq-ok (not (bit_and lr_eob ext == 0)) (schedule_phase3 _) (ok _) k₁) [
              | inl ended ↦ ([], schedule_phase3-Pending s' p ended)
              | inr goes_on ↦ Pending-ok p goes_on
            ]
      ]
    ]
