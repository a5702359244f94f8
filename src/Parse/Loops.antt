-- ===== src/Parse/Loops.antt =====
-- What each prefix keeps, the loops over the prefixes keep.
use fastparse.Prelude.{ℕ, zero, suc, ◌≡◌, Bool, ok, Result, ltb, >>=-eq-ok, if-eq-ok, inl, inr}
use fastparse.Bytes.{Bytes}
use fastparse.Nlri.{nlri_iter}
use fastparse.System.{System}
use fastparse.Rib.{Peer}
use fastparse.Parse.{announce, withdraw, announce_all, withdraw_all}

pub pair-ok :
    (P : System → Peer → Type 0) {t s' : System} {peer peer' : Peer}
    → ◌≡◌ {A = Result (System × Peer)} (ok (t, peer)) (ok (s', peer'))
    → P t peer
    → P s' peer'
pair-ok P {t} {s'} {peer} {peer'} k c =
    let same_s : t ≡ s' = cc in
    let same_peer : peer ≡ peer' = cc in rw (← same_s) (rw (← same_peer) c)

pub triple-ok :
    (P : System → Peer → ℕ → Type 0) {t s' : System} {peer peer' : Peer} {q p : ℕ}
    → ◌≡◌ {A = Result (System × Peer × ℕ)} (ok (t, peer, q)) (ok (s', peer', p))
    → P t peer q
    → P s' peer' p
triple-ok P {t} {s'} {peer} {peer'} {q} {p} k c =
    let same_s : t ≡ s' = cc in
    let same_peer : peer ≡ peer' = cc in
    let same_p : q ≡ p = cc in rw (← same_s) (rw (← same_peer) (rw (← same_p) c))

module _ (P : System → Peer → Type 0) (garbage : Bool) (m : Bytes) (end : ℕ) where
  pub announce_all-keeps :
      (fuel route : ℕ) {s s' : System} {peer peer' : Peer} (p : ℕ)
      → ((t t' : System) (q q' : Peer) (prefix at : ℕ)
          → P t q
          → announce garbage t q prefix at end route ≡ ok (t', q')
          → P t' q')
      → P s peer
      → announce_all fuel garbage m s peer p end route ≡ ok (s', peer')
      → P s' peer'
  unfolding announce_all
  announce_all-keeps zero route p one c e = elim (if-eq-ok (ltb p end) _ _ e) [
    | inl more ↦ cc
    | inr done ↦ pair-ok P done c
  ]
  announce_all-keeps (suc fuel) route {s} {s'} {peer} p one c e =
      elim (if-eq-ok (ltb p end) _ _ e) [
        | inl more ↦
            let ((prefix, p₁), e₁, k₁) = >>=-eq-ok (nlri_iter m p) _ more in
            let ((s₂, peer₂), e₂, k₂) =
              >>=-eq-ok (announce garbage s peer prefix p₁ end route) _ k₁ in
            announce_all-keeps fuel route p₁ one (one s s₂ peer peer₂ prefix p₁ c e₂) k₂
        | inr done ↦ pair-ok P done c
      ]

  pub withdraw_all-keeps :
      (fuel : ℕ) {s s' : System} {peer peer' : Peer} (p : ℕ)
      → ((t t' : System) (q q' : Peer) (prefix at : ℕ)
          → P t q
          → withdraw garbage t q prefix at end ≡ ok (t', q')
          → P t' q')
      → P s peer
      → withdraw_all fuel garbage m s peer p end ≡ ok (s', peer')
      → P s' peer'
  unfolding withdraw_all
  withdraw_all-keeps zero p one c e = elim (if-eq-ok (ltb p end) _ _ e) [
    | inl more ↦ cc
    | inr done ↦ pair-ok P done c
  ]
  withdraw_all-keeps (suc fuel) {s} {s'} {peer} p one c e = elim (if-eq-ok (ltb p end) _ _ e) [
    | inl more ↦
        let ((prefix, p₁), e₁, k₁) = >>=-eq-ok (nlri_iter m p) _ more in
        let ((s₂, peer₂), e₂, k₂) = >>=-eq-ok (withdraw garbage s peer prefix p₁ end) _ k₁ in
        withdraw_all-keeps fuel p₁ one (one s s₂ peer peer₂ prefix p₁ c e₂) k₂
    | inr done ↦ pair-ok P done c
  ]
