-- ===== src/Phase3/Frame.antt =====
-- What the output side leaves alone.
use fastparse.Prelude.{
  ℕ, zero, suc, ◌≡◌, ◌∙◌, refl, List, [], ◌∷◌, ◌++◌, ltb, ◌==◌, arith, ok, >>=-eq-ok, assert,
  if-eq-ok, Bool-cases, inl, inr, length,
}
use fastparse.Bytes.{put8, putw16}
use fastparse.Journal.{locribj_pull, journal_empty}
use fastparse.Locrib.{read_and_clear}
use fastparse.Bigtable.{big}
use fastparse.System.{System}
use fastparse.Phase3.{
  pull_route, Run, collect, build_all, send_withdraw, send_groups, send_update, send_block,
  next_run, blocks, drain, schedule_phase3, empty_route,
}

-- The pools, the routes, their memory and their number, and the table of prefixes are the same.
pub record Keeps (s s' : System) : Type 0 where
  pub pools : s'.pools ≡ s.pools
  pub words : s'.words ≡ s.words
  pub routes : s'.routes ≡ s.routes
  pub bigtable : s'.bigtable ≡ s.bigtable
  pub unique : s'.unique ≡ s.unique

pub Keeps-refl : (s : System) → Keeps s s
Keeps-refl s = record { pools = refl; words = refl; routes = refl; bigtable = refl; unique = refl }

pub Keeps-trans : {s t u : System} → Keeps s t → Keeps t u → Keeps s u
Keeps-trans k l = record {
  pools = l.pools ∙ k.pools;
  words = l.words ∙ k.words;
  routes = l.routes ∙ k.routes;
  bigtable = l.bigtable ∙ k.bigtable;
  unique = l.unique ∙ k.unique;
}

pub Keeps-eq : {s t u : System} → Keeps s t → ok t ≡ ok u → Keeps s u
Keeps-eq {s} {t} {u} k e = let same : t ≡ u = cc in rw (← same) k

pull_route-Keeps :
    (s : System) (at_end a r : ℕ) (s' : System) → pull_route s at_end ≡ ok (a, r, s') → Keeps s s'
unfolding pull_route
pull_route-Keeps s at_end a r s' e =
    elim (Bool-cases ((locribj_pull s.journal).0 == journal_empty)) [
      | inl none_left ↦ ground arith
      | inr more ↦
          let (rl, e₁, k₁) =
            >>=-eq-ok (read_and_clear s.locrib (locribj_pull s.journal).0) _ (rw more at e) in
          ground arith
    ]

Keeps-rest :
    {s : System} {table : List ℕ} {a r : ℕ} {run : Run}
    → ok (record { table = table; addrref = a; route2 = r; rest = s }) ≡ ok run
    → Keeps s run.rest
Keeps-rest {s} {table} {a} {r} {run} e =
    let same : record { table = table; addrref = a; route2 = r; rest = s } ≡ run = cc in
    rw (← same) (Keeps-refl s)

collect-Keeps :
    (fuel : ℕ) (s : System) (r1 r2 a : ℕ) (table : List ℕ) (run : Run)
    → collect fuel s r1 r2 a table ≡ ok run
    → Keeps s run.rest
unfolding collect
collect-Keeps zero s r1 r2 a table run e = cc
collect-Keeps (suc fuel) s r1 r2 a table run e = elim (Bool-cases (r2 == r1)) [
  | inl same ↦
      let (u, e₁, k₁) = >>=-eq-ok (assert (ltb (length table) 4096)) _ (rw same at e) in
      let ((a', r', s'), e₂, k₂) = >>=-eq-ok (pull_route s empty_route) _ k₁ in
      Keeps-trans (pull_route-Keeps s empty_route a' r' s' e₂)
        (collect-Keeps fuel s' r1 r' a' (table ++ (a ∷ [])) run k₂)
  | inr other ↦ Keeps-rest (rw other at e)
]

send_withdraw-Keeps :
    (s : System) (table : List ℕ) (s' : System) → send_withdraw s table ≡ ok s' → Keeps s s'
unfolding send_withdraw
send_withdraw-Keeps s table s' e =
    let ((m, txp), e₁, k₁) = >>=-eq-ok (build_all s.bigtable table s.tx_buffer 23) _ e in
    let (m₂, e₂, k₂) = >>=-eq-ok (putw16 m 16 _) _ k₁ in
    let (m₃, e₃, k₃) = >>=-eq-ok (putw16 m₂ 19 _) _ k₂ in
    let (m₄, e₄, k₄) = >>=-eq-ok (putw16 m₃ txp 0) _ k₃ in
    Keeps-eq (record { pools = refl; words = refl; routes = refl; bigtable = refl; unique = refl })
      k₄

send_update-Keeps :
    (s : System) (r : ℕ) (table : List ℕ) (s' : System) → send_update s r table ≡ ok s' → Keeps s s'
unfolding send_update
send_update-Keeps s r table s' e =
    let (m, e₁, k₁) = >>=-eq-ok (putw16 s.tx_buffer 19 0) _ e in
    let ((m', over, gs), e₂, k₂) =
      >>=-eq-ok (send_groups s.bigtable (s.routes r) table m s.over_length_detected s.peergroups) _
        k₁ in
    Keeps-eq (record { pools = refl; words = refl; routes = refl; bigtable = refl; unique = refl })
      k₂

send_block-Keeps :
    (s : System) (r : ℕ) (table : List ℕ) (s' : System) → send_block s r table ≡ ok s' → Keeps s s'
unfolding send_block
send_block-Keeps s r table s' e =
    let (m, e₁, k₁) = >>=-eq-ok (put8 s.tx_buffer 18 2) _ e in
    elim (if-eq-ok (r == 0) _ _ k₁) [
      | inl withdrawn ↦
          let k = send_withdraw-Keeps _ table s' withdrawn in
          record {
            pools = k.pools;
            words = k.words;
            routes = k.routes;
            bigtable = k.bigtable;
            unique = k.unique;
          }
      | inr found ↦
          let k = send_update-Keeps _ r table s' found in
          record {
            pools = k.pools;
            words = k.words;
            routes = k.routes;
            bigtable = k.bigtable;
            unique = k.unique;
          }
    ]

next_run-Keeps :
    (s : System) (a r a' r' : ℕ) (t : System) → next_run s a r ≡ ok (a', r', t) → Keeps s t
unfolding next_run
next_run-Keeps s a r a' r' t e = elim (if-eq-ok (r == empty_route) (pull_route s empty_route) _ e) [
  | inl pulled ↦ pull_route-Keeps s empty_route a' r' t pulled
  | inr kept ↦ let same : s ≡ t = cc in rw (← same) (Keeps-refl s)
]

blocks-Keeps :
    (fuel : ℕ) (s : System) (a r : ℕ) (s' : System) → blocks fuel s a r ≡ ok s' → Keeps s s'
unfolding blocks
blocks-Keeps zero s a r s' e = cc
blocks-Keeps (suc fuel) s a r s' e =
    let ((a₁, r₁, s₁), e₀, k₀) = >>=-eq-ok (next_run s a r) _ e in
    let first = next_run-Keeps s a r a₁ r₁ s₁ e₀ in
    elim (if-eq-ok (a₁ == journal_empty) (ok s₁) _ k₀) [
      | inl empty ↦ Keeps-eq first empty
      | inr going ↦
          let (run, e₁, k₁) = >>=-eq-ok (collect 4097 s₁ r₁ r₁ a₁ []) _ going in
          let (t, e₂, k₂) = >>=-eq-ok (send_block run.rest r₁ run.table) _ k₁ in
          let k = Keeps-trans first (
            Keeps-trans (collect-Keeps 4097 s₁ r₁ r₁ a₁ [] run e₁)
              (send_block-Keeps run.rest r₁ run.table t e₂)) in
          elim (if-eq-ok (run.addrref == journal_empty) (ok t) _ k₂) [
            | inl done ↦ Keeps-eq k done
            | inr more ↦ Keeps-trans k (blocks-Keeps fuel t run.addrref run.route2 s' more)
          ]
    ]

drain-Keeps : (s s' : System) → drain s ≡ ok s' → Keeps s s'
unfolding drain
drain-Keeps s s' e = blocks-Keeps big s journal_empty empty_route s' e

-- A call of `schedule_phase3` that returns, whatever it finds in the journal and whatever it writes,
-- leaves the pools, the routes, their memory, their number and the table of prefixes as they were.
pub schedule_phase3-Keeps : (s s' : System) → schedule_phase3 s ≡ ok s' → Keeps s s'
unfolding schedule_phase3
schedule_phase3-Keeps s s' e = elim (if-eq-ok s.phase3_locked (ok s) _ e) [
  | inl locked ↦ Keeps-eq (Keeps-refl s) locked
  | inr free ↦
      let (u, e₁, k₁) = >>=-eq-ok (assert (0 == s.phase3_debug)) _ free in
      let (t, e₂, k₂) = >>=-eq-ok (drain _) _ k₁ in
      let (v, e₃, k₃) = >>=-eq-ok (assert (1 == t.phase3_debug)) _ k₂ in
      let k = drain-Keeps _ t e₂ in
      Keeps-eq
        (record {
          pools = k.pools;
          words = k.words;
          routes = k.routes;
          bigtable = k.bigtable;
          unique = k.unique;
        })
        k₃
]
