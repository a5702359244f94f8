-- ===== src/Phase3/Schedule.antt =====
-- A call of `schedule_phase3` flushes the journal.
use fastparse.Prelude.{
  ℕ, ◌+◌, ◌-◌, ◌≡◌, refl, sym, ◌∙◌, true, false, ◌==◌, if◌then◌else◌, List, [], ◌∷◌, ◌++◌, arith,
  Result, ok, err, ◌>>=◌, ◌>>◌, assert, >>=-eq-ok, update, if_false,
}
use mathlib.Core.List.{append-nil}
use fastparse.Prelude.Distinct.{contains}
use fastparse.Journal.Refine.{Contents}
use fastparse.Locrib.{Locrib}
use fastparse.System.{System}
use fastparse.Phase3.{schedule_phase3}
use fastparse.Phase3.Runs.{runs, send_runs, clear_all, taken}
use fastparse.Phase3.Place.{map_ok, place, send_runs-place}
use fastparse.Phase3.Collect.{Queued, taken-Contents, clear_all-head}
use fastparse.Phase3.Drain.{drain-send_runs}

-- The state `t` with the queue `q` of `s` read, and the lock free.
abbrev pub flushed : System → List ℕ → System → System
flushed s q t = record t {
  journal = (taken s q).journal;
  locrib = (taken s q).locrib;
  phase3_locked = false;
  phase3_debug = 0;
}

clear_all-push_flag :
    (l : Locrib) (q : List ℕ) (x : ℕ)
    → (clear_all l q).push_flag x ≡ (if contains q x then false else l.push_flag x)
unfolding clear_all
clear_all-push_flag l [] x = refl
clear_all-push_flag l (a ∷ q) x =
    let ih = clear_all-push_flag (record l { push_flag = update l.push_flag a false }) q x in
    ground (arith, ih)

-- What a call that flushed the queue `q` of `s` leaves.
pub record Flushed (s : System) (q : List ℕ) (s' : System) : Type 0 where
  pub empty : Contents s'.journal []
  pub heads : (x : ℕ) → s'.locrib.head x ≡ s.locrib.head x
  pub flags :
      (x : ℕ) → s'.locrib.push_flag x ≡ (if contains q x then false else s.locrib.push_flag x)
  pub unlocked : s'.phase3_locked ≡ false
  pub idle : s'.phase3_debug ≡ 0

unlocked :
    (u : System) (m : Result System)
    → (1 == u.phase3_debug) ≡ true
    → u.phase3_debug - 1 ≡ 0
    → (map_ok (place u) m >>= λ t. do
      assert (1 == t.phase3_debug)
      ok (record t { phase3_locked = false; phase3_debug = t.phase3_debug - 1 }))
      ≡ map_ok {B = System}
          (λ (t : System). record t {
            journal = u.journal;
            locrib = u.locrib;
            phase3_locked = false;
            phase3_debug = 0;
          })
          m
unlocked u (ok t) one none_left = rw (one, none_left)
unlocked u (err x) one none_left = refl

-- On a journal that holds the queue `q`, whose references are in the table and have routes other than
-- the marker ~0, and with the lock free, `schedule_phase3` does what sending the runs of `q` one after
-- the other does, the fault that ends it included; then the journal is read to its end, the flags of
-- the references are off, and the lock is free. So the fuel of the two loops is enough.
pub schedule_phase3-send_runs :
    (s : System) (q : List ℕ)
    → s.phase3_locked ≡ false
    → s.phase3_debug ≡ 0
    → Queued s s.locrib.head q
    → schedule_phase3 s ≡ map_ok (flushed s q) (send_runs s (runs s.locrib.head q))
unfolding schedule_phase3
schedule_phase3-send_runs s q free idle c =
    let s₁ = record s { phase3_locked = true; phase3_debug = s.phase3_debug + 1 } in
    let queued : Queued s₁ s.locrib.head q = record {
      heads = c.heads;
      contents = c.contents;
      inside = c.inside;
      routes = c.routes;
    } in
    let sent =
      drain-send_runs q s₁ s.locrib.head queued
      ∙ send_runs-place (taken s₁ q) s (runs s.locrib.head q) in
    let fresh : (0 == s.phase3_debug) ≡ true = ground arith in
    let one : (1 == s.phase3_debug + 1) ≡ true = ground arith in
    let none_left : s.phase3_debug + 1 - 1 ≡ 0 = omega arith in
    if_false s.phase3_locked (ok s) _ free
    ∙ rw (fresh, sent) (unlocked (taken s₁ q) (send_runs s (runs s.locrib.head q)) one none_left)

-- On a journal that holds the queue `q`, whose references are in the table and have routes other than
-- the marker ~0, and with the lock free: if `schedule_phase3` returns, the journal is empty and the lock
-- is free, the best routes are as they were, and a flag is on only if it was on before and its reference
-- was not in the queue.
pub schedule_phase3-Flushed :
    (s s' : System) (q : List ℕ)
    → s.phase3_locked ≡ false
    → s.phase3_debug ≡ 0
    → Queued s s.locrib.head q
    → schedule_phase3 s ≡ ok s'
    → Flushed s q s'
schedule_phase3-Flushed s s' q free idle c e =
    let ran = sym (schedule_phase3-send_runs s q free idle c) ∙ e in
    let (t, sent, same) = >>=-eq-ok (send_runs s (runs s.locrib.head q)) _ ran in
    let to : flushed s q t ≡ s' = cc in
    let whole : Contents s.journal (q ++ []) = rw (append-nil q) c.contents in
    rw (← to) (record {
      empty = taken-Contents s q [] whole;
      heads = clear_all-head s.locrib q;
      flags = clear_all-push_flag s.locrib q;
      unlocked = refl;
      idle = refl;
    })
