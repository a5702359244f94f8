-- ===== src/Phase3/Drain.antt =====
-- `schedule_phase3`, with its look-ahead, against the runs of the queue.
use fastparse.Prelude.{
  ℕ, zero, suc, ◌≡◌, ◌≢◌, ◌≤◌, ◌<◌, refl, ap, sym, subst, ◌∙◌, false, ◌==◌, if◌then◌else◌, List, [],
  ◌∷◌, ◌++◌, arith, Result, ok, err, ◌>>=◌, leb, length, take, Bool-cases, inl, inr,
}
use mathlib.Core.List.{append_assoc}
use fastparse.Bigtable.{big}
use fastparse.Journal.{journal_empty}
use fastparse.System.{System}
use fastparse.Phase3.{empty_route, send_block, next_run, blocks, drain, pull_route}
use fastparse.Phase3.Runs.{
  Block, attach, runs, send_runs, clear_all, pulls, taken, take_run, attach-take_run,
}
use fastparse.Phase3.Place.{map_ok, place, send_block-place}
use fastparse.Phase3.Collect.{
  Queued, Queued-tail, first_ref, first_route, collect-run_of, pull_route-nil, pull_route-cons,
  pulls-add, clear_all-append, taken-append,
}

take_run-append :
    (head : ℕ → ℕ) (r : ℕ) (q : List ℕ) → (take_run head r q).0 ++ (take_run head r q).1 ≡ q
unfolding take_run
take_run-append head r [] = refl
take_run-append head r (b ∷ q) = elim (Bool-cases (head b == r)) [
  | inl same ↦ rw same (ap (λ (t : List ℕ). b ∷ t) (take_run-append head r q))
  | inr other ↦ rw other
]

Queued-drop :
    {head : ℕ → ℕ} (xs ys : List ℕ) (s : System)
    → Queued s head (xs ++ ys)
    → Queued (taken s xs) head ys
unfolding pulls clear_all
Queued-drop [] ys s c = record {
  heads = c.heads;
  contents = c.contents;
  inside = c.inside;
  routes = c.routes;
}
Queued-drop (x ∷ xs) ys s c =
    let d = Queued-drop xs ys (taken s (x ∷ [])) (Queued-tail c) in
    record { heads = d.heads; contents = d.contents; inside = d.inside; routes = d.routes }

-- What holds of the outer loop from a reference on.
abbrev BlocksLem : ℕ → (ℕ → ℕ) → Type 0
BlocksLem fuel head =
    (q : List ℕ) (s : System) (a : ℕ)
    → Queued s head q
    → head a ≢ empty_route
    → (a == journal_empty) ≡ false
    → length (runs head (a ∷ q)) ≤ fuel
    → blocks fuel s a (head a) ≡ send_runs (taken s q) (runs head (a ∷ q))

-- Behind a run, with another state `t` in which only the queue is that of `s`.
blocks-behind :
    (fuel : ℕ) (head : ℕ → ℕ) (s t : System) (run rest : List ℕ)
    → BlocksLem fuel head
    → Queued s head (run ++ rest)
    → length (runs head rest) ≤ fuel
    → (t' : System) → t' ≡ place (taken s (run ++ take 1 rest)) t
    → (if first_ref rest == journal_empty
        then ok t'
        else blocks fuel t' (first_ref rest) (first_route head rest))
      ≡ send_runs (place (taken s (run ++ rest)) t) (runs head rest)
unfolding send_runs runs
blocks-behind fuel head s t run [] ih c few t' e = rw e
blocks-behind fuel head s t run (b ∷ q) ih c few t' e =
    let d : Queued (taken s run) head (b ∷ q) = Queued-drop run (b ∷ q) s c in
    let going_on : (b == journal_empty) ≡ false = ground (arith, d.inside.0) in
    let split : run ++ (b ∷ q) ≡ (run ++ (b ∷ [])) ++ q = sym (append_assoc run (b ∷ []) q) in
    let d' : Queued (taken s (run ++ (b ∷ []))) head q =
      Queued-drop (run ++ (b ∷ [])) q s (subst (Queued s head) split c) in
    let u = place (taken s (run ++ (b ∷ []))) t in
    let queued : Queued u head q = record {
      heads = d'.heads;
      contents = d'.contents;
      inside = d'.inside;
      routes = d'.routes;
    } in
    let rest = ih q u b queued d.routes.0 going_on few in
    let pulled = pulls-add s.journal (run ++ (b ∷ [])) q in
    let cleared = clear_all-append s.locrib (run ++ (b ∷ [])) q in
    rw (e, going_on) (rest ∙ rw (pulled, cleared, split))

-- The state that a block's sending leaves, whatever the queue, and what comes behind it.
blocks-round :
    (fuel : ℕ) (head : ℕ → ℕ) (s : System) (a : ℕ) (run rest : List ℕ)
    → BlocksLem fuel head
    → Queued s head (run ++ rest)
    → length (runs head rest) ≤ fuel
    → (send_block (taken s (run ++ take 1 rest)) (head a) (a ∷ run) >>= λ t.
        let more = blocks fuel t (first_ref rest) (first_route head rest) in
        if first_ref rest == journal_empty then ok t else more)
      ≡ (send_block (taken s (run ++ rest)) (head a) (a ∷ run) >>= λ t.
          send_runs t (runs head rest))
blocks-round fuel head s a run rest ih c few =
    rw
      (
        send_block-place (taken s (run ++ take 1 rest)) s (head a) (a ∷ run),
        send_block-place (taken s (run ++ rest)) s (head a) (a ∷ run),
      )
      (sent (send_block s (head a) (a ∷ run)))
  where
    sent :
        (m : Result System)
        → (map_ok (place (taken s (run ++ take 1 rest))) m >>= λ t.
            let more = blocks fuel t (first_ref rest) (first_route head rest) in
            if first_ref rest == journal_empty then ok t else more)
          ≡ (map_ok (place (taken s (run ++ rest))) m >>= λ t. send_runs t (runs head rest))
    sent (ok t) = blocks-behind fuel head s t run rest ih c few _ refl
    sent (err x) = refl

next_run-known : (s : System) (a r : ℕ) → r ≢ empty_route → next_run s a r ≡ ok (a, r, s)
unfolding next_run
next_run-known s a r ne = ground arith

blocks-send_runs : (fuel : ℕ) (head : ℕ → ℕ) → BlocksLem fuel head
unfolding send_runs blocks runs
blocks-send_runs zero head q s a c ne real few =
    absurd (omega (arith, ap (λ (t : List Block). length t) (attach-take_run head (head a) a q)))
blocks-send_runs (suc fuel) head q s a c ne real few =
    let run = (take_run head (head a) q).0 in
    let rest = (take_run head (head a) q).1 in
    let first = attach-take_run head (head a) a q in
    let parts : run ++ rest ≡ q = take_run-append head (head a) q in
    let fewer : length (runs head rest) ≤ fuel =
      omega (arith, ap (λ (t : List Block). length t) first) in
    let round =
      blocks-round fuel head s a run rest (blocks-send_runs fuel head)
        (subst (Queued s head) (sym parts) c) fewer in
    rw
      (
        next_run-known s a (head a) ne,
        real,
        collect-run_of q 4096 s head (head a) a [] c ne refl,
        first,
      )
      (elim (Bool-cases (leb (length (a ∷ run)) 4096)) [
        | inl short ↦ rw short (rw parts at round)
        | inr long ↦ rw long
      ])

length-attach : (r a : ℕ) (blocks : List Block) → length (attach r a blocks) ≤ suc (length blocks)
unfolding attach
length-attach r a [] = omega arith
length-attach r a ((r', refs) ∷ rest) = ground arith

length-runs : (head : ℕ → ℕ) (q : List ℕ) → length (runs head q) ≤ length q
unfolding runs
length-runs head [] = omega arith
length-runs head (a ∷ q) = omega (arith, length-attach (head a) a (runs head q), length-runs head q)

next_run-first : (s : System) (a : ℕ) → next_run s a empty_route ≡ pull_route s empty_route
unfolding next_run
next_run-first s a = refl

-- The first round reads a reference, and is then a round with that one in hand.
blocks-pulled :
    (fuel : ℕ) (s s₁ : System) (a r : ℕ)
    → pull_route s empty_route ≡ ok (a, r, s₁)
    → r ≢ empty_route
    → blocks (suc fuel) s journal_empty empty_route ≡ blocks (suc fuel) s₁ a r
unfolding blocks
blocks-pulled fuel s s₁ a r e ne =
    rw (next_run-first s journal_empty ∙ e, next_run-known s₁ a r ne) refl

blocks-nil :
    (fuel : ℕ) (s : System)
    → pull_route s empty_route ≡ ok (journal_empty, empty_route, s)
    → blocks (suc fuel) s journal_empty empty_route ≡ ok s
unfolding blocks
blocks-nil fuel s e = rw (next_run-first s journal_empty ∙ e) refl

blocks-first :
    (fuel : ℕ) (q : List ℕ) (s : System) (head : ℕ → ℕ)
    → Queued s head q
    → 0 < fuel
    → length (runs head q) ≤ fuel
    → blocks fuel s journal_empty empty_route ≡ send_runs (taken s q) (runs head q)
unfolding runs send_runs clear_all pulls
blocks-first zero q s head c some few = absurd (omega arith)
blocks-first (suc fuel) [] s head c some few =
    blocks-nil fuel s (pull_route-nil s empty_route c.contents)
blocks-first (suc fuel) (a ∷ q) s head c some few =
    let going_on : (a == journal_empty) ≡ false = ground (arith, c.inside.0) in
    let pulled = pull_route-cons s empty_route a q c.contents c.inside.0 in
    let rest =
      blocks-send_runs (suc fuel) head q (taken s (a ∷ [])) a (Queued-tail c) c.routes.0 going_on
        few in
    blocks-pulled fuel s (taken s (a ∷ [])) a (head a) (rw (← c.heads a) pulled) c.routes.0
    ∙ rest
    ∙ rw (taken-append s (a ∷ []) q) refl

pub drain-send_runs :
    (q : List ℕ) (s : System) (head : ℕ → ℕ)
    → Queued s head q
    → drain s ≡ send_runs (taken s q) (runs head q)
unfolding drain
drain-send_runs q s head c =
    blocks-first big q s head c (omega arith) (omega (arith, length-runs head q, c.contents.room))
