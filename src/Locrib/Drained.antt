-- ===== src/Locrib/Drained.antt =====
-- The threads that are on their way finish, and then the output has read every best route.
use fastparse.Prelude.{
  ℕ, zero, suc, ◌+◌, ◌*◌, ◌≡◌, ◌≤◌, ◌<◌, ◌⊎◌, inl, inr, refl, ap, ◌∙◌, List, [], ◌∷◌, arith, length,
  length-append, update, update_self, update_ne,
}
use native.Mathlib.Decide.{ℕ_discrete, dec_lt}
use fastparse.Route.{Route}
use fastparse.Locrib.Threads.{
  Writer, outside, pushing, Reader, resting, pulled, State, Step, enter, push, pull, read, IsWork,
  Run, rest, work,
}
use fastparse.Locrib.Waits.{InStep}
use fastparse.Locrib.InStep.{push-InStep, pull-InStep, read-InStep}
use fastparse.Locrib.Quiet.{Quiet, Next, Next-or-Quiet}

-- The threads below `n` that have a reference to push.
is_busy : Writer → ℕ
is_busy outside = 0
is_busy (pushing x) = 1

unfoldable pub busy : ℕ → (ℕ → Writer) → ℕ
unfolding is_busy
busy zero w = 0
busy (suc n) w = is_busy (w n) + busy n w

module _ (w : ℕ → Writer) (i : ℕ) where
  busy-above : (n : ℕ) → n ≤ i → busy n (update w i outside) ≡ busy n w
  unfolding busy
  busy-above zero h = refl
  busy-above (suc n) h = rw (update_ne w i outside n (omega arith), busy-above n (omega arith)) refl

  busy-push : (x n : ℕ) → i < n → w i ≡ pushing x → busy n (update w i outside) + 1 ≡ busy n w
  unfolding busy is_busy
  busy-push x zero h mine = absurd (omega arith)
  busy-push x (suc n) h mine = elim (ℕ_discrete n i) [
    | yes e ↦
        let here : update w i outside n ≡ outside =
          ap (update w i outside) e ∙ update_self w i outside in
        let there : w n ≡ pushing x = ap w e ∙ mine in
        rw (here, there, busy-above n (omega arith)) (omega arith)
    | no ne ↦
        let rest = busy-push x n (omega arith) mine in
        rw (update_ne w i outside n ne) (omega (arith, rest))
  ]

abbrev pub has_one : Reader → ℕ
has_one resting = 0
has_one (pulled x) = 1

-- How many steps are left at most: three for a reference that a thread is about to push, two for one in the
-- queue, and one for the one that the reader has.
abbrev pub cost : ℕ → State → List ℕ → ℕ
cost n s q = 3 * busy n s.writers + 2 * length q + has_one s.reader

-- What a number of steps leaves.
record Ran (n : ℕ) (s : State) (q : List ℕ) (k : ℕ) (t : State) : Type 0 where
  in_step : InStep t
  out : (i : ℕ) → n ≤ i → t.writers i ≡ outside
  heads : (x : ℕ) → t.locrib.head x ≡ s.locrib.head x
  spent : k + cost n t in_step.queue ≤ cost n s q

step-Ran :
    {routes : ℕ → Route} (n : ℕ) {s t : State} (c : InStep s)
    → ((i : ℕ) → n ≤ i → s.writers i ≡ outside)
    → (st : Step routes s t) → IsWork st
    → Ran n s c.queue 1 t
step-Ran n {s} c out (push i ref j mine e) is_work =
    let (d, is) = push-InStep i ref j c mine e in
    let below : i < n = elim (dec_lt i n) [
      | yes h ↦ h
      | no above ↦ let free = out i (omega arith) in absurd (cc)
    ] in
    let less = busy-push s.writers i ref n below mine in
    let l : length d.queue ≡ length c.queue + 1 = ap length is ∙ length-append c.queue (ref ∷ []) in
    record {
      in_step = d;
      out = λ k h. update_ne s.writers i outside k (omega arith) ∙ out k h;
      heads = λ x. refl;
      spent = omega (arith, less, l);
    }
step-Ran n {s} c out (pull ref j free ne e) is_work =
    let (d, is) = pull-InStep ref j c free ne e in
    let l : length c.queue ≡ suc (length d.queue) = ap length is in
    let none : has_one s.reader ≡ 0 = ap has_one free in
    record { in_step = d; out = out; heads = λ x. refl; spent = omega (arith, l, none) }
step-Ran n {s} c out (read ref route l mine e) is_work =
    let (d, is, heads) = read-InStep ref route l c mine e in
    let same : length d.queue ≡ length c.queue = ap length is in
    let one : has_one s.reader ≡ 1 = ap has_one mine in
    record {
      in_step = d;
      out = out;
      heads = λ x. ap (λ f. f x) heads;
      spent = omega (arith, same, one);
    }
step-Ran n c out (enter i ref new garbage is_update flag l free e) is_work = absurd is_work

Run-Ran :
    {routes : ℕ → Route} (n : ℕ) {s t : State} {k : ℕ} (c : InStep s)
    → ((i : ℕ) → n ≤ i → s.writers i ≡ outside)
    → Run routes s k t
    → Ran n s c.queue k t
Run-Ran n c out rest = record { in_step = c; out = out; heads = λ x. refl; spent = omega arith }
Run-Ran n c out (work run st is_work) =
    let r = Run-Ran n c out run in
    let one = step-Ran n r.in_step r.out st is_work in
    record {
      in_step = one.in_step;
      out = one.out;
      heads = λ x. one.heads x ∙ r.heads x;
      spent = omega (arith, r.spent, one.spent);
    }

-- From a state that is in step, with every thread from the `n`-th on outside: however the threads that are
-- on their way go on, while none calls `locrib` anew, they take at most as many steps as three for each
-- thread that is about to push, two for each reference in the queue, and one for the one that the reader has;
-- and at any time either one of them can go on, or no thread is on its way, the journal is empty, no flag
-- is set, and the output has read the best route of every reference, as it was at the start.
pub Run-Quiet :
    {routes : ℕ → Route} (n : ℕ) {s t : State} {k : ℕ} (c : InStep s)
    → ((i : ℕ) → n ≤ i → s.writers i ≡ outside)
    → Run routes s k t
    → (k ≤ cost n s c.queue)
      × (Next routes t ⊎ (Quiet t × ((x : ℕ) → t.last_read x ≡ s.locrib.head x)))
Run-Quiet {routes} n {s} {t} c out run =
    let r = Run-Ran n c out run in
    (
      omega (arith, r.spent),
      elim (Next-or-Quiet routes n t r.in_step r.out) [
        | inl more ↦ inl more
        | inr quiet ↦ inr (quiet, λ x. quiet.last x ∙ r.heads x)
      ],
    )
