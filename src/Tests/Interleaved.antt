-- ===== src/Tests/Interleaved.antt =====
-- Two threads that change best routes, and the output.
use fastparse.Prelude.{ℕ, ◌≡◌, ◌≤◌, ◌⊎◌, refl, true, false, arith, update}
use fastparse.Journal.{Journal, locribj_init, locribj_push}
use fastparse.Locrib.{Locrib, decide, offer, retract, push}
use fastparse.Locrib.Threads.{
  State, Writer, outside, pushing, Reach, start, enter, here, next, Run, rest, work,
}
use fastparse.Locrib.Threads
use fastparse.Locrib.Waits.{InStep, start-InStep}
use fastparse.Locrib.InStep.{Reach-InStep}
use fastparse.Locrib.Quiet.{Quiet, Next}
use fastparse.Locrib.Drained.{cost, Run-Quiet}
use fastparse.Tests.Data.{no_route}

abbrev entry : Locrib
entry = record { head = update (λ _. 0) 1 4352; push_flag = update (λ _. false) 1 true }

-- Thread 2 has given reference 1 the route at 4,352, and has not pushed it yet.
abbrev entered : State
entered = record (start (λ _. 7)) { locrib = entry; writers = update (λ _. outside) 2 (pushing 1) }

one_change : Reach (λ _. no_route) (start (λ _. 7)) entered
unfolding decide offer push
one_change = next here (enter 2 1 4352 true true false entry refl refl)

-- Thread 0 withdraws a route that there is not, reads the unset flag as false, and is about to push the
-- same reference.
abbrev twice : State
twice = record entered { writers = update entered.writers 0 (pushing 1) }

two_calls : Reach (λ _. no_route) (start (λ _. 7)) twice
unfolding decide retract
two_calls = next one_change (enter 0 1 0 false false false entry refl refl)

twice-InStep : InStep twice
twice-InStep = Reach-InStep (start-InStep (λ _. 7)) two_calls

Reach-InStep_example : InStep twice
Reach-InStep_example = Reach-InStep (start-InStep (λ _. 7)) two_calls

twice-outside : (i : ℕ) → 3 ≤ i → twice.writers i ≡ outside
twice-outside i h = ground arith

abbrev filled : Journal
filled = record (locribj_init (λ _. 7)) { entries = update (λ _. 7) 0 1; jwrite = 1 }

-- One of the two has pushed.
abbrev pushed : State
pushed = record twice { journal = filled; writers = update twice.writers 2 outside }

one_push : Run (λ _. no_route) twice 1 pushed
unfolding locribj_push
one_push = work rest (Threads.push 2 1 filled refl refl) tt

Run-Quiet_example :
    (1 ≤ cost 3 twice twice-InStep.queue)
    × (Next (λ _. no_route) pushed
        ⊎ (Quiet pushed × ((x : ℕ) → pushed.last_read x ≡ twice.locrib.head x)))
Run-Quiet_example = Run-Quiet 3 twice-InStep twice-outside one_push
