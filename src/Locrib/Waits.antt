-- ===== src/Locrib/Waits.antt =====
-- What holds of the threads in every interleaving.
use fastparse.Prelude.{
  ℕ, ◌≡◌, ◌≢◌, ◌<◌, refl, ap, sym, ◌∙◌, true, false, List, [], ◌∷◌, ◌++◌, arith, All, update,
  update_ne,
}
use native.Mathlib.Decide.{ℕ_discrete}
use fastparse.Prelude.Distinct.{contains, contains-append}
use fastparse.Bigtable.{big}
use fastparse.Journal.Refine.{Contents, init-Contents}
use fastparse.Locrib.Threads.{Writer, outside, pushing, Reader, resting, pulled, State, start}

-- A reference is on its way to the reader: in the queue, with a thread that is about to push it, or with
-- the reader.
pub data Waits (q : List ℕ) (w : ℕ → Writer) (r : Reader) (x : ℕ) : Type 0 where
  in_queue : contains q x ≡ true → Waits q w r x
  with_writer : (i : ℕ) → w i ≡ pushing x → Waits q w r x
  with_reader : r ≡ pulled x → Waits q w r x

-- The invariant: the journal holds a queue, every reference on its way is inside the table, one whose
-- flag is set is on its way, and where no flag is set, the route that was read last is the best one.
pub record InStep (s : State) : Type 0 where
  pub queue : List ℕ
  pub contents : Contents s.journal queue
  pub inside : All (λ x. x < big) queue
  pub writing : (i x : ℕ) → s.writers i ≡ pushing x → x < big
  pub reading : (x : ℕ) → s.reader ≡ pulled x → x < big
  pub waits : (x : ℕ) → s.locrib.push_flag x ≡ true → Waits queue s.writers s.reader x
  pub last : (x : ℕ) → s.locrib.push_flag x ≡ false → s.last_read x ≡ s.locrib.head x

pub start-InStep : (garbage : ℕ → ℕ) → InStep (start garbage)
start-InStep garbage = record {
  queue = [];
  contents = init-Contents garbage;
  inside = tt;
  writing = λ i x h. cc;
  reading = λ x h. cc;
  waits = λ x h. cc;
  last = λ x h. refl;
}

module _ {q : List ℕ} {w : ℕ → Writer} {r : Reader} {x : ℕ} (i : ℕ) where
  -- A thread that was outside changes.
  pub Waits-enter : (v : Writer) → w i ≡ outside → Waits q w r x → Waits q (update w i v) r x
  Waits-enter v out (in_queue h) = in_queue h
  Waits-enter v out (with_writer j h) = with_writer j (ground arith)
  Waits-enter v out (with_reader h) = with_reader h

  pub Waits-push :
      (ref : ℕ)
      → w i ≡ pushing ref
      → Waits q w r x
      → Waits (q ++ (ref ∷ [])) (update w i outside) r x
  Waits-push ref mine (in_queue h) = in_queue (ground (arith, contains-append q ref x))
  Waits-push ref mine (with_writer j h) = elim (ℕ_discrete j i) [
    | yes e ↦ in_queue (ground (arith, contains-append q ref x))
    | no ne ↦ with_writer j (update_ne w i outside j ne ∙ h)
  ]
  Waits-push ref mine (with_reader h) = with_reader h

pub Waits-pull :
    {q : List ℕ} {w : ℕ → Writer} {r : Reader} {x : ℕ} (ref : ℕ)
    → r ≡ resting
    → Waits (ref ∷ q) w r x
    → Waits q w (pulled ref) x
Waits-pull {x = x} ref free (in_queue h) = elim (ℕ_discrete x ref) [
  | yes e ↦ with_reader (ap pulled (sym e))
  | no ne ↦ in_queue (ground arith)
]
Waits-pull ref free (with_writer j h) = with_writer j h
Waits-pull ref free (with_reader h) = cc

pub Waits-read :
    {q : List ℕ} {w : ℕ → Writer} {r : Reader} {x : ℕ} (ref : ℕ)
    → r ≡ pulled ref
    → x ≢ ref
    → Waits q w r x
    → Waits q w resting x
Waits-read ref mine ne (in_queue h) = in_queue h
Waits-read ref mine ne (with_writer j h) = with_writer j h
Waits-read ref mine ne (with_reader h) = absurd (ne (cc))
