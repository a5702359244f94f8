-- ===== src/Bigtable/Threads.antt =====
-- `lookup_RIB` of bigtable.c as several threads run it: a thread reads its slot of RIB before it takes
-- the lock, and what it does under the lock is one step. `x` is the index that `encode` made.
use fastparse.Prelude.{ℕ, ◌≡◌, ◌≢◌, ok, update}
use fastparse.Bigtable.{Bigtable, new_entry}

pub data Thread : Type 0 where
  start : ℕ → Thread
  loaded : ℕ → ℕ → Thread
  returned : ℕ → ℕ → Thread

pub record State : Type 0 where
  pub bigtable : Bigtable
  pub threads : ℕ → Thread

-- A step of one thread: it reads the slot, it returns what it read there, or it has read 0 and makes an
-- entry.
pub data Step (s : State) : State → Type 0 where
  load :
      (i x : ℕ)
      → s.threads i ≡ start x
      → Step s (record s { threads = update s.threads i (loaded x (s.bigtable.rib x)) })
  found :
      (i x r : ℕ)
      → s.threads i ≡ loaded x r
      → r ≢ 0
      → Step s (record s { threads = update s.threads i (returned x r) })
  enter :
      (i x r : ℕ) (t : Bigtable)
      → s.threads i ≡ loaded x 0
      → new_entry s.bigtable x ≡ ok (r, t)
      → Step s (record { bigtable = t; threads = update s.threads i (returned x r) })

pub data Reach (s : State) : State → Type 0 where
  here : Reach s s
  next : {t u : State} → Reach s t → Step t u → Reach s u
