-- ===== src/Locrib/Threads.antt =====
-- `locrib` and the output as several threads run them: what a call does under the lock of an entry is a
-- step, what it does under the lock of the journal is another, and other threads step in between. One
-- thread at a time is the reader, the one that holds the lock of `schedule_phase3`. The flag that `locrib`
-- may read unset is any Boolean, another one for each call. `routes` are the routes by their addresses.
use fastparse.Prelude.{ℕ, ◌≡◌, ◌≢◌, Bool, if◌then◌else◌, ok, update, suc}
use fastparse.Journal.{Journal, journal_empty, locribj_push, locribj_pull, locribj_init}
use fastparse.Route.{Route}
use fastparse.Locrib.{Locrib, locrib_init, decide, read_and_clear}

-- Outside `locrib`, or in it between the two locks with a reference to push.
pub data Writer : Type 0 where
  outside : Writer
  pushing : ℕ → Writer

-- Between two references, or with one that it has pulled.
pub data Reader : Type 0 where
  resting : Reader
  pulled : ℕ → Reader

-- `last_read` is the route that the reader last got for a reference.
pub record State : Type 0 where
  pub locrib : Locrib
  pub journal : Journal
  pub writers : ℕ → Writer
  pub reader : Reader
  pub last_read : ℕ → ℕ

pub data Step (routes : ℕ → Route) (s : State) : State → Type 0 where
  enter :
      (i ref new : ℕ) (garbage is_update flag : Bool) (l : Locrib)
      → s.writers i ≡ outside
      → decide garbage routes s.locrib ref new is_update ≡ ok (flag, l)
      → Step routes s (record s {
        locrib = l;
        writers = update s.writers i (if flag then outside else pushing ref);
      })
  push :
      (i ref : ℕ) (j : Journal)
      → s.writers i ≡ pushing ref
      → locribj_push s.journal ref ≡ ok j
      → Step routes s (record s { journal = j; writers = update s.writers i outside })
  pull :
      (ref : ℕ) (j : Journal)
      → s.reader ≡ resting
      → ref ≢ journal_empty
      → locribj_pull s.journal ≡ (ref, j)
      → Step routes s (record s { journal = j; reader = pulled ref })
  read :
      (ref route : ℕ) (l : Locrib)
      → s.reader ≡ pulled ref
      → read_and_clear s.locrib ref ≡ ok (route, l)
      → Step routes s
          (record s { locrib = l; reader = resting; last_read = update s.last_read ref route })

-- No route has been found, and nothing read; `garbage` is what `malloc` leaves in the journal.
abbrev pub start : (ℕ → ℕ) → State
start garbage = record {
  locrib = locrib_init;
  journal = locribj_init garbage;
  writers = λ _. outside;
  reader = resting;
  last_read = λ _. 0;
}

pub data Reach (routes : ℕ → Route) (s : State) : State → Type 0 where
  here : Reach routes s s
  next : {t u : State} → Reach routes s t → Step routes t u → Reach routes s u

-- A step of a thread that is on its way already: `locrib` is not called anew.
abbrev pub IsWork : {routes : ℕ → Route} {s t : State} → Step routes s t → Type 0
IsWork (enter i ref new garbage is_update flag l out e) = ⊥
IsWork (push i ref j mine e) = Unit
IsWork (pull ref j free ne e) = Unit
IsWork (read ref route l mine e) = Unit

-- So many such steps, one after the other.
pub data Run (routes : ℕ → Route) (s : State) : ℕ → State → Type 0 where
  rest : Run routes s 0 s
  work :
      {k : ℕ} {t u : State}
      → Run routes s k t
      → (st : Step routes t u) → IsWork st
      → Run routes s (suc k) u
