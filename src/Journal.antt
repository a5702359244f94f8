-- ===== src/Journal.antt =====
-- locribjournal.c: the journal of references whose best route changed, a wrap-around buffer of BIG
-- entries with a read and a write cursor. Both operations run whole under the journal's lock, so
-- each is one step here.
pub mod Queue
pub mod Refine
use fastparse.Prelude.{
  ℕ, ◌+◌, ◌%◌, ◌^◌, not, ◌==◌, if◌then◌else◌, Result, ok, ◌>>=◌, ◌>>◌, assert, update,
}
use fastparse.Bigtable.{big}

abbrev pub journal_empty : ℕ
journal_empty = 0xffff_ffff

pub record Journal : Type 0 where
  pub entries : ℕ → ℕ
  pub jread : ℕ
  pub jwrite : ℕ

-- `malloc` leaves the entries at any values.
abbrev pub locribj_init : (ℕ → ℕ) → Journal
locribj_init garbage = record { entries = garbage; jread = 0; jwrite = 0 }

unfoldable pub locribj_push : Journal → ℕ → Result Journal
locribj_push j addrref = do
  assert (not (journal_empty == addrref))
  let jwrite = (j.jwrite + 1) % 2 ^ 32 % big
  assert (not (jwrite == j.jread))
  ok (record j { entries = update j.entries j.jwrite addrref; jwrite = jwrite })

unfoldable pub locribj_pull : Journal → ℕ × Journal
locribj_pull j =
    if j.jwrite == j.jread
    then (journal_empty, j)
    else (j.entries j.jread, record j { jread = (j.jread + 1) % 2 ^ 32 % big })
