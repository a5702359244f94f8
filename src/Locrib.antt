-- ===== src/Locrib.antt =====
-- locrib.c and `read_and_clear` of phase3.h: for each reference the best route, and the flag that
-- its reference waits in the journal. What a function does under the lock of an entry is one step.
-- The variable `push_flag` of `locrib` has no initial value: it is a parameter, `garbage`.
pub mod Entry
pub mod Threads
pub mod Waits
pub mod InStep
pub mod Quiet
pub mod Drained
use fastparse.Prelude.{
  ℕ, ◌+◌, ◌*◌, ◌^◌, Bool, true, false, not, ◌&&◌, ◌||◌, ◌==◌, if◌then◌else◌, bit_and, ltb, Result,
  ok, ◌>>=◌, ◌>>◌, in_object, update,
}
use fastparse.Bigtable.{big}
use fastparse.Route.{Route, tiebreaker}

abbrev pub top32 : ℕ
top32 = 0x8000_0000

-- `_LR_EOB` and `_LR_INDEX_MASK`
abbrev pub lr_eob : ℕ
lr_eob = top32

abbrev pub lr_index_mask : ℕ
lr_index_mask = 0x7fff_ffff

pub record Locrib : Type 0 where
  pub head : ℕ → ℕ
  pub push_flag : ℕ → Bool

abbrev pub locrib_init : Locrib
locrib_init = record { head = λ _. 0; push_flag = λ _. false }

-- The function `push` inside `locrib`, which stores `new` whatever it is called with: the old flag,
-- and the entry with its flag set.
unfoldable pub push : Locrib → ℕ → ℕ → Bool × Locrib
push l addrref new = (
  l.push_flag addrref,
  record { head = update l.head addrref new; push_flag = update l.push_flag addrref true },
)

-- The update branch under the lock: a first route, or one that the comparison tells from the best.
unfoldable pub offer : Bool → (ℕ → Route) → Locrib → ℕ → ℕ → Bool × Locrib
unfolding push
offer garbage routes l addrref new =
    let current = l.head addrref in
    if (current == 0) || tiebreaker (routes new).tiebreak (routes current).tiebreak
    then push l addrref new
    else (garbage, l)

-- The withdraw branch under the lock.
unfoldable pub retract : Bool → Locrib → ℕ → ℕ → Bool × Locrib
unfolding push
retract garbage l addrref new =
    let current = l.head addrref in
    if not (current == 0) && (current == new) then push l addrref new else (garbage, l)

-- What `locrib` does under the entry's lock: the value of `push_flag` after it, and the entries.
unfoldable pub decide : Bool → (ℕ → Route) → Locrib → ℕ → ℕ → Bool → Result (Bool × Locrib)
decide garbage routes l addrref new is_update = do
  in_object (ltb addrref big)
  ok (if is_update then offer garbage routes l addrref new else retract garbage l addrref new)

unfoldable pub read_and_clear : Locrib → ℕ → Result (ℕ × Locrib)
read_and_clear l addrref = do
  in_object (ltb addrref big)
  ok (l.head addrref, record l { push_flag = update l.push_flag addrref false })
