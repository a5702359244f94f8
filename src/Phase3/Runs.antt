-- ===== src/Phase3/Runs.antt =====
-- What the output does with a queue of references, with no look-ahead: the queue is cut into runs of
-- references with one best route, and each run is sent.
use fastparse.Prelude.{
  ℕ, zero, suc, ◌≡◌, refl, false, ◌==◌, if◌then◌else◌, List, [], ◌∷◌, arith, Result, ok, ◌>>=◌,
  ◌>>◌, assert, leb, length, update, Bool-cases, inl, inr, ==_iff,
}
use fastparse.Journal.{Journal, locribj_pull}
use fastparse.Locrib.{Locrib}
use fastparse.System.{System}
use fastparse.Phase3.{send_block}

-- A route and the references that it is sent for.
abbrev pub Block : Type 0
Block = ℕ × List ℕ

-- A reference in front of the runs of the references behind it.
unfoldable pub attach : ℕ → ℕ → List Block → List Block
attach route ref [] = (route, ref ∷ []) ∷ []
attach route ref ((r, refs) ∷ rest) =
    if r == route then (r, ref ∷ refs) ∷ rest else (route, ref ∷ []) ∷ ((r, refs) ∷ rest)

-- The maximal runs of references with one route, in order; `head` is the table of best routes.
unfoldable pub runs : (ℕ → ℕ) → List ℕ → List Block
unfolding attach
runs head [] = []
runs head (ref ∷ q) = attach (head ref) ref (runs head q)

-- A run longer than the table of the loop is refused.
unfoldable pub send_runs : System → List Block → Result System
send_runs s [] = ok s
send_runs s ((route, refs) ∷ rest) = do
  assert (leb (length refs) 4096)
  s' ← send_block s route refs
  send_runs s' rest

-- The flags of the references that were read are off.
unfoldable pub clear_all : Locrib → List ℕ → Locrib
clear_all l [] = l
clear_all l (ref ∷ refs) = clear_all (record l { push_flag = update l.push_flag ref false }) refs

unfoldable pub pulls : ℕ → Journal → Journal
pulls zero j = j
pulls (suc n) j = pulls n (locribj_pull j).1

-- The state with the references `q` read from the journal.
abbrev pub taken : System → List ℕ → System
taken s q = record s { journal = pulls (length q) s.journal; locrib = clear_all s.locrib q }

-- The first run of a queue for the route `r`, and what is behind it.
unfoldable pub take_run : (ℕ → ℕ) → ℕ → List ℕ → List ℕ × List ℕ
take_run head r [] = ([], [])
take_run head r (ref ∷ q) =
    let (run, rest) = take_run head r q in
    if head ref == r then (ref ∷ run, rest) else ([], ref ∷ q)

-- The runs of a queue are its first run and the runs of the rest.
pub attach-take_run :
    (head : ℕ → ℕ) (r ref : ℕ) (q : List ℕ)
    → attach r ref (runs head q)
      ≡ (r, ref ∷ (take_run head r q).0) ∷ runs head (take_run head r q).1
unfolding attach runs take_run
attach-take_run head r ref [] = refl
attach-take_run head r ref (b ∷ q) = elim (Bool-cases (head b == r)) [
  | inl same ↦
      let e : head b ≡ r = (==_iff (head b) r).0 same in
      let ih = attach-take_run head r b q in rw (e, ih) (ground arith)
  | inr other ↦ let ih = attach-take_run head (head b) b q in rw ih (ground arith)
]
