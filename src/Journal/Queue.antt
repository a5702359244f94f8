-- ===== src/Journal/Queue.antt =====
-- What the journal promises: a queue of at most BIG - 1 references, oldest first.
use fastparse.Prelude.{
  ℕ, ◌+◌, ◌==◌, not, List, [], ◌∷◌, ◌++◌, Result, ok, ◌>>=◌, ◌>>◌, assert, ltb, length,
}
use fastparse.Bigtable.{big}
use fastparse.Journal.{journal_empty}

-- A client's calls, and what it sees of them.
pub data Op : Type 0 where
  push : ℕ → Op
  pull : Op

abbrev pub Queue : Type 0
Queue = List ℕ

-- The marker of an empty journal is refused, and so is one entry too many.
unfoldable pub enqueue : Queue → ℕ → Result Queue
enqueue q x = do
  assert (not (journal_empty == x))
  assert (ltb (length q + 1) big)
  ok (q ++ (x ∷ []))

unfoldable pub dequeue : Queue → ℕ × Queue
dequeue [] = (journal_empty, [])
dequeue (x ∷ q) = (x, q)

-- The references that a sequence of calls pulls, or the fault that ends it.
unfoldable pub run : Queue → List Op → Result (List ℕ)
unfolding enqueue dequeue
run q [] = ok []
run q (push x ∷ ops) = do q' ← enqueue q x; run q' ops
run q (pull ∷ ops) = do let (x, q') = dequeue q; xs ← run q' ops; ok (x ∷ xs)
