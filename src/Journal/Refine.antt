-- ===== src/Journal/Refine.antt =====
-- The wrap-around buffer behaves as the queue.
use fastparse.Prelude.{
  ℕ, ◌+◌, ◌%◌, ◌^◌, lt→ltb, ◌≡◌, ◌≢◌, ◌<◌, refl, List, [], ◌∷◌, ◌++◌, arith, ok, err, assertion,
  Result, ◌>>=◌, ◌∙◌, update, update_ne, length, length-append,
}
use native.Mathlib.Decide.{ℕ_discrete, dec_lt}
use fastparse.Bigtable.{big}
use fastparse.Journal.{Journal, journal_empty, locribj_push, locribj_pull, locribj_init}
use fastparse.Journal.Queue
use fastparse.Journal.Queue.{Queue, Op, push, pull, enqueue, dequeue}

-- The entries from the cursor `r` to the cursor `w`, going round at BIG.
abbrev Window : (ℕ → ℕ) → ℕ → Queue → ℕ → Type 0
Window f r [] w = r ≡ w
Window f r (x ∷ q) w = (f r ≡ x) × Window f ((r + 1) % big) q w

-- The journal holds the queue `q`.
pub record Contents (j : Journal) (q : Queue) : Type 0 where
  pub room : length q < big
  pub read_in : j.jread < big
  pub write_at : j.jwrite ≡ (j.jread + length q) % big
  pub window : Window j.entries j.jread q j.jwrite

Window-push :
    (f : ℕ → ℕ) (x r w : ℕ) (q : Queue)
    → r < big
    → length q + 1 < big
    → w ≡ (r + length q) % big
    → Window f r q w
    → Window (update f w x) r (q ++ (x ∷ [])) ((w + 1) % big)
Window-push f x r w [] hr hq e h = let same : r ≡ w = h in (ground arith, omega arith)
Window-push f x r w (y ∷ q) hr hq e h = (
  update_ne f w x r (omega arith) ∙ h.0,
  Window-push f x ((r + 1) % big) w q (omega arith) (omega arith) (omega arith) h.1,
)

pub init-Contents : (garbage : ℕ → ℕ) → Contents (locribj_init garbage) []
init-Contents garbage = record {
  room = omega arith;
  read_in = omega arith;
  write_at = omega arith;
  window = refl;
}

-- `locribj_push` of a reference that is not the marker, on a journal that holds fewer than BIG - 1
-- references, adds it at the end.
pub push-Contents :
    (j : Journal) (q : Queue) (x : ℕ)
    → x ≢ journal_empty
    → length q + 1 < big
    → Contents j q
    → (j' : Journal) × (locribj_push j x ≡ ok j') × Contents j' (q ++ (x ∷ []))
unfolding locribj_push
push-Contents j q x ne room c =
    let w = (j.jwrite + 1) % 2 ^ 32 % big in
    let same : (j.jwrite + 1) % 2 ^ 32 % big ≡ (j.jwrite + 1) % big = omega (arith, c.write_at) in
    (
      record j { entries = update j.entries j.jwrite x; jwrite = w },
      ground (arith, c.write_at, c.read_in),
      record {
        room = omega (arith, length-append q (x ∷ []));
        read_in = c.read_in;
        write_at = omega (arith, length-append q (x ∷ []), c.write_at);
        window =
            rw same (Window-push j.entries x j.jread j.jwrite q c.read_in room c.write_at c.window);
      },
    )

pub push-full :
    (j : Journal) (q : Queue) (x : ℕ)
    → length q + 1 ≡ big
    → Contents j q
    → locribj_push j x ≡ err assertion
unfolding locribj_push
push-full j q x full c = ground (arith, c.write_at, c.read_in)

push-marker : (j : Journal) (x : ℕ) → x ≡ journal_empty → locribj_push j x ≡ err assertion
unfolding locribj_push
push-marker j x e = rw e

-- `locribj_pull` of an empty journal returns the marker and changes nothing; of any other it returns
-- the oldest reference and leaves the rest.
pub pull-nil : (j : Journal) → Contents j [] → locribj_pull j ≡ (journal_empty, j)
unfolding locribj_pull
pull-nil j c = let e : j.jread ≡ j.jwrite = c.window in ground arith

pub pull-cons :
    (j : Journal) (x : ℕ) (q : Queue)
    → Contents j (x ∷ q)
    → (j' : Journal) × (locribj_pull j ≡ (x, j')) × Contents j' q
unfolding locribj_pull
pull-cons j x q c =
    let r = (j.jread + 1) % 2 ^ 32 % big in
    let same : (j.jread + 1) % 2 ^ 32 % big ≡ (j.jread + 1) % big = omega (arith, c.read_in) in
    (
      record j { jread = r },
      ground (arith, c.write_at, c.read_in, c.window, c.room),
      record {
        room = omega (arith, c.room);
        read_in = omega arith;
        write_at = omega (arith, c.write_at, c.read_in);
        window = rw same c.window.1;
      },
    )

-- The references that a sequence of calls on the journal pulls, or the fault that ends it.
unfoldable pub run : Journal → List Op → Result (List ℕ)
run j [] = ok []
run j (push x ∷ ops) = do j' ← locribj_push j x; run j' ops
run j (pull ∷ ops) = do let (x, j') = locribj_pull j; xs ← run j' ops; ok (x ∷ xs)

-- No sequence of calls tells the journal from the queue of at most BIG - 1 references that it holds:
-- the same references are pulled, and the same call fails.
pub run_refines :
    (ops : List Op) (j : Journal) (q : Queue) → Contents j q → run j ops ≡ Queue.run q ops
unfolding run Queue.run
run_refines [] j q c = refl
run_refines (push x ∷ ops) j q c = elim (ℕ_discrete x journal_empty) [
  | yes e ↦ rw (push-marker j x e, e)
  | no ne ↦ elim (dec_lt (length q + 1) big) [
    | yes room ↦
        let (j', e, c') = push-Contents j q x ne room c in
        rw (e, run_refines ops j' (q ++ (x ∷ [])) c')
          (ground (arith, lt→ltb (length q + 1) big room))
    | no full ↦ rw (push-full j q x (omega (arith, c.room)) c) (ground arith)
  ]
]
run_refines (pull ∷ ops) j [] c = rw (pull-nil j c, run_refines ops j [] c)
run_refines (pull ∷ ops) j (x ∷ q) c =
    let (j', e, c') = pull-cons j x q c in rw (e, run_refines ops j' q c')
