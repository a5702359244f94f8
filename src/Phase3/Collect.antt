-- ===== src/Phase3/Collect.antt =====
-- The inner loop reads one run, and the reference behind it.
use fastparse.Prelude.{
  ℕ, zero, suc, ◌+◌, ◌≡◌, ◌≢◌, ◌≤◌, ◌<◌, refl, ap, sym, ◌∙◌, true, false, ◌==◌, if◌then◌else◌, List,
  [], ◌∷◌, ◌++◌, arith, Result, ok, err, assertion, leb, lt→ltb, le→leb, not_lt→ltb, length,
  length-append, take, All, update,
}
use native.Mathlib.Decide.{ℕ_discrete}
use mathlib.Core.List.{append_assoc, append-nil}
use fastparse.Bigtable.{big}
use fastparse.Journal.{Journal, journal_empty, locribj_pull}
use fastparse.Journal.Refine.{Contents, pull-nil, pull-cons}
use fastparse.Locrib.{Locrib, read_and_clear}
use fastparse.System.{System}
use fastparse.Phase3.{empty_route, pull_route, Run, collect}
use fastparse.Phase3.Runs.{clear_all, pulls, taken, take_run}

pulls-Contents :
    (j : Journal) (xs ys : List ℕ) → Contents j (xs ++ ys) → Contents (pulls (length xs) j) ys
unfolding pulls
pulls-Contents j [] ys c = c
pulls-Contents j (x ∷ xs) ys c =
    let (j', e, c') = pull-cons j x (xs ++ ys) c in
    let left : (locribj_pull j).1 ≡ j' = ap (λ (t : ℕ × Journal). t.1) e in
    pulls-Contents (locribj_pull j).1 xs ys (rw left c')

pub clear_all-head : (l : Locrib) (q : List ℕ) (x : ℕ) → (clear_all l q).head x ≡ l.head x
unfolding clear_all
clear_all-head l [] x = refl
clear_all-head l (a ∷ q) x =
    clear_all-head (record l { push_flag = update l.push_flag a false }) q x

pub pulls-add :
    (j : Journal) (xs ys : List ℕ)
    → pulls (length ys) (pulls (length xs) j) ≡ pulls (length (xs ++ ys)) j
unfolding pulls
pulls-add j [] ys = refl
pulls-add j (x ∷ xs) ys = pulls-add (locribj_pull j).1 xs ys

pub clear_all-append :
    (l : Locrib) (xs ys : List ℕ) → clear_all (clear_all l xs) ys ≡ clear_all l (xs ++ ys)
unfolding clear_all
clear_all-append l [] ys = refl
clear_all-append l (x ∷ xs) ys =
    clear_all-append (record l { push_flag = update l.push_flag x false }) xs ys

-- Reading two stretches of the queue one after the other reads both.
pub taken-append : (s : System) (xs ys : List ℕ) → taken (taken s xs) ys ≡ taken s (xs ++ ys)
taken-append s xs ys = rw (pulls-add s.journal xs ys, clear_all-append s.locrib xs ys)

-- When the references `xs` are read, the journal holds what is behind them.
pub taken-Contents :
    (s : System) (xs ys : List ℕ) → Contents s.journal (xs ++ ys) → Contents (taken s xs).journal ys
taken-Contents s xs ys c = pulls-Contents s.journal xs ys c

pub pull_route-nil :
    (s : System) (e : ℕ) → Contents s.journal [] → pull_route s e ≡ ok (journal_empty, e, s)
unfolding pull_route
pull_route-nil s e c = rw (pull-nil s.journal c)

pub pull_route-cons :
    (s : System) (e a : ℕ) (q : List ℕ)
    → Contents s.journal (a ∷ q)
    → a < big
    → pull_route s e ≡ ok (a, s.locrib.head a, taken s (a ∷ []))
unfolding pull_route read_and_clear pulls clear_all
pull_route-cons s e a q c h =
    let (j', pulled, c') = pull-cons s.journal a q c in rw pulled (ground (arith, lt→ltb a big h))

-- The reference behind a run, and its route, or the markers of the journal's end.
abbrev pub first_ref : List ℕ → ℕ
first_ref [] = journal_empty
first_ref (b ∷ q) = b

abbrev pub first_route : (ℕ → ℕ) → List ℕ → ℕ
first_route head [] = empty_route
first_route head (b ∷ q) = head b

-- What the loop has when it stops behind a run.
abbrev pub found : System → (ℕ → ℕ) → ℕ → List ℕ → List ℕ → Run
found s head r refs q = record {
  table = refs ++ (take_run head r q).0;
  addrref = first_ref (take_run head r q).1;
  route2 = first_route head (take_run head r q).1;
  rest = taken s ((take_run head r q).0 ++ take 1 (take_run head r q).1);
}

collect-round :
    (fuel : ℕ) (s : System) (r a : ℕ) (table : List ℕ) (a' r' : ℕ) (s' : System)
    → length table < 4096
    → pull_route s empty_route ≡ ok (a', r', s')
    → collect (suc fuel) s r r a table ≡ collect fuel s' r r' a' (table ++ (a ∷ []))
unfolding collect
collect-round fuel s r a table a' r' s' room e =
    rw (lt→ltb (length table) 4096 room, e) (ground arith)

collect-end :
    (fuel : ℕ) (s : System) (r r' a : ℕ) (table : List ℕ)
    → r' ≢ r
    → collect (suc fuel) s r r' a table
      ≡ ok (record { table = table; addrref = a; route2 = r'; rest = s })
unfolding collect
collect-end fuel s r r' a table ne = ground arith

collect-full :
    (fuel : ℕ) (s : System) (r a : ℕ) (table : List ℕ)
    → ¬ (length table < 4096)
    → collect (suc fuel) s r r a table ≡ err assertion
unfolding collect
collect-full fuel s r a table full = rw (not_lt→ltb (length table) 4096 full) (ground arith)

-- The queue's references are in the table of routes, and no best route is the marker of the end.
pub record Queued (s : System) (head : ℕ → ℕ) (q : List ℕ) : Type 0 where
  pub heads : (x : ℕ) → s.locrib.head x ≡ head x
  pub contents : Contents s.journal q
  pub inside : All (λ b. b < big) q
  pub routes : All (λ b. head b ≢ empty_route) q

pub Queued-tail :
    {s : System} {head : ℕ → ℕ} {b : ℕ} {q : List ℕ}
    → Queued s head (b ∷ q)
    → Queued (taken s (b ∷ [])) head q
Queued-tail {s} {head} {b} {q} c = record {
  heads = λ x. clear_all-head s.locrib (b ∷ []) x ∙ c.heads x;
  contents = taken-Contents s (b ∷ []) q c.contents;
  inside = c.inside.1;
  routes = c.routes.1;
}

-- The result of the inner loop, or the failure of its check of the table's length.
abbrev pub run_of : System → (ℕ → ℕ) → ℕ → List ℕ → List ℕ → Result Run
run_of s head r refs q =
    if leb (length (found s head r refs q).table) 4096
    then ok (found s head r refs q)
    else err assertion

run_of-full :
    (s : System) (head : ℕ → ℕ) (r a : ℕ) (table q : List ℕ)
    → ¬ (length table < 4096)
    → err assertion ≡ run_of s head r (table ++ (a ∷ [])) q
run_of-full s head r a table q full =
    ground
      (arith, length-append (table ++ (a ∷ [])) (take_run head r q).0, length-append table (a ∷ []))

run_of-nil :
    (s : System) (head : ℕ → ℕ) (r : ℕ) (refs : List ℕ)
    → length refs ≤ 4096
    → run_of s head r refs []
      ≡ ok (record { table = refs; addrref = journal_empty; route2 = empty_route; rest = s })
unfolding take_run pulls clear_all
run_of-nil s head r refs short = rw (append-nil refs, le→leb (length refs) 4096 short)

run_of-other :
    (s : System) (head : ℕ → ℕ) (r b : ℕ) (refs q : List ℕ)
    → length refs ≤ 4096
    → head b ≢ r
    → run_of s head r refs (b ∷ q)
      ≡ ok (record { table = refs; addrref = b; route2 = head b; rest = taken s (b ∷ []) })
unfolding take_run
run_of-other s head r b refs q short ne =
    let no : (head b == r) ≡ false = ground arith in
    rw (no, append-nil refs, le→leb (length refs) 4096 short)

run_of-same :
    (s : System) (head : ℕ → ℕ) (r b : ℕ) (refs q : List ℕ)
    → head b ≡ r
    → run_of s head r refs (b ∷ q) ≡ run_of (taken s (b ∷ [])) head r (refs ++ (b ∷ [])) q
unfolding take_run pulls clear_all
run_of-same s head r b refs q same =
    let yes_run : (head b == r) ≡ true = ground arith in
    rw (yes_run, append_assoc refs (b ∷ []) (take_run head r q).0)

-- The inner loop finds the run within its fuel, or its table is full.
pub collect-run_of :
    (q : List ℕ) (fuel : ℕ) (s : System) (head : ℕ → ℕ) (r a : ℕ) (table : List ℕ)
    → Queued s head q
    → r ≢ empty_route
    → suc fuel + length table ≡ 4097
    → collect (suc fuel) s r r a table ≡ run_of s head r (table ++ (a ∷ [])) q
collect-run_of q zero s head r a table c ne f =
    collect-full zero s r a table (λ h. omega arith)
    ∙ run_of-full s head r a table q (λ h. omega arith)
collect-run_of [] (suc fuel) s head r a table c ne f =
    collect-round (suc fuel) s r a table journal_empty empty_route s (omega arith)
      (pull_route-nil s empty_route c.contents)
    ∙ collect-end fuel s r empty_route journal_empty (table ++ (a ∷ [])) (λ e. ne (sym e))
    ∙ sym (run_of-nil s head r (table ++ (a ∷ [])) (omega (arith, length-append table (a ∷ []))))
collect-run_of (b ∷ q) (suc fuel) s head r a table c ne f =
    let pulled : pull_route s empty_route ≡ ok (b, head b, taken s (b ∷ [])) =
      rw (← c.heads b) (pull_route-cons s empty_route b q c.contents c.inside.0) in
    let round =
      collect-round (suc fuel) s r a table b (head b) (taken s (b ∷ [])) (omega arith) pulled in
    elim (ℕ_discrete (head b) r) [
      | yes same ↦
          round
          ∙ (rw same (
              collect-run_of q fuel (taken s (b ∷ [])) head r b (table ++ (a ∷ [])) (Queued-tail c)
                ne (omega (arith, length-append table (a ∷ [])))))
          ∙ sym (run_of-same s head r b (table ++ (a ∷ [])) q same)
      | no other ↦
          round
          ∙ collect-end fuel (taken s (b ∷ [])) r (head b) b (table ++ (a ∷ [])) other
          ∙ sym (
              run_of-other s head r b (table ++ (a ∷ [])) q
                (omega (arith, length-append table (a ∷ []))) other)
    ]
