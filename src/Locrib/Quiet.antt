-- ===== src/Locrib/Quiet.antt =====
-- A state in which there is nothing left to do, and what the output has read by then.
use fastparse.Prelude.{
  ℕ, zero, suc, ◌≡◌, ◌≤◌, ◌<◌, ◌⊎◌, inl, inr, refl, ap, subst, ◌∙◌, false, List, [], ◌∷◌, arith, ok,
  lt→ltb, All, update, Bool-cases,
}
use native.Mathlib.Decide.{ℕ_discrete, dec_lt}
use fastparse.Bigtable.{big}
use fastparse.Route.{Route}
use fastparse.Journal.{journal_empty, locribj_pull}
use fastparse.Journal.Refine.{Contents, push-Contents, pull-nil, pull-cons}
use fastparse.Locrib.{Locrib, read_and_clear}
use fastparse.Locrib.Threads.{
  Writer, outside, pushing, Reader, resting, pulled, State, Step, push, pull, read, IsWork,
}
use fastparse.Locrib.Waits.{Waits, in_queue, with_writer, with_reader, InStep}

-- No thread is on its way, the journal has nothing to read, no flag is set, and the best route of every
-- reference has been read.
pub record Quiet (s : State) : Type 0 where
  pub writers : (i : ℕ) → s.writers i ≡ outside
  pub reader : s.reader ≡ resting
  pub empty : locribj_pull s.journal ≡ (journal_empty, s.journal)
  pub flags : (x : ℕ) → s.locrib.push_flag x ≡ false
  pub last : (x : ℕ) → s.last_read x ≡ s.locrib.head x

-- Some thread has a reference to push, or none has.
pushing-cases :
    (n : ℕ) (w : ℕ → Writer)
    → ((i : ℕ) × (x : ℕ) × (w i ≡ pushing x)) ⊎ ((i : ℕ) → i < n → w i ≡ outside)
pushing-cases zero w = inr (λ i h. absurd (omega arith))
pushing-cases (suc n) w = elim (pushing-cases n w) [
  | inl found ↦ inl found
  | inr below ↦ at_last (w n) refl below
]
  where
    at_last :
        (v : Writer)
        → w n ≡ v
        → ((i : ℕ) → i < n → w i ≡ outside)
        → ((i : ℕ) × (x : ℕ) × (w i ≡ pushing x)) ⊎ ((i : ℕ) → i < suc n → w i ≡ outside)
    at_last (pushing x) e below = inl (n, x, e)
    at_last outside e below =
        inr (λ i h. elim (ℕ_discrete i n) [
          | yes same ↦ ap w same ∙ e
          | no ne ↦ below i (omega arith)
        ])

nothing-Waits :
    {w : ℕ → Writer} {r : Reader} {x : ℕ}
    → ((i : ℕ) → w i ≡ outside)
    → r ≡ resting
    → ¬ Waits [] w r x
nothing-Waits out free (in_queue h) = cc
nothing-Waits out free (with_writer i h) = let free' = out i in cc
nothing-Waits out free (with_reader h) = cc

clears :
    (l : Locrib) (x : ℕ)
    → x < big
    → read_and_clear l x ≡ ok (l.head x, record l { push_flag = update l.push_flag x false })
unfolding read_and_clear
clears l x h = rw (lt→ltb x big h) refl

-- A step that can be taken.
pub record Next (routes : ℕ → Route) (s : State) : Type 0 where
  pub after : State
  pub step : Step routes s after
  pub is_work : IsWork step

-- In a state that is in step a thread that is on its way can go on, or the state is quiet.
pub Next-or-Quiet :
    (routes : ℕ → Route) (n : ℕ) (s : State)
    → InStep s
    → ((i : ℕ) → n ≤ i → s.writers i ≡ outside)
    → Next routes s ⊎ Quiet s
Next-or-Quiet routes n s c out = by_reader s.reader refl
  where
    by_writers : (q : List ℕ) → c.queue ≡ q → q ≡ [] → s.reader ≡ resting → Next routes s ⊎ Quiet s
    by_writers q is none free =
        let none' : c.queue ≡ [] = is ∙ none in
        let k : Contents s.journal [] = subst (λ q. Contents s.journal q) none' c.contents in
        elim (pushing-cases n s.writers) [
          | inl (i, x, mine) ↦
              let lt = c.writing i x mine in
              let (j, e, filled) = push-Contents s.journal [] x (omega arith) (omega arith) k in
              inl (record {
                after = record s { journal = j; writers = update s.writers i outside };
                step = push i x j mine e;
                is_work = tt;
              })
          | inr below ↦
              let all : (i : ℕ) → s.writers i ≡ outside =
                λ i. elim (dec_lt i n) [ yes lt ↦ below i lt | no above ↦ out i (omega arith) ] in
              let off : (x : ℕ) → s.locrib.push_flag x ≡ false = λ x.
                elim (Bool-cases (s.locrib.push_flag x)) [
                  | inl on ↦ absurd (
                      nothing-Waits all free
                        (subst (λ q. Waits q s.writers s.reader x) none' (c.waits x on)))
                  | inr e ↦ e
                ] in
              inr (record {
                writers = all;
                reader = free;
                empty = pull-nil s.journal k;
                flags = off;
                last = λ x. c.last x (off x);
              })
        ]

    by_queue :
        (q : List ℕ)
        → c.queue ≡ q
        → Contents s.journal q
        → All (λ x. x < big) q
        → s.reader ≡ resting
        → Next routes s ⊎ Quiet s
    by_queue [] is k inside free = by_writers [] is refl free
    by_queue (x ∷ q) is k inside free =
        let (j, e, k') = pull-cons s.journal x q k in
        inl (record {
          after = record s { journal = j; reader = pulled x };
          step = pull x j free (omega (arith, inside.0)) e;
          is_work = tt;
        })

    by_reader : (r : Reader) → s.reader ≡ r → Next routes s ⊎ Quiet s
    by_reader resting free = by_queue c.queue refl c.contents c.inside free
    by_reader (pulled x) mine =
        let l = record s.locrib { push_flag = update s.locrib.push_flag x false } in
        inl (record {
          after = record s {
            locrib = l;
            reader = resting;
            last_read = update s.last_read x (s.locrib.head x);
          };
          step = read x (s.locrib.head x) l mine (clears s.locrib x (c.reading x mine));
          is_work = tt;
        })
