-- ===== src/Locrib/InStep.antt =====
-- However the threads are interleaved, no change of a best route is lost.
use fastparse.Prelude.{
  ℕ, ◌+◌, ◌≡◌, ◌≢◌, ◌<◌, inl, inr, refl, ap, sym, subst, ◌∙◌, Bool, true, false, if◌then◌else◌,
  List, [], ◌∷◌, ◌++◌, arith, ok, ltb, in_object, length, All, All-append, update, update_ne,
  Bool-cases, >>=-eq-ok,
}
use native.Mathlib.Decide.{ℕ_discrete, dec_lt}
use fastparse.Bigtable.{big}
use fastparse.Route.{Route}
use fastparse.Journal.{Journal, journal_empty, locribj_push, locribj_pull}
use fastparse.Journal.Refine.{Contents, push-Contents, push-full, pull-nil, pull-cons}
use fastparse.Locrib.{Locrib, decide, read_and_clear}
use fastparse.Locrib.Entry.{set_entry, decide-Changes, decide-lt}
use fastparse.Locrib.Threads.{
  outside, pushing, resting, pulled, State, Step, enter, push, pull, read, Reach, here, next,
}
use fastparse.Locrib.Waits.{
  Waits, with_writer, InStep, Waits-enter, Waits-push, Waits-pull, Waits-read,
}

-- A call of `locrib` up to its push.
module _ {s : State} (i ref : ℕ) (c : InStep s) (out : s.writers i ≡ outside)
    (inside : ref < big) where
  writing_after :
      (flag : Bool) (j x : ℕ)
      → update s.writers i (if flag then outside else pushing ref) j ≡ pushing x
      → x < big
  writing_after flag j x h = elim (ℕ_discrete j i) [
    | yes e ↦ elim (Bool-cases flag) [ inl on ↦ ground arith | inr off ↦ ground arith ]
    | no ne ↦ c.writing j x (sym (update_ne s.writers i _ j ne) ∙ h)
  ]

  kept-InStep :
      (flag : Bool)
      → InStep (record s { writers = update s.writers i (if flag then outside else pushing ref) })
  kept-InStep flag = record {
    queue = c.queue;
    contents = c.contents;
    inside = c.inside;
    writing = writing_after flag;
    reading = c.reading;
    waits = λ x on. Waits-enter i (if flag then outside else pushing ref) out (c.waits x on);
    last = c.last;
  }

  set-InStep :
      (new : ℕ)
      → InStep (record s {
        locrib = set_entry s.locrib ref new;
        writers = update s.writers i (if s.locrib.push_flag ref then outside else pushing ref);
      })
  set-InStep new = record {
    queue = c.queue;
    contents = c.contents;
    inside = c.inside;
    writing = writing_after (s.locrib.push_flag ref);
    reading = c.reading;
    waits = λ x on. elim (Bool-cases (s.locrib.push_flag x)) [
      | inl was ↦ Waits-enter i _ out (c.waits x was)
      | inr off ↦ with_writer i (ground arith)
    ];
    last = λ x off. ground (arith, c.last x);
  }

-- The states are given by their parts.
enter-InStep :
    (routes : ℕ → Route) {s : State} (i ref new : ℕ) (garbage is_update flag : Bool) (l : Locrib)
    → InStep s
    → s.writers i ≡ outside
    → decide garbage routes s.locrib ref new is_update ≡ ok (flag, l)
    → InStep (record s {
      locrib = l;
      writers = update s.writers i (if flag then outside else pushing ref);
    })
enter-InStep routes {s} i ref new garbage is_update flag l c out e =
    let inside = decide-lt garbage routes s.locrib ref new is_update e in
    elim (decide-Changes garbage routes s.locrib ref new is_update inside) [
      | inl (changes, changed) ↦
          let same_flag : s.locrib.push_flag ref ≡ flag = cc in
          let same_l : set_entry s.locrib ref new ≡ l = cc in
          rw (← same_flag) (rw (← same_l) (set-InStep i ref c out inside new))
      | inr (none, kept) ↦
          let same_flag : garbage ≡ flag = cc in
          let same_l : s.locrib ≡ l = cc in
          rw (← same_flag) (rw (← same_l) (kept-InStep i ref c out inside garbage))
    ]

pub push-InStep :
    {s : State} (i ref : ℕ) (j : Journal) (c : InStep s)
    → s.writers i ≡ pushing ref
    → locribj_push s.journal ref ≡ ok j
    → (d : InStep (record s { journal = j; writers = update s.writers i outside })) × (d.queue
        ≡ c.queue ++ (ref ∷ []))
push-InStep {s} i ref j c mine e =
    let lt : ref < big = c.writing i ref mine in
    elim (dec_lt (length c.queue + 1) big) [
      | yes room ↦
          let (j', e', filled) =
            push-Contents s.journal c.queue ref (omega arith) room c.contents in
          let same : j' ≡ j = cc in
          (
            record {
              queue = c.queue ++ (ref ∷ []);
              contents = rw (← same) filled;
              inside = All-append (λ x. x < big) c.queue (ref ∷ []) c.inside (lt, tt);
              writing = λ k x h. elim (ℕ_discrete k i) [
                | yes e ↦ ground arith
                | no ne ↦ c.writing k x (sym (update_ne s.writers i outside k ne) ∙ h)
              ];
              reading = c.reading;
              waits = λ x on. Waits-push i ref mine (c.waits x on);
              last = c.last;
            },
            refl,
          )
      | no full ↦
          let bad = push-full s.journal c.queue ref (omega (arith, c.contents.room)) c.contents in
          absurd (cc)
    ]

-- The reader takes the first reference of the queue.
pub pull-InStep :
    {s : State} (ref : ℕ) (j : Journal) (c : InStep s)
    → s.reader ≡ resting
    → ref ≢ journal_empty
    → locribj_pull s.journal ≡ (ref, j)
    → (d : InStep (record s { journal = j; reader = pulled ref })) × (c.queue ≡ ref ∷ d.queue)
pull-InStep {s} ref j c free ne e = pulled_from c.queue c.contents c.inside c.waits refl
  where
    pulled_from :
        (q : List ℕ)
        → Contents s.journal q
        → All (λ x. x < big) q
        → ((x : ℕ) → s.locrib.push_flag x ≡ true → Waits q s.writers s.reader x)
        → c.queue ≡ q
        → (d : InStep (record s { journal = j; reader = pulled ref })) × (c.queue ≡ ref ∷ d.queue)
    pulled_from [] k inside waits is =
        let none = pull-nil s.journal k in absurd (ne (ap (λ t. t.0) (sym e ∙ none)))
    pulled_from (x ∷ q) k inside waits is =
        let (j', e', k') = pull-cons s.journal x q k in
        let same_x : x ≡ ref = ap (λ t. t.0) (sym e' ∙ e) in
        let same_j : j' ≡ j = ap (λ t. t.1) (sym e' ∙ e) in
        (
          record {
            queue = q;
            contents = rw (← same_j) k';
            inside = inside.1;
            writing = c.writing;
            reading = λ y h. let same : ref ≡ y = cc in omega (arith, inside.0);
            waits = λ y on.
                Waits-pull ref free
                  (subst (λ z. Waits (z ∷ q) s.writers s.reader y) same_x (waits y on));
            last = c.last;
          },
          is ∙ ap (λ z. z ∷ q) same_x,
        )

pub read-InStep :
    {s : State} (ref route : ℕ) (l : Locrib) (c : InStep s)
    → s.reader ≡ pulled ref
    → read_and_clear s.locrib ref ≡ ok (route, l)
    → (d : InStep
        (record s { locrib = l; reader = resting; last_read = update s.last_read ref route }))
      × (d.queue ≡ c.queue)
      × (l.head ≡ s.locrib.head)
unfolding read_and_clear
read-InStep {s} ref route l c mine e =
    let (u, e₁, k₁) = >>=-eq-ok (in_object (ltb ref big)) _ e in
    let cleared = record s.locrib { push_flag = update s.locrib.push_flag ref false } in
    let same_route : s.locrib.head ref ≡ route = cc in
    let same_l : cleared ≡ l = cc in
    rw (← same_route) (
      rw (← same_l) (
        record {
          queue = c.queue;
          contents = c.contents;
          inside = c.inside;
          writing = c.writing;
          reading = λ x h. cc;
          waits = λ x on. elim (ℕ_discrete x ref) [
            | yes e ↦ ground arith
            | no ne ↦
                let was : s.locrib.push_flag x ≡ true =
                  sym (update_ne s.locrib.push_flag ref false x ne) ∙ on in
                Waits-read ref mine ne (c.waits x was)
          ];
          last = λ x off. ground (arith, c.last x);
        },
        refl,
        refl,
      ))

Step-InStep : {routes : ℕ → Route} {s t : State} → InStep s → Step routes s t → InStep t
Step-InStep {routes} c (enter i ref new garbage is_update flag l out e) =
    enter-InStep routes i ref new garbage is_update flag l c out e
Step-InStep c (push i ref j mine e) = (push-InStep i ref j c mine e).0
Step-InStep c (pull ref j free ne e) = (pull-InStep ref j c free ne e).0
Step-InStep c (read ref route l mine e) = (read-InStep ref route l c mine e).0

-- When threads change best routes and one of them at a time reads the journal, from a state that is in
-- step: in every interleaving, whatever `locrib` reads from the flag that it may not have set, the state
-- stays in step. The journal holds a queue of references inside the table; a reference whose flag is set
-- is in it, or with a thread that is about to push it, or with the reader; and where no flag is set, the
-- route that was last read for the reference is the best one, so that no change is lost.
pub Reach-InStep : {routes : ℕ → Route} {s t : State} → InStep s → Reach routes s t → InStep t
Reach-InStep c here = c
Reach-InStep c (next run st) = Step-InStep (Reach-InStep c run) st
