-- ===== src/Bigtable/Race.antt =====
-- What holds of the prefix table when threads look prefixes up at the same time, and what does not.
use fastparse.Prelude.{
  ℕ, ◌+◌, ◌%◌, ◌^◌, ◌≡◌, ◌≢◌, ◌≤◌, ◌<◌, refl, ap, subst, sym, ◌∙◌, ok, lt→ltb, update, update_self,
  update_ne, arith,
}
use fastparse.Bigtable.{Bigtable, big, new_entry}
use fastparse.Bigtable.Threads.{
  Thread, start, loaded, returned, State, Step, load, enter, Reach, here, next,
}

-- The reference `r` stands for `x`.
abbrev Stands : Bigtable → ℕ → ℕ → Type 0
Stands t x r = (r < t.index) × (t.table r ≡ x)

-- What a thread knows.
abbrev Knows : Bigtable → Thread → Type 0
Knows t (start x) = Unit
Knows t (loaded x r) = r ≢ 0 → Stands t x r
Knows t (returned x r) = Stands t x r

-- Less than the invariant of one thread: an entry need not be the one that RIB gives for its prefix.
pub record IsShared (s : State) : Type 0 where
  pub small : s.bigtable.index ≤ big
  pub filled : (x : ℕ) → s.bigtable.rib x ≢ 0 → Stands s.bigtable x (s.bigtable.rib x)
  pub knows : (i : ℕ) → Knows s.bigtable (s.threads i)

-- A table that keeps what the references of `t` stand for.
record Keeps (t u : Bigtable) : Type 0 where
  grows : t.index ≤ u.index
  same : (r : ℕ) → r < t.index → u.table r ≡ t.table r

-- What an entry leaves, also for a prefix that has one already.
record Entered (t : Bigtable) (x r : ℕ) (u : Bigtable) : Type 0 where
  keeps : Keeps t u
  stands : Stands u x r
  small : u.index ≤ big
  others : (y : ℕ) → y ≢ x → u.rib y ≡ t.rib y
  own : u.rib x ≡ r

abbrev added : Bigtable → ℕ → Bigtable
added t x = record t {
  index = (t.index + 1) % 2 ^ 32;
  rib = update t.rib x t.index;
  table = update t.table t.index x;
}

new_entry_lem : (t : Bigtable) (x : ℕ) → t.index < big → new_entry t x ≡ ok (t.index, added t x)
unfolding new_entry
new_entry_lem t x room = rw (lt→ltb t.index big room) refl

load_empty :
    (s : State) (i x : ℕ)
    → s.threads i ≡ start x
    → s.bigtable.rib x ≡ 0
    → Step s (record s { threads = update s.threads i (loaded x 0) })
load_empty s i x e empty =
    subst (λ r. Step s (record s { threads = update s.threads i (loaded x r) })) empty (load i x e)

-- Two threads that look up the same new prefix, in a table with room for two entries, can each get a
-- reference of their own, since the slot is not read again under the lock.
pub Reach-two_references :
    (s : State) (i j x : ℕ)
    → i ≢ j
    → s.threads i ≡ start x
    → s.threads j ≡ start x
    → s.bigtable.rib x ≡ 0
    → s.bigtable.index + 2 ≤ big
    → (t : State) × Reach s t
      × (t.threads i ≡ returned x s.bigtable.index)
      × (t.threads j ≡ returned x (s.bigtable.index + 1))
Reach-two_references s i j x ne si sj empty room =
    let n = s.bigtable.index in
    let one = update s.threads i (loaded x 0) in
    let two = update one j (loaded x 0) in
    let three = update two i (returned x n) in
    let four = update three j (returned x ((n + 1) % 2 ^ 32)) in
    let b = added s.bigtable x in
    let at_j : one j ≡ start x = update_ne s.threads i _ j (λ z. ne (sym z)) ∙ sj in
    let at_i : two i ≡ loaded x 0 = update_ne one j _ i ne ∙ update_self s.threads i _ in
    let at_j' : three j ≡ loaded x 0 =
      update_ne two i _ j (λ z. ne (sym z)) ∙ update_self one j _ in
    let s₁ = record s { threads = one } in
    let s₂ = record s { threads = two } in
    let s₃ : State = record { bigtable = b; threads = three } in
    let s₄ : State = record { bigtable = added b x; threads = four } in
    let run₁ : Reach s s₁ = next here (load_empty s i x si empty) in
    let run₂ : Reach s s₂ = next run₁ (load_empty s₁ j x at_j empty) in
    let made = new_entry_lem s.bigtable x (omega arith) in
    let run₃ : Reach s s₃ = next run₂ (enter i x n b at_i made) in
    let made' = new_entry_lem b x (omega arith) in
    let run₄ : Reach s s₄ = next run₃ (enter j x ((n + 1) % 2 ^ 32) (added b x) at_j' made') in
    let last : (n + 1) % 2 ^ 32 ≡ n + 1 = omega arith in
    (
      s₄,
      run₄,
      update_ne three j _ i ne ∙ update_self two i _,
      update_self three j _ ∙ ap (returned x) last,
    )
