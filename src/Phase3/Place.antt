-- ===== src/Phase3/Place.antt =====
-- What is sent does not depend on the journal, the flags or the lock, and leaves them as they are.
use fastparse.Prelude.{
  ℕ, ◌+◌, ◌%◌, ◌^◌, ◌≡◌, refl, Bool, true, false, ◌==◌, if◌then◌else◌, List, [], ◌∷◌, assert, leb,
  Result, ok, err, ◌>>=◌, length,
}
use fastparse.Bytes.{put8, putw16}
use fastparse.System.{System}
use fastparse.Phase3.Runs.{Block, send_runs}
use fastparse.Phase3.{send_block, send_withdraw, send_update, send_groups, build_all}

abbrev pub map_ok {ℓ κ} : {A : Type ℓ} {B : Type κ} → (A → B) → Result A → Result B
map_ok f m = m >>= λ a. ok (f a)

-- The journal, the table of best routes and the lock of `u` in the state `s`.
abbrev pub place : System → System → System
place u s = record s {
  journal = u.journal;
  locrib = u.locrib;
  phase3_locked = u.phase3_locked;
  phase3_debug = u.phase3_debug;
}

-- A function of the value may be taken at the end of a computation.
>>=-map {ℓ κ μ} :
    {A : Type ℓ} {B : Type κ} {C : Type μ} (m : Result A) (k : A → Result B) (k' : A → Result C)
    (f : B → C)
    → ((a : A) → k' a ≡ map_ok f (k a))
    → (m >>= k') ≡ map_ok f (m >>= k)
>>=-map (ok a) k k' f e = e a
>>=-map (err x) k k' f e = refl

if-map {ℓ κ} :
    {A : Type ℓ} {B : Type κ} (b : Bool) (m n : Result A) (m' n' : Result B) (f : A → B)
    → m' ≡ map_ok f m
    → n' ≡ map_ok f n
    → (if b then m' else n') ≡ map_ok f (if b then m else n)
if-map true m n m' n' f e e' = e
if-map false m n m' n' f e e' = e'

module _ (u : System) where
  send_withdraw-place :
      (s : System) (refs : List ℕ)
      → send_withdraw (place u s) refs ≡ map_ok (place u) (send_withdraw s refs)
  unfolding send_withdraw
  send_withdraw-place s refs =
      >>=-map (build_all s.bigtable refs s.tx_buffer 23) _ _ (place u) (λ built.
        >>=-map (putw16 built.0 16 _) _ _ (place u) (λ a.
          >>=-map (putw16 a 19 _) _ _ (place u)
            (λ b. >>=-map (putw16 b built.1 0) _ _ (place u) (λ c. refl))))

  send_update-place :
      (s : System) (r : ℕ) (refs : List ℕ)
      → send_update (place u s) r refs ≡ map_ok (place u) (send_update s r refs)
  unfolding send_update
  send_update-place s r refs = >>=-map (putw16 s.tx_buffer 19 0) _ _ (place u) (λ m.
      >>=-map (send_groups s.bigtable (s.routes r) refs m s.over_length_detected s.peergroups) _ _
        (place u) (λ sent. refl))

  -- Sending a block with another journal, other flags and another lock in place sends the same.
  pub send_block-place :
      (s : System) (r : ℕ) (refs : List ℕ)
      → send_block (place u s) r refs ≡ map_ok (place u) (send_block s r refs)
  unfolding send_block
  send_block-place s r refs = >>=-map (put8 s.tx_buffer 18 2) _ _ (place u) (λ m.
      if-map (r == 0) _ _ _ _ (place u)
        (send_withdraw-place
          (record s {
            propagated_prefixes = (s.propagated_prefixes + length refs) % 2 ^ 64;
            tx_buffer = m;
          })
          refs)
        (send_update-place
          (record s {
            propagated_prefixes = (s.propagated_prefixes + length refs) % 2 ^ 64;
            tx_buffer = m;
          })
          r refs))

  pub send_runs-place :
      (s : System) (blocks : List Block)
      → send_runs (place u s) blocks ≡ map_ok (place u) (send_runs s blocks)
  unfolding send_runs
  send_runs-place s [] = refl
  send_runs-place s ((r, refs) ∷ rest) =
      >>=-map (assert (leb (length refs) 4096)) _ _ (place u) (λ short.
        rw (send_block-place s r refs) (sent (send_block s r refs) (λ t. send_runs-place t rest)))
    where
      sent :
          (m : Result System)
          → ((t : System) → send_runs (place u t) rest ≡ map_ok (place u) (send_runs t rest))
          → (map_ok (place u) m >>= λ t. send_runs t rest)
            ≡ map_ok (place u) (m >>= λ t. send_runs t rest)
      sent (ok t) ih = ih t
      sent (err x) ih = refl
