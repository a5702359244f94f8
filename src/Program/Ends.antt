-- ===== src/Program/Ends.antt =====
-- How a run of the program ends, by the number of passes that it is asked for.
use fastparse.Prelude.{
  ℕ, zero, suc, ◌*◌, ◌^◌, ◌≡◌, ◌≢◌, ◌≤◌, ◌<◌, ◌⊎◌, inl, inr, refl, subst, true, lt→ltb, arith,
  Result, ok, err, Fault, assertion, undefined, >>=-eq-ok,
}
use native.Mathlib.Decide.{dec_lt, ℕ_discrete}
use fastparse.Locrib.{Locrib}
use fastparse.Alloc.{map_failed}
use fastparse.Alloc.Layout.{init_pools-Carved}
use fastparse.Parse.{Options}
use fastparse.Program.{Program, init, init_peers, buf_parse}
use fastparse.Program.Passes.{buf_parse_again}
use fastparse.Program.Whole.{Awaits, Settled, buf_parse-Settled}
use fastparse.Program.Main.{
  Arguments, Setting, given_or, options, divide, one_pass, passes, warm_up, main,
}

result-cases : {A : Type 0} (m : Result A) → ((x : A) × (m ≡ ok x)) ⊎ ((f : Fault) × (m ≡ err f))
result-cases (ok x) = inl (x, refl)
result-cases (err f) = inr (f, refl)

passes-again :
    (n : ℕ) (c : Setting) (opts : Options) (p p' : Program) (i count : ℕ)
    → 0 < n
    → one_pass c opts i p ≡ ok (p', count)
    → passes n c opts p' ≡ err assertion
unfolding passes
passes-again zero c opts p p' i count pos e = absurd (omega arith)
passes-again (suc n) c opts p p' i count pos e =
    let again =
      buf_parse_again c.fuel c.fuel c.garbage c.garbage (c.entries i) (c.entries n) opts opts c.file
        c.file p p' 0 0 c.length c.length count e in
    rw again refl

-- What the program starts from, with room for the routes of one pass.
init-Awaits :
    (fuel host_1 host_2 slab : ℕ) (no_locrib : Locrib) (no_journal words : ℕ → ℕ) (p : Program)
    → slab < 2 ^ 63
    → ((x : ℕ) → words x ≢ map_failed)
    → fuel * 2 < map_failed
    → init host_1 host_2 slab no_locrib no_journal words ≡ ok p
    → Awaits slab fuel p
unfolding init init_peers
init-Awaits fuel host_1 host_2 slab no_locrib no_journal words p low clear few e =
    let (pools, limit, made, layout, small, large) = init_pools-Carved slab (omega arith) in
    moved _ p (rw made at e) (record {
      low = low;
      layout = layout;
      words = clear;
      count = omega arith;
      unlocked = refl;
      idle = refl;
    })
  where
    moved : (q r : Program) → ok q ≡ ok r → Awaits slab fuel q → Awaits slab fuel r
    moved q r k h = let same : q ≡ r = cc in rw (← same) h

passes-Settled :
    {base : ℕ} (c : Setting) (opts : Options) (p p' : Program)
    → c.garbage ≡ true
    → Awaits base c.fuel p
    → passes 1 c opts p ≡ ok p'
    → Settled p'.system
unfolding passes
passes-Settled {base} c opts p p' unset w e =
    let ((q, n), e₁, k₁) = >>=-eq-ok (one_pass c opts 0 p) _ e in
    let pass : buf_parse c.fuel true (c.entries 0) opts c.file p 0 c.length ≡ ok (q, n) =
      subst (λ b. buf_parse c.fuel b (c.entries 0) opts c.file p 0 c.length ≡ ok (q, n)) unset e₁ in
    let settled = buf_parse-Settled c.fuel base (c.entries 0) opts c.file p q 0 c.length n w pass in
    let same : q ≡ p' = cc in rw (← same) settled

module _ (args : Arguments) (c : Setting) (host_1 host_2 slab : ℕ) (no_locrib : Locrib)
    (no_journal words : ℕ → ℕ) where
  -- A program that is asked for more than one pass, and that starts and completes the first one, ends at
  -- an assertion.
  pub main-repeated :
      (p p' : Program) (n : ℕ)
      → 1 < given_or args.repeat 1
      → given_or args.repeat 1 < 2 ^ 31
      → init host_1 host_2 slab no_locrib no_journal words ≡ ok p
      → one_pass c (options args) (given_or args.repeat 1) p ≡ ok (p', n)
      → main args c host_1 host_2 slab no_locrib no_journal words ≡ err assertion
  unfolding main warm_up
  main-repeated p p' n lo hi e e₁ =
      let repeat = given_or args.repeat 1 in
      let again = passes-again repeat c (options args) p p' repeat n (omega arith) e₁ in
      rw (e, lt→ltb 1 repeat lo, lt→ltb repeat (2 ^ 31) hi, e₁, again) refl

  -- In any case it ends in a fault.
  main-fails :
      1 < given_or args.repeat 1
      → given_or args.repeat 1 < 2 ^ 31
      → (f : Fault) × (main args c host_1 host_2 slab no_locrib no_journal words ≡ err f)
  unfolding main warm_up
  main-fails lo hi =
      let repeat = given_or args.repeat 1 in
      let above = lt→ltb 1 repeat lo in
      let small = lt→ltb repeat (2 ^ 31) hi in
      elim (result-cases (init host_1 host_2 slab no_locrib no_journal words)) [
        | inr (f, e) ↦ (f, rw e refl)
        | inl (p, e) ↦ elim (result-cases (one_pass c (options args) repeat p)) [
          | inr (f, e₁) ↦ (f, rw (e, above, small, e₁) refl)
          | inl ((p', n), e₁) ↦ (assertion, main-repeated p p' n lo hi e e₁)
        ]
      ]

  -- A program that is asked for no pass at all ends in the division by 0 of its report, if it starts.
  pub main-zero :
      (p : Program)
      → given_or args.repeat 1 ≡ 0
      → init host_1 host_2 slab no_locrib no_journal words ≡ ok p
      → main args c host_1 host_2 slab no_locrib no_journal words ≡ err undefined
  unfolding main warm_up passes divide
  main-zero p none e = rw (e, none) refl

  started :
      (p : Program) (n : ℕ)
      → main args c host_1 host_2 slab no_locrib no_journal words ≡ ok (p, n)
      → (p₀ : Program) × (init host_1 host_2 slab no_locrib no_journal words ≡ ok p₀)
  unfolding main
  started p n e =
      let (p₀, e₀, k₀) = >>=-eq-ok (init host_1 host_2 slab no_locrib no_journal words) _ e in
      (p₀, e₀)

  one_pass-Settled :
      (p : Program) (n : ℕ)
      → given_or args.repeat 1 ≡ 1
      → c.garbage ≡ true
      → slab < 2 ^ 63
      → ((x : ℕ) → words x ≢ map_failed)
      → c.fuel * 2 < map_failed
      → main args c host_1 host_2 slab no_locrib no_journal words ≡ ok (p, n)
      → Settled p.system
  unfolding main warm_up
  one_pass-Settled p n once unset low clear few e =
      let (p₀, e₀, k₀) =
        >>=-eq-ok (init host_1 host_2 slab no_locrib no_journal words) _ (rw once at e) in
      let w =
        init-Awaits c.fuel host_1 host_2 slab no_locrib no_journal words p₀ low clear few e₀ in
      let (p₁, e₁, k₁) = >>=-eq-ok (passes 1 c (options args) p₀) _ k₀ in
      let settled = passes-Settled c (options args) p₀ p₁ unset w e₁ in
      let (ignored, e₂, k₂) = >>=-eq-ok (divide p₁.system.too_long 1) _ k₁ in
      let same : p₁ ≡ p = cc in rw (← same) settled

  -- Over a slab in the lower half of the addresses, with first words that are not ~0, with fuel below
  -- 2 ^ 63 for each pass, and with the flag that `locrib` may read unset taken to be true: a program that
  -- returns was asked for one pass or for a negative number of them, and after one pass the table of
  -- prefixes is valid, the journal is empty and no flag is set.
  pub main-Settled :
      (p : Program) (n : ℕ)
      → c.garbage ≡ true
      → slab < 2 ^ 63
      → ((x : ℕ) → words x ≢ map_failed)
      → c.fuel * 2 < map_failed
      → main args c host_1 host_2 slab no_locrib no_journal words ≡ ok (p, n)
      → (2 ^ 31 ≤ given_or args.repeat 1) ⊎ ((given_or args.repeat 1 ≡ 1) × Settled p.system)
  main-Settled p n unset low clear few e =
      let repeat = given_or args.repeat 1 in
      elim (dec_lt repeat (2 ^ 31)) [
        | no negative ↦ inl (omega arith)
        | yes small ↦ elim (dec_lt 1 repeat) [
          | yes more ↦ let (f, bad) = main-fails more small in absurd (cc)
          | no few_rounds ↦ elim (ℕ_discrete repeat 0) [
            | no some_round ↦
                let once : repeat ≡ 1 = omega arith in
                inr (once, one_pass-Settled p n once unset low clear few e)
            | yes none ↦
                let (p₀, e₀) = started p n e in let bad = main-zero p₀ none e₀ in absurd (cc)
          ]
        ]
      ]
