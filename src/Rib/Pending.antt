-- ===== src/Rib/Pending.antt =====
-- The flags of the table of best routes and the journal: a reference waits in the journal exactly when
-- its flag is set, and it waits there once. `locrib` reads a flag that it may not have set; here it
-- reads `true`, with which it does not push.
use fastparse.Prelude.{
  ℕ, ◌+◌, ◌≡◌, ◌≢◌, ◌≤◌, ◌<◌, refl, sym, ◌∙◌, true, false, List, [], ◌∷◌, ◌++◌, arith, ok, length,
  All, All-append,
}
use native.Mathlib.Decide.{ℕ_discrete}
use fastparse.Prelude.Distinct.{contains, contains-append, Distinct, Distinct-append}
use fastparse.Bigtable.{big}
use fastparse.Journal.{Journal, locribj_push}
use fastparse.Journal.Refine.{Contents, push-Contents}
use fastparse.Locrib.{Locrib}
use fastparse.Locrib.Entry.{set_entry}
use fastparse.System.{System}
use fastparse.Phase3.{empty_route, schedule_phase3}
use fastparse.Phase3.Frame.{schedule_phase3-Keeps}
use fastparse.Phase3.Collect.{Queued}
use fastparse.Phase3.Schedule.{Flushed, schedule_phase3-Flushed}

-- The queue `q` waits, of references that the prefix table has given out, and no output is under way.
pub record Pending (s : System) (q : List ℕ) : Type 0 where
  pub contents : Contents s.journal q
  pub flagged : (x : ℕ) → s.locrib.push_flag x ≡ contains q x
  pub distinct : Distinct q
  pub given : All (λ x. x < s.bigtable.index) q
  pub small : s.bigtable.index ≤ big
  pub routes : (x : ℕ) → s.locrib.head x ≢ empty_route
  pub unlocked : s.phase3_locked ≡ false
  pub idle : s.phase3_debug ≡ 0

set_entry-routes :
    (l : Locrib) (ref new : ℕ)
    → new ≢ empty_route
    → ((x : ℕ) → l.head x ≢ empty_route)
    → (x : ℕ) → (set_entry l ref new).head x ≢ empty_route
set_entry-routes l ref new ne h x = elim (ℕ_discrete x ref) [
  | yes e ↦ ground arith
  | no other ↦ ground (arith, h x)
]

-- A changed entry that waits already.
pub set_entry-Pending :
    {s : System} {q : List ℕ} (ref new : ℕ)
    → Pending s q
    → new ≢ empty_route
    → s.locrib.push_flag ref ≡ true
    → Pending (record s { locrib = set_entry s.locrib ref new }) q
set_entry-Pending {s} {q} ref new c ne on = record {
  contents = c.contents;
  flagged = λ x. elim (ℕ_discrete x ref) [
    | yes e ↦ ground (arith, c.flagged ref)
    | no other ↦ ground (arith, c.flagged x)
  ];
  distinct = c.distinct;
  given = c.given;
  small = c.small;
  routes = set_entry-routes s.locrib ref new ne c.routes;
  unlocked = c.unlocked;
  idle = c.idle;
}

-- A changed entry that starts to wait.
pub push-Pending :
    {s : System} {q : List ℕ} (ref new : ℕ)
    → Pending s q
    → new ≢ empty_route
    → ref < s.bigtable.index
    → length q + 1 < big
    → s.locrib.push_flag ref ≡ false
    → (j : Journal) × (locribj_push s.journal ref ≡ ok j)
      × Pending (record s { locrib = set_entry s.locrib ref new; journal = j }) (q ++ (ref ∷ []))
push-Pending {s} {q} ref new c ne given room off =
    let new_ref : contains q ref ≡ false = sym (c.flagged ref) ∙ off in
    let (j, e, filled) = push-Contents s.journal q ref (omega (arith, c.small)) room c.contents in
    (
      j,
      e,
      record {
        contents = filled;
        flagged = λ x. elim (ℕ_discrete x ref) [
          | yes e ↦ ground (arith, c.flagged ref, contains-append q ref x)
          | no other ↦ ground (arith, c.flagged x, contains-append q ref x)
        ];
        distinct = Distinct-append q ref new_ref c.distinct;
        given = All-append (λ x. x < s.bigtable.index) q (ref ∷ []) c.given (given, tt);
        small = c.small;
        routes = set_entry-routes s.locrib ref new ne c.routes;
        unlocked = c.unlocked;
        idle = c.idle;
      },
    )

inside_of_given : (n : ℕ) (q : List ℕ) → n ≤ big → All (λ x. x < n) q → All (λ x. x < big) q
inside_of_given n [] h g = tt
inside_of_given n (x ∷ q) h g = (omega arith, inside_of_given n q h g.1)

routes_of_all :
    (head : ℕ → ℕ) (q : List ℕ)
    → ((x : ℕ) → head x ≢ empty_route)
    → All (λ x. head x ≢ empty_route) q
routes_of_all head [] h = tt
routes_of_all head (x ∷ q) h = (h x, routes_of_all head q h)

pub Pending-Queued : {s : System} {q : List ℕ} → Pending s q → Queued s s.locrib.head q
Pending-Queued {s} {q} c = record {
  heads = λ x. refl;
  contents = c.contents;
  inside = inside_of_given s.bigtable.index q c.small c.given;
  routes = routes_of_all s.locrib.head q c.routes;
}

-- A call of `schedule_phase3` that returns leaves nothing waiting.
pub schedule_phase3-Pending :
    {s : System} {q : List ℕ} (s' : System)
    → Pending s q
    → schedule_phase3 s ≡ ok s'
    → Pending s' []
schedule_phase3-Pending {s} {q} s' c e =
    let f : Flushed s q s' =
      schedule_phase3-Flushed s s' q c.unlocked c.idle (Pending-Queued c) e in
    let k = schedule_phase3-Keeps s s' e in
    record {
      contents = f.empty;
      flagged = λ x. ground (arith, f.flags x, c.flagged x);
      distinct = tt;
      given = tt;
      small = rw k.bigtable c.small;
      routes = λ x. rw (f.heads x) (c.routes x);
      unlocked = f.unlocked;
      idle = f.idle;
    }
