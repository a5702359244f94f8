-- ===== src/Locrib/Entry.antt =====
-- What one call does to an entry of the table of best routes.
use fastparse.Prelude.{
  ℕ, ◌≡◌, ◌≢◌, ◌<◌, ◌⊎◌, Bool, true, false, lt→ltb, arith, update, ok, Bool-cases, inl, inr, ltb,
  ltb→lt, in_object, subst, >>=-eq-ok,
}
use fastparse.Bigtable.{big}
use fastparse.Route.{Route, Tiebreak, tiebreaker}
use fastparse.Route.Tie.{InRange, tiebreaker_iff}
use fastparse.Locrib.{Locrib, push, offer, retract, decide}

tiebreaker-ne : {a b : Tiebreak} → InRange a → InRange b → a ≢ b → tiebreaker a b ≡ true
tiebreaker-ne {a} {b} i j ne = elim (Bool-cases (tiebreaker a b)) [
  | inl e ↦ e
  | inr e ↦ absurd (ne ((tiebreaker_iff a b i j).0 e))
]

module _ (garbage : Bool) (routes : ℕ → Route) (l : Locrib) (ref new : ℕ) (inside : ref < big) where
  -- The entry with `new` as its best route and its flag set.
  abbrev pub won : Locrib
  won = record { head = update l.head ref new; push_flag = update l.push_flag ref true }

  offer-first : l.head ref ≡ 0 → offer garbage routes l ref new ≡ (l.push_flag ref, won)
  unfolding offer push
  offer-first e = rw e

  offer-differs :
      tiebreaker (routes new).tiebreak (routes (l.head ref)).tiebreak ≡ true
      → offer garbage routes l ref new ≡ (l.push_flag ref, won)
  unfolding offer push
  offer-differs e = rw e (ground arith)

  offer-equal :
      l.head ref ≢ 0
      → tiebreaker (routes new).tiebreak (routes (l.head ref)).tiebreak ≡ false
      → offer garbage routes l ref new ≡ (garbage, l)
  unfolding offer
  offer-equal ne e = rw e (ground arith)

  -- An offered route becomes the best one if there was none or if its tie-break data differ from the
  -- best one's, whatever these are: the flag is set, and the flag from before is what `locrib` goes on
  -- with.
  pub decide-offer :
      InRange (routes new).tiebreak
      → InRange (routes (l.head ref)).tiebreak
      → (l.head ref ≡ 0) ⊎ ((routes new).tiebreak ≢ (routes (l.head ref)).tiebreak)
      → decide garbage routes l ref new true ≡ ok (l.push_flag ref, won)
  unfolding decide
  decide-offer i j w = rw (lt→ltb ref big inside, wins w)
    where
      wins :
          (l.head ref ≡ 0) ⊎ ((routes new).tiebreak ≢ (routes (l.head ref)).tiebreak)
          → offer garbage routes l ref new ≡ (l.push_flag ref, won)
      wins (inl e) = offer-first e
      wins (inr ne) = offer-differs (tiebreaker-ne i j ne)

  -- An offered route whose tie-break data are those of the best one changes nothing, and `locrib` goes
  -- on with a flag that it never set.
  pub decide-offer_equal :
      InRange (routes new).tiebreak
      → InRange (routes (l.head ref)).tiebreak
      → l.head ref ≢ 0
      → (routes new).tiebreak ≡ (routes (l.head ref)).tiebreak
      → decide garbage routes l ref new true ≡ ok (garbage, l)
  unfolding decide
  decide-offer_equal i j ne same = rw (
    lt→ltb ref big inside,
    offer-equal ne
        ((tiebreaker_iff (routes new).tiebreak (routes (l.head ref)).tiebreak i j).1 same),
  )

-- A withdrawal, which reaches `locrib` with the route NULL, never changes the table of best routes,
-- whatever the entry holds: the withdrawn route stays the best one, and `locrib` goes on with a
-- flag that it never set.
pub decide-withdraw :
    (garbage : Bool) (routes : ℕ → Route) (l : Locrib) (ref : ℕ)
    → ref < big
    → decide garbage routes l ref 0 false ≡ ok (garbage, l)
unfolding decide retract
decide-withdraw garbage routes l ref inside = rw (lt→ltb ref big inside) (ground arith)

-- The entry with a new route and its flag set.
abbrev pub set_entry : Locrib → ℕ → ℕ → Locrib
set_entry l ref new = record {
  head = update l.head ref new;
  push_flag = update l.push_flag ref true;
}

-- Where the unset flag is taken to be true, `locrib` goes on with a set flag, or with the old flag of an
-- entry that has changed.
pub decide-cases :
    (routes : ℕ → Route) (l : Locrib) (ref new : ℕ) (is_update : Bool)
    → ref < big
    → (decide true routes l ref new is_update ≡ ok (true, l))
      ⊎ (decide true routes l ref new is_update ≡ ok (l.push_flag ref, set_entry l ref new))
unfolding decide offer retract push
decide-cases routes l ref new is_update h = ground (arith, lt→ltb ref big h)

-- The calls that change the entry: an announcement where there is no best route or where the comparison
-- tells the new route from it, and a withdrawal of the best route.
abbrev pub Changes : (ℕ → Route) → Locrib → ℕ → ℕ → Bool → Type 0
Changes routes l ref new is_update =
    ((is_update ≡ true)
      × ((l.head ref ≡ 0)
          ⊎ (tiebreaker (routes new).tiebreak (routes (l.head ref)).tiebreak ≡ true)))
    ⊎ ((is_update ≡ false) × (l.head ref ≢ 0) × (l.head ref ≡ new))

-- A call that changes the entry goes on with its old flag; one that does not, with the flag that it has
-- not set.
pub decide-Changes :
    (garbage : Bool) (routes : ℕ → Route) (l : Locrib) (ref new : ℕ) (is_update : Bool)
    → ref < big
    → (Changes routes l ref new is_update
        × (decide garbage routes l ref new is_update ≡ ok (l.push_flag ref, set_entry l ref new)))
      ⊎ ((¬ Changes routes l ref new is_update)
          × (decide garbage routes l ref new is_update ≡ ok (garbage, l)))
unfolding decide offer retract push
decide-Changes garbage routes l ref new is_update h = ground (arith, lt→ltb ref big h)

-- An access that returns is inside its object.
pub in_object-lt : (a n : ℕ) {u : Unit {0}} → in_object (ltb a n) ≡ ok u → a < n
in_object-lt a n {u} e = elim (Bool-cases (ltb a n)) [
  | inl inside ↦ ltb→lt a n inside
  | inr outside ↦
      let bad : in_object false ≡ ok u = subst (λ b. in_object b ≡ ok u) outside e in absurd (cc)
]

pub decide-lt :
    (garbage : Bool) (routes : ℕ → Route) (l : Locrib) (ref new : ℕ) (is_update : Bool)
    {flag : Bool} {l' : Locrib}
    → decide garbage routes l ref new is_update ≡ ok (flag, l')
    → ref < big
unfolding decide
decide-lt garbage routes l ref new is_update e =
    let (u, e₁, k) = >>=-eq-ok (in_object (ltb ref big)) _ e in in_object-lt ref big e₁
