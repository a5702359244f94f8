-- ===== src/Serialize/Whole.antt =====
-- The serialisers as a whole: what they write, from the attributes of the route as a list.
use fastparse.Prelude.{
  ℕ, ◌+◌, ◌≡◌, ◌≤◌, refl, ap, subst, sym, ◌∙◌, List, [], ◌∷◌, arith, Result, ok, ◌>>=◌, length,
  length-append, All,
}
use fastparse.Bytes.{Bytes}
use fastparse.Bytes.Regions.{Holds, Writes, Writes-nil, Writes-append}
use fastparse.Route.{Route}
use fastparse.Attributes.{origin, as_path, next_hop, community}
use fastparse.Serialize.{Writer, copy, get, start, serialize_copy}
use fastparse.Serialize.Block.{Attribute, IsAttribute, block}
use fastparse.Serialize.Find.{find, At, get-find}
use fastparse.Serialize.Picked.{copied, picked, Wrote}
use fastparse.Serialize.Steps.{copy-Did}

-- `get (t); copy ();` for some types, and then the rest of the function.
unfoldable pub copies {ℓ} :
    {A : Type ℓ} → Bytes → ℕ → List ℕ → (Writer → Result A) → Writer → Result A
copies src limit [] next w = next w
copies src limit (wanted ∷ types) next w =
    get src limit w wanted >>= λ w. copy src w >>= λ w. copies src limit types next w

-- What they leave: they have written some bytes.
pub record Reached (src : Bytes) (limit : ℕ) (w : Writer) (xs : Bytes) (u : Writer) : Type 0 where
  pub writes : Writes w.out w.q xs u.out
  pub q : u.q ≡ w.q + length xs

pub At-move :
    {src : Bytes} {limit : ℕ} {w u : Writer} {rest : List Attribute}
    → u.r ≡ w.r
    → At src limit w rest
    → At src limit u rest
At-move {src} {limit} {w} {u} {rest} e a = record {
  held = subst (λ p. Holds src p (block rest)) (sym e) a.held;
  ends = ap (λ p. p + length (block rest)) e ∙ a.ends;
  valid = a.valid;
}

pub Reached-Wrote :
    {src : Bytes} {limit : ℕ} {w v u : Writer} (xs : Bytes)
    → v.out ≡ w.out
    → v.q ≡ w.q
    → Wrote v xs u
    → Reached src limit w xs u
Reached-Wrote {w = w} {v} {u} xs out q wrote = record {
  writes =
      subst (λ m. Writes m w.q xs u.out) out (subst (λ p. Writes v.out p xs u.out) q wrote.writes);
  q = wrote.q ∙ ap (λ p. p + length xs) q;
}

-- One attribute.
record Copied (src : Bytes) (limit wanted : ℕ) (w : Writer) (rest : List Attribute) : Type 0 where
  found : Writer
  after : Writer
  gets : get src limit w wanted ≡ ok found
  copies : copy src found ≡ ok after
  reached : Reached src limit w (copied (find wanted rest).0) after
  at : At src limit after (find wanted rest).1

get-copy :
    (src : Bytes) (limit wanted : ℕ) (w : Writer) (rest : List Attribute)
    → At src limit w rest
    → w.q + length (copied (find wanted rest).0) ≤ length w.out
    → Copied src limit wanted w rest
get-copy src limit wanted w rest here room =
    let (v, e, g) = get-find src limit w wanted rest here in
    let did = copy-Did src v (find wanted rest).0 g.current (omega (arith, g.q, ap length g.out)) in
    record {
      found = v;
      after = did.after;
      gets = e;
      copies = did.returns;
      reached = Reached-Wrote (copied (find wanted rest).0) g.out g.q did.wrote;
      at = At-move did.wrote.r g.at;
    }

pub copies-Reached {ℓ} :
    {A : Type ℓ} (src : Bytes) (limit : ℕ) (types : List ℕ) (next : Writer → Result A) (w : Writer)
    (rest : List Attribute)
    → At src limit w rest
    → w.q + length (picked types rest) ≤ length w.out
    → (u : Writer) × (copies src limit types next w ≡ next u)
      × Reached src limit w (picked types rest) u
unfolding copies picked
copies-Reached src limit [] next w rest here room =
    (w, refl, record { writes = Writes-nil w.out w.q; q = omega arith })
copies-Reached src limit (wanted ∷ types) next w rest here room =
    let (found, behind) = find wanted rest in
    let xs = copied found in
    let ys = picked types behind in
    let both = length-append xs ys in
    let one = get-copy src limit wanted w rest here (omega arith) in
    let (u, e, r) =
      copies-Reached src limit types next one.after behind one.at
        (omega (arith, one.reached.q, one.reached.writes.same_length)) in
    (
      u,
      rw (one.gets, one.copies) e,
      record {
        writes =
            Writes-append {m' = one.after.out} w.q one.after.q xs ys one.reached.q
              one.reached.writes r.writes;
        q = omega (arith, one.reached.q, r.q);
      },
    )

-- The attributes of a route are a block of valid attributes.
pub record Carries (route : Route) (rest : List Attribute) : Type 0 where
  pub held : Holds route.attributes 0 (block rest)
  pub length_is : route.update_length ≡ length (block rest)
  pub valid : All IsAttribute rest

pub start-At :
    (route : Route) (rest : List Attribute) (out : Bytes) (q : ℕ)
    → Carries route rest
    → At route.attributes route.update_length (start out q) rest
start-At route rest out q c = record {
  held = c.held;
  ends = omega (arith, c.length_is);
  valid = c.valid;
}

-- For a route whose attributes are a block of valid ones, and with room for what is written,
-- `serialize_copy` returns the pointer behind it, and it has written the first ORIGIN, AS_PATH,
-- NEXT_HOP and COMMUNITY that `find` gives, in this order, and no other byte.
pub serialize_copy-picked :
    (route : Route) (rest : List Attribute) (out : Bytes) (q : ℕ)
    → Carries route rest
    → q + length (picked (origin ∷ as_path ∷ next_hop ∷ community ∷ []) rest) ≤ length out
    → (out' : Bytes) × (serialize_copy route out q
        ≡ ok (out', q + length (picked (origin ∷ as_path ∷ next_hop ∷ community ∷ []) rest)))
      × Writes out q (picked (origin ∷ as_path ∷ next_hop ∷ community ∷ []) rest) out'
unfolding serialize_copy copies
serialize_copy-picked route rest out q c room =
    let types = origin ∷ as_path ∷ next_hop ∷ community ∷ [] in
    let done : Writer → Result (Bytes × ℕ) = λ w. ok (w.out, w.q) in
    let (u, e, r) =
      copies-Reached route.attributes route.update_length types done (start out q) rest
        (start-At route rest out q c) room in
    (u.out, e ∙ ap (λ (p : ℕ). ok (u.out, p)) r.q, r.writes)
