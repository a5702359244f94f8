-- ===== src/Serialize/Ebgp.antt =====
-- `serialize_ebgp` as a whole.
use fastparse.Prelude.{
  ℕ, ◌+◌, ◌≡◌, ◌≤◌, ◌<◌, ap, subst, ◌∙◌, some, List, [], ◌∷◌, ◌++◌, arith, Result, ok, length,
  length-append, All,
}
use fastparse.Bytes.{Bytes, IsByte}
use fastparse.Bytes.Regions.{Writes, Writes-append}
use fastparse.Route.{Route}
use fastparse.Attributes.{origin, as_path, next_hop, community}
use fastparse.Serialize.{Writer, get, prepend, start, serialize_ebgp}
use fastparse.Serialize.Block.{Attribute, block}
use fastparse.Serialize.Find.{find, At, Got, get-find}
use fastparse.Serialize.Picked.{header, picked}
use fastparse.Serialize.Prepend.{prepended, prepend-Did}
use fastparse.Serialize.Ibgp.{get-set}
use fastparse.Serialize.Whole.{
  copies, Reached, At-move, copies-Reached, Reached-Wrote, Carries, start-At,
}

-- An AS_PATH, taken apart: a sequence of `n` AS numbers, of which the first is `first`; behind the
-- attribute stand `spill` and `more`.
pub record Sequence (a : Attribute) (behind : List Attribute) (n : ℕ) (others spill : Bytes)
    : Type 0 where
  pub first : Bytes
  pub more : Bytes
  pub starts : a.value ≡ 2 ∷ n ∷ (first ++ others)
  pub four : length first ≡ 4
  pub few : n < 255
  pub goes_on : block behind ≡ spill ++ more
  pub four_more : length spill ≡ 4
  pub bytes : All IsByte spill

-- `get (AS_PATH); prepend (42);`
record Extended (src : Bytes) (limit : ℕ) (w : Writer) (xs : Bytes) (behind : List Attribute)
    : Type 0 where
  found : Writer
  after : Writer
  gets : get src limit w as_path ≡ ok found
  prepends : prepend src found 42 ≡ ok after
  reached : Reached src limit w xs after
  at : At src limit after behind

abbrev path_bytes : Attribute → ℕ → Bytes → Bytes
path_bytes a n zs = prepended (length a.value) a.flags a.type_code n 42 zs

get-prepend :
    (src : Bytes) (limit : ℕ) (w : Writer) (rest behind : List Attribute) (a : Attribute) (n : ℕ)
    (others spill : Bytes)
    → At src limit w rest
    → find as_path rest ≡ (some a, behind)
    → Sequence a behind n others spill
    → w.q + length (path_bytes a n (others ++ spill)) ≤ length w.out
    → Extended src limit w (path_bytes a n (others ++ spill)) behind
get-prepend src limit w rest behind a n others spill here is_next path room =
    let (v, e, any) = get-find src limit w as_path rest here in
    let g : Got src limit as_path w (some a, behind) v =
      subst (λ found. Got src limit as_path w found v) is_next any in
    let did =
      prepend-Did src limit v 42 a behind n path.first others spill path.more g.current g.at
        path.starts path.four path.few path.goes_on path.four_more path.bytes
        (omega (arith, g.q, ap length g.out)) in
    record {
      found = v;
      after = did.after;
      gets = e;
      prepends = did.returns;
      reached = Reached-Wrote (path_bytes a n (others ++ spill)) g.out g.q did.wrote;
      at = At-move did.wrote.r g.at;
    }

abbrev pub ebgp_bytes : ℕ → Attribute → ℕ → Bytes → List Attribute → Bytes
ebgp_bytes b a n zs behind =
    (header 1 0x40 origin ++ (b ∷ []))
    ++ (prepended (length a.value) a.flags a.type_code n 42 zs
        ++ picked (next_hop ∷ community ∷ []) behind)

-- For a route whose attributes are a block of valid ones, in which `find` gives an ORIGIN whose value
-- begins with `b` and behind it an AS_PATH that is a sequence of fewer than 255 ASes, with four bytes of the
-- block behind it and room for what is written, `serialize_ebgp` returns the pointer behind it and changes no other byte. It has
-- written ORIGIN, an AS_PATH whose header has a length greater by four, whose count is greater by one and
-- whose first AS is 42, and then NEXT_HOP and COMMUNITY as they are found. Behind the 42 stand the ASes of
-- the route without its first one, and then the four bytes that follow the route's AS_PATH.
pub serialize_ebgp-prepended :
    (route : Route) (rest after_origin behind : List Attribute) (o a : Attribute) (b : ℕ)
    (bs : Bytes) (n : ℕ) (others spill : Bytes) (out : Bytes) (q : ℕ)
    → Carries route rest
    → find origin rest ≡ (some o, after_origin)
    → o.value ≡ b ∷ bs
    → find as_path after_origin ≡ (some a, behind)
    → Sequence a behind n others spill
    → q + length (ebgp_bytes b a n (others ++ spill) behind) ≤ length out
    → (out' : Bytes) × (serialize_ebgp route out q
        ≡ ok (out', q + length (ebgp_bytes b a n (others ++ spill) behind)))
      × Writes out q (ebgp_bytes b a n (others ++ spill) behind) out'
unfolding serialize_ebgp copies
serialize_ebgp-prepended route rest after_origin behind o a b bs n others spill out q c is_first
      starts is_next path room =
    let src = route.attributes in
    let limit = route.update_length in
    let types = next_hop ∷ community ∷ [] in
    let done : Writer → Result (Bytes × ℕ) = λ w. ok (w.out, w.q) in
    let xs = path_bytes a n (others ++ spill) in
    let ys = picked types behind in
    let l = length-append xs ys in
    let one =
      get-set src limit (start out q) rest after_origin o b bs (start-At route rest out q c)
        is_first starts (omega arith) in
    let two =
      get-prepend src limit one.after after_origin behind a n others spill one.at is_next path
        (omega (arith, one.reached.q, one.reached.writes.same_length)) in
    let (u, e, r) = copies-Reached src limit types done two.after behind two.at (
      omega (
        arith, one.reached.q, two.reached.q, one.reached.writes.same_length,
        two.reached.writes.same_length,
      )) in
    let tail =
      Writes-append {m' = two.after.out} one.after.q two.after.q xs ys two.reached.q
        two.reached.writes r.writes in
    let whole =
      Writes-append {m' = one.after.out} q one.after.q (header 1 0x40 origin ++ (b ∷ [])) (xs ++ ys)
        one.reached.q one.reached.writes tail in
    (
      u.out,
      rw (one.gets, one.sets, two.gets, two.prepends)
          (e ∙ ap (λ (p : ℕ). ok (u.out, p)) (omega (arith, one.reached.q, two.reached.q, r.q))),
      whole,
    )
