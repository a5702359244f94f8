-- ===== src/Serialize/Ibgp.antt =====
-- `serialize_ibgp` as a whole.
use fastparse.Prelude.{
  ℕ, ◌+◌, ◌≡◌, ◌≤◌, ap, subst, ◌∙◌, some, List, [], ◌∷◌, ◌++◌, arith, Result, ok, ◌>>=◌, length,
  length-append,
}
use fastparse.Bytes.{Bytes}
use fastparse.Bytes.Regions.{Writes, Writes-append}
use fastparse.Route.{Route}
use fastparse.Attributes.{origin, as_path, next_hop, local_pref}
use fastparse.Serialize.{Writer, set, set4, get, start, serialize_ibgp}
use fastparse.Serialize.Block.{Attribute}
use fastparse.Serialize.Find.{find, At, Got, get-find}
use fastparse.Serialize.Picked.{header, picked}
use fastparse.Serialize.Steps.{set-Did, set4-Did, set4_bytes}
use fastparse.Serialize.Whole.{
  copies, Reached, At-move, copies-Reached, Reached-Wrote, Carries, start-At,
}

-- The attribute with which every output begins.
pub record Opened (src : Bytes) (limit b : ℕ) (w : Writer) (behind : List Attribute) : Type 0 where
  pub found : Writer
  pub after : Writer
  pub gets : get src limit w origin ≡ ok found
  pub sets : set src found 1 0x40 origin found.attr_ptr ≡ ok after
  pub reached : Reached src limit w (header 1 0x40 origin ++ (b ∷ [])) after
  pub at : At src limit after behind

pub get-set :
    (src : Bytes) (limit : ℕ) (w : Writer) (rest behind : List Attribute) (a : Attribute) (b : ℕ)
    (bs : Bytes)
    → At src limit w rest
    → find origin rest ≡ (some a, behind)
    → a.value ≡ b ∷ bs
    → w.q + 4 ≤ length w.out
    → Opened src limit b w behind
get-set src limit w rest behind a b bs here is_first starts room =
    let (v, e, any) = get-find src limit w origin rest here in
    let g : Got src limit origin w (some a, behind) v =
      subst (λ found. Got src limit origin w found v) is_first any in
    let did =
      set-Did src v a b bs 0x40 origin starts g.current (omega (arith, g.q, ap length g.out)) in
    record {
      found = v;
      after = did.after;
      gets = e;
      sets = did.returns;
      reached = Reached-Wrote (header 1 0x40 origin ++ (b ∷ [])) g.out g.q did.wrote;
      at = At-move did.wrote.r g.at;
    }

abbrev pub ibgp_bytes : ℕ → ℕ → List Attribute → Bytes
ibgp_bytes b preference behind =
    (header 1 0x40 origin ++ (b ∷ []))
    ++ (picked (as_path ∷ next_hop ∷ []) behind ++ set4_bytes 0x40 local_pref preference)

-- For a route whose attributes are a block of valid ones, in which `find` gives an ORIGIN whose value
-- begins with `b`, and with room for what is written, `serialize_ibgp` returns the pointer behind it, and
-- it has written an ORIGIN with the value `b`, the AS_PATH and NEXT_HOP that `find` gives behind the
-- ORIGIN, and a LOCAL_PREF with the four bytes of the route's preference, the highest first, and no other
-- byte.
pub serialize_ibgp-picked :
    (route : Route) (rest behind : List Attribute) (a : Attribute) (b : ℕ) (bs : Bytes)
    (out : Bytes) (q : ℕ)
    → Carries route rest
    → find origin rest ≡ (some a, behind)
    → a.value ≡ b ∷ bs
    → q + length (ibgp_bytes b route.tiebreak.local_pref behind) ≤ length out
    → (out' : Bytes) × (serialize_ibgp route out q
        ≡ ok (out', q + length (ibgp_bytes b route.tiebreak.local_pref behind)))
      × Writes out q (ibgp_bytes b route.tiebreak.local_pref behind) out'
unfolding serialize_ibgp copies
serialize_ibgp-picked route rest behind a b bs out q c is_first starts room =
    let types = as_path ∷ next_hop ∷ [] in
    let preference = route.tiebreak.local_pref in
    let xs = picked types behind in
    let ys = set4_bytes 0x40 local_pref preference in
    let n = length-append xs ys in
    let next : Writer → Result (Bytes × ℕ) =
      λ w. set4 w 0x40 local_pref preference >>= λ w. ok (w.out, w.q) in
    let one =
      get-set route.attributes route.update_length (start out q) rest behind a b bs
        (start-At route rest out q c) is_first starts (omega arith) in
    let (u, e, r) =
      copies-Reached route.attributes route.update_length types next one.after behind one.at
        (omega (arith, one.reached.q, one.reached.writes.same_length)) in
    let did =
      set4-Did u 0x40 local_pref preference
        (omega (arith, one.reached.q, one.reached.writes.same_length, r.q, r.writes.same_length)) in
    let tail = Writes-append {m' = u.out} one.after.q u.q xs ys r.q r.writes did.wrote.writes in
    let whole =
      Writes-append {m' = one.after.out} q one.after.q (header 1 0x40 origin ++ (b ∷ [])) (xs ++ ys)
        one.reached.q one.reached.writes tail in
    (
      did.after.out,
      rw (one.gets, one.sets)
          (e
            ∙ rw did.returns (
                ap (λ (p : ℕ). ok (did.after.out, p))
                  (omega (arith, one.reached.q, r.q, did.wrote.q)))),
      whole,
    )
