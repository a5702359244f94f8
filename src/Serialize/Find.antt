-- ===== src/Serialize/Find.antt =====
-- What `get` finds in a block of path attributes.
use fastparse.Prelude.{
  ℕ, zero, suc, ◌+◌, ◌≡◌, ◌≤◌, ◌<◌, refl, true, false, Option, none, some, List, [], ◌∷◌, ◌++◌,
  ◌==◌, if◌then◌else◌, ltb, lt→ltb, not_lt→ltb, arith, ok, length, length-append, All, Bool-cases,
  inl, inr,
}
use fastparse.Bytes.{Bytes}
use fastparse.Bytes.Regions.{Holds, Holds-split}
use fastparse.Serialize.{Writer, get_from, get}
use fastparse.Serialize.Block.{Attribute, IsAttribute, head, block, read_header-head}

-- What `get` does on the list: the attributes of lower types are passed over, and so is the first one of
-- the wanted type or of a higher one; it is found if it is of the wanted type.
unfoldable pub find : ℕ → List Attribute → Option Attribute × List Attribute
find wanted [] = (none, [])
find wanted (a ∷ rest) =
    let later = find wanted rest in
    if ltb a.type_code wanted
    then later
    else if a.type_code == wanted
    then (some a, rest)
    else (none, rest)

-- The pointer into the block stands in front of the attributes `rest`.
pub record At (src : Bytes) (limit : ℕ) (w : Writer) (rest : List Attribute) : Type 0 where
  pub held : Holds src w.r (block rest)
  pub ends : w.r + length (block rest) ≡ limit
  pub valid : All IsAttribute rest

-- The variables hold the attribute that was found, if one was.
abbrev pub Current : Bytes → Writer → Option Attribute → Type 0
Current src w none = w.attr_ptr ≡ none
Current src w (some a) =
    (p : ℕ) × (w.attr_ptr ≡ some p)
    × Holds src p a.value
    × (w.flags ≡ a.flags)
    × (w.type_code ≡ a.type_code)
    × (w.attr_length ≡ length a.value)
    × (w.r ≡ p + length a.value)
    × IsAttribute a

-- What a call of `get` leaves.
pub record Got (src : Bytes) (limit wanted : ℕ) (w : Writer)
    (as_found : Option Attribute × List Attribute) (w' : Writer) : Type 0 where
  pub out : w'.out ≡ w.out
  pub q : w'.q ≡ w.q
  pub at : At src limit w' as_found.1
  pub current : Current src w' as_found.0

head-length : (a : Attribute) → 3 ≤ length (head a)
head-length a = ground arith

get_from-find :
    (fuel : ℕ) (src : Bytes) (limit : ℕ) (w : Writer) (wanted : ℕ) (rest : List Attribute)
    → length (block rest) < fuel
    → w.attr_ptr ≡ none
    → At src limit w rest
    → (w' : Writer) × (get_from fuel src limit w wanted ≡ ok w')
      × Got src limit wanted w (find wanted rest) w'
unfolding get_from find
get_from-find zero src limit w wanted rest enough fresh here = absurd (omega arith)
get_from-find (suc fuel) src limit w wanted [] enough fresh here =
    let stops : ltb (w.r + 2) limit ≡ false =
      not_lt→ltb (w.r + 2) limit (omega (arith, here.ends)) in
    (w, rw stops refl, record { out = refl; q = refl; at = here; current = fresh })
get_from-find (suc fuel) src limit w wanted (a ∷ rest) enough fresh here =
    let h = length-append (head a) (a.value ++ block rest) in
    let v = length-append a.value (block rest) in
    let three = head-length a in
    let goes : ltb (w.r + 2) limit ≡ true = lt→ltb (w.r + 2) limit (omega (arith, here.ends)) in
    let (front, behind) =
      Holds-split src w.r (w.r + length (head a)) (head a) (a.value ++ block rest) refl here.held in
    let (value_at, rest_at) =
      Holds-split src (w.r + length (head a)) (w.r + length (head a) + length a.value) a.value
        (block rest) refl behind in
    let header = read_header-head src w.r a here.valid.0 front in
    let w₁ = record w {
      r = w.r + length (head a) + length a.value;
      flags = a.flags;
      type_code = a.type_code;
      attr_length = length a.value;
    } in
    let at₁ : At src limit w₁ rest = record {
      held = rest_at;
      ends = omega (arith, here.ends);
      valid = here.valid.1;
    } in
    elim (Bool-cases (ltb a.type_code wanted)) [
      | inl lower ↦
          let (w', e, g) = get_from-find fuel src limit w₁ wanted rest (omega arith) fresh at₁ in
          (
            w',
            rw (goes, header, lower) e,
            rw lower (record { out = g.out; q = g.q; at = g.at; current = g.current }),
          )
      | inr not_lower ↦ elim (Bool-cases (a.type_code == wanted)) [
        | inl same ↦ (
          record w₁ { attr_ptr = some (w.r + length (head a)) },
          rw (goes, header, not_lower, same) refl,
          rw (not_lower, same)
              (record {
                out = refl;
                q = refl;
                at = record { held = at₁.held; ends = at₁.ends; valid = at₁.valid };
                current =
                    (w.r + length (head a), refl, value_at, refl, refl, refl, refl, here.valid.0);
              }),
        )
        | inr higher ↦ (
          w₁,
          rw (goes, header, not_lower, higher) refl,
          rw (not_lower, higher) (record { out = refl; q = refl; at = at₁; current = fresh }),
        )
      ]
    ]

-- On a block of valid attributes, with the pointer in front of some of them, `get` returns, and does what
-- `find` does on the list.
pub get-find :
    (src : Bytes) (limit : ℕ) (w : Writer) (wanted : ℕ) (rest : List Attribute)
    → At src limit w rest
    → (w' : Writer) × (get src limit w wanted ≡ ok w')
      × Got src limit wanted w (find wanted rest) w'
unfolding get
get-find src limit w wanted rest here =
    let w₀ = record w { attr_ptr = none } in
    let at₀ : At src limit w₀ rest = record {
      held = here.held;
      ends = here.ends;
      valid = here.valid;
    } in
    let (w', e, g) =
      get_from-find (limit + 1) src limit w₀ wanted rest (omega (arith, here.ends)) refl at₀ in
    (w', e, record { out = g.out; q = g.q; at = g.at; current = g.current })
