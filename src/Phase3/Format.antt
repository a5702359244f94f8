-- ===== src/Phase3/Format.antt =====
-- The form of an UPDATE in the output's buffer.
use fastparse.Prelude.{
  ℕ, ◌+◌, ◌/◌, ◌%◌, ◌≡◌, ◌≤◌, inl, refl, ap, ◌∙◌, Option, none, some, arith, List, [], ◌∷◌, ◌++◌,
  length, length-append, take,
}
use fastparse.Bytes.{Bytes}
use fastparse.Bytes.Regions.{Holds, Holds-append, Holds-Writes, take-Holds, Writes}
use fastparse.System.{PeerGroup}
use fastparse.Phase3.{write_message}

abbrev pub marker : Bytes
marker =
    0xff ∷ 0xff ∷ 0xff ∷ 0xff ∷ 0xff ∷ 0xff ∷ 0xff ∷ 0xff ∷ 0xff ∷ 0xff ∷ 0xff ∷ 0xff ∷ 0xff ∷ 0xff
    ∷ 0xff ∷ 0xff ∷ []

abbrev pub word : ℕ → Bytes
word n = (n / 256) ∷ (n % 256) ∷ []

-- An UPDATE: the marker, the length of the message, the type 2, no withdrawn routes, the length of the
-- attributes, these, and the prefixes.
unfoldable pub update_message : Bytes → Bytes → Bytes
update_message xs ys =
    marker
    ++ (word (23 + length xs + length ys) ++ ((2 ∷ 0 ∷ 0 ∷ []) ++ (word (length xs) ++ (xs ++ ys))))

-- A message for a group's file, if it has one.
abbrev pub deliver : Bytes → PeerGroup → PeerGroup
deliver msg g = record g {
  file = elim g.file [ none ↦ none | some msgs ↦ some (msgs ++ (msg ∷ [])) ];
}

pub write_message-deliver :
    (m : Bytes) (n : ℕ) (g : PeerGroup) → write_message m n g ≡ deliver (take n m) g
unfolding write_message
write_message-deliver m n g = with_file g.file
  where
    with_file :
        (file : Option (List Bytes))
        → write_message m n (record g { file = file })
          ≡ deliver (take n m) (record g { file = file })
    with_file none = refl
    with_file (some msgs) = refl

-- The head of a message up to the length of the withdrawn routes, but for the length of the message.
pub record Headed (m : Bytes) : Type 0 where
  pub marked : Holds m 0 marker
  pub kind : Holds m 18 (2 ∷ 0 ∷ 0 ∷ [])

pub Headed-Writes :
    {m m' : Bytes} (p : ℕ) (xs : Bytes) → 21 ≤ p → Writes m p xs m' → Headed m → Headed m'
Headed-Writes p xs far w h = record {
  marked = Holds-Writes p 0 xs marker w (inl (omega arith)) h.marked;
  kind = Holds-Writes p 18 xs (2 ∷ 0 ∷ 0 ∷ []) w (inl (omega arith)) h.kind;
}

pub whole :
    (m xs ys : Bytes)
    → Headed m
    → Holds m 16 (word (23 + length xs + length ys))
    → Holds m 21 (word (length xs))
    → Holds m 23 xs
    → Holds m (23 + length xs) ys
    → take (23 + length xs + length ys) m ≡ update_message xs ys
unfolding update_message
whole m xs ys h total size attributes prefixes =
    let n = length-append xs ys in
    let body = Holds-append m 23 (23 + length xs) xs ys refl attributes prefixes in
    let sized = Holds-append m 21 23 (word (length xs)) (xs ++ ys) refl size body in
    let typed =
      Holds-append m 18 21 (2 ∷ 0 ∷ 0 ∷ []) (word (length xs) ++ (xs ++ ys)) refl h.kind sized in
    let lengthy =
      Holds-append m 16 18 (word (23 + length xs + length ys))
        ((2 ∷ 0 ∷ 0 ∷ []) ++ (word (length xs) ++ (xs ++ ys))) refl total typed in
    let all : Holds m 0 (update_message xs ys) =
      Holds-append m 0 16 marker
        (word (23 + length xs + length ys)
          ++ ((2 ∷ 0 ∷ 0 ∷ []) ++ (word (length xs) ++ (xs ++ ys))))
        refl h.marked lengthy in
    let size_is : 23 + length xs + length ys ≡ length (update_message xs ys) = omega arith in
    ap (λ n. take n m) size_is ∙ take-Holds m (update_message xs ys) all
