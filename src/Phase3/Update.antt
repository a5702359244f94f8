-- ===== src/Phase3/Update.antt =====
-- The UPDATE messages that the output writes.
use fastparse.Prelude.{
  ℕ, ◌+◌, ◌-◌, ◌%◌, ◌^◌, ◌≡◌, ◌≢◌, ◌≤◌, ◌<◌, inl, inr, refl, ap, subst, sym, ◌∙◌, Bool, true, false,
  ltb, not, ◌&&◌, ◌==◌, if◌then◌else◌, arith, ok, List, [], ◌∷◌, map, length, All,
}
use fastparse.Bytes.{Bytes}
use fastparse.Bytes.Regions.{Holds, Holds-Writes, putw16-Writes, put8-Writes}
use fastparse.Bigtable.{Bigtable, big}
use fastparse.Route.{Route}
use fastparse.System.{System, PeerGroup}
use fastparse.Serialize.{Serializer}
use fastparse.Serialize.Law.{Serializes}
use fastparse.Phase3.{write_message, Sent, send_group, send_groups, send_update, send_block}
use fastparse.Phase3.Wire.{Entry, IsEntry, wires, build_all-Writes}
use fastparse.Phase3.Format.{
  marker, word, update_message, deliver, write_message-deliver, Headed, Headed-Writes, whole,
}

-- The buffer between two messages, or between the messages of two groups.
record Delivered (m : Bytes) (g : PeerGroup) (msg : Bytes) (sent : Sent) : Type 0 where
  group : sent.group ≡ deliver msg g
  headed : Headed sent.buffer
  same_length : length sent.buffer ≡ length m

-- The attributes of this group, and that its message fits.
pub record Fits (route : Route) (es : List Entry) (written : Serializer → Bytes) (size : ℕ)
    (g : PeerGroup) : Type 0 where
  pub serializes : Serializes g.serialize route (written g.serialize)
  pub room : 23 + length (written g.serialize) + length (wires es) ≤ size

module _ (t : Bigtable) (route : Route) (es : List Entry) (small : t.index ≤ big)
    (entries : All (IsEntry t) es) where
  send_group-Delivered :
      (m : Bytes) (over : Bool) (g : PeerGroup) (written : Serializer → Bytes)
      → Fits route es written (length m) g
      → length m < 2 ^ 16
      → Headed m
      → (sent : Sent) × (send_group t route (map (λ x. x.ref) es) m over g ≡ ok sent)
        × Delivered m g (update_message (written g.serialize) (wires es)) sent
  unfolding send_group
  send_group-Delivered m over g written f fits h =
      let xs = written g.serialize in
      let ys = wires es in
      let n = 23 + length xs + length ys in
      let room = f.room in
      let (m₁, e₁, w₁) = f.serializes.law m 23 (omega arith) in
      let (m₂, e₂, w₂) =
        putw16-Writes m₁ 21 (length xs) (omega (arith, w₁.same_length)) (omega arith) in
      let (m₃, e₃, w₃) =
        build_all-Writes t m₂ (23 + length xs) es small entries
          (omega (arith, w₁.same_length, w₂.same_length)) in
      let (m₄, e₄, w₄) =
        putw16-Writes m₃ 16 n (omega (arith, w₁.same_length, w₂.same_length, w₃.same_length))
          (omega arith) in
      let size : (23 + length xs - 23) % 2 ^ 16 ≡ length xs = omega arith in
      let total : n % 2 ^ 16 ≡ n = omega arith in
      let h₃ : Headed m₃ = Headed-Writes (23 + length xs) ys (omega arith) w₃ (
        Headed-Writes 21 (word (length xs)) (omega arith) w₂
          (Headed-Writes 23 xs (omega arith) w₁ h)) in
      let h₄ : Headed m₄ = record {
        marked = Holds-Writes 16 0 (word n) marker w₄ (inl (omega arith)) h₃.marked;
        kind = Holds-Writes 16 18 (word n) (2 ∷ 0 ∷ 0 ∷ []) w₄ (inr (omega arith)) h₃.kind;
      } in
      let lengths : Holds m₃ 21 (word (length xs)) =
        Holds-Writes (23 + length xs) 21 ys (word (length xs)) w₃ (inl (omega arith)) w₂.written in
      let attributes : Holds m₃ 23 xs =
        Holds-Writes (23 + length xs) 23 ys xs w₃ (inl (omega arith))
          (Holds-Writes 21 23 (word (length xs)) xs w₂ (inr (omega arith)) w₁.written) in
      let all =
        whole m₄ xs ys h₄ w₄.written
          (Holds-Writes 16 21 (word n) (word (length xs)) w₄ (inr (omega arith)) lengths)
          (Holds-Writes 16 23 (word n) xs w₄ (inr (omega arith)) attributes)
          (Holds-Writes 16 (23 + length xs) (word n) ys w₄ (inr (omega arith)) w₃.written) in
      (
        record {
          buffer = m₄;
          group = write_message m₄ n g;
          over_length = if ltb 4096 n && not over then true else over;
        },
        rw (e₁, size, e₂, e₃, total, e₄) refl,
        record {
          group = write_message-deliver m₄ n g ∙ ap (λ msg. deliver msg g) all;
          headed = h₄;
          same_length = w₄.same_length ∙ w₃.same_length ∙ w₂.same_length ∙ w₁.same_length;
        },
      )

  abbrev delivered : (Serializer → Bytes) → PeerGroup → PeerGroup
  delivered written g = deliver (update_message (written g.serialize) (wires es)) g

  send_groups-delivered :
      (gs : List PeerGroup) (m : Bytes) (over : Bool) (written : Serializer → Bytes)
      → All (Fits route es written (length m)) gs
      → length m < 2 ^ 16
      → Headed m
      → (m' : Bytes) × (over' : Bool) × (send_groups t route (map (λ x. x.ref) es) m over gs
          ≡ ok (m', over', map (delivered written) gs))
        × Headed m'
        × (length m' ≡ length m)
  unfolding send_groups
  send_groups-delivered [] m over written f fits h = (m, over, refl, h, refl)
  send_groups-delivered (g ∷ gs) m over written f fits h =
      let (sent, e, d) = send_group-Delivered m over g written f.0 fits h in
      let f' : All (Fits route es written (length sent.buffer)) gs =
        subst (λ n. All (Fits route es written n) gs) (sym d.same_length) f.1 in
      let (m', over', e', h', l) =
        send_groups-delivered gs sent.buffer sent.over_length written f'
          (omega (arith, d.same_length)) d.headed in
      (m', over', rw (e, e', d.group) refl, h', l ∙ d.same_length)

-- A run of references that stand for prefixes of 1 to 24 bits, with a route other than NULL, where the
-- serialiser of each group writes the bytes `written` for the route, the message of each group fits into
-- the buffer, and the buffer has fewer than 65,536 bytes and begins with the marker: `send_block` returns,
-- and to the file of each group that has one it has written one message, which is the marker, the length of
-- the message, the type UPDATE, no withdrawn routes, the length of the attributes, the bytes `written` and
-- the prefixes. The buffer still begins with the marker and has its length.
pub send_block-update :
    (s : System) (route1 : ℕ) (es : List Entry) (small : s.bigtable.index ≤ big)
    (entries : All (IsEntry s.bigtable) es) (written : Serializer → Bytes)
    → route1 ≢ 0
    → Holds s.tx_buffer 0 marker
    → 23 ≤ length s.tx_buffer
    → length s.tx_buffer < 2 ^ 16
    → All (Fits (s.routes route1) es written (length s.tx_buffer)) s.peergroups
    → (m : Bytes) × (over : Bool) × (send_block s route1 (map (λ x. x.ref) es)
        ≡ ok (record s {
          propagated_prefixes =
              (s.propagated_prefixes + length (map (λ (x : Entry). x.ref) es)) % 2 ^ 64;
          tx_buffer = m;
          over_length_detected = over;
          peergroups =
              map (λ g. deliver (update_message (written g.serialize) (wires es)) g) s.peergroups;
        }))
      × Holds m 0 marker
      × (length m ≡ length s.tx_buffer)
unfolding send_block send_update
send_block-update s route1 es small entries written some_route marked long fits f =
    let (m₁, e₁, w₁) = put8-Writes s.tx_buffer 18 2 2 refl (omega arith) in
    let (m₂, e₂, w₂) = putw16-Writes m₁ 19 0 (omega (arith, w₁.same_length)) (omega arith) in
    let l : length m₂ ≡ length s.tx_buffer = w₂.same_length ∙ w₁.same_length in
    let h : Headed m₂ = record {
      marked =
          Holds-Writes 19 0 (word 0) marker w₂ (inl (omega arith))
            (Holds-Writes 18 0 (2 ∷ []) marker w₁ (inl (omega arith)) marked);
      kind =
          ((Holds-Writes 19 18 (word 0) (2 ∷ []) w₂ (inl (omega arith)) w₁.written).0, w₂.written);
    } in
    let (m₃, over, e₃, h₃, l₃) =
      send_groups-delivered s.bigtable (s.routes route1) es small entries s.peergroups m₂
        s.over_length_detected written
        (subst (λ n. All (Fits (s.routes route1) es written n) s.peergroups) (sym l) f)
        (omega (arith, l)) h in
    let not_null : (route1 == 0) ≡ false = ground (arith) in
    (m₃, over, rw (e₁, not_null, e₂, e₃) refl, h₃.marked, l₃ ∙ l)
