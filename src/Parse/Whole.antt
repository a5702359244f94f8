-- ===== src/Parse/Whole.antt =====
-- The invariants along whole messages, and along a peer's part of the input.
use fastparse.Prelude.{
  ℕ, zero, suc, ◌+◌, ◌-◌, ◌%◌, ◌^◌, ◌≡◌, ◌≢◌, ◌≤◌, ◌<◌, refl, true, not, ◌&&◌, ◌==◌, if◌then◌else◌,
  leb, ltb, arith, Result, ok, assert, in_object, update, >>=-eq-ok, if-eq-ok, inl, inr,
}
use fastparse.Bytes.{Bytes, get8, getw16}
use fastparse.Route.{sizeof_route}
use fastparse.Attributes.{parse_attributes}
use fastparse.Alloc.{map_failed, alloc}
use fastparse.Alloc.Addresses.{alloc-IsLow}
use fastparse.System.{System}
use fastparse.Rib.{Peer}
use fastparse.Rib.Sound.{Sound, Sound-Apart, Apart-of}
use fastparse.Rib.Addresses.{memory, Named}
use fastparse.Parse.{
  Options, buffer_size, read_bytes, new_route, read_lengths, parse_update, parse_message,
  parse_messages, buf_parse_peer, is_marker, goes_on, announce_all, withdraw_all,
}
use fastparse.Parse.Loops.{pair-ok, triple-ok}
use fastparse.Parse.Addresses.{announce_all-NamedAt, withdraw_all-NamedAt}
use fastparse.Parse.Sound.{announce_all-Sound, withdraw_all-Sound}

-- The invariants, with `room` routes left before their number reaches ~0.
pub record Steady (base room : ℕ) (s : System) (peer : Peer) : Type 0 where
  pub sound : Sound s
  pub named : Named base s peer
  pub count : s.unique + room < map_failed

Steady-le :
    {base n k : ℕ} {s : System} {peer : Peer} → n ≤ k → Steady base k s peer → Steady base n s peer
Steady-le h c = record { sound = c.sound; named = c.named; count = omega (arith, c.count) }

-- A route's address, and the invariants.
abbrev Made : ℕ → ℕ → System → Peer → ℕ → Type 0
Made base room s peer p = (p ≢ map_failed) × Steady base room s peer

module _ {base : ℕ} where
  -- A route that is made: its address, and the invariants.
  new_route-Steady :
      {room : ℕ} {s s' : System} {peer peer' : Peer} (m : Bytes) (len at size p : ℕ)
      → Steady base (suc room) s peer
      → new_route s peer m len at size ≡ ok (s', peer', p)
      → Made base room s' peer' p
  unfolding new_route
  new_route-Steady {room} {s} {s'} {peer} {peer'} m len at size p c e =
      let ((q, mem), e₁, k₁) = >>=-eq-ok (alloc (memory s peer) (len + sizeof_route)) _ e in
      let (ne, low) = alloc-IsLow c.named.low q (len + sizeof_route) e₁ in
      let (u, e₂, k₂) =
        >>=-eq-ok (in_object (leb (size + sizeof_route) (buffer_size (len + sizeof_route)))) _ k₁ in
      let (block, e₃, k₃) = >>=-eq-ok (read_bytes size m at) _ k₂ in
      let (route, e₄, k₄) = >>=-eq-ok (parse_attributes m at size _) _ k₃ in
      triple-ok (Made base room) k₄ (
        ne,
        record {
          sound = Sound-Apart (Apart-of refl) c.sound;
          named = record {
            low = record {
              room = low.room;
              layout = low.layout;
              small_free = low.small_free;
              large_free = low.large_free;
              words = λ x. ground (arith, low.words x, c.count);
            };
            entries = c.named.entries;
          };
          count = omega (arith, c.count);
        },
      )

  announce_all-Steady :
      {room : ℕ} {s s' : System} {peer peer' : Peer} (fuel : ℕ) (m : Bytes) (p end route : ℕ)
      → route ≢ map_failed
      → Steady base room s peer
      → announce_all fuel true m s peer p end route ≡ ok (s', peer')
      → Steady base room s' peer'
  announce_all-Steady {room} {s} {s'} {peer} {peer'} fuel m p end route ne c e =
      let (named, same) =
        announce_all-NamedAt base s.unique true fuel m p end route ne (c.named, refl) e in
      record {
        sound = announce_all-Sound fuel m peer p end route s' peer' c.sound ne e;
        named = named;
        count = rw same c.count;
      }

  withdraw_all-Steady :
      {room : ℕ} {s s' : System} {peer peer' : Peer} (fuel : ℕ) (m : Bytes) (p end : ℕ)
      → Steady base room s peer
      → withdraw_all fuel true m s peer p end ≡ ok (s', peer')
      → Steady base room s' peer'
  withdraw_all-Steady {room} {s} {s'} {peer} {peer'} fuel m p end c e =
      let (named, same) = withdraw_all-NamedAt base s.unique true fuel m p end (c.named, refl) e in
      record {
        sound = withdraw_all-Sound fuel m peer p end s' peer' c.sound e;
        named = named;
        count = rw same c.count;
      }

  counted_message :
      {room n : ℕ} {s : System} {peer : Peer}
      → Steady base room s peer
      → Steady base room (record s { msg_count = n }) peer
  counted_message c = record {
    sound = Sound-Apart (Apart-of refl) c.sound;
    named = record { low = c.named.low; entries = c.named.entries };
    count = c.count;
  }

  parse_update-Steady :
      {room : ℕ} {s s' : System} {peer peer' : Peer} (m : Bytes) (p len : ℕ)
      → Steady base (suc room) s peer
      → parse_update true m s peer p len ≡ ok (s', peer')
      → Steady base room s' peer'
  unfolding parse_update
  parse_update-Steady {room} {s} {s'} {peer} {peer'} m p len c e =
      let s₁ = record s { msg_count = (s.msg_count + 1) % 2 ^ 64 } in
      let c₁ : Steady base (suc room) s₁ peer = counted_message c in
      let (l, e₁, k₁) = >>=-eq-ok (read_lengths m p len) _ e in
      elim (if-eq-ok ((0 == l.nlri) && (0 == l.withdrawn)) _ _ k₁) [
        | inl nothing ↦ pair-ok (Steady base room) nothing (Steady-le (omega arith) c)
        | inr some_prefixes ↦
            let filled = not (l.attributes == 0) && not (l.nlri == 0) in
            let new = new_route s₁ peer m len (p + 4 + l.withdrawn) l.attributes in
            let old : Result (System × Peer × ℕ) = ok (s₁, peer, 0) in
            let ((s₂, peer₂, route), e₂, k₂) =
              >>=-eq-ok (if filled then new else old) _ some_prefixes in
            let unchanged : Made base room s₁ peer 0 = (omega arith, Steady-le (omega arith) c₁) in
            let made : Made base room s₂ peer₂ route = elim (if-eq-ok filled new old e₂) [
              | inl fresh ↦ new_route-Steady m len (p + 4 + l.withdrawn) l.attributes route c₁ fresh
              | inr none ↦ triple-ok (Made base room) none unchanged
            ] in
            let ((s₃, peer₃), e₃, k₃) =
              >>=-eq-ok (announce_all l.nlri true m s₂ peer₂ _ _ route) _ k₂ in
            withdraw_all-Steady l.withdrawn m _ _
              (announce_all-Steady l.nlri m _ _ route made.0 made.1 e₃) k₃
      ]

  parse_message-Steady :
      {room : ℕ} {s s' : System} {peer peer' : Peer} (opts : Options) (m : Bytes)
      (ptr msg_count msg_length : ℕ)
      → Steady base (suc room) s peer
      → parse_message true opts m s peer ptr msg_count ≡ ok (s', peer', msg_length)
      → Steady base room s' peer'
  unfolding parse_message
  parse_message-Steady {room} {s} {s'} {peer} {peer'} opts m ptr msg_count msg_length c e =
      let (marked, e₁, k₁) = >>=-eq-ok (is_marker 16 m ptr) _ e in
      let (u, e₂, k₂) = >>=-eq-ok (assert marked) _ k₁ in
      let (len, e₃, k₃) = >>=-eq-ok (getw16 m (ptr + 16)) _ k₂ in
      let (kind, e₄, k₄) = >>=-eq-ok (get8 m (ptr + 18)) _ k₃ in
      let (v, e₅, k₅) = >>=-eq-ok (assert (2 == kind)) _ k₄ in
      let parsed = ltb 23 len && leb opts.spare msg_count in
      let new = parse_update true m s peer (ptr + 19) (len - 19) in
      let old : Result (System × Peer) = ok (s, peer) in
      let ((s₂, peer₂), e₆, k₆) = >>=-eq-ok (if parsed then new else old) _ k₅ in
      let done : Steady base room s₂ peer₂ = elim (if-eq-ok parsed new old e₆) [
        | inl update ↦ parse_update-Steady m (ptr + 19) (len - 19) c update
        | inr passed ↦ pair-ok (Steady base room) passed (Steady-le (omega arith) c)
      ] in
      triple-ok (λ t q n. Steady base room t q) k₆ done

  -- As many messages as the fuel allows.
  parse_messages-Steady :
      (fuel : ℕ) {room : ℕ} {s s' : System} {peer peer' : Peer} (opts : Options) (m : Bytes)
      (ptr limit msg_count n : ℕ)
      → Steady base (fuel + room) s peer
      → parse_messages fuel true opts m s peer ptr limit msg_count ≡ ok (s', peer', n)
      → Steady base room s' peer'
  unfolding parse_messages
  parse_messages-Steady zero opts m ptr limit msg_count n c e = cc
  parse_messages-Steady (suc fuel) {room} {s} {s'} {peer} opts m ptr limit msg_count n c e =
      elim (if-eq-ok (goes_on opts ptr limit msg_count) _ _ e) [
        | inl more ↦
            let ((s₂, peer₂, len), e₁, k₁) =
              >>=-eq-ok (parse_message true opts m s peer ptr msg_count) _ more in
            let c₁ : Steady base (fuel + room) s₂ peer₂ =
              parse_message-Steady opts m ptr msg_count len (Steady-le (omega arith) c) e₁ in
            parse_messages-Steady fuel opts m (ptr + len) limit ((msg_count + 1) % 2 ^ 32) n c₁ k₁
        | inr done ↦ triple-ok (λ t q k. Steady base room t q) done (Steady-le (omega arith) c)
      ]

  pub buf_parse_peer-Steady :
      (fuel : ℕ) {room : ℕ} {s s' : System} {peer peer' : Peer} (opts : Options) (m : Bytes) (n : ℕ)
      → Steady base (fuel + room) s peer
      → buf_parse_peer fuel true opts m s peer ≡ ok (s', peer', n)
      → Steady base room s' peer'
  unfolding buf_parse_peer
  buf_parse_peer-Steady fuel {room} {s} {s'} {peer} opts m n c e =
      parse_messages-Steady fuel opts m peer.base ((peer.base + peer.length) % 2 ^ 64) 0 n c e
