-- ===== src/Program/Whole.antt =====
-- The invariants along a pass over the whole input.
use fastparse.Prelude.{
  ℕ, ◌+◌, ◌*◌, ◌^◌, ◌≡◌, ◌≢◌, ◌≤◌, ◌<◌, refl, true, false, not, map, List, [], ◌∷◌, All, arith,
  Result, ok, assert, length, length-map, >>=-eq-ok,
}
use fastparse.Bytes.{Bytes}
use fastparse.Bigtable.Inv.{IsValid, init-IsValid}
use fastparse.Journal.Refine.{Contents, init-Contents}
use fastparse.Alloc.{map_failed}
use fastparse.Alloc.Layout.{Carved}
use fastparse.System.{System}
use fastparse.Phase3.{schedule_phase3}
use fastparse.Phase3.Frame.{schedule_phase3-Keeps}
use fastparse.Rib.{Peer}
use fastparse.Rib.Pending.{Pending, schedule_phase3-Pending}
use fastparse.Rib.Sound.{Sound}
use fastparse.Split.{Buf, split_buf}
use fastparse.Parse.{Options, buf_parse_peer}
use fastparse.Parse.Whole.{Steady, buf_parse_peer-Steady}
use fastparse.Program.{Program, reinit, reinit_peer, parse_peers, buf_parse}
use fastparse.Program.Passes.{reinit-Carved}

-- What the peers share.
record Shared (base room : ℕ) (s : System) : Type 0 where
  sound : Sound s
  low : base < 2 ^ 63
  layout : Carved base s.pools
  words : (x : ℕ) → s.words x ≢ map_failed
  count : s.unique + room < map_failed

-- What a peer has of its own.
record Own (peer : Peer) : Type 0 where
  small_free : peer.cache.small.free ≢ map_failed
  large_free : peer.cache.large.free ≢ map_failed
  entries : (x : ℕ) → peer.adj_rib_in x ≢ map_failed

Shared-Steady :
    {base room : ℕ} {s : System} {peer : Peer}
    → Shared base room s
    → Own peer
    → Steady base room s peer
Shared-Steady c o = record {
  sound = c.sound;
  named = record {
    low = record {
      room = c.low;
      layout = c.layout;
      small_free = o.small_free;
      large_free = o.large_free;
      words = c.words;
    };
    entries = o.entries;
  };
  count = c.count;
}

Steady-Shared :
    {base room : ℕ} {s : System} {peer : Peer} → Steady base room s peer → Shared base room s
Steady-Shared c = record {
  sound = c.sound;
  low = c.named.low.room;
  layout = c.named.low.layout;
  words = c.named.low.words;
  count = c.count;
}

Shared-le : {base n k : ℕ} {s : System} → n ≤ k → Shared base k s → Shared base n s
Shared-le h c = record {
  sound = c.sound;
  low = c.low;
  layout = c.layout;
  words = c.words;
  count = omega (arith, c.count);
}

Sound-ok :
    {s s' : System} {peers peers' : List Peer} {n n' : ℕ}
    → ◌≡◌ {A = Result (System × List Peer × ℕ)} (ok (s, peers, n)) (ok (s', peers', n'))
    → Sound s
    → Sound s'
Sound-ok {s} {s'} e c = let same : s ≡ s' = cc in rw (← same) c

parse_peers-Sound :
    (fuel : ℕ) {base : ℕ} (opts : Options) (m : Bytes) (peers : List Peer) {s s' : System}
    {peers' : List Peer} (bufs : List Buf) (n n' : ℕ)
    → Shared base (fuel * length peers) s
    → All Own peers
    → parse_peers fuel true opts m s peers bufs n ≡ ok (s', peers', n')
    → Sound s'
unfolding parse_peers
parse_peers-Sound fuel opts m [] bufs n n' c o e = Sound-ok e c.sound
parse_peers-Sound fuel opts m (peer ∷ peers) [] n n' c o e = Sound-ok e c.sound
parse_peers-Sound fuel {base} opts m (peer ∷ peers) {s} {s'} {peers'} (buf ∷ bufs) n n' c o e =
    let peer₁ = record peer { base = buf.base; length = buf.length } in
    let ((s₂, peer₂, n₂), e₁, k₁) = >>=-eq-ok (buf_parse_peer fuel true opts m s peer₁) _ e in
    let ((s₃, peers₃, n₃), e₂, k₂) =
      >>=-eq-ok (parse_peers fuel true opts m s₂ peers bufs n₂) _ k₁ in
    let own : Own peer₁ = record {
      small_free = o.0.small_free;
      large_free = o.0.large_free;
      entries = o.0.entries;
    } in
    let enough : fuel + fuel * length peers ≤ fuel * length (peer ∷ peers) = omega arith in
    let c₂ : Steady base (fuel * length peers) s₂ peer₂ =
      buf_parse_peer-Steady fuel opts m n₂ (Shared-Steady (Shared-le enough c) own) e₁ in
    Sound-ok k₂ (parse_peers-Sound fuel opts m peers bufs n₂ n₃ (Steady-Shared c₂) o.1 e₂)

reinit_peer-Own : (peers : List Peer) → All Own (map reinit_peer peers)
unfolding reinit_peer
reinit_peer-Own [] = tt
reinit_peer-Own (peer ∷ peers) = (
  record { small_free = omega arith; large_free = omega arith; entries = λ x. omega arith },
  reinit_peer-Own peers,
)

-- What a pass starts from.
record Ready (base room : ℕ) (p : Program) : Type 0 where
  shared : Shared base (room * length p.peers) p.system
  own : All Own p.peers

-- What the program has before a pass.
pub record Awaits (base room : ℕ) (p : Program) : Type 0 where
  pub low : base < 2 ^ 63
  pub layout : Carved base p.system.pools
  pub words : (x : ℕ) → p.system.words x ≢ map_failed
  pub count : p.system.unique + room * length p.peers < map_failed
  pub unlocked : p.system.phase3_locked ≡ false
  pub idle : p.system.phase3_debug ≡ 0

reinit-Ready :
    {base room : ℕ} (entries : ℕ → ℕ) (p p' : Program)
    → Awaits base room p
    → reinit entries p ≡ ok p'
    → Ready base room p'
unfolding reinit
reinit-Ready {base} {room} entries p p' w e =
    let (u, e₁, k₁) = >>=-eq-ok (assert (not p.allocated)) _ e in
    moved _ p' k₁ (record {
      shared = record {
        sound = record {
          table = init-IsValid;
          queue = [];
          pending = record {
            contents = init-Contents entries;
            flagged = λ x. refl;
            distinct = tt;
            given = tt;
            small = omega arith;
            routes = λ x. omega arith;
            unlocked = w.unlocked;
            idle = w.idle;
          };
        };
        low = w.low;
        layout = reinit-Carved base p.system.pools w.layout;
        words = w.words;
        count = rw (length-map reinit_peer p.peers) w.count;
      };
      own = reinit_peer-Own p.peers;
    })
  where
    moved : (q r : Program) → ok q ≡ ok r → Ready base room q → Ready base room r
    moved q r e h = let same : q ≡ r = cc in rw (← same) h

-- The table of prefixes is valid, the journal is empty, and no flag is set.
pub record Settled (s : System) : Type 0 where
  pub table : IsValid s.bigtable
  pub empty : Contents s.journal []
  pub flags : (x : ℕ) → s.locrib.push_flag x ≡ false

schedule_phase3-Settled : {s s' : System} → Sound s → schedule_phase3 s ≡ ok s' → Settled s'
schedule_phase3-Settled {s} {s'} c e =
    let p : Pending s' [] = schedule_phase3-Pending s' c.pending e in
    let k = schedule_phase3-Keeps s s' e in
    record { table = rw k.bigtable c.table; empty = p.contents; flags = p.flagged }

-- A pass over the whole input, from pools carved from a slab in the lower half of the addresses, with no
-- output under way, with room for the numbers of the routes, and with the flag that `locrib` may read
-- unset taken to be true: if it returns, the table of prefixes is valid, and no change waits for the
-- output any more: the journal is empty and no flag is set.
pub buf_parse-Settled :
    (fuel base : ℕ) (entries : ℕ → ℕ) (opts : Options) (m : Bytes) (p p' : Program) (at len n : ℕ)
    → Awaits base fuel p
    → buf_parse fuel true entries opts m p at len ≡ ok (p', n)
    → Settled p'.system
unfolding buf_parse
buf_parse-Settled fuel base entries opts m p p' at len n w e =
    let (q, e₁, k₁) = >>=-eq-ok (reinit entries p) _ e in
    let (bufs, e₂, k₂) = >>=-eq-ok (split_buf (length q.peers) m at len) _ k₁ in
    let ((s, peers, c), e₃, k₃) =
      >>=-eq-ok (parse_peers fuel true opts m q.system q.peers bufs 0) _ k₂ in
    let (s', e₄, k₄) = >>=-eq-ok (schedule_phase3 s) _ k₃ in
    let ready : Ready base fuel q = reinit-Ready entries p q w e₁ in
    let sound = parse_peers-Sound fuel opts m q.peers bufs 0 c ready.shared ready.own e₃ in
    let settled : Settled s' = schedule_phase3-Settled sound e₄ in
    let same : p'.system ≡ s' = ground arith in rw same settled
