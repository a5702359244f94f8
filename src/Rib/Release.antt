-- ===== src/Rib/Release.antt =====
-- A prefix that one UPDATE names twice.
use fastparse.Prelude.{ℕ, ◌≡◌, if◌then◌else◌, arith}
use fastparse.Alloc.{dalloc, dalloc_small, dalloc_large, dalloc_cache_line, is_large}
use fastparse.System.{System}
use fastparse.Rib.{Peer, release}

-- The first buffer of the cache's list that `dalloc` puts a buffer on.
abbrev pub first_free : System → Peer → ℕ → ℕ
first_free s peer p = if is_large s.pools p then peer.cache.large.free else peer.cache.small.free

-- A route with one use is given back by `release`: it is then the first buffer that the peer's next
-- allocation of its size takes.
pub release-last :
    (s : System) (peer : Peer) (p : ℕ)
    → (s.routes p).use_count ≡ 1
    → first_free (release s peer p).0 (release s peer p).1 p ≡ p
unfolding release dalloc dalloc_small dalloc_large dalloc_cache_line
release-last s peer p one = ground arith
