-- ===== src/Nlri/RoundTrip.antt =====
-- A prefix that `build_nlri` writes is the prefix that `nlri_iter` reads.
use fastparse.Prelude.{ℕ, ◌+◌, ◌*◌, ◌^◌, ◌≡◌, ◌≤◌, ◌<◌, ◌⊎◌, length, arith, ok}
use fastparse.Bytes.{Bytes, get8}
use fastparse.Nlri.{chunksize, nlri_iter, build_nlri}
use fastparse.Nlri.Decode.{Fits, length-address_bytes, nlri_iter-wire, build_nlri-Writes}

-- For a prefix of 1 to 32 bits whose address has no bits behind the bytes that its length needs,
-- and with room for it in the buffer, `build_nlri` returns, `nlri_iter` at the same place returns
-- the prefix and the pointer that `build_nlri` returned, and no byte outside the written ones changed.
pub nlri_iter-build_nlri :
    (m : Bytes) (p len a : ℕ)
    → 0 < len
    → len ≤ 32
    → Fits (chunksize len) a
    → p + 1 + chunksize len ≤ length m
    → (m' : Bytes) × (build_nlri m p (a + len * 2 ^ 32) ≡ ok (m', p + 1 + chunksize len))
      × (nlri_iter m' p ≡ ok (a + len * 2 ^ 32, p + 1 + chunksize len))
      × ((i : ℕ) → (i < p) ⊎ (p + 1 + chunksize len ≤ i) → get8 m' i ≡ get8 m i)
nlri_iter-build_nlri m p len a lo hi f h =
    let (m', e, w) = build_nlri-Writes m p len a (omega arith) f.0 h in
    (
      m',
      e,
      nlri_iter-wire m' p len a lo hi f w.written,
      λ i o. w.same i (omega (arith, length-address_bytes (chunksize len) a)),
    )
