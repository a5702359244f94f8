-- ===== src/Alloc/Free.antt =====
-- `dalloc` of a held buffer.
use fastparse.Prelude.{
  ℕ, ◌+◌, ◌^◌, ◌≡◌, ◌≢◌, ◌<◌, ◌⊎◌, inl, inr, List, ◌∷◌, arith, length, update, true, false, subst,
  update_self,
}
use fastparse.Alloc.{Memory, dalloc, dalloc_small, dalloc_large, is_large}
use fastparse.Alloc.FreeList.{dalloc_cache_line-IsList, Chain-update}
use fastparse.Alloc.Owners.{
  Owner, live, free_small, free_large, IsSmall, IsLarge, BornAs, IsValid, All-update, All-ne,
  born-update,
}
use fastparse.Alloc.Outcome.{Grows-refl}

module _ {base : ℕ} {s : Memory} {owner : ℕ → Owner} {smalls larges : List ℕ}
    (v : IsValid base s owner smalls larges) (p : ℕ) (held : owner p ≡ live) where
  -- Below the overlap `ISLARGE` tells the pool of a buffer.
  is_large-IsSmall : IsSmall s.pools p → is_large s.pools p ≡ false
  is_large-IsSmall h =
      ground (arith, h.address, h.carved, v.safe, v.layout.small_buf, v.layout.large_buf)

  is_large-IsLarge : IsLarge s.pools p → is_large s.pools p ≡ true
  is_large-IsLarge h = ground (arith, h.address)

  -- The owner's other lists do not hold it.
  not_null : IsSmall s.pools p ⊎ IsLarge s.pools p → p ≢ 0
  not_null (inl h) = omega (arith, h.address, v.base_pos, v.layout.small_buf)
  not_null (inr h) = omega (arith, h.address, v.base_pos, v.layout.large_buf)

  dalloc_small-IsValid :
      IsSmall s.pools p
      → length smalls + 1 < 2 ^ 32
      → IsValid base (dalloc_small s p) (update owner p free_small) (p ∷ smalls) larges
  unfolding dalloc_small
  dalloc_small-IsValid h room =
      let out = All-ne owner p free_small smalls (λ e. cc) v.smalls_owned in
      let out' = All-ne owner p free_large larges (λ e. cc) v.larges_owned in
      let (w, cl, e, l) =
        dalloc_cache_line-IsList s.words s.cache.small p smalls (not_null (inl h)) out room
          v.small_list in
      rw e (record {
        base_pos = v.base_pos;
        layout = v.layout;
        safe = v.safe;
        large_in = v.large_in;
        small_list = l;
        large_list = record {
          chain = Chain-update s.words p w s.cache.large.free larges out' v.large_list.chain;
          count = v.large_list.count;
          small = v.large_list.small;
        };
        smalls_owned = (
          update_self owner p free_small,
          All-update owner p free_small free_small smalls out v.smalls_owned,
        );
        larges_owned = All-update owner p free_small free_large larges out' v.larges_owned;
        born = born-update owner p free_small (Grows-refl s.pools) v.born h;
      })

  dalloc_large-IsValid :
      IsLarge s.pools p
      → length larges + 1 < 2 ^ 32
      → IsValid base (dalloc_large s p) (update owner p free_large) smalls (p ∷ larges)
  unfolding dalloc_large
  dalloc_large-IsValid h room =
      let out = All-ne owner p free_large larges (λ e. cc) v.larges_owned in
      let out' = All-ne owner p free_small smalls (λ e. cc) v.smalls_owned in
      let (w, cl, e, l) =
        dalloc_cache_line-IsList s.words s.cache.large p larges (not_null (inr h)) out room
          v.large_list in
      rw e (record {
        base_pos = v.base_pos;
        layout = v.layout;
        safe = v.safe;
        large_in = v.large_in;
        small_list = record {
          chain = Chain-update s.words p w s.cache.small.free smalls out' v.small_list.chain;
          count = v.small_list.count;
          small = v.small_list.small;
        };
        large_list = l;
        smalls_owned = All-update owner p free_large free_small smalls out' v.smalls_owned;
        larges_owned = (
          update_self owner p free_large,
          All-update owner p free_large free_large larges out v.larges_owned,
        );
        born = born-update owner p free_large (Grows-refl s.pools) v.born h;
      })

  -- In a valid state `dalloc` of a held buffer leaves a valid state in which it is the first free
  -- buffer of its own size, and no other buffer has changed hands. The count of free buffers must not
  -- wrap.
  pub dalloc-IsValid :
      length smalls + 1 < 2 ^ 32
      → length larges + 1 < 2 ^ 32
      → (IsSmall s.pools p
          × IsValid base (dalloc s p) (update owner p free_small) (p ∷ smalls) larges)
        ⊎ (IsLarge s.pools p
            × IsValid base (dalloc s p) (update owner p free_large) smalls (p ∷ larges))
  unfolding dalloc
  dalloc-IsValid room room' = go (subst (λ o. BornAs s.pools o p) held (v.born p))
    where
      go :
          IsSmall s.pools p ⊎ IsLarge s.pools p
          → (IsSmall s.pools p
              × IsValid base (dalloc s p) (update owner p free_small) (p ∷ smalls) larges)
            ⊎ (IsLarge s.pools p
                × IsValid base (dalloc s p) (update owner p free_large) smalls (p ∷ larges))
      go (inl h) = inl (h, rw (is_large-IsSmall h) (dalloc_small-IsValid h room))
      go (inr h) = inr (h, rw (is_large-IsLarge h) (dalloc_large-IsValid h room'))
