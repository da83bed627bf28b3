-- ===== src/Cache/Hits.antt =====
-- What a hit of src/cache.c does to the bounds of the cache.
use Prim.Native.Nat.{min, max}
use spdy_test.Prelude.{
  ℕ, ◌+◌, ◌-◌, ◌/◌, ◌%◌, ◌^◌, ◌≤◌, ◌∷◌, Bool, true, false, ◌==◌, ◌≡◌, arith, Bool-cases, inl, inr,
  ◌⊎◌,
}
use spdy_test.Ret.{Ret}
use spdy_test.Cache.{
  Cache, CacheList, evict, replace, cache_list_add, cache_list_del, cache_list_swap,
}
use spdy_test.Cache.Lookup.{update_ghost_b1, update_ghost_b2, update_cache}
use spdy_test.Cache.Map.{remove, mem, mem-remove, length-remove}
use spdy_test.Cache.Counted.{
  IsCounted, is_member, cache_list_add-IsCounted, cache_list_del-IsCounted,
}
use spdy_test.Cache.Moves.{HasSizes, replace_lem}
use spdy_test.Cache.Bounds.{HasRoom}

-- Neither kind of eviction takes a ghost off its list.
ghosts_kept :
    (cache : Cache) (in_b2 : Bool) (key : ℕ)
    → ((mem key cache._b1 ≡ false) ⊎ (mem key (replace cache in_b2)._b1 ≡ true))
      × ((mem key cache._b2 ≡ false) ⊎ (mem key (replace cache in_b2)._b2 ≡ true))
unfolding replace evict cache_list_add cache_list_del
ghosts_kept cache in_b2 key = ground arith

retargeted-IsCounted :
    (cache : Cache) (p : ℕ) → IsCounted cache → IsCounted (record cache { target_t1 = p })
retargeted-IsCounted cache p c = record {
  counted_t1 = c.counted_t1;
  counted_t2 = c.counted_t2;
  counted_b1 = c.counted_b1;
  counted_b2 = c.counted_b2;
  listed = λ k. ground (arith, c.listed k);
}

-- An entry in a list that goes to another one.
swap-IsCounted :
    (cache : Cache)
    → IsCounted cache
    → (from to : CacheList) (key : ℕ) → is_member cache from key ≡ true
    → IsCounted (cache_list_swap from to key cache)
swap-IsCounted cache c from to key m =
    cache_list_add-IsCounted (cache_list_del from key cache)
      (cache_list_del-IsCounted cache c key from m) key to

swap_sizes_b1 :
    (cache : Cache) (key : ℕ)
    → HasSizes
        (cache_list_swap CacheList.b1 CacheList.t2 key cache)
        cache.len_t1
        (cache.len_b1 - 1)
        (cache.len_t2 + 1)
        cache.len_b2
        cache.max_size
        cache.target_t1
unfolding cache_list_add cache_list_del
swap_sizes_b1 cache key = ground arith

swap_sizes_b2 :
    (cache : Cache) (key : ℕ)
    → HasSizes
        (cache_list_swap CacheList.b2 CacheList.t2 key cache)
        cache.len_t1
        cache.len_b1
        (cache.len_t2 + 1)
        (cache.len_b2 - 1)
        cache.max_size
        cache.target_t1
unfolding cache_list_add cache_list_del
swap_sizes_b2 cache key = ground arith

swap_sizes_t1 :
    (cache : Cache) (key : ℕ)
    → HasSizes
        (cache_list_swap CacheList.t1 CacheList.t2 key cache)
        (cache.len_t1 - 1)
        cache.len_b1
        (cache.len_t2 + 1)
        cache.len_b2
        cache.max_size
        cache.target_t1
unfolding cache_list_add cache_list_del
swap_sizes_t1 cache key = ground arith

module _ (fetch_cb : ℕ → Ret) (cache : Cache) (c : IsCounted cache) (f : HasRoom cache 0)
    (key : ℕ) where
  ghost_b1 :
      mem key cache._b1 ≡ true
      → IsCounted (update_ghost_b1 fetch_cb cache key).1
        × HasRoom (update_ghost_b1 fetch_cb cache key).1 0
  unfolding update_ghost_b1
  ghost_b1 m =
      let p = min cache.max_size (cache.target_t1 + max 1 (cache.len_b2 / cache.len_b1)) in
      let aimed = record cache { target_t1 = p } in
      let (k, r) = replace_lem aimed (retargeted-IsCounted cache p c) false in
      let here : mem key (replace aimed false)._b1 ≡ true =
        ground (arith, (ghosts_kept aimed false key).0) in
      let one : 1 ≤ cache.len_b1 = omega (arith, length-remove key cache._b1 m, c.counted_b1) in
      let s = swap-IsCounted (replace aimed false) k CacheList.b1 CacheList.t2 key here in
      let z = swap_sizes_b1 (replace aimed false) key in
      let one' : 1 ≤ (replace aimed false).len_b1 =
        omega (arith, length-remove key (replace aimed false)._b1 here, k.counted_b1) in
      let q : p ≤ cache.max_size = ground arith in
      let failed : HasRoom (replace aimed false) 0 = elim r [
        | inl (evicts, t) ↦ ground (arith, f, t, q)
        | inr (few, t) ↦ ground (arith, f, t, q)
      ] in
      let fetched : HasRoom (cache_list_swap CacheList.b1 CacheList.t2 key (replace aimed false))
          0 =
        elim r [
          | inl (evicts, t) ↦ ground (arith, f, t, q, z, one)
          | inr (few, t) ↦ ground (arith, f, t, q, z, few, one)
        ] in
      ground (arith, s, k, failed, fetched)

  ghost_b2 :
      mem key cache._b2 ≡ true
      → IsCounted (update_ghost_b2 fetch_cb cache key).1
        × HasRoom (update_ghost_b2 fetch_cb cache key).1 0
  unfolding update_ghost_b2
  ghost_b2 m =
      let p = cache.target_t1 - max 1 (cache.len_b1 / cache.len_b2) in
      let aimed = record cache { target_t1 = p } in
      let (k, r) = replace_lem aimed (retargeted-IsCounted cache p c) true in
      let here : mem key (replace aimed true)._b2 ≡ true =
        ground (arith, (ghosts_kept aimed true key).1) in
      let one : 1 ≤ cache.len_b2 = omega (arith, length-remove key cache._b2 m, c.counted_b2) in
      let s = swap-IsCounted (replace aimed true) k CacheList.b2 CacheList.t2 key here in
      let z = swap_sizes_b2 (replace aimed true) key in
      let q : p + 1 ≤ cache.max_size = ground (arith, f.positive, f.target) in
      let failed : HasRoom (replace aimed true) 0 = elim r [
        | inl (evicts, t) ↦ ground (arith, f, t, q)
        | inr (few, t) ↦ ground (arith, f, t, q)
      ] in
      let fetched : HasRoom (cache_list_swap CacheList.b2 CacheList.t2 key (replace aimed true)) 0 =
        elim r [
          | inl (evicts, t) ↦ ground (arith, f, t, q, z, one)
          | inr (few, t) ↦ ground (arith, f, t, q, z, few, one)
        ] in
      ground (arith, s, k, failed, fetched)

  first_of_t2 :
      mem key cache._t2 ≡ true → IsCounted (record cache { _t2 = key ∷ remove key cache._t2 })
  first_of_t2 m = record {
    counted_t1 = c.counted_t1;
    counted_t2 = omega (arith, length-remove key cache._t2 m, c.counted_t2);
    counted_b1 = c.counted_b1;
    counted_b2 = c.counted_b2;
    listed = λ k. elim (Bool-cases (key == k)) [
      | inl same ↦ ground (arith, c.listed k)
      | inr other ↦ ground (arith, c.listed k, mem-remove k key cache._t2 other)
    ];
  }

-- The cache with the hit counted.
abbrev hit : Cache → Cache
hit cache = record cache { count_hit = (cache.count_hit + 1) % 2 ^ 32 }

hit-IsCounted : (cache : Cache) → IsCounted cache → IsCounted (hit cache)
hit-IsCounted cache c = record {
  counted_t1 = c.counted_t1;
  counted_t2 = c.counted_t2;
  counted_b1 = c.counted_b1;
  counted_b2 = c.counted_b2;
  listed = λ k. ground (arith, c.listed k);
}

hit-HasRoom : (cache : Cache) → HasRoom cache 0 → HasRoom (hit cache) 0
hit-HasRoom cache f = ground (arith, f)

module _ (fetch_cb : ℕ → Ret) (cache : Cache) (key : ℕ) (c : IsCounted cache)
    (f : HasRoom cache 0) where
  pub update_cache_kept :
      (list : CacheList)
      → is_member cache list key ≡ true
      → IsCounted (update_cache fetch_cb cache key list).1
        × HasRoom (update_cache fetch_cb cache key list).1 0
  unfolding update_cache
  update_cache_kept CacheList.no_list m = (hit-IsCounted cache c, hit-HasRoom cache f)
  update_cache_kept CacheList.t1 m = (
    swap-IsCounted (hit cache) (hit-IsCounted cache c) CacheList.t1 CacheList.t2 key m,
    ground (arith, f, swap_sizes_t1 (hit cache) key, length-remove key cache._t1 m, c.counted_t1),
  )
  update_cache_kept CacheList.t2 m = (
    first_of_t2 fetch_cb (hit cache) (hit-IsCounted cache c) (hit-HasRoom cache f) key m,
    ground (arith, f),
  )
  update_cache_kept CacheList.b1 m =
      ghost_b1 fetch_cb (hit cache) (hit-IsCounted cache c) (hit-HasRoom cache f) key m
  update_cache_kept CacheList.b2 m =
      ghost_b2 fetch_cb (hit cache) (hit-IsCounted cache c) (hit-HasRoom cache f) key m
