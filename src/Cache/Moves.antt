-- ===== src/Cache/Moves.antt =====
-- What evictions and releases of src/cache.c do to the counters.
use spdy_test.Prelude.{
  ℕ, ◌+◌, ◌-◌, ◌≤◌, ◌<◌, Bool, true, false, ◌&&◌, ◌||◌, leb, ltb, ◌==◌, ◌≡◌, ◌≢◌, refl, ap, sym,
  ◌∙◌, arith, Bool-cases, inl, inr, ◌⊎◌, Option-cases,
}
use spdy_test.Cache.{
  Cache, CacheList, members, cache_list_add, cache_list_del, entry_unref_guts, evict, with_count,
  replace,
}
use spdy_test.Cache.Map.{find, change, erase, last, mem, length-remove, mem-last, last-none}
use spdy_test.Cache.Counted.{
  IsCounted, is_listed, is_member, erase-IsCounted, cache_list_add-IsCounted,
  cache_list_del-IsCounted, change-IsCounted,
}

-- The numbers of a cache that the algorithm looks at.
pub record HasSizes (cache : Cache) (t1 b1 t2 b2 c p : ℕ) : Type 0 where
  pub t1_size : cache.len_t1 ≡ t1
  pub b1_size : cache.len_b1 ≡ b1
  pub t2_size : cache.len_t2 ≡ t2
  pub b2_size : cache.len_b2 ≡ b2
  pub max_kept : cache.max_size ≡ c
  pub target_kept : cache.target_t1 ≡ p

module _ (cache : Cache) (c : IsCounted cache) where
  pub entry_unref_guts-IsCounted : (key : ℕ) → IsCounted (entry_unref_guts key cache).1
  unfolding entry_unref_guts
  entry_unref_guts-IsCounted key = elim (Option-cases (find cache.map key)) [
    | inl missing ↦ rw (missing, entry_unref_guts) c
    | inr (entry, found) ↦
        let count = entry.ref_count - 1 in
        let released = record cache { map = change (with_count count) key cache.map } in
        let gone = record released { map = erase key released.map } in
        let r : IsCounted released = change-IsCounted cache c key (with_count count) (λ e. refl) in
        let g : IsCounted gone = erase-IsCounted released r key in
        let m : is_member cache entry.in_list key ≡ true =
          ap (is_listed cache key) (sym found) ∙ c.listed key in
        let m' : is_member gone entry.in_list key ≡ true = ground arith in
        elim (Bool-cases (ltb 0 count)) [
          | inl used ↦ rw (found, used, entry_unref_guts) r
          | inr unused ↦
              rw (found, unused, entry_unref_guts)
                (cache_list_del-IsCounted gone g key entry.in_list m')
        ]
  ]

  evict-IsCounted :
      (from to : CacheList) → from ≢ CacheList.no_list → IsCounted (evict from to cache)
  unfolding evict
  evict-IsCounted from to h = elim (Option-cases (last (members cache from))) [
    | inl empty ↦ rw (empty, evict) c
    | inr (key, e) ↦
        let m : mem key (members cache from) ≡ true = mem-last (members cache from) e in
        let m' : is_member cache from key ≡ true = ground arith in
        rw (e, evict)
          (cache_list_add-IsCounted (cache_list_del from key cache)
            (cache_list_del-IsCounted cache c key from m') key to)
  ]

  evict_t1 :
      HasSizes
        (evict CacheList.t1 CacheList.b1 cache)
        (cache.len_t1 - 1)
        (cache.len_b1 + (cache.len_t1 - (cache.len_t1 - 1)))
        cache.len_t2
        cache.len_b2
        cache.max_size
        cache.target_t1
  unfolding evict cache_list_add cache_list_del
  evict_t1 = elim (Option-cases (last cache._t1)) [
    | inl empty ↦ rw (empty, evict) (ground (arith, last-none cache._t1 empty, c.counted_t1))
    | inr (key, e) ↦
        rw (e, evict)
          (ground (arith, length-remove key cache._t1 (mem-last cache._t1 e), c.counted_t1))
  ]

  evict_t2 :
      HasSizes
        (evict CacheList.t2 CacheList.b2 cache)
        cache.len_t1
        cache.len_b1
        (cache.len_t2 - 1)
        (cache.len_b2 + (cache.len_t2 - (cache.len_t2 - 1)))
        cache.max_size
        cache.target_t1
  unfolding evict cache_list_add cache_list_del
  evict_t2 = elim (Option-cases (last cache._t2)) [
    | inl empty ↦ rw (empty, evict) (ground (arith, last-none cache._t2 empty, c.counted_t2))
    | inr (key, e) ↦
        rw (e, evict)
          (ground (arith, length-remove key cache._t2 (mem-last cache._t2 e), c.counted_t2))
  ]

  -- A page of T1 goes to B1, or one of T2, if it has any, to B2.
  pub replace_lem :
      (in_b2 : Bool)
      → IsCounted (replace cache in_b2)
        × (((1 ≤ cache.len_t1)
              × HasSizes
                  (replace cache in_b2)
                  (cache.len_t1 - 1)
                  (cache.len_b1 + 1)
                  cache.len_t2
                  cache.len_b2
                  cache.max_size
                  cache.target_t1)
            ⊎ (((cache.len_t1 ≡ 0)
                  ⊎ (cache.len_t1 < cache.target_t1)
                  ⊎ ((cache.len_t1 ≡ cache.target_t1) × (in_b2 ≡ false)))
                × HasSizes
                    (replace cache in_b2)
                    cache.len_t1
                    cache.len_b1
                    (cache.len_t2 - 1)
                    (cache.len_b2 + (cache.len_t2 - (cache.len_t2 - 1)))
                    cache.max_size
                    cache.target_t1))
  unfolding replace
  replace_lem in_b2 =
      let p = cache.target_t1 in
      let takes = leb 1 cache.len_t1 && (ltb p cache.len_t1 || (cache.len_t1 == p && in_b2)) in
      elim (Bool-cases takes) [
        | inl from_t1 ↦
            rw (from_t1, replace)
              (
                evict-IsCounted CacheList.t1 CacheList.b1 (λ h. cc h),
                inl (ground arith, ground (arith, evict_t1)),
              )
        | inr from_t2 ↦
            rw (from_t2, replace)
              (evict-IsCounted CacheList.t2 CacheList.b2 (λ h. cc h), inr (ground arith, evict_t2))
      ]
