-- ===== src/Cache/Release.antt =====
-- Releases of the oldest entries of the lists of src/cache.c.
use spdy_test.Prelude.{ℕ, ◌-◌, ◌≤◌, Option, none, some, Bool, true, false, ◌≡◌, ◌≢◌, arith, length}
use spdy_test.Cache.{
  Cache, CacheList, Entry, members, cache_list_del, entry_unref_guts, listed_in, release_lru,
}
use spdy_test.Cache.Map.{find, mem, find-change, last-some, mem-last}
use spdy_test.Cache.Counted.{IsCounted, is_member, cache_list_del-IsCounted}
use spdy_test.Cache.Moves.{HasSizes, entry_unref_guts-IsCounted}

-- Whether an entry is in no list.
abbrev unlisted : Option Entry → Bool
unlisted none = true
unlisted (some entry) = elim entry.in_list [ CacheList.no_list ↦ true | _ ↦ false ]

unref_sizes :
    (cache : Cache) (key : ℕ)
    → unlisted (find cache.map key) ≡ true
    → HasSizes
        (entry_unref_guts key cache).1
        cache.len_t1
        cache.len_b1
        cache.len_t2
        cache.len_b2
        cache.max_size
        cache.target_t1
unfolding entry_unref_guts cache_list_del
unref_sizes cache key h = ground arith

module _ (cache : Cache) (c : IsCounted cache) where
  deleted_unlisted :
      (list : CacheList) (key : ℕ)
      → list ≢ CacheList.no_list
      → unlisted (find (cache_list_del list key cache).map key) ≡ true
  unfolding cache_list_del
  deleted_unlisted list key h =
      ground (arith, find-change (listed_in CacheList.no_list) key cache.map key)

  release :
      (list : CacheList)
      → list ≢ CacheList.no_list
      → 1 ≤ length (members cache list)
      → (key : ℕ) × (c' : Cache) × (release_lru list cache ≡ some c')
        × IsCounted c'
        × (let d = cache_list_del list key cache in
            HasSizes c' d.len_t1 d.len_b1 d.len_t2 d.len_b2 d.max_size d.target_t1)
  unfolding release_lru
  release list h some_entry =
      let (key, e) = last-some (members cache list) some_entry in
      let m : mem key (members cache list) ≡ true = mem-last (members cache list) e in
      let m' : is_member cache list key ≡ true = ground arith in
      let d = cache_list_del list key cache in
      (
        key,
        (entry_unref_guts key d).1,
        rw (e, release_lru),
        entry_unref_guts-IsCounted d (cache_list_del-IsCounted cache c key list m') key,
        unref_sizes d key (deleted_unlisted list key h),
      )

  -- The release of the oldest entry of a list that has one.
  pub release_b1 :
      1 ≤ cache.len_b1
      → (c' : Cache) × (release_lru CacheList.b1 cache ≡ some c')
        × IsCounted c'
        × HasSizes c' cache.len_t1
            (cache.len_b1 - 1)
            cache.len_t2
            cache.len_b2
            cache.max_size
            cache.target_t1
  unfolding cache_list_del
  release_b1 h =
      let (key, c', e, k, sizes) = release CacheList.b1 (λ h. cc h) (omega (arith, c.counted_b1)) in
      (c', e, k, sizes)

  pub release_b2 :
      1 ≤ cache.len_b2
      → (c' : Cache) × (release_lru CacheList.b2 cache ≡ some c')
        × IsCounted c'
        × HasSizes c' cache.len_t1 cache.len_b1 cache.len_t2
            (cache.len_b2 - 1)
            cache.max_size
            cache.target_t1
  unfolding cache_list_del
  release_b2 h =
      let (key, c', e, k, sizes) = release CacheList.b2 (λ h. cc h) (omega (arith, c.counted_b2)) in
      (c', e, k, sizes)

  pub release_t1 :
      1 ≤ cache.len_t1
      → (c' : Cache) × (release_lru CacheList.t1 cache ≡ some c')
        × IsCounted c'
        × HasSizes c'
            (cache.len_t1 - 1)
            cache.len_b1
            cache.len_t2
            cache.len_b2
            cache.max_size
            cache.target_t1
  unfolding cache_list_del
  release_t1 h =
      let (key, c', e, k, sizes) = release CacheList.t1 (λ h. cc h) (omega (arith, c.counted_t1)) in
      (c', e, k, sizes)
