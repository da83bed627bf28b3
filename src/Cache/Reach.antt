-- ===== src/Cache/Reach.antt =====
-- The states of the cache of src/cache.c that calls of its functions lead to, and two that leave its
-- bounds.
use spdy_test.Prelude.{ℕ, ◌+◌, ◌%◌, ◌^◌, ◌≤◌, none, some, Bool, false, ◌≡◌, refl, subst, ◌∙◌, arith}
use spdy_test.Ret.{Ret}
use spdy_test.Cache.{
  Cache, CacheList, Entry, init, configured, release_lru, on_new_added, cache_list_add,
  cache_list_del, entry_unref_guts, add_list, entry_ref,
}
use spdy_test.Cache.Lookup.{get}
use spdy_test.Cache.Map.{find, last, last_empty}
use spdy_test.Cache.Counted.{IsCounted}
use spdy_test.Cache.Moves.{entry_unref_guts-IsCounted}
use spdy_test.Cache.Bounds.{HasRoom}
use spdy_test.Cache.Get.{lingers, get_keeps_bounds}

-- A cache that was configured with a positive size, and what gets and releases make of it. A get is
-- of a key that does not linger.
pub data Reachable (fetch_cb : ℕ → Ret) (new_cb : ℕ → Bool) : Cache → Type 0 where
  start : (size : ℕ) → 1 ≤ size → Reachable fetch_cb new_cb (configured init size)
  got :
      {cache cache' : Cache} (key : ℕ) {ret : Ret}
      → Reachable fetch_cb new_cb cache
      → lingers (find cache.map key) ≡ false
      → get fetch_cb new_cb cache key ≡ some (ret, cache')
      → Reachable fetch_cb new_cb cache'
  released :
      {cache : Cache} (key : ℕ)
      → Reachable fetch_cb new_cb cache
      → Reachable fetch_cb new_cb (entry_unref_guts key cache).1

unref_keeps_room :
    (cache : Cache) (key : ℕ) → HasRoom cache 0 → HasRoom (entry_unref_guts key cache).1 0
unfolding entry_unref_guts cache_list_del
unref_keeps_room cache key f = ground (arith, f)

configured-IsCounted : (size : ℕ) → IsCounted (configured init size)
unfolding find
configured-IsCounted size = record {
  counted_t1 = refl;
  counted_t2 = refl;
  counted_b1 = refl;
  counted_b2 = refl;
  listed = λ k. refl;
}

-- In every state that gets of keys that do not linger and releases lead to from a cache configured
-- with a positive size, every counter counts its list, every entry of the table is in the list that
-- it names, T1 and T2, and T1 and B1, have at most `max_size` entries, all four lists have at most
-- twice as many, and the target of T1 is at most `max_size`.
pub Reachable-bounds :
    {fetch_cb : ℕ → Ret} {new_cb : ℕ → Bool} {cache : Cache}
    → Reachable fetch_cb new_cb cache
    → IsCounted cache × HasRoom cache 0
Reachable-bounds (start size h) = (configured-IsCounted size, ground arith)
Reachable-bounds {fetch_cb} {new_cb} (got {cache} {cache'} key {ret} before h e) =
    let (c, f) = Reachable-bounds before in
    let (ret', next, e', c', f') = get_keeps_bounds fetch_cb new_cb cache key c f h in
    let same : next ≡ cache' = cc in subst (λ x. IsCounted x × HasRoom x 0) same (c', f')
Reachable-bounds (released {cache} key before) =
    let (c, f) = Reachable-bounds before in
    (entry_unref_guts-IsCounted cache c key, unref_keeps_room cache key f)

module _ (fetch_cb : ℕ → Ret) (new_cb : ℕ → Bool) (cache : Cache) (key : ℕ) where
  -- A get of a key whose entry is in the table but in no list, on a cache whose T1 and T2 together are
  -- full, answers ret_ok and leaves T1 and T2 with one entry more than `max_size`.
  lingering_overflows :
      {entry : Entry}
      → find cache.map key ≡ some entry
      → entry.in_list ≡ CacheList.no_list
      → cache.len_t1 + cache.len_t2 ≡ cache.max_size
      → (cache' : Cache) × (get fetch_cb new_cb cache key ≡ some (Ret.ok, cache'))
        × (cache'.max_size ≡ cache.max_size)
        × (cache'.len_t1 + cache'.len_t2 ≡ cache'.max_size + 1)
  unfolding get add_list cache_list_add
  lingering_overflows {entry} found h full =
      let counted = record cache { count = (cache.count + 1) % 2 ^ 32 } in
      ((add_list key (entry_ref key counted)).1, ground (arith, found, h), refl, ground arith)

  -- With a `max_size` of 0 and an empty T1, where the counters count their lists, a get of a key that
  -- is not in the table goes through a NULL pointer.
  get_without_size :
      IsCounted cache
      → cache.max_size ≡ 0
      → cache.len_t1 ≡ 0
      → find cache.map key ≡ none
      → get fetch_cb new_cb cache key ≡ none
  unfolding get on_new_added release_lru
  get_without_size c zero_size no_t1 missing =
      let counted = record cache { count = (cache.count + 1) % 2 ^ 32 } in
      let no_entry : last cache._t1 ≡ none = last_empty cache._t1 (c.counted_t1 ∙ no_t1) in
      let crash : on_new_added counted ≡ none = ground (arith, zero_size, no_t1, no_entry) in
      rw (missing, get) (rw crash)
