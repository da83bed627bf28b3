-- ===== src/Cache/Lookup.antt =====
-- Hits and misses of the cache (update_cache and http2d_cache_get of src/cache.c).
use Prim.Native.Nat.{min, max}
use spdy_test.Prelude.{
  ℕ, ◌+◌, ◌-◌, ◌/◌, ◌%◌, ◌^◌, ◌∷◌, Option, none, some, Bool, true, false, if◌then◌else◌, ◌>>=◌,
}
use spdy_test.Ret.{Ret}
use spdy_test.Cache.{
  Cache, CacheList, entry_ref, cache_list_swap, replace, on_new_added, add_list, new_entry,
}
use spdy_test.Cache.Map.{find, remove}

module _ (fetch_cb : ℕ → Ret) where
  -- update_ghost_b1
  unfoldable pub update_ghost_b1 : Cache → ℕ → Ret × Cache
  update_ghost_b1 cache0 key =
      let target = min cache0.max_size (cache0.target_t1 + max 1 (cache0.len_b2 / cache0.len_b1)) in
      let cache = replace (record cache0 { target_t1 = target }) false in
      let ret = fetch_cb key in
      let kept : Ret × Cache = (Ret.ok, cache_list_swap CacheList.b1 CacheList.t2 key cache) in
      elim ret [
        | Ret.ok ↦ kept
        | Ret.deny ↦ kept
        | Ret.ok_and_sent ↦ kept
        | Ret.error ↦ (Ret.error, cache)
        | Ret.no_sys ↦ (Ret.no_sys, cache)
        | Ret.not_found ↦ (Ret.not_found, cache)
        | _ ↦ (Ret.error, cache)
      ]

  -- update_ghost_b2
  unfoldable pub update_ghost_b2 : Cache → ℕ → Ret × Cache
  update_ghost_b2 cache0 key =
      let target = cache0.target_t1 - max 1 (cache0.len_b1 / cache0.len_b2) in
      let cache = replace (record cache0 { target_t1 = target }) true in
      let ret = fetch_cb key in
      let kept : Ret × Cache = (Ret.ok, cache_list_swap CacheList.b2 CacheList.t2 key cache) in
      elim ret [
        | Ret.ok ↦ kept
        | Ret.deny ↦ kept
        | Ret.error ↦ (Ret.error, cache)
        | Ret.no_sys ↦ (Ret.no_sys, cache)
        | _ ↦ (Ret.error, cache)
      ]

  -- What update_cache makes of the answer of a ghost's update.
  abbrev pub ghost_ret : Ret → Ret
  ghost_ret Ret.ok = Ret.ok
  ghost_ret Ret.no_sys = Ret.no_sys
  ghost_ret r = Ret.error

  -- update_cache, on an entry in `list`.
  unfoldable pub update_cache : Cache → ℕ → CacheList → Ret × Cache
  update_cache cache0 key list =
      let cache = record cache0 { count_hit = (cache0.count_hit + 1) % 2 ^ 32 } in
      elim list [
        | CacheList.t1 ↦ (Ret.ok, cache_list_swap CacheList.t1 CacheList.t2 key cache)
        | CacheList.t2 ↦ (Ret.ok, record cache { _t2 = key ∷ remove key cache._t2 })
        | CacheList.b1 ↦ let (ret, cache') = update_ghost_b1 cache key in (ghost_ret ret, cache')
        | CacheList.b2 ↦ let (ret, cache') = update_ghost_b2 cache key in (ghost_ret ret, cache')
        | CacheList.no_list ↦ (Ret.error, cache)
      ]

  -- http2d_cache_get; `new_cb` says whether an object can be made for a key.
  unfoldable pub get : (ℕ → Bool) → Cache → ℕ → Option (Ret × Cache)
  get new_cb cache0 key =
      let cache = record cache0 { count = (cache0.count + 1) % 2 ^ 32 } in
      elim (find cache.map key) [
        | some entry ↦ elim entry.in_list [
          | CacheList.no_list ↦ some (add_list key (entry_ref key cache))
          | list ↦
              let (ret, cache') = update_cache cache key list in some (ret, entry_ref key cache')
        ]
        | none ↦ do
          cache' ← on_new_added cache
          let added = entry_ref key (record cache' { map = (key, new_entry) ∷ cache'.map })
          some (if new_cb key then add_list key added else (Ret.error, cache'))
      ]
