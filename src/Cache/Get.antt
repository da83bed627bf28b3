-- ===== src/Cache/Get.antt =====
-- http2d_cache_get of src/cache.c and the bounds of the cache.
use spdy_test.Prelude.{
  ℕ, ◌+◌, ◌%◌, ◌^◌, ◌∷◌, Option, none, some, Bool, true, false, ◌≡◌, refl, sym, ap, ◌∙◌, arith,
  Bool-cases, inl, inr, Option-cases,
}
use spdy_test.Ret.{Ret}
use spdy_test.Cache.{
  Cache, CacheList, Entry, new_entry, referenced, cache_list_add, add_list, entry_ref,
}
use spdy_test.Cache.Lookup.{update_cache, get}
use spdy_test.Cache.Map.{find}
use spdy_test.Cache.Counted.{
  IsCounted, is_member, is_listed, cache_list_add-IsCounted, change-IsCounted,
}
use spdy_test.Cache.Bounds.{HasRoom, room_made}
use spdy_test.Cache.Hits.{update_cache_kept}

-- An entry of the lookup table that is in no list: it was evicted while it was still referenced.
abbrev pub lingers : Option Entry → Bool
lingers none = false
lingers (some entry) = elim entry.in_list [ CacheList.no_list ↦ true | _ ↦ false ]

ref-IsCounted : (cache : Cache) (key : ℕ) → IsCounted cache → IsCounted (entry_ref key cache)
ref-IsCounted cache key c = change-IsCounted cache c key referenced (λ e. refl)

ref-HasRoom : (cache : Cache) (key n : ℕ) → HasRoom cache n → HasRoom (entry_ref key cache) n
ref-HasRoom cache key n f = ground (arith, f)

-- A new entry names no list.
new-IsCounted :
    (cache : Cache) (key : ℕ)
    → IsCounted cache
    → IsCounted (record cache { map = (key, new_entry) ∷ cache.map })
unfolding find
new-IsCounted cache key c = record {
  counted_t1 = c.counted_t1;
  counted_t2 = c.counted_t2;
  counted_b1 = c.counted_b1;
  counted_b2 = c.counted_b2;
  listed = λ k. ground (arith, c.listed k);
}

add_list_kept :
    (cache : Cache) (key : ℕ)
    → IsCounted cache
    → HasRoom cache 1
    → IsCounted (add_list key cache).1 × HasRoom (add_list key cache).1 0
unfolding add_list cache_list_add
add_list_kept cache key c f = (
  ref-IsCounted (cache_list_add CacheList.t1 key cache) key
      (cache_list_add-IsCounted cache c key CacheList.t1),
  ground (arith, f),
)

asked-IsCounted : (cache : Cache) (n : ℕ) → IsCounted cache → IsCounted (record cache { count = n })
asked-IsCounted cache n c = record {
  counted_t1 = c.counted_t1;
  counted_t2 = c.counted_t2;
  counted_b1 = c.counted_b1;
  counted_b2 = c.counted_b2;
  listed = λ k. ground (arith, c.listed k);
}

module _ (fetch_cb : ℕ → Ret) (new_cb : ℕ → Bool) (cache0 : Cache) (key : ℕ) where
  get-hit :
      {entry : Entry}
      → find cache0.map key ≡ some entry
      → lingers (some entry) ≡ false
      → (let cache = record cache0 { count = (cache0.count + 1) % 2 ^ 32 } in
          let hit = update_cache fetch_cb cache key entry.in_list in
          get fetch_cb new_cb cache0 key ≡ some (hit.0, entry_ref key hit.1))
  unfolding get
  get-hit found h = ground (arith, found)

  -- Where every counter counts its list, every entry of the table is in the list that it names, the
  -- bounds hold and the key is not that of an entry that lingers, http2d_cache_get does not fail to
  -- find an entry to evict, and every counter and the bounds hold again after it, whatever the
  -- callbacks answer: T1 and T2, and T1 and B1, have at most `max_size` entries, and all four lists
  -- at most twice as many.
  pub get_keeps_bounds :
      IsCounted cache0
      → HasRoom cache0 0
      → lingers (find cache0.map key) ≡ false
      → (ret : Ret) × (cache' : Cache) × (get fetch_cb new_cb cache0 key ≡ some (ret, cache'))
        × IsCounted cache'
        × HasRoom cache' 0
  unfolding get add_list
  get_keeps_bounds c0 f0 h =
      let cache = record cache0 { count = (cache0.count + 1) % 2 ^ 32 } in
      let c = asked-IsCounted cache0 ((cache0.count + 1) % 2 ^ 32) c0 in
      let f : HasRoom cache 0 = ground (arith, f0) in
      elim (Option-cases (find cache.map key)) [
        | inl missing ↦
            let (c1, e, k, r) = room_made cache c f in
            let added = record c1 { map = (key, new_entry) ∷ c1.map } in
            let a =
              add_list_kept (entry_ref key added) key
                (ref-IsCounted added key (new-IsCounted c1 key k))
                (ref-HasRoom added key 1 (ground (arith, r))) in
            elim (Bool-cases (new_cb key)) [
              | inl made ↦ (
                Ret.ok,
                (add_list key (entry_ref key added)).1,
                rw (missing, get) (rw (e, made)),
                a.0,
                a.1,
              )
              | inr failed ↦
                  (Ret.error, c1, rw (missing, get) (rw (e, failed)), k, ground (arith, r))
            ]
        | inr (entry, found) ↦
            let m : is_member cache entry.in_list key ≡ true =
              ap (is_listed cache key) (sym found) ∙ c.listed key in
            let listed : lingers (some entry) ≡ false = ap lingers (sym found) ∙ h in
            let (k, r) = update_cache_kept fetch_cb cache key c f entry.in_list m in
            let hit = update_cache fetch_cb cache key entry.in_list in
            (
              hit.0,
              entry_ref key hit.1,
              get-hit found listed,
              ref-IsCounted hit.1 key k,
              ref-HasRoom hit.1 key 0 r,
            )
      ]
