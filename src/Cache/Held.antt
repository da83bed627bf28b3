-- ===== src/Cache/Held.antt =====
-- What a successful http2d_cache_get of src/cache.c hands out.
use Prim.Native.Nat.{min, max}
use spdy_test.Prelude.{
  ℕ, ◌+◌, ◌-◌, ◌/◌, ◌%◌, ◌^◌, List, ◌∷◌, Option, none, some, Bool, true, false, ◌&&◌, leb, ◌≡◌,
  refl, ap, ◌∙◌, arith, inl, inr, ◌⊎◌, Option-cases,
}
use spdy_test.Ret.{Ret}
use spdy_test.Cache.{
  Cache, CacheList, Entry, members, evict, replace, on_new_added, cache_list_add, cache_list_del,
  listed_in, new_entry, referenced, add_list, entry_ref, cache_list_swap,
}
use spdy_test.Cache.Lookup.{update_ghost_b1, update_ghost_b2, update_cache, get}
use spdy_test.Cache.Map.{find, change, mem, find-change, last}

-- The cache with a hit counted.
abbrev hit : Cache → Cache
hit cache = record cache { count_hit = (cache.count_hit + 1) % 2 ^ 32 }

-- The cache with a call counted.
abbrev asked : Cache → Cache
asked cache = record cache { count = (cache.count + 1) % 2 ^ 32 }

abbrev present : Option Entry → Bool
present none = false
present (some entry) = true

-- Whether an entry is referenced and its list, T1 or T2, has its key.
abbrev pub is_held : Cache → ℕ → Option Entry → Bool
is_held cache key none = false
is_held cache key (some entry) = leb 1 entry.ref_count && elim entry.in_list [
  | CacheList.t1 ↦ mem key cache._t1
  | CacheList.t2 ↦ mem key cache._t2
  | _ ↦ false
]

present-change :
    (f : Entry → Entry) (j : ℕ) (m : List (ℕ × Entry)) (k : ℕ)
    → present (find (change f j m) k) ≡ present (find m k)
present-change f j m k = ground (arith, find-change f j m k)

present-first : (k : ℕ) (m : List (ℕ × Entry)) → present (find ((k, new_entry) ∷ m) k) ≡ true
unfolding find
present-first k m = ground arith

present-add :
    (cache : Cache) (list : CacheList) (j k : ℕ)
    → present (find (cache_list_add list j cache).map k) ≡ present (find cache.map k)
unfolding cache_list_add
present-add cache list j k = ground (
  arith,
  present-change (listed_in CacheList.t1) j cache.map k,
  present-change (listed_in CacheList.t2) j cache.map k,
  present-change (listed_in CacheList.b1) j cache.map k,
  present-change (listed_in CacheList.b2) j cache.map k,
)

present-del :
    (cache : Cache) (list : CacheList) (j k : ℕ)
    → present (find (cache_list_del list j cache).map k) ≡ present (find cache.map k)
unfolding cache_list_del
present-del cache list j k =
    ground (arith, present-change (listed_in CacheList.no_list) j cache.map k)

present-evict :
    (cache : Cache) (from to : CacheList) (k : ℕ)
    → present (find (evict from to cache).map k) ≡ present (find cache.map k)
unfolding evict
present-evict cache from to k = elim (Option-cases (last (members cache from))) [
  | inl empty ↦ rw (empty, evict) refl
  | inr (j, e) ↦
      rw (e, evict) (present-add (cache_list_del from j cache) to j k ∙ present-del cache from j k)
]

present-replace :
    (cache : Cache) (in_b2 : Bool) (k : ℕ)
    → present (find (replace cache in_b2).map k) ≡ present (find cache.map k)
unfolding replace
present-replace cache in_b2 k = ground (
  arith,
  present-evict cache CacheList.t1 CacheList.b1 k,
  present-evict cache CacheList.t2 CacheList.b2 k,
)

-- An entry that is put first in T1 or T2 and takes a reference is held.
added_held :
    (cache : Cache) (key : ℕ) (list : CacheList)
    → (list ≡ CacheList.t1) ⊎ (list ≡ CacheList.t2)
    → present (find cache.map key) ≡ true
    → is_held
        (entry_ref key (cache_list_add list key cache))
        key
        (find (entry_ref key (cache_list_add list key cache)).map key)
      ≡ true
unfolding cache_list_add
added_held cache key CacheList.t1 h p = ground (
  arith,
  find-change referenced key (change (listed_in CacheList.t1) key cache.map) key,
  find-change (listed_in CacheList.t1) key cache.map key,
)
added_held cache key CacheList.t2 h p = ground (
  arith,
  find-change referenced key (change (listed_in CacheList.t2) key cache.map) key,
  find-change (listed_in CacheList.t2) key cache.map key,
)
added_held cache key CacheList.no_list h p = ground arith
added_held cache key CacheList.b1 h p = ground arith
added_held cache key CacheList.b2 h p = ground arith

swapped_held :
    (cache : Cache) (key : ℕ) (from : CacheList)
    → present (find cache.map key) ≡ true
    → (let next = entry_ref key (cache_list_swap from CacheList.t2 key cache) in
        is_held next key (find next.map key) ≡ true)
swapped_held cache key from p =
    added_held (cache_list_del from key cache) key CacheList.t2 (inr refl)
      (present-del cache from key key ∙ p)

module _ (fetch_cb : ℕ → Ret) (cache : Cache) (key : ℕ)
    (p : present (find cache.map key) ≡ true) where
  -- A successful hit of a listed entry, once it is referenced.
  hit_held :
      (list : CacheList) {entry : Entry}
      → find cache.map key ≡ some entry
      → entry.in_list ≡ list
      → (update_cache fetch_cb cache key list).0 ≡ Ret.ok
      → (let next = entry_ref key (update_cache fetch_cb cache key list).1 in
          is_held next key (find next.map key) ≡ true)
  unfolding update_cache update_ghost_b1 update_ghost_b2
  hit_held CacheList.no_list found l ok = cc
  hit_held CacheList.t1 found l ok = swapped_held (hit cache) key CacheList.t1 p
  hit_held CacheList.t2 found l ok =
      ground (arith, found, l, find-change referenced key cache.map key)
  hit_held CacheList.b1 found l ok =
      let target = min cache.max_size (cache.target_t1 + max 1 (cache.len_b2 / cache.len_b1)) in
      let next = replace (record (hit cache) { target_t1 = target }) false in
      let kept = present-replace (record (hit cache) { target_t1 = target }) false key ∙ p in
      ground (arith, ok, swapped_held next key CacheList.b1 kept)
  hit_held CacheList.b2 found l ok =
      let target = cache.target_t1 - max 1 (cache.len_b1 / cache.len_b2) in
      let next = replace (record (hit cache) { target_t1 = target }) true in
      let kept = present-replace (record (hit cache) { target_t1 = target }) true key ∙ p in
      ground (arith, ok, swapped_held next key CacheList.b2 kept)

-- Where http2d_cache_get answers ret_ok, the lookup table has an entry for the key that is referenced
-- and stands in T1 or in T2, whose list has the key.
pub get_holds :
    (fetch_cb : ℕ → Ret) (new_cb : ℕ → Bool) (cache : Cache) (key : ℕ) {cache' : Cache}
    → get fetch_cb new_cb cache key ≡ some (Ret.ok, cache')
    → is_held cache' key (find cache'.map key) ≡ true
unfolding get add_list
get_holds fetch_cb new_cb cache key h = elim (Option-cases (find cache.map key)) [
  | inl missing ↦ elim (Option-cases (on_new_added (asked cache))) [
    | inl crash ↦ ground (arith, h, missing, crash)
    | inr (c1, e) ↦
        let added = entry_ref key (record c1 { map = (key, new_entry) ∷ c1.map }) in
        let there : present (find added.map key) ≡ true =
          present-change referenced key ((key, new_entry) ∷ c1.map) key
          ∙ present-first key c1.map in
        ground (arith, h, missing, e, added_held added key CacheList.t1 (inl refl) there)
  ]
  | inr (entry, found) ↦
      let there : present (find (asked cache).map key) ≡ true = ap present found in
      let again : present (find (entry_ref key (asked cache)).map key) ≡ true =
        present-change referenced key cache.map key ∙ there in
      ground (
        arith,
        h,
        found,
        added_held (entry_ref key (asked cache)) key CacheList.t1 (inl refl) again,
        hit_held fetch_cb (asked cache) key there CacheList.t1 found,
        hit_held fetch_cb (asked cache) key there CacheList.t2 found,
        hit_held fetch_cb (asked cache) key there CacheList.b1 found,
        hit_held fetch_cb (asked cache) key there CacheList.b2 found,
      )
]
