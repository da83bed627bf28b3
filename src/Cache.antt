-- ===== src/Cache.antt =====
-- The object cache of src/cache.c and src/cache.h, an adaptive replacement cache: two lists of
-- objects, T1 and T2, and two of ghosts, B1 and B2. Locks, traces and the cleaning callback leave
-- this state alone.
pub mod Map
pub mod Lookup
pub mod Counted
pub mod Moves
pub mod Release
pub mod Bounds
pub mod Hits
pub mod Get
pub mod Reach
pub mod Held
use Prim.Native.Nat.{min, max}
use spdy_test.Prelude.{
  ℕ, zero, suc, ◌+◌, ◌-◌, ◌*◌, ◌/◌, ◌%◌, ◌^◌, List, [], ◌∷◌, Option, none, some, Bool, true, false,
  ◌&&◌, ◌||◌, ltb, leb, ◌==◌, if◌then◌else◌, ◌>>=◌,
}
use spdy_test.Ret.{Ret}
use Map.{find, change, erase, remove, last}

-- `http2d_cache_list_t`
pub data CacheList : Type 0 where
  no_list t1 t2 b1 b2 : CacheList

-- `http2d_cache_entry_t`. A released count of 0 stays at 0, which the code tests for in the same way
-- as for a negative one.
pub record Entry : Type 0 where
  pub in_list : CacheList
  pub ref_count : ℕ

-- `http2d_cache_t`. Keys are strings, which the code only compares: a number stands for each. An
-- object is known by its key, since it stays in the lookup table until it is freed. The lists begin
-- with the entry that was added last.
pub record Cache : Type 0 where
  pub map : List (ℕ × Entry)
  pub _t1 : List ℕ
  pub _b1 : List ℕ
  pub len_t1 : ℕ
  pub len_b1 : ℕ
  pub _t2 : List ℕ
  pub _b2 : List ℕ
  pub len_t2 : ℕ
  pub len_b2 : ℕ
  pub max_size : ℕ
  pub target_t1 : ℕ
  pub count : ℕ
  pub count_hit : ℕ
  pub count_miss : ℕ

-- `http2d_cache_init`; DEFAULT_MAX_SIZE is 4 * 10.
abbrev pub init : Cache
init = record {
  map = [];
  _t1 = [];
  _b1 = [];
  len_t1 = 0;
  len_b1 = 0;
  _t2 = [];
  _b2 = [];
  len_t2 = 0;
  len_b2 = 0;
  max_size = 40;
  target_t1 = 0;
  count = 0;
  count_hit = 0;
  count_miss = 0;
}

-- What http2d_cache_configure makes of a configured size: the next multiple of 4.
abbrev pub configured : Cache → ℕ → Cache
configured cache size = record cache { max_size = (size + 3) / 4 * 4 }

-- The list that a name stands for.
abbrev pub members : Cache → CacheList → List ℕ
members cache CacheList.no_list = []
members cache CacheList.t1 = cache._t1
members cache CacheList.t2 = cache._t2
members cache CacheList.b1 = cache._b1
members cache CacheList.b2 = cache._b2

abbrev pub listed_in : CacheList → Entry → Entry
listed_in list entry = record entry { in_list = list }

-- `entry->in_list = list`
abbrev pub set_in_list : CacheList → ℕ → Cache → Cache
set_in_list list key cache = record cache { map = change (listed_in list) key cache.map }

-- cache_list_add
unfoldable pub cache_list_add : CacheList → ℕ → Cache → Cache
cache_list_add CacheList.no_list key cache = cache
cache_list_add CacheList.t1 key cache =
    set_in_list CacheList.t1 key (record cache { _t1 = key ∷ cache._t1; len_t1 = cache.len_t1 + 1 })
cache_list_add CacheList.t2 key cache =
    set_in_list CacheList.t2 key (record cache { _t2 = key ∷ cache._t2; len_t2 = cache.len_t2 + 1 })
cache_list_add CacheList.b1 key cache =
    set_in_list CacheList.b1 key (record cache { _b1 = key ∷ cache._b1; len_b1 = cache.len_b1 + 1 })
cache_list_add CacheList.b2 key cache =
    set_in_list CacheList.b2 key (record cache { _b2 = key ∷ cache._b2; len_b2 = cache.len_b2 + 1 })

-- cache_list_del
unfoldable pub cache_list_del : CacheList → ℕ → Cache → Cache
cache_list_del CacheList.no_list key cache = cache
cache_list_del CacheList.t1 key cache = record (set_in_list CacheList.no_list key cache) {
  _t1 = remove key cache._t1;
  len_t1 = cache.len_t1 - 1;
}
cache_list_del CacheList.t2 key cache = record (set_in_list CacheList.no_list key cache) {
  _t2 = remove key cache._t2;
  len_t2 = cache.len_t2 - 1;
}
cache_list_del CacheList.b1 key cache = record (set_in_list CacheList.no_list key cache) {
  _b1 = remove key cache._b1;
  len_b1 = cache.len_b1 - 1;
}
cache_list_del CacheList.b2 key cache = record (set_in_list CacheList.no_list key cache) {
  _b2 = remove key cache._b2;
  len_b2 = cache.len_b2 - 1;
}

-- cache_list_swap
abbrev pub cache_list_swap : CacheList → CacheList → ℕ → Cache → Cache
cache_list_swap from to key cache = cache_list_add to key (cache_list_del from key cache)

abbrev pub with_count : ℕ → Entry → Entry
with_count count entry = record entry { ref_count = count }

abbrev pub referenced : Entry → Entry
referenced entry = record entry { ref_count = entry.ref_count + 1 }

-- entry_ref
abbrev pub entry_ref : ℕ → Cache → Cache
entry_ref key cache = record cache { map = change referenced key cache.map }

-- entry_unref_guts
unfoldable pub entry_unref_guts : ℕ → Cache → Ret × Cache
entry_unref_guts key cache = elim (find cache.map key) [
  | none ↦ (Ret.ok, cache)
  | some entry ↦
      let count = entry.ref_count - 1 in
      let released = record cache { map = change (with_count count) key cache.map } in
      let gone = record released { map = erase key released.map } in
      if ltb 0 count
      then (Ret.eagain, released)
      else (Ret.ok, cache_list_del entry.in_list key gone)
]

-- The oldest entry of a list, if any, goes to the list of its ghosts.
unfoldable pub evict : CacheList → CacheList → Cache → Cache
evict from to cache = elim (last (members cache from)) [
  | none ↦ cache
  | some key ↦ cache_list_swap from to key cache
]

-- replace; `in_b2` says that there is an `x` and that it is in B2.
unfoldable pub replace : Cache → Bool → Cache
replace cache in_b2 =
    let p = cache.target_t1 in
    if leb 1 cache.len_t1 && (ltb p cache.len_t1 || (cache.len_t1 == p && in_b2))
    then evict CacheList.t1 CacheList.b1 cache
    else evict CacheList.t2 CacheList.b2 cache

-- The oldest entry of a list is taken off it and released; `none` is the access through the NULL
-- pointer that an empty list leaves in `tmp`.
unfoldable pub release_lru : CacheList → Cache → Option Cache
release_lru list cache = elim (last (members cache list)) [
  | none ↦ none
  | some key ↦ some (entry_unref_guts key (cache_list_del list key cache)).1
]

-- `replace (cache, NULL)` behind a release.
abbrev pub then_replace : Option Cache → Option Cache
then_replace none = none
then_replace (some cache) = some (replace cache false)

-- on_new_added
unfoldable pub on_new_added : Cache → Option Cache
on_new_added cache0 =
    let cache = record cache0 { count_miss = (cache0.count_miss + 1) % 2 ^ 32 } in
    let c = cache.max_size in
    let len_l1 = cache.len_t1 + cache.len_b1 in
    let len_l2 = cache.len_t2 + cache.len_b2 in
    let total_len = len_l1 + len_l2 in
    if leb c len_l1
    then (if ltb cache.len_t1 c
        then then_replace (release_lru CacheList.b1 cache)
        else release_lru CacheList.t1 cache)
    else if leb c total_len
    then then_replace (if leb (2 * c) total_len then release_lru CacheList.b2 cache else some cache)
    else some cache

-- `add_list:` of http2d_cache_get.
unfoldable pub add_list : ℕ → Cache → Ret × Cache
add_list key cache = (Ret.ok, entry_ref key (cache_list_add CacheList.t1 key cache))

-- What http2d_cache_entry_init makes.
abbrev pub new_entry : Entry
new_entry = record { in_list = CacheList.no_list; ref_count = 0 }
