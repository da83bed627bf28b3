-- ===== src/Tests/Caches.antt =====
-- The theorems about src/cache.c at concrete caches.
use spdy_test.Prelude.{ℕ, [], ◌∷◌, some, Bool, true, ◌≡◌, refl, arith}
use spdy_test.Ret.{Ret}
use spdy_test.Cache.{Cache, CacheList, init, configured, on_new_added, cache_list_add, add_list}
use spdy_test.Cache.Lookup.{get}
use spdy_test.Cache.Map.{find, change}
use spdy_test.Cache.Counted.{IsCounted}
use spdy_test.Cache.Bounds.{HasRoom}
use spdy_test.Cache.Get.{get_keeps_bounds}
use spdy_test.Cache.Reach.{Reachable, start, got, Reachable-bounds}
use spdy_test.Cache.Held.{is_held, get_holds}

abbrev fetched : ℕ → Ret
fetched key = Ret.ok

abbrev made : ℕ → Bool
made key = true

-- A cache of size 4 with the object 7 in T1.
abbrev one : Cache
one = record (configured init 4) {
  map = (7, record { in_list = CacheList.t1; ref_count = 2 }) ∷ [];
  _t1 = 7 ∷ [];
  len_t1 = 1;
  count = 1;
  count_miss = 1;
}

one_reached : Reachable fetched made one
unfolding get on_new_added find change cache_list_add add_list
one_reached = got 7 (start 4 (omega arith)) refl refl

Reachable-bounds_example : IsCounted one × HasRoom one 0
Reachable-bounds_example = Reachable-bounds one_reached

get_keeps_bounds_example :
    (ret : Ret) × (cache' : Cache) × (get fetched made one 7 ≡ some (ret, cache'))
    × IsCounted cache'
    × HasRoom cache' 0
unfolding find
get_keeps_bounds_example =
    get_keeps_bounds fetched made one 7 Reachable-bounds_example.0 Reachable-bounds_example.1 refl

-- The same, once 8 was got as well.
abbrev two : Cache
two = record one {
  map =
      (8, record { in_list = CacheList.t1; ref_count = 2 })
      ∷ (7, record { in_list = CacheList.t1; ref_count = 2 })
      ∷ [];
  _t1 = 8 ∷ 7 ∷ [];
  len_t1 = 2;
  count = 2;
  count_miss = 2;
}

get_holds_example : is_held two 8 (some (record { in_list = CacheList.t1; ref_count = 2 })) ≡ true
unfolding get on_new_added find change cache_list_add add_list
get_holds_example = get_holds fetched made one 8 {cache' = two} refl

-- The object 9 was evicted while it was in use, and T1 is full.
abbrev lingering : Cache
lingering = record (configured init 4) {
  map = (9, record { in_list = CacheList.no_list; ref_count = 1 }) ∷ [];
  _t1 = 1 ∷ 2 ∷ 3 ∷ 4 ∷ [];
  len_t1 = 4;
}

abbrev sizeless : Cache
sizeless = configured init 0

sizeless-IsCounted : IsCounted sizeless
unfolding find
sizeless-IsCounted = record {
  counted_t1 = refl;
  counted_t2 = refl;
  counted_b1 = refl;
  counted_b2 = refl;
  listed = λ k. refl;
}
