-- ===== src/Cache/Counted.antt =====
-- The counters of src/cache.c against the lists that they count, and the list that an entry names.
use spdy_test.Prelude.{
  ℕ, Option, none, some, Bool, true, ◌==◌, ◌≡◌, arith, length, Bool-cases, inl, inr, if◌then◌else◌,
}
use spdy_test.Cache.{Cache, CacheList, Entry, members, cache_list_add, cache_list_del, listed_in}
use spdy_test.Cache.Map.{
  find, change, erase, mem, find-change, find-erase, mem-remove, length-remove, map_option,
}

-- Whether a list has a key; no list has every key.
abbrev pub is_member : Cache → CacheList → ℕ → Bool
is_member cache CacheList.no_list key = true
is_member cache list key = mem key (members cache list)

-- Whether the list that an entry names has its key.
abbrev pub is_listed : Cache → ℕ → Option Entry → Bool
is_listed cache key none = true
is_listed cache key (some entry) = is_member cache entry.in_list key

-- Each counter counts its list, and every entry of the lookup table is in the list that it names.
pub record IsCounted (cache : Cache) : Type 0 where
  pub counted_t1 : length cache._t1 ≡ cache.len_t1
  pub counted_t2 : length cache._t2 ≡ cache.len_t2
  pub counted_b1 : length cache._b1 ≡ cache.len_b1
  pub counted_b2 : length cache._b2 ≡ cache.len_b2
  pub listed : (key : ℕ) → is_listed cache key (find cache.map key) ≡ true

module _ (cache : Cache) (c : IsCounted cache) (key : ℕ) where
  -- One list grows, and the entry names it.
  added_listed :
      (list : CacheList) (k : ℕ)
      → is_listed (cache_list_add list key cache) k (find (cache_list_add list key cache).map k)
        ≡ true
  unfolding cache_list_add
  added_listed CacheList.no_list k = c.listed k
  added_listed CacheList.t1 k =
      ground (arith, c.listed k, find-change (listed_in CacheList.t1) key cache.map k)
  added_listed CacheList.t2 k =
      ground (arith, c.listed k, find-change (listed_in CacheList.t2) key cache.map k)
  added_listed CacheList.b1 k =
      ground (arith, c.listed k, find-change (listed_in CacheList.b1) key cache.map k)
  added_listed CacheList.b2 k =
      ground (arith, c.listed k, find-change (listed_in CacheList.b2) key cache.map k)

  pub cache_list_add-IsCounted : (list : CacheList) → IsCounted (cache_list_add list key cache)
  unfolding cache_list_add
  cache_list_add-IsCounted list = record {
    counted_t1 = ground (arith, c.counted_t1);
    counted_t2 = ground (arith, c.counted_t2);
    counted_b1 = ground (arith, c.counted_b1);
    counted_b2 = ground (arith, c.counted_b2);
    listed = added_listed list;
  }

  -- One list shrinks, and the entry names none.
  deleted_listed :
      (list : CacheList) (k : ℕ)
      → is_listed (cache_list_del list key cache) k (find (cache_list_del list key cache).map k)
        ≡ true
  unfolding cache_list_del
  deleted_listed list k = elim (Bool-cases (key == k)) [
    | inl same ↦
        ground (arith, c.listed k, find-change (listed_in CacheList.no_list) key cache.map k)
    | inr other ↦ ground (
      arith,
      c.listed k,
      find-change (listed_in CacheList.no_list) key cache.map k,
      mem-remove k key cache._t1 other,
      mem-remove k key cache._t2 other,
      mem-remove k key cache._b1 other,
      mem-remove k key cache._b2 other,
    )
  ]

  pub cache_list_del-IsCounted :
      (list : CacheList)
      → is_member cache list key ≡ true
      → IsCounted (cache_list_del list key cache)
  unfolding cache_list_del
  cache_list_del-IsCounted list h = record {
    counted_t1 = ground (arith, c.counted_t1, length-remove key cache._t1);
    counted_t2 = ground (arith, c.counted_t2, length-remove key cache._t2);
    counted_b1 = ground (arith, c.counted_b1, length-remove key cache._b1);
    counted_b2 = ground (arith, c.counted_b2, length-remove key cache._b2);
    listed = deleted_listed list;
  }

  -- A change of an entry that keeps its list.
  pub change-IsCounted :
      (f : Entry → Entry)
      → ((e : Entry) → (f e).in_list ≡ e.in_list)
      → IsCounted (record cache { map = change f key cache.map })
  change-IsCounted f same = record {
    counted_t1 = c.counted_t1;
    counted_t2 = c.counted_t2;
    counted_b1 = c.counted_b1;
    counted_b2 = c.counted_b2;
    listed = λ k. listed_changed k (find cache.map k) (c.listed k) (find-change f key cache.map k);
  }
    where
      listed_changed :
          (k : ℕ) (o : Option Entry)
          → is_listed cache k o ≡ true
          → find (change f key cache.map) k ≡ (if key == k then map_option f o else o)
          → is_listed cache k (find (change f key cache.map) k) ≡ true
      listed_changed k none h e = ground arith
      listed_changed k (some entry) h e = ground (arith, same entry)

  pub erase-IsCounted : IsCounted (record cache { map = erase key cache.map })
  erase-IsCounted = record {
    counted_t1 = c.counted_t1;
    counted_t2 = c.counted_t2;
    counted_b1 = c.counted_b1;
    counted_b2 = c.counted_b2;
    listed = λ k. ground (arith, c.listed k, find-erase key cache.map k);
  }
