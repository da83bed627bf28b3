-- ===== src/Cache/Bounds.antt =====
-- The bounds of the adaptive replacement cache of src/cache.c.
use spdy_test.Prelude.{
  ℕ, ◌+◌, ◌*◌, ◌%◌, ◌^◌, ◌≤◌, ◌<◌, some, false, leb, ltb, ◌≡◌, arith, Bool-cases, inl, inr,
}
use spdy_test.Cache.{Cache, replace, on_new_added}
use spdy_test.Cache.Counted.{IsCounted}
use spdy_test.Cache.Moves.{replace_lem}
use spdy_test.Cache.Release.{release_t1, release_b1, release_b2}

-- With `room` objects to come, the cache keeps to its size: T1 and T2 hold no more than `max_size`
-- objects, neither do T1 and its ghosts, and there are no more than twice as many in all.
pub record HasRoom (cache : Cache) (room : ℕ) : Type 0 where
  pub positive : 1 ≤ cache.max_size
  pub held : cache.len_t1 + cache.len_t2 + room ≤ cache.max_size
  pub l1 : cache.len_t1 + cache.len_b1 + room ≤ cache.max_size
  pub total :
      cache.len_t1 + cache.len_b1 + (cache.len_t2 + cache.len_b2) + room ≤ 2 * cache.max_size
  pub target : cache.target_t1 ≤ cache.max_size

-- Eviction makes room in T1 and T2.
replace_room :
    (cache : Cache)
    → IsCounted cache
    → (1 ≤ cache.max_size)
      × (cache.len_t1 < cache.max_size)
      × (cache.len_t1 + cache.len_t2 ≤ cache.max_size)
      × (cache.len_t1 + cache.len_b1 + 1 ≤ cache.max_size)
      × (cache.len_t1 + cache.len_b1 + (cache.len_t2 + cache.len_b2) + 1 ≤ 2 * cache.max_size)
      × (cache.target_t1 ≤ cache.max_size)
    → IsCounted (replace cache false) × HasRoom (replace cache false) 1
replace_room cache c fits =
    let (k, r) = replace_lem cache c false in
    (
      k,
      elim r [
        | inl (one, s) ↦ ground (arith, s, fits)
        | inr (few, s) ↦ ground (arith, s, few, fits)
      ],
    )

-- A counter of events is not looked at by any invariant.
missed-IsCounted :
    (cache : Cache) (n : ℕ) → IsCounted cache → IsCounted (record cache { count_miss = n })
missed-IsCounted cache n c = record {
  counted_t1 = c.counted_t1;
  counted_t2 = c.counted_t2;
  counted_b1 = c.counted_b1;
  counted_b2 = c.counted_b2;
  listed = λ k. ground (arith, c.listed k);
}

pub room_made :
    (cache0 : Cache)
    → IsCounted cache0
    → HasRoom cache0 0
    → (cache' : Cache) × (on_new_added cache0 ≡ some cache') × IsCounted cache' × HasRoom cache' 1
unfolding on_new_added
room_made cache0 c0 f =
    let cache = record cache0 { count_miss = (cache0.count_miss + 1) % 2 ^ 32 } in
    let c = missed-IsCounted cache0 ((cache0.count_miss + 1) % 2 ^ 32) c0 in
    let m = cache.max_size in
    let len_l1 = cache.len_t1 + cache.len_b1 in
    let total = len_l1 + (cache.len_t2 + cache.len_b2) in
    elim (Bool-cases (leb m len_l1)) [
      | inl full ↦ elim (Bool-cases (ltb cache.len_t1 m)) [
        | inl ghosts ↦
            let (c1, e, k, s) = release_b1 cache c (ground (arith, f)) in
            let (k', r) = replace_room c1 k (ground (arith, f, s)) in
            (replace c1 false, rw (full, ghosts, on_new_added) (rw e), k', r)
        | inr no_ghosts ↦
            let (c1, e, k, s) = release_t1 cache c (ground (arith, f)) in
            (c1, rw (full, no_ghosts, on_new_added) (rw e), k, ground (arith, f, s))
      ]
      | inr free ↦ elim (Bool-cases (leb m total)) [
        | inl many ↦ elim (Bool-cases (leb (2 * m) total)) [
          | inl all ↦
              let (c1, e, k, s) = release_b2 cache c (ground (arith, f)) in
              let (k', r) = replace_room c1 k (ground (arith, f, s)) in
              (replace c1 false, rw (free, many, all, on_new_added) (rw e), k', r)
          | inr some_left ↦
              let (k', r) = replace_room cache c (ground (arith, f)) in
              (replace cache false, rw (free, many, some_left, on_new_added), k', r)
        ]
        | inr few ↦ (cache, rw (free, few, on_new_added), c, ground (arith, f))
      ]
    ]
