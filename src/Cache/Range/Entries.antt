-- ===== src/Cache/Range/Entries.antt =====
-- What holds of every entry of the cache stays true under its operations.
use faunus.Cache.Range.{
  SkipList, RetiredQueue, Entry, RangeCache, has_key, checked, search, invalidate, dequeue_batch,
  try_reclaim_budgeted, alloc_entry, evict_older, evict_power_of_two, add_loop, add, after_hit,
  linked,
}
use faunus.Cache.Counters.{scan_min_epoch}
use faunus.Prelude.{
  ℕ, zero, suc, ◌≡◌, refl, sym, ◌∙◌, true, Bool-cases, Option, none, some, ◌==◌, inl, inr,
  >>=-eq-some,
}
use faunus.Rdma.Allocators.Slab.{Queue, Allocator, SlabAllocator, allocate_nogrowth}
use mathlib.Core.Path.{subst}
use faunus.Cache.Range.Table.{
  AllEntries, All-after_hit, All-invalidate, All-reclaim_batch, All-allocated,
}

module _ (Item : Type 0) (skip_list : SkipList) (retired : RetiredQueue) (queue : Queue)
    (backing : Allocator) (P : ℕ → ℕ → Item → Type 0) where
  abbrev Cached : Type 0
  Cached = RangeCache Item skip_list retired queue backing

  abbrev pub Holds : Cached → Type 0
  Holds cache = AllEntries Item skip_list retired queue backing P cache

  All-alloc_entry :
      (entry : Entry Item) (cache : Cached)
      → P entry.start entry.end entry.item
      → Holds cache
      → Holds (alloc_entry Item skip_list retired queue backing entry cache).1
  unfolding alloc_entry
  All-alloc_entry entry cache fits all =
      let made = allocate_nogrowth queue backing cache.entry_slab in
      let cache' : Cached = record cache { entry_slab = made.1 } in
      All-allocated Item skip_list retired queue backing P entry made.0 cache' fits all

  All-try_reclaim :
      (budget : ℕ) (cache : Cached)
      → Holds cache
      → Holds (try_reclaim_budgeted Item skip_list retired queue backing budget cache)
  unfolding try_reclaim_budgeted
  All-try_reclaim budget cache all =
      let made = dequeue_batch Item skip_list retired queue backing budget cache.retired_q in
      let cache' : Cached = record cache { retired_q = made.1 } in
      All-reclaim_batch Item skip_list retired queue backing P
        (scan_min_epoch cache.global_epoch cache.epochs) made.0 cache' all

  All-evict_older :
      (v1 v2 : Option ℕ) (cache : Cached)
      → Holds cache
      → Holds (evict_older Item skip_list retired queue backing v1 v2 cache)
  unfolding evict_older
  All-evict_older none v2 cache all = all
  All-evict_older (some v1) none cache all = all
  All-evict_older (some v1) (some v2) cache all =
      All-invalidate Item skip_list retired queue backing P cache _ all

  All-evict :
      (free_count x : ℕ) (cache : Cached)
      → Holds cache
      → Holds (evict_power_of_two Item skip_list retired queue backing free_count x cache).0
  unfolding evict_power_of_two
  All-evict free_count x cache all = elim (Bool-cases (free_count == 0)) [
    | inl none_free ↦ rw none_free (All-evict_older _ _ cache all)
    | inr some_free ↦ rw some_free all
  ]

  All-linked :
      (o : Option ℕ) (entry : Entry Item) (cache again : Cached)
      → Holds cache
      → Holds again
      → Holds (linked Item skip_list retired queue backing o entry cache again)
  unfolding linked
  All-linked none entry cache again all all_again = all_again
  All-linked (some e) entry cache again all all_again = all

  All-add_loop :
      (free_count : SlabAllocator queue backing → ℕ) (attempts x : ℕ) (entry : Entry Item)
      (cache : Cached)
      → P entry.start entry.end entry.item
      → Holds cache
      → Holds (add_loop Item skip_list retired queue backing free_count attempts x entry cache)
  unfolding add_loop
  All-add_loop free_count zero x entry cache fits all = all
  All-add_loop free_count (suc attempts) x entry cache fits all =
      let made = alloc_entry Item skip_list retired queue backing entry cache in
      let reclaimed = try_reclaim_budgeted Item skip_list retired queue backing 64 made.1 in
      let evicted =
        evict_power_of_two Item skip_list retired queue backing (free_count reclaimed.entry_slab) x
          reclaimed in
      let with_entry = All-alloc_entry entry cache fits all in
      let after_reclaim = All-try_reclaim 64 made.1 with_entry in
      let after_evict = All-evict (free_count reclaimed.entry_slab) x reclaimed after_reclaim in
      All-linked made.0 entry made.1
        (add_loop Item skip_list retired queue backing free_count attempts evicted.1 entry
          evicted.0)
        with_entry (All-add_loop free_count attempts evicted.1 entry evicted.0 fits after_evict)

  hit_of :
      (counter timestamp : ℕ) (o : Option (ℕ × Entry Item)) (cache : Cached)
      → (after_hit Item skip_list retired queue backing counter timestamp o cache).0 ≡ o
  unfolding after_hit
  hit_of counter timestamp none cache = refl
  hit_of counter timestamp (some (e, entry)) cache = refl

  checked-lem :
      (cache : Cached) (key : ℕ) (o : Option ℕ) (a : ℕ) (entry : Entry Item)
      → Holds cache
      → checked Item skip_list retired queue backing cache key o ≡ some (a, entry)
      → P entry.start entry.end entry.item
        × (has_key Item skip_list retired queue backing entry key ≡ true)
  unfolding checked
  checked-lem cache key none a entry all h = absurd cc
  checked-lem cache key (some e) a entry all h =
      let (entry', there, h') = >>=-eq-some (cache.entries e) _ h in
      elim (Bool-cases (has_key Item skip_list retired queue backing entry' key)) [
        | inr outside ↦ absurd (let q = rw outside at h' in cc)
        | inl inside ↦
            let same : entry' ≡ entry = let q = rw inside at h' in cc in
            subst
              (λ (n : Entry Item).
                P n.start n.end n.item
                × (has_key Item skip_list retired queue backing n key ≡ true))
              same (all e entry' there, inside)
      ]

  -- Of an entry that a search finds it holds too, and the key is within its range.
  pub search-AllEntries :
      (cache : Cached) (counter timestamp key a : ℕ) (entry : Entry Item)
      → Holds cache
      → (search Item skip_list retired queue backing counter timestamp cache key).0
        ≡ some (a, entry)
      → P entry.start entry.end entry.item
        × (has_key Item skip_list retired queue backing entry key ≡ true)
  unfolding search
  search-AllEntries cache counter timestamp key a entry all h =
      let o = skip_list.find_smaller_or_equal cache.list key in
      let found = checked Item skip_list retired queue backing cache key o in
      checked-lem cache key o a entry all (sym (hit_of counter timestamp found cache) ∙ h)

  -- What holds of the range and the item of every entry still does after a search, an invalidation and
  -- an addition of which it holds, and a search finds only entries of which it holds and within whose
  -- range the key lies: whatever the skip list, the queues and the allocator do.
  pub AllEntries-operations :
      (cache : Cached) (counter timestamp key e x start end : ℕ) (item : Item)
      (free_count : SlabAllocator queue backing → ℕ)
      → Holds cache
      → P start end item
      → let (hit, searched) =
          search Item skip_list retired queue backing counter timestamp cache key in
        Holds searched
        × Holds (invalidate Item skip_list retired queue backing cache e)
        × Holds (add Item skip_list retired queue backing free_count x start end item cache)
        × ((a : ℕ) (entry : Entry Item)
            → hit ≡ some (a, entry)
            → P entry.start entry.end entry.item
              × (has_key Item skip_list retired queue backing entry key ≡ true))
  unfolding search add
  AllEntries-operations cache counter timestamp key e x start end item free_count all fits = (
    All-after_hit Item skip_list retired queue backing P counter timestamp _ cache all,
    All-invalidate Item skip_list retired queue backing P cache e all,
    All-add_loop free_count 3 x (record { start = start; end = end; item = item; last_access = 0 })
        cache fits all,
    λ a entry h. search-AllEntries cache counter timestamp key a entry all h,
  )
