-- ===== src/Cache/Range.antt =====
-- src/cache/range_cache.hpp: `RangeCache`, with the accesses of one operation at a time. The skip list
-- is third-party code, and so is the queue of retired entries: each is given by its operations. An
-- entry stands for the address of its slab.
pub mod Table
pub mod Entries
pub mod Example
mod Tests
use faunus.Prelude.{
  ℕ, zero, suc, ◌+◌, ◌-◌, ◌*◌, ◌%◌, ◌/◌, ◌^◌, bit_and, bit_or, bit_xor, Bool, not, ◌&&◌, Option,
  none, some, List, [], ◌∷◌, get_or, get_elem?, ltb, leb, ◌==◌, if◌then◌else◌, ◌>>=◌,
}
use faunus.Cache.Counters.{tls_xorshift, scan_min_epoch, pick_layer}
use faunus.Rdma.Allocators.Slab.{Queue, Allocator, SlabAllocator, allocate_nogrowth, free}

pub record RetiredItem : Type 0 where
  pub offset : ℕ
  pub retire_epoch : ℕ

-- `ConcurrentQueue<RetiredItem>`: `try_dequeue` may fail.
pub record RetiredQueue : Type 1 where
  pub Q : Type 0
  pub enqueue : Q → RetiredItem → Q
  pub try_dequeue : Q → Option (RetiredItem × Q)

-- `skiplist_raw`, by the key that an entry starts at: the entry with the greatest start up to a key,
-- and an erasure that says whether the entry was there. `layer` lists the nodes of each layer.
pub record SkipList : Type 1 where
  pub L : Type 0
  pub find_smaller_or_equal : L → ℕ → Option ℕ
  pub insert : L → ℕ → ℕ → L
  pub erase_node : L → ℕ → Bool × L
  pub num_entries : L → ℕ
  pub layer_entries : L → List ℕ
  pub layer : L → ℕ → List ℕ

module _ (Item : Type 0) where
  pub record Entry : Type 0 where
    pub start : ℕ
    pub end : ℕ
    pub item : Item
    pub last_access : ℕ

module _ (Item : Type 0) (skip_list : SkipList) (retired : RetiredQueue) (queue : Queue)
    (backing : Allocator) where
  -- `epochs` are those of the thread records.
  pub record RangeCache : Type 0 where
    pub list : skip_list.L
    pub entries : ℕ → Option (Entry Item)
    pub entry_slab : SlabAllocator queue backing
    pub access_update_interval : ℕ
    pub global_epoch : ℕ
    pub epochs : List ℕ
    pub retired_q : retired.Q

  abbrev pub set_entry :
      (ℕ → Option (Entry Item)) → ℕ → Option (Entry Item) → ℕ → Option (Entry Item)
  set_entry entries e entry a = if a == e then entry else entries a

  unfoldable pub stamped : ℕ → ℕ → ℕ → Option (Entry Item) → RangeCache → RangeCache
  stamped counter timestamp e none cache = cache
  stamped counter timestamp e (some entry) cache =
      if bit_and counter (cache.access_update_interval - 1) == 0
      then record cache {
        entries = set_entry cache.entries e (some (record entry { last_access = timestamp }));
      }
      else cache

  -- `updateAccess`, with the thread's counter and the next timestamp.
  unfoldable pub update_access : ℕ → ℕ → ℕ → RangeCache → RangeCache
  unfolding stamped
  update_access counter timestamp e cache = stamped counter timestamp e (cache.entries e) cache

  abbrev pub has_key : Entry Item → ℕ → Bool
  has_key entry key = leb entry.start key && ltb key entry.end

  -- The entry that the skip list finds, if the key is within its range.
  unfoldable pub checked : RangeCache → ℕ → Option ℕ → Option (ℕ × Entry Item)
  checked cache key none = none
  checked cache key (some e) = do
    entry ← cache.entries e
    if has_key entry key then some (e, entry) else none

  unfoldable pub after_hit :
      ℕ → ℕ → Option (ℕ × Entry Item) → RangeCache → Option (ℕ × Entry Item) × RangeCache
  unfolding update_access
  after_hit counter timestamp none cache = (none, cache)
  after_hit counter timestamp (some (e, entry)) cache =
      (some (e, entry), update_access counter timestamp e cache)

  -- `search`: the entry, as the caller reads it, and the cache after.
  unfoldable pub search : ℕ → ℕ → RangeCache → ℕ → Option (ℕ × Entry Item) × RangeCache
  unfolding checked after_hit
  search counter timestamp cache key =
      after_hit counter timestamp
        (checked cache key (skip_list.find_smaller_or_equal cache.list key)) cache

  -- `retire_entry`
  unfoldable pub retire_entry : ℕ → RangeCache → RangeCache
  retire_entry offset cache = record cache {
    retired_q =
        retired.enqueue cache.retired_q
          (record { offset = offset; retire_epoch = cache.global_epoch });
  }

  -- `invalidate` of an entry that is not null
  unfoldable pub invalidate : RangeCache → ℕ → RangeCache
  unfolding retire_entry
  invalidate cache e =
      let (erased, list') = skip_list.erase_node cache.list e in
      let cache' = record cache { list = list' } in if erased then retire_entry e cache' else cache'

  unfoldable pub free_entry : ℕ → RangeCache → RangeCache
  unfolding free
  free_entry offset cache = record cache {
    entries = set_entry cache.entries offset none;
    entry_slab = free queue backing cache.entry_slab offset;
  }

  -- `try_reclaim_budgeted`: the batch, with the queue after.
  unfoldable pub dequeue_batch : ℕ → retired.Q → List RetiredItem × retired.Q
  dequeue_batch zero q = ([], q)
  dequeue_batch (suc budget) q = elim (retired.try_dequeue q) [
    | none ↦ ([], q)
    | some (item, q') ↦ let (batch, q'') = dequeue_batch budget q' in (item ∷ batch, q'')
  ]

  -- The loop over the batch: the entries retired before `min_epoch` are freed, the others listed.
  unfoldable pub free_batch : ℕ → List RetiredItem → RangeCache → List RetiredItem × RangeCache
  unfolding free_entry
  free_batch min_epoch [] cache = ([], cache)
  free_batch min_epoch (item ∷ batch) cache =
      let old = ltb item.retire_epoch min_epoch in
      let (kept, cache') =
        free_batch min_epoch batch (if old then free_entry item.offset cache else cache) in
      (if old then kept else item ∷ kept, cache')

  unfoldable pub enqueue_all : retired.Q → List RetiredItem → retired.Q
  enqueue_all q [] = q
  enqueue_all q (item ∷ items) = enqueue_all (retired.enqueue q item) items

  -- An epoch ends if an entry had to be kept.
  unfoldable pub keep_batch : List RetiredItem → RangeCache → RangeCache
  unfolding enqueue_all
  keep_batch [] cache = cache
  keep_batch (item ∷ items) cache = record cache {
    retired_q = enqueue_all cache.retired_q (item ∷ items);
    global_epoch = (cache.global_epoch + 1) % 2 ^ 64;
  }

  unfoldable pub reclaim_batch : ℕ → List RetiredItem → RangeCache → RangeCache
  unfolding free_batch keep_batch
  reclaim_batch min_epoch [] cache = cache
  reclaim_batch min_epoch (item ∷ batch) cache =
      let (kept, cache') = free_batch min_epoch (item ∷ batch) cache in keep_batch kept cache'

  unfoldable pub try_reclaim_budgeted : ℕ → RangeCache → RangeCache
  unfolding dequeue_batch reclaim_batch scan_min_epoch
  try_reclaim_budgeted budget cache =
      let (batch, q) = dequeue_batch budget cache.retired_q in
      let min_epoch = scan_min_epoch cache.global_epoch cache.epochs in
      reclaim_batch min_epoch batch (record cache { retired_q = q })

  unfoldable pub allocated : Entry Item → Option ℕ → RangeCache → RangeCache
  allocated entry none cache = cache
  allocated entry (some e) cache = record cache { entries = set_entry cache.entries e (some entry) }

  -- `allocEntry`
  unfoldable pub alloc_entry : Entry Item → RangeCache → Option ℕ × RangeCache
  unfolding allocate_nogrowth allocated
  alloc_entry entry cache =
      let (offset, slab) = allocate_nogrowth queue backing cache.entry_slab in
      (offset, allocated entry offset (record cache { entry_slab = slab }))

  -- `pick_victim_sample`, with the state of the thread's generator: a node of a layer, and the state
  -- after.
  unfoldable pub pick_victim_sample : ℕ → skip_list.L → Option ℕ × ℕ
  unfolding tls_xorshift pick_layer
  pick_victim_sample x list =
      let total = skip_list.num_entries list in
      let x1 = tls_xorshift x in
      let x2 = tls_xorshift x1 in
      let counts = skip_list.layer_entries list in
      let lvl = pick_layer (x1 % total) 0 0 counts in
      let idx = x2 % get_or counts lvl 0 in
      if total == 0 then (none, x) else (get_elem? (skip_list.layer list lvl) idx, x2)

  abbrev pub last_access_of : RangeCache → ℕ → ℕ
  last_access_of cache e = elim (cache.entries e) [ none ↦ 0 | some entry ↦ entry.last_access ]

  -- The older of two samples is erased and retired, as `invalidate` does it.
  unfoldable pub evict_older : Option ℕ → Option ℕ → RangeCache → RangeCache
  unfolding invalidate
  evict_older none v2 cache = cache
  evict_older (some v1) none cache = cache
  evict_older (some v1) (some v2) cache =
      invalidate cache (if ltb (last_access_of cache v1) (last_access_of cache v2) then v1 else v2)

  -- The second sample is drawn only after the first.
  abbrev pub drawn : Option ℕ → ℕ → ℕ → ℕ
  drawn none x1 x2 = x1
  drawn (some v1) x1 x2 = x2

  -- `evict_power_of_two`, with the number of free slabs that the slab allocator reports.
  unfoldable pub evict_power_of_two : ℕ → ℕ → RangeCache → RangeCache × ℕ
  unfolding pick_victim_sample evict_older
  evict_power_of_two free_count x cache =
      let (v1, x1) = pick_victim_sample x cache.list in
      let (v2, x2) = pick_victim_sample x1 cache.list in
      if not (free_count == 0) then (cache, x) else (evict_older v1 v2 cache, drawn v1 x1 x2)

  unfoldable pub linked : Option ℕ → Entry Item → RangeCache → RangeCache → RangeCache
  linked none entry cache again = again
  linked (some e) entry cache again = record cache {
    list = skip_list.insert cache.list entry.start e;
  }

  -- The loop of `add`, with the attempts left. `free_count` reads the slab allocator.
  unfoldable pub add_loop :
      (SlabAllocator queue backing → ℕ) → ℕ → ℕ → Entry Item → RangeCache → RangeCache
  unfolding alloc_entry try_reclaim_budgeted evict_power_of_two linked
  add_loop free_count zero x entry cache = cache
  add_loop free_count (suc attempts) x entry cache =
      let (offset, cache') = alloc_entry entry cache in
      let reclaimed = try_reclaim_budgeted 64 cache' in
      let (evicted, x') = evict_power_of_two (free_count reclaimed.entry_slab) x reclaimed in
      let again = add_loop free_count attempts x' entry evicted in linked offset entry cache' again

  -- `add`: the entry is dropped if three attempts find no slab.
  unfoldable pub add :
      (SlabAllocator queue backing → ℕ) → ℕ → ℕ → ℕ → Item → RangeCache → RangeCache
  unfolding add_loop
  add free_count x start end item cache =
      add_loop free_count 3 x (record { start = start; end = end; item = item; last_access = 0 })
        cache
