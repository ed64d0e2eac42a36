-- ===== src/Index/Cached.antt =====
-- src/kv_index/faunus_index.hpp: `FaunusCache`, the range cache of tree nodes, as the cache that
-- `find_node` uses.
pub mod Finds
mod Tests
use faunus.Cache.Counters.{Clock, next_timestamp}
use faunus.Cache.Range
use faunus.Cache.Range.{Entry, RangeCache, SkipList, RetiredQueue}
use faunus.Index.Find.{CachedEntry, Cache}
use faunus.Index.Internal.{Key, InternalNode}
use faunus.Prelude.{ℕ, ◌+◌, ◌-◌, ◌%◌, ◌^◌, bit_and, ◌==◌, Option, none, some, if◌then◌else◌}
use faunus.Rdma.Allocators.Slab.{Queue, Allocator, SlabAllocator}
use faunus.Rdma.GlobalAddress.{GlobalAddress}

-- `FaunusCacheItem`
abbrev pub FaunusCacheItem : Type 0
FaunusCacheItem = GlobalAddress × InternalNode

unfoldable pub cached_entry : Option (ℕ × Entry FaunusCacheItem) → Option CachedEntry
cached_entry none = none
cached_entry (some (e, entry)) =
    some (record { entry = e; address = entry.item.0; node = entry.item.1 })

-- `xorshift_state` stands for the state of the thread's random generator at each addition.
module _ (skip_list : SkipList) (retired : RetiredQueue) (queue : Queue) (backing : Allocator)
    (free_count : SlabAllocator queue backing → ℕ)
    (xorshift_state : RangeCache FaunusCacheItem skip_list retired queue backing → ℕ) where
  -- The cache with the access counter and the clock of the thread.
  pub record FaunusCache : Type 0 where
    pub cache : RangeCache FaunusCacheItem skip_list retired queue backing
    pub access_counter : ℕ
    pub clock : Clock

  -- A hit counts, and draws a timestamp if one is due.
  unfoldable pub counted :
      Option (ℕ × Entry FaunusCacheItem)
      → RangeCache FaunusCacheItem skip_list retired queue backing
      → FaunusCache
      → FaunusCache
  unfolding next_timestamp
  counted none cache c = record c { cache = cache }
  counted (some hit) cache c =
      let due = bit_and c.access_counter (c.cache.access_update_interval - 1) == 0 in
      record {
        cache = cache;
        access_counter = (c.access_counter + 1) % 2 ^ 64;
        clock = if due then (next_timestamp c.clock).1 else c.clock;
      }

  unfoldable pub search : FaunusCache → Key → Option CachedEntry × FaunusCache
  unfolding cached_entry Range.search next_timestamp counted
  search c key =
      let (hit, cache') =
        Range.search FaunusCacheItem skip_list retired queue backing c.access_counter
          (next_timestamp c.clock).0 c.cache key in
      (cached_entry hit, counted hit cache' c)

  abbrev pub faunus_cache : Cache
  faunus_cache = record {
    C = FaunusCache;
    search = search;
    add = λ c start end address node. record c {
      cache =
          Range.add FaunusCacheItem skip_list retired queue backing free_count
            (xorshift_state c.cache) start end (address, node) c.cache;
    };
    invalidate = λ c e. record c {
      cache = Range.invalidate FaunusCacheItem skip_list retired queue backing c.cache e;
    };
  }
