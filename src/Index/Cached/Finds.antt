-- ===== src/Index/Cached/Finds.antt =====
-- `find_node` with the range cache.
use faunus.Cache.Range
use faunus.Cache.Range.{Entry, RangeCache, SkipList, RetiredQueue}
use faunus.Cache.Range.Table.{AllEntries}
use faunus.Cache.Range.Entries.{search-AllEntries}
use faunus.Cache.Counters.{next_timestamp}
use faunus.Index.Cached.{FaunusCacheItem, cached_entry, FaunusCache, search, faunus_cache}
use faunus.Index.Find.Levels.{Fits, Levelled, EntryFits, IsRight, find_node-IsRight}
use faunus.Index.Find.{History, CachedEntry, Finding, find_node}
use faunus.Index.Internal.{Key}
use faunus.Index.Outcome.{answer}
use faunus.Prelude.{ℕ, ◌≤◌, ◌<◌, ◌≡◌, refl, sym, ap, Bool, Option, none, some, arith}
use faunus.Rdma.Allocators.Slab.{Queue, Allocator, SlabAllocator}
use faunus.Rdma.GlobalAddress.{GlobalAddress}
use mathlib.Core.Option

-- An entry's range is the fences of its node, which fits for each key in them, at an address whose
-- level the fuel exceeds.
pub record HoldsNode (level fuel : ℕ) (height : GlobalAddress → ℕ) (start end : Key)
    (item : FaunusCacheItem) : Type 0 where
  pub first : item.1.header.fence_first ≡ start
  pub second : item.1.header.fence_second ≡ end
  pub fits : (key : Key) → start ≤ key → key < end → Fits key level height item.0 item.1
  pub enough : height item.0 < fuel

of_hit :
    (hit : Option (ℕ × Entry FaunusCacheItem)) (e : CachedEntry)
    → cached_entry hit ≡ some e
    → (a : ℕ) × (entry : Entry FaunusCacheItem) × (hit ≡ some (a, entry))
      × (e.address ≡ entry.item.0)
      × (e.node ≡ entry.item.1)
unfolding cached_entry
of_hit none e h = absurd cc
of_hit (some (a, entry)) e h =
    let made : CachedEntry = record { entry = a; address = entry.item.0; node = entry.item.1 } in
    let same : made ≡ e =
      ap (λ (o : Option CachedEntry). Option.get_or {A = CachedEntry} o made) h in
    (
      a,
      entry,
      refl,
      ap (λ (c : CachedEntry). c.address) (sym same),
      ap (λ (c : CachedEntry). c.node) (sym same),
    )

fitting :
    (skip_list : SkipList) (retired : RetiredQueue) (queue : Queue) (backing : Allocator)
    (level fuel : ℕ) (height : GlobalAddress → ℕ)
    (cache : RangeCache FaunusCacheItem skip_list retired queue backing) (key : Key)
    (counter timestamp : ℕ) (e : CachedEntry)
    → AllEntries FaunusCacheItem skip_list retired queue backing (HoldsNode level fuel height) cache
    → cached_entry
        (Range.search FaunusCacheItem skip_list retired queue backing counter timestamp cache key).0
      ≡ some e
    → EntryFits key level height e × (height e.address < fuel)
fitting skip_list retired queue backing level fuel height cache key counter timestamp e all h =
    let (a, entry, hit, address, node) = of_hit _ e h in
    let (holds, inside) =
      search-AllEntries FaunusCacheItem skip_list retired queue backing
        (HoldsNode level fuel height) cache counter timestamp key a entry all hit in
    let low : entry.start ≤ key = ground arith in
    let high : key < entry.end = ground arith in
    rw (address, node)
      (
        record { fence = rw (holds.first, holds.second) inside; fits = holds.fits key low high },
        holds.enough,
      )

-- `find_node` with the range cache ends, and at the level asked for, whatever other clients write
-- between its reads: for nodes whose levels do not change, and whose children that the key leads to
-- stand one level lower, if every entry of the cache has the range of its node's fences and a node
-- that fits for the keys in them, with fuel above the levels of the root and of the entries. This
-- needs nothing of the skip list, the queues and the allocator.
pub find_node-HoldsNode :
    (skip_list : SkipList) (retired : RetiredQueue) (queue : Queue) (backing : Allocator)
    (free_count : SlabAllocator queue backing → ℕ)
    (xorshift_state : RangeCache FaunusCacheItem skip_list retired queue backing → ℕ)
    (history : History) (key : Key) (level : ℕ) (height : GlobalAddress → ℕ)
    (from_smo use_cache : Bool) (fuel now : ℕ)
    (c : FaunusCache skip_list retired queue backing free_count xorshift_state)
    → Levelled history key level height
    → height (history now).root < fuel
    → AllEntries FaunusCacheItem skip_list retired queue backing
        (HoldsNode level fuel height)
        c.cache
    → let cache = faunus_cache skip_list retired queue backing free_count xorshift_state in
      (f : Finding cache) × (find_node cache fuel history key level from_smo use_cache now c
        ≡ answer f)
      × IsRight history level height f.result f.node_address
unfolding search
find_node-HoldsNode skip_list retired queue backing free_count xorshift_state history key level
      height from_smo use_cache fuel now c levelled enough all =
    find_node-IsRight (faunus_cache skip_list retired queue backing free_count xorshift_state)
      history key level height from_smo use_cache fuel now c levelled enough
      (λ e h.
        fitting skip_list retired queue backing level fuel height c.cache key c.access_counter
          (next_timestamp c.clock).0 e all h)
