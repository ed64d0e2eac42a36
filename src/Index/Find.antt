-- ===== src/Index/Find.antt =====
-- src/kv_index/faunus_index.cpp: `find_node`, the search of the Faunus tree for the node of a level.
-- Other clients write meanwhile: what a read sees is given for each moment, and a read takes a
-- moment. The cache is given by its operations; an index without one has a cache that finds nothing.
pub mod Levels
pub mod Routes
pub mod Example
mod Tests
use faunus.Index.Internal.{Key, Header, InternalNode, next_address}
use faunus.Index.Leaf.{Value, LeafNode}
use faunus.Index.Outcome.{Outcome, answer, failed, running}
use faunus.Prelude.{
  ℕ, zero, suc, ◌+◌, Bool, true, false, not, ◌&&◌, ◌||◌, Option, none, some, ltb, leb, ◌==◌,
  if◌then◌else◌,
}
use faunus.Rdma.GlobalAddress.{GlobalAddress}

pub record KvItem : Type 0 where
  pub key : Key
  pub value : Value

-- What the memory servers hold at an address, by the type that it is read with.
pub record Memory : Type 0 where
  pub root : GlobalAddress
  pub internal : GlobalAddress → InternalNode
  pub leaf : GlobalAddress → LeafNode
  pub item : GlobalAddress → KvItem

abbrev pub History : Type 0
History = ℕ → Memory

pub data FindNodeResult : Type 0 where
  found locked no_such_level unknown : FindNodeResult

-- `Entry<Key, FaunusCacheItem>`: `entry` stands for the pointer, by which it is invalidated.
pub record CachedEntry : Type 0 where
  pub entry : ℕ
  pub address : GlobalAddress
  pub node : InternalNode

-- `FaunusCache`: what `search` returns, and the cache after each operation.
pub record Cache : Type 1 where
  pub C : Type 0
  pub search : C → Key → Option CachedEntry × C
  pub add : C → Key → Key → GlobalAddress → InternalNode → C
  pub invalidate : C → ℕ → C

-- The guard of the result LOCKED.
unfoldable pub is_blocked : ℕ → Bool → Header → Bool
is_blocked level from_smo header =
    not (header.lock == 0) && (not from_smo || ltb level header.level)

-- What the loop does with a node: it ends, and may drop the cached entry, or it goes on to a child.
pub data Visit : Type 0 where
  ends : (result : FindNodeResult) (address : GlobalAddress) (drops : Bool) → Visit
  goes : (address : GlobalAddress) → Visit
  fails : Visit

unfoldable pub visit : Key → ℕ → Bool → Bool → GlobalAddress → InternalNode → Visit
unfolding is_blocked
visit key level from_smo in_root address node =
    let next = next_address node key in
    if is_blocked level from_smo node.header
    then ends locked address true
    else if node.header.level == level
    then ends found address false
    else if ltb node.header.level level
    then (if in_root then ends no_such_level address true else fails)
    else if address == next
    then fails
    else if node.header.level == level + 1
    then ends found next false
    else goes next

abbrev pub in_fence : Header → Key → Bool
in_fence header key = leb header.fence_first key && ltb key header.fence_second

module _ (cache : Cache) where
  -- What `find_node` leaves: its result, the two references, the cache, and the next moment.
  pub record Finding : Type 0 where
    pub result : FindNodeResult
    pub node_address : GlobalAddress
    pub cached_entry : Option CachedEntry
    pub state : cache.C
    pub now : ℕ

  unfoldable pub drop_entry : Bool → Option CachedEntry → cache.C → cache.C
  drop_entry drops none c = c
  drop_entry drops (some e) c = if drops then cache.invalidate c e.entry else c

  -- The node that has been read is added if it is of the level that the cache keeps.
  unfoldable pub add_read : Bool → GlobalAddress → InternalNode → cache.C → cache.C
  add_read from_smo address node c =
      if (node.header.lock == 0) && (node.header.level == (if from_smo then 2 else 1))
      then cache.add c node.header.fence_first node.header.fence_second address node
      else c

  unfoldable pub after_visit :
      Visit → Option CachedEntry → cache.C → ℕ → (GlobalAddress → Outcome Finding) → Outcome Finding
  unfolding drop_entry
  after_visit (ends result address drops) cached c now next = answer (record {
    result = result;
    node_address = address;
    cached_entry = cached;
    state = drop_entry drops cached c;
    now = now;
  })
  after_visit (goes address) cached c now next = next address
  after_visit fails cached c now next = failed

  -- The loop, from a node to be read on.
  unfoldable pub find_from :
      ℕ
      → History
      → Key
      → ℕ
      → Bool
      → Option CachedEntry
      → ℕ
      → cache.C
      → GlobalAddress
      → Bool
      → Outcome Finding
  unfolding visit add_read after_visit
  find_from zero history key level from_smo cached now c address in_root = running
  find_from (suc fuel) history key level from_smo cached now c address in_root =
      let node = (history now).internal address in
      let c' = add_read from_smo address node c in
      after_visit (visit key level from_smo in_root address node) cached c' (now + 1)
        (λ next. find_from fuel history key level from_smo cached (now + 1) c' next false)

  unfoldable pub from_root :
      ℕ → History → Key → ℕ → Bool → Option CachedEntry → ℕ → cache.C → Outcome Finding
  unfolding find_from
  from_root fuel history key level from_smo cached now c =
      find_from fuel history key level from_smo cached (now + 1) c (history now).root true

  -- With the entry that the cache has for the key: an entry that is of use is visited first.
  unfoldable pub from_cached :
      ℕ → History → Key → ℕ → Bool → CachedEntry → ℕ → cache.C → Outcome Finding
  unfolding from_root
  from_cached fuel history key level from_smo e now c =
      let header = e.node.header in
      let uncached =
        from_root fuel history key level from_smo (some e) now (cache.invalidate c e.entry) in
      let below =
        after_visit (visit key level from_smo false e.address e.node) (some e) c now
          (λ next. find_from fuel history key level from_smo (some e) now c next false) in
      if not (in_fence header key)
      then failed
      else if leb level header.level && ((header.lock == 0) || from_smo)
      then if header.level == level
        then answer (record {
          result = found;
          node_address = e.address;
          cached_entry = some e;
          state = c;
          now = now;
        })
        else below
      else uncached

  unfoldable pub after_cache :
      ℕ → History → Key → ℕ → Bool → ℕ → Option CachedEntry × cache.C → Outcome Finding
  unfolding from_cached from_root
  after_cache fuel history key level from_smo now (none, c) =
      from_root fuel history key level from_smo none now c
  after_cache fuel history key level from_smo now (some e, c) =
      from_cached fuel history key level from_smo e now c

  -- `find_node`
  unfoldable pub find_node : ℕ → History → Key → ℕ → Bool → Bool → ℕ → cache.C → Outcome Finding
  unfolding after_cache from_root
  find_node fuel history key level from_smo use_cache now c =
      let uncached = from_root fuel history key level from_smo none now c in
      if use_cache
      then after_cache fuel history key level from_smo now (cache.search c key)
      else uncached
