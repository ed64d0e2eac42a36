-- ===== src/Index/LeafSplit.antt =====
-- src/kv_index/faunus_index.cpp: `split_leaf` as the sequence of its verbs on the leaf, with the locks
-- of the node and of its slots. Other clients work on the slots meanwhile: what they do is given for
-- the time before each verb. The pointer to the new leaf is what the allocator returned.
pub mod Words
pub mod Slots
pub mod Ends
pub mod Safety
mod Tests
use faunus.Index.Find.{History, Cache}
use faunus.Index.Internal.{Key}
use faunus.Index.KvBlock.{KvBlock, get_addr, is_free, is_locked, add_lock, drop_lock}
use faunus.Index.Leaf.{LeafNode, SplitLeaf, block_at, collect, distribute}
use faunus.Index.Outcome.{Outcome, answer, failed, running}
use faunus.Index.Parent.{Parameters, Inserted, insert_internal_entry}
use faunus.Prelude.{
  ℕ, zero, suc, ◌+◌, ◌-◌, ◌/◌, ◌%◌, ◌^◌, Bool, true, false, not, ◌&&◌, Option, none, some, List, [],
  ◌∷◌, ◌++◌, length, set, fill, leb, ◌==◌, if◌then◌else◌,
}
use faunus.Rdma.GlobalAddress.{GlobalAddress}

-- `trylock_node`: the CAS of the lock word from 0 to 1.
unfoldable pub trylock_node : LeafNode → Bool × LeafNode
trylock_node leaf =
    if leaf.header.lock == 0
    then (true, record leaf { header = record leaf.header { lock = 1 } })
    else (false, leaf)

-- What another client does: the CAS of a slot, or an attempt to lock the node.
pub data Access : Type 0 where
  cas_block : (index : ℕ) (expected desired : KvBlock) → Access
  try_lock : Access

unfoldable pub access : Access → LeafNode → LeafNode
unfolding trylock_node
access (cas_block index expected desired) leaf =
    if block_at leaf.kv_blocks index == expected
    then record leaf { kv_blocks = set leaf.kv_blocks index desired }
    else leaf
access try_lock leaf = (trylock_node leaf).1

unfoldable pub meanwhile : List Access → LeafNode → LeafNode
unfolding access
meanwhile [] leaf = leaf
meanwhile (a ∷ others) leaf = meanwhile others (access a leaf)

-- The verbs that change the leaf: a fetch-and-add of 1 or -1 on a slot, and of -1 on the lock word.
pub data LeafOp : Type 0 where
  add_block : (index : ℕ) (to_lock : Bool) → LeafOp
  release_node : LeafOp

-- `get_lock_unlock_kvblocks`
unfoldable pub get_lock_unlock_kvblocks : ℕ → Bool → List LeafOp
get_lock_unlock_kvblocks branch_factor to_lock = fill branch_factor 0 (λ i. add_block i to_lock)

-- `get_release_node_op`
abbrev pub get_release_node_op : LeafOp
get_release_node_op = release_node

unfoldable pub perform_leaf_op : LeafOp → LeafNode → LeafNode
unfolding add_lock drop_lock
perform_leaf_op (add_block i to_lock) leaf =
    let block = block_at leaf.kv_blocks i in
    record leaf {
      kv_blocks = set leaf.kv_blocks i (if to_lock then add_lock block else drop_lock block);
    }
perform_leaf_op release_node leaf = record leaf {
  header = record leaf.header { lock = (leaf.header.lock + (2 ^ 64 - 1)) % 2 ^ 64 };
}

abbrev pub Others : Type 0
Others = ℕ → List Access

-- A batch of them, from a moment on; before each verb come the accesses of the others.
unfoldable pub perform_leaf_batch : List LeafOp → Others → ℕ → LeafNode → LeafNode
unfolding perform_leaf_op meanwhile
perform_leaf_batch [] others now leaf = leaf
perform_leaf_batch (op ∷ ops) others now leaf =
    perform_leaf_batch ops others (now + 1) (perform_leaf_op op (meanwhile (others now) leaf))

-- The loop over the slots that have been read, from slot `i` on: the keys of the items of the taken
-- ones, each with its block. Items do not change while a slot points to them.
unfoldable pub taken_items : (GlobalAddress → Key) → ℕ → ℕ → List KvBlock → List (Key × KvBlock)
unfolding is_free get_addr
taken_items key_at zero i blocks = []
taken_items key_at (suc n) i blocks =
    let rest = taken_items key_at n (i + 1) blocks in
    let block = block_at blocks i in
    if is_free block then rest else (key_at (get_addr block), block) ∷ rest

-- Its assertion that each slot is locked.
unfoldable pub all_locked : ℕ → ℕ → List KvBlock → Bool
unfolding is_locked
all_locked zero i blocks = true
all_locked (suc n) i blocks = is_locked (block_at blocks i) && all_locked n (i + 1) blocks

-- What `setDifferentRandomFpAddr` leaves in each slot that is cleared, of the leaf and of the new one.
pub record Draws : Type 0 where
  pub left : ℕ → KvBlock
  pub right : ℕ → KvBlock

-- The leaf as read under the locks, the leaf in memory when it is written, and what is written.
pub record Written : Type 0 where
  pub seen : LeafNode
  pub replaced : LeafNode
  pub parts : SplitLeaf

-- How `split_leaf` returns, with the leaf in memory then: false at once, false with too few entries,
-- or true.
pub data SplitReturn : Type 0 where
  busy : (leaf : LeafNode) → SplitReturn
  too_few : (leaf : LeafNode) → SplitReturn
  has_split : (written : Written) (leaf : LeafNode) → SplitReturn

-- The insertion into the parent, which the code asserts, and the release of the node.
unfoldable pub after_parent : Written → List Access → Outcome Inserted → Outcome SplitReturn
unfolding meanwhile perform_leaf_op
after_parent written between (answer (some placed)) =
    answer (
      has_split written
        (perform_leaf_op get_release_node_op (meanwhile between written.parts.left)))
after_parent written between (answer none) = failed
after_parent written between failed = failed
after_parent written between running = running

-- The batch that locks the slots of a leaf whose node is locked, and the read at its end.
unfoldable pub lock_and_read : ℕ → Others → LeafNode → LeafNode
lock_and_read branch_factor others leaf =
    meanwhile (others branch_factor)
      (perform_leaf_batch (get_lock_unlock_kvblocks branch_factor true) others 0 leaf)

-- The entries of the leaf that was read, by their keys.
unfoldable pub entries_of : ℕ → (GlobalAddress → Key) → LeafNode → List (Key × KvBlock)
entries_of branch_factor key_at seen =
    collect (taken_items key_at branch_factor 0 seen.kv_blocks) []

module _ (cache : Cache) (params : Parameters) (history : History) (key_at : GlobalAddress → Key)
    (others : Others) (draws : Draws) (new_leaf_address : GlobalAddress) where
  -- From the entries on. `now` is the moment for the parent, `seen` the leaf as it was read.
  unfoldable pub split_entries_of :
      ℕ → cache.C → LeafNode → List (Key × KvBlock) → Outcome SplitReturn
  split_entries_of now c seen entries =
      let bf = params.branch_factor in
      if leb (length entries) (bf / 2)
      then answer (
          too_few (
            perform_leaf_batch (get_lock_unlock_kvblocks bf false ++ (get_release_node_op ∷ []))
              others (bf + 1) seen))
      else let parts = distribute bf seen entries draws.left draws.right in
        after_parent
          (record { seen = seen; replaced = meanwhile (others (bf + 1)) seen; parts = parts })
          (others (bf + 2))
          (insert_internal_entry cache params history parts.middle_key new_leaf_address 1 now c)

  -- With the node locked.
  unfoldable pub split_locked : ℕ → cache.C → LeafNode → Outcome SplitReturn
  split_locked now c leaf =
      let bf = params.branch_factor in
      let seen = lock_and_read bf others leaf in
      if not (seen.header.lock == 0) && all_locked bf 0 seen.kv_blocks
      then split_entries_of now c seen (entries_of bf key_at seen)
      else failed

  -- `split_leaf`, on the leaf that its first CAS finds.
  unfoldable pub split_leaf : ℕ → cache.C → LeafNode → Outcome SplitReturn
  split_leaf now c leaf =
      let (success, leaf') = trylock_node leaf in
      if success then split_locked now c leaf' else answer (busy leaf')
