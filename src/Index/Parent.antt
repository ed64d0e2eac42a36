-- ===== src/Index/Parent.antt =====
-- src/kv_index/faunus_index.cpp: `insert_internal_entry`, as a loop of attempts, with the locks that it
-- takes and releases. What other clients write meanwhile is given for each moment. The counters and
-- pauses are left out.
pub mod Placed
pub mod Routed
mod Tests
use faunus.Index.Client.{after_find}
use faunus.Index.Find.{
  History, FindNodeResult, found, locked, no_such_level, unknown, CachedEntry, Cache, in_fence,
  Finding, drop_entry, find_node,
}
use faunus.Index.Internal.{
  Key, InternalNode, has_key, insert_entry, SplitNode, split_internal_node, new_root,
}
use faunus.Index.Outcome.{Outcome, answer, failed, running}
use faunus.Prelude.{
  ℕ, zero, suc, ◌+◌, Bool, true, false, not, Option, none, some, List, [], ◌∷◌, ltb, leb, ◌==◌,
  if◌then◌else◌,
}
use faunus.Rdma.GlobalAddress.{GlobalAddress}

-- What the client does with the lock of a node.
pub data LockOp : Type 0 where
  locks unlocks : (address : GlobalAddress) → LockOp

-- The end: a new root over the old one, an entry that was there, a node written with one more entry,
-- or the two nodes of a split. `moment` is that of the CAS of the lock.
pub data Placement : Type 0 where
  grows : (root : InternalNode) → Placement
  present : (address : GlobalAddress) → Placement
  places : (address : GlobalAddress) (moment : ℕ) (node : InternalNode) → Placement
  splits : (address : GlobalAddress) (moment : ℕ) (parts : SplitNode) → Placement

-- The number of children of a node, the greatest key, the fuel of a search, the key that a shift of
-- entries reads out of range, the address that the allocator returns for the node of a split at a
-- level, and the number of levels that an insertion may pass, which is fuel.
pub record Parameters : Type 0 where
  pub branch_factor : ℕ
  pub max_key : Key
  pub fuel : ℕ
  pub stray : Key
  pub new_node_address : ℕ → GlobalAddress
  pub levels : ℕ

abbrev pub split_at : GlobalAddress → ℕ → Option SplitNode → Option Placement
split_at address moment none = none
split_at address moment (some parts) = some (splits address moment parts)

-- The branches after the lock and the fences have been checked; `none` is an assertion that fails.
unfoldable pub place_entry :
    Parameters → Key → GlobalAddress → GlobalAddress → ℕ → InternalNode → Option Placement
unfolding has_key insert_entry
place_entry params key new_child_addr address moment node =
    let last = node.header.last_index in
    if has_key (last + 1) key node.entries
    then some (present address)
    else if leb params.branch_factor (last + 1)
    then split_at address moment
        (split_internal_node params.branch_factor node key new_child_addr params.stray)
    else some (places address moment (insert_entry node key new_child_addr params.stray))

-- A node is released at the end, after a split only when its middle key is in the level above.
abbrev pub ops_after : Placement → GlobalAddress → List LockOp → List LockOp
ops_after (grows root) address ops = unlocks address ∷ locks address ∷ ops
ops_after (present a) address ops = unlocks address ∷ locks address ∷ ops
ops_after (places a moment node) address ops = unlocks address ∷ locks address ∷ ops
ops_after (splits a moment parts) address ops = locks address ∷ ops

-- What `insert_internal_entry` did at each level, from the one asked for up, and with the locks, last
-- first; `none` if the attempts are used up.
abbrev pub Inserted : Type 0
Inserted = Option (List Placement × List LockOp)

module _ (cache : Cache) where
  -- The variables that an attempt leaves to the next, with the lock operations so far, last first.
  pub record State : Type 0 where
    pub cached_entry : Option CachedEntry
    pub state : cache.C
    pub now : ℕ
    pub lock_ops : List LockOp

  pub data Turn : Type 0 where
    done : (placement : Placement) (st : State) → Turn
    again : (st : State) → Turn

  unfoldable pub after_place : Option Placement → GlobalAddress → State → Outcome Turn
  after_place none address st = failed
  after_place (some placement) address st =
      answer (done placement (record st { lock_ops = ops_after placement address st.lock_ops }))

  -- The CAS of the lock and the read of the node that `find_node` reports.
  unfoldable pub lock_and_place :
      Parameters → History → Key → GlobalAddress → ℕ → List LockOp → Finding cache → Outcome Turn
  unfolding place_entry after_place
  lock_and_place params history key new_child_addr level ops f =
      let address = f.node_address in
      let word = ((history f.now).internal address).header.lock in
      let node = (history (f.now + 1)).internal address in
      let ops' = unlocks address ∷ locks address ∷ ops in
      if not (word == 0)
      then answer (
          again (record {
            cached_entry = f.cached_entry;
            state = f.state;
            now = f.now + 2;
            lock_ops = ops;
          }))
      else if not (node.header.level == level)
      then failed
      else if not (in_fence node.header key)
      then answer (
          again (record {
            cached_entry = f.cached_entry;
            state = f.state;
            now = f.now + 3;
            lock_ops = ops';
          }))
      else after_place (place_entry params key new_child_addr address f.now node) address (record {
        cached_entry = f.cached_entry;
        state = f.state;
        now = f.now + 3;
        lock_ops = ops;
      })

  -- `update_root_offset`: it reads the root pointer again, and the CAS that follows succeeds if the
  -- pointer is still what this read.
  unfoldable pub update_root_offset : History → ℕ → Bool
  update_root_offset history now = (history (now + 1)).root == (history now).root

  -- `setup_new_root`: the read of the root, the write of the node, and the root pointer.
  unfoldable pub setup_new_root :
      Parameters → History → Key → GlobalAddress → ℕ → List LockOp → Finding cache → Outcome Turn
  unfolding new_root update_root_offset
  setup_new_root params history key right_child level ops f =
      let root =
        new_root params.branch_factor key (history f.now).root right_child level params.max_key in
      if update_root_offset history (f.now + 2)
      then answer (
          done (grows root) (record {
            cached_entry = f.cached_entry;
            state = f.state;
            now = f.now + 4;
            lock_ops = ops;
          }))
      else failed

  unfoldable pub after_finding :
      Parameters
      → History
      → Key
      → GlobalAddress
      → ℕ
      → List LockOp
      → Finding cache
      → FindNodeResult
      → Outcome Turn
  unfolding lock_and_place setup_new_root
  after_finding params history key new_child_addr level ops f found =
      lock_and_place params history key new_child_addr level ops f
  after_finding params history key new_child_addr level ops f locked = answer (
      again
        (record { cached_entry = f.cached_entry; state = f.state; now = f.now; lock_ops = ops }))
  after_finding params history key new_child_addr level ops f no_such_level =
      setup_new_root params history key new_child_addr level ops f
  after_finding params history key new_child_addr level ops f unknown = failed

  -- An attempt. Only the first uses the cache, and a later one drops the entry used before.
  unfoldable pub turn : Parameters → History → Key → GlobalAddress → ℕ → ℕ → State → Outcome Turn
  unfolding after_finding after_find find_node drop_entry
  turn params history key new_child_addr level attempt st =
      let c = drop_entry cache (ltb 0 attempt) st.cached_entry st.state in
      after_find cache (find_node cache params.fuel history key level true (attempt == 0) st.now c)
        (λ f. after_finding params history key new_child_addr level st.lock_ops f f.result)

  -- What the loop leaves: `none` if all attempts are used up.
  abbrev pub Returned : Type 0
  Returned = Option (Placement × State)

  unfoldable pub after_turn : Outcome Turn → (State → Outcome Returned) → Outcome Returned
  after_turn (answer (done placement st)) next = answer (some (placement, st))
  after_turn (answer (again st)) next = next st
  after_turn failed next = failed
  after_turn running next = running

  -- The loop, with the attempts left.
  unfoldable pub insert_loop :
      Parameters → History → Key → GlobalAddress → ℕ → ℕ → ℕ → State → Outcome Returned
  unfolding turn after_turn
  insert_loop params history key new_child_addr level zero attempt st = answer none
  insert_loop params history key new_child_addr level (suc left) attempt st =
      after_turn (turn params history key new_child_addr level attempt st)
        (λ st'. insert_loop params history key new_child_addr level left (attempt + 1) st')

  -- The end of a split: the insertion in the level above is asserted, and the node released.
  unfoldable pub after_above : GlobalAddress → Placement → Outcome Inserted → Outcome Inserted
  after_above address placement (answer (some (above, ops))) =
      answer (some (placement ∷ above, unlocks address ∷ ops))
  after_above address placement (answer none) = failed
  after_above address placement failed = failed
  after_above address placement running = running

  -- What follows the loop, given the insertion in the level above.
  unfoldable pub after_loop :
      Outcome Returned → (SplitNode → State → Outcome Inserted) → Outcome Inserted
  unfolding after_above
  after_loop failed above = failed
  after_loop running above = running
  after_loop (answer none) above = answer none
  after_loop (answer (some (grows root, st))) above = answer (some (grows root ∷ [], st.lock_ops))
  after_loop (answer (some (present address, st))) above =
      answer (some (present address ∷ [], st.lock_ops))
  after_loop (answer (some (places address moment node, st))) above =
      answer (some (places address moment node ∷ [], st.lock_ops))
  after_loop (answer (some (splits address moment parts, st))) above =
      after_above address (splits address moment parts) (above parts st)

  -- The loop, which has 1,000,000 attempts, and what follows it, with the levels left.
  unfoldable pub insert_levels :
      Parameters
      → History
      → ℕ
      → Key
      → GlobalAddress
      → ℕ
      → ℕ
      → cache.C
      → List LockOp
      → Outcome Inserted
  unfolding after_loop
  insert_levels params history zero key new_child_addr level now c ops = running
  insert_levels params history (suc levels) key new_child_addr level now c ops =
      after_loop
        (insert_loop params history key new_child_addr level 1_000_000 0
          (record { cached_entry = none; state = c; now = now; lock_ops = ops }))
        (λ parts st.
          insert_levels params history levels parts.middle_key (params.new_node_address level)
            (level + 1) st.now st.state st.lock_ops)

  -- `insert_internal_entry`
  unfoldable pub insert_internal_entry :
      Parameters → History → Key → GlobalAddress → ℕ → ℕ → cache.C → Outcome Inserted
  unfolding insert_levels
  insert_internal_entry params history key new_child_addr level now c =
      insert_levels params history params.levels key new_child_addr level now c []
