-- ===== src/Index/Sherman/Locks.antt =====
-- src/kv_index/sherman_index.cpp: the locks of the pages. A lock is a word in remote memory, taken by
-- compare-and-swap with the tag of the compute server, and a node of the local lock manager before it.
pub mod Attempts
pub mod Unlock
mod Tests
use faunus.Prelude.{
  ℕ, zero, suc, ◌+◌, ◌/◌, ◌^◌, Bool, true, false, not, ◌||◌, Option, none, some, List, [], ◌∷◌, ltb,
  ◌==◌, if◌then◌else◌,
}
use faunus.Util.LocalLock.{LocalLockNode, can_hand_over, release}

-- The ends of `try_lock_address`, and `trying` after the words that are given.
pub data LockOutcome : Type 0 where
  locked : LockOutcome
  deadlock : LockOutcome
  trying : LockOutcome

-- The high halves, which name the compute server, are equal.
abbrev pub is_own : ℕ → ℕ → Bool
is_own word tag = word / 2 ^ 32 == tag / 2 ^ 32

-- The loop, over the words that its attempts find.
unfoldable pub lock_loop : ℕ → ℕ → ℕ → List ℕ → LockOutcome
lock_loop tag retry_cnt pre_conflict_tag [] = trying
lock_loop tag retry_cnt pre_conflict_tag (word ∷ words) =
    let changed = lock_loop tag 0 word words in
    let same = lock_loop tag (retry_cnt + 1) pre_conflict_tag words in
    if word == 0
    then locked
    else if is_own word tag
    then locked
    else if ltb 1_000_000 (retry_cnt + 1)
    then deadlock
    else if not (word == pre_conflict_tag)
    then changed
    else same

-- `try_lock_address`, where `handed` is the answer of the local lock manager, if there is one.
unfoldable pub try_lock_address : Option Bool → ℕ → List ℕ → LockOutcome
unfolding lock_loop
try_lock_address (some true) tag words = locked
try_lock_address (some false) tag words = lock_loop tag 0 0 words
try_lock_address none tag words = lock_loop tag 0 0 words

-- What an unlock does: whether the remote word is set to 0, and whether the next local thread is told
-- that it has the remote lock.
pub record Unlocked : Type 0 where
  pub remote : Bool
  pub handed : Bool
  pub node : LocalLockNode

-- `unlock_address`
unfoldable pub unlock_address : LocalLockNode → Unlocked
unlock_address node =
    let (handover, node') = release node in
    record { remote = not handover; handed = handover; node = node' }

-- `write_page_and_unlock`: it asks whether it can hand over at one moment and releases at a later one,
-- with the batch of writes in between.
unfoldable pub write_page_and_unlock : LocalLockNode → LocalLockNode → Unlocked
write_page_and_unlock asked released =
    let (handover, node') = release released in
    record { remote = not (can_hand_over asked); handed = handover; node = node' }
