-- ===== src/Index/Internal/Root.antt =====
-- The node that `setup_new_root` writes.
use faunus.Index.Internal.{Key, next_address, search_from, new_root}
use faunus.Prelude.{ℕ, zero, suc, ◌≤◌, ◌≡◌, ltb, if◌then◌else◌, dec_lt, fill, lt→ltb, le→ltb, arith}
use faunus.Rdma.GlobalAddress.{GlobalAddress}

-- A root with room for two entries, built over a node and its new sibling, leads a search below the
-- separator to the old root and any other search to the sibling.
pub next_address-new_root :
    (bf : ℕ) (key : Key) (old_root right_child : GlobalAddress) (level : ℕ) (max_key k : Key)
    → 2 ≤ bf
    → next_address (new_root bf key old_root right_child level max_key) k
      ≡ (if ltb k key then old_root else right_child)
unfolding new_root next_address search_from fill
next_address-new_root zero key old_root right_child level max_key k h = absurd (omega arith)
next_address-new_root (suc zero) key old_root right_child level max_key k h = absurd (omega arith)
next_address-new_root (suc (suc n)) key old_root right_child level max_key k h =
    elim (dec_lt k key) [
      | yes l ↦ rw (lt→ltb _ _ l)
      | no l ↦ rw (le→ltb k key (omega arith)) (ground arith)
    ]
