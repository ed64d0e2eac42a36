-- ===== src/Index/Leaf/Tests.antt =====
-- Runs over a leaf, and each theorem at an input.
use faunus.Index.Internal.{Key}
use faunus.Index.KvBlock.{KvBlock, get_fingerprint, get_addr, is_free, is_locked}
use faunus.Index.Leaf.Duplicates.{matching, intended, scan-intended}
use faunus.Index.Leaf.Split.{block_of, IsAscending, latest, collect_lem, distribute-entry}
use faunus.Index.Leaf.Update.{try_update_kvblock-IsUpdatable}
use faunus.Index.Leaf.{
  LeafNode, block_at, get_fingerprint_collisions, collisions_from, updated, may_update, try_update,
  try_update_kvblock, scan_candidates, assign, collect, entry, unlocked, distribute,
}
use faunus.Prelude.{
  ℕ, zero, suc, ◌+◌, ◌-◌, ◌*◌, ◌/◌, ◌^◌, ◌<◌, ◌≡◌, refl, false, none, List, [], ◌∷◌, length, ltb,
  if◌then◌else◌, arith,
}

-- Two taken slots and a free one, all unlocked.
abbrev one : KvBlock
one = 0x5 * 2 ^ 52 + 0x40 * 4

abbrev two : KvBlock
two = 0x7 * 2 ^ 52 + 0x80 * 4

abbrev small_leaf : LeafNode
small_leaf = record {
  header = record { lock = 0; level = 0; fence_first = 0; fence_second = 100; last_index = 0 };
  kv_blocks = one ∷ two ∷ 2 ∷ [];
}

collisions_run : get_fingerprint_collisions 3 small_leaf 0x7 ≡ ((1, 0x80) ∷ [], false)
unfolding get_fingerprint_collisions collisions_from is_free is_locked get_fingerprint get_addr
collisions_run = refl

update_run : try_update_kvblock (one ∷ one ∷ []) one ≡ updated one
unfolding try_update_kvblock try_update may_update is_free is_locked get_fingerprint
update_run = refl

abbrev items : List (Key × KvBlock)
items = (20, one) ∷ (10, two) ∷ (20, two) ∷ []

collect_run : collect items [] ≡ (10, two) ∷ (20, two) ∷ []
unfolding collect assign
collect_run = refl

none_locked : (get_fingerprint_collisions 3 small_leaf 0x7).1 ≡ false
unfolding get_fingerprint_collisions collisions_from is_locked
none_locked = refl

try_update_kvblock-IsUpdatable_example :
    (get_fingerprint one ≡ get_fingerprint one) × (is_free one ≡ false) × (is_locked one ≡ false)
try_update_kvblock-IsUpdatable_example =
    try_update_kvblock-IsUpdatable (one ∷ one ∷ []) one one update_run

scan-intended_example :
    scan_candidates 10 false ((0, 10, 1 ∷ []) ∷ (1, 11, 2 ∷ []) ∷ (2, 10, 3 ∷ []) ∷ []) false []
    ≡ intended false [] (matching 10 ((0, 10, 1 ∷ []) ∷ (1, 11, 2 ∷ []) ∷ (2, 10, 3 ∷ []) ∷ []))
scan-intended_example =
    scan-intended 10 false ((0, 10, 1 ∷ []) ∷ (1, 11, 2 ∷ []) ∷ (2, 10, 3 ∷ []) ∷ []) []

collect_lem_example :
    IsAscending (collect items []) × (block_of 20 (collect items []) ≡ latest 20 items none)
collect_lem_example = collect_lem 20 items

abbrev sorted_items : List (Key × KvBlock)
sorted_items = (10, two) ∷ (20, one) ∷ (30, two) ∷ []

sorted_items-IsAscending : IsAscending sorted_items
sorted_items-IsAscending = (omega arith, (omega arith, 0))

distribute-entry_example :
    let parts = distribute 4 small_leaf sorted_items (λ _. 0) (λ _. 0) in
    let middle = length sorted_items / 2 in
    (ltb (entry sorted_items 2).0 parts.middle_key ≡ ltb 2 middle)
    × (block_at
          (if ltb 2 middle then parts.left.kv_blocks else parts.right.kv_blocks)
          (if ltb 2 middle then 2 else 2 - middle)
        ≡ unlocked (entry sorted_items 2).1)
    × (parts.left.header.fence_second ≡ parts.right.header.fence_first)
    × (parts.right.header.fence_second ≡ small_leaf.header.fence_second)
distribute-entry_example =
    distribute-entry 4 small_leaf sorted_items (λ _. 0) (λ _. 0) 2 sorted_items-IsAscending
      (omega arith) (omega arith)

sorted_items_taken :
    (i : ℕ)
    → i < length sorted_items
    → ((entry sorted_items i).1 < 2 ^ 64) × (is_free (entry sorted_items i).1 ≡ false)
unfolding is_free
sorted_items_taken zero h = (omega arith, refl)
sorted_items_taken (suc zero) h = (omega arith, refl)
sorted_items_taken (suc (suc zero)) h = (omega arith, refl)
sorted_items_taken (suc (suc (suc i))) h = absurd (omega arith)
