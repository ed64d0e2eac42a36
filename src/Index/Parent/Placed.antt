-- ===== src/Index/Parent/Placed.antt =====
-- Where searches go after `insert_internal_entry` has placed an entry in a node that it has locked.
use faunus.Index.Find.{History, in_fence}
use faunus.Index.Internal.Insert.{IsSorted, next_address-insert_entry}
use faunus.Index.Internal.Slot.{slot}
use faunus.Index.Internal.Split.{next_address-split_node}
use faunus.Index.Internal.{Key, InternalNode, has_key, next_address, SplitNode}
use faunus.Index.Parent.{
  LockOp, locks, unlocks, Placement, grows, present, places, splits, Parameters, place_entry,
  split_at,
}
use faunus.Prelude.{
  ℕ, ◌+◌, ◌≤◌, ◌≡◌, true, ◌&&◌, Bool-cases, inl, inr, List, [], ◌∷◌, length, ltb, leb, leb→le, ◌==◌,
  if◌then◌else◌, arith, Option, none, some, refl,
}
use faunus.Rdma.GlobalAddress.{GlobalAddress}

-- The locks held after the operations, the last one taken first.
pub data Holding : List GlobalAddress → List LockOp → Type 0 where
  nothing_held : Holding [] []
  takes :
      {a : GlobalAddress} {held : List GlobalAddress} {ops : List LockOp}
      → Holding held ops
      → Holding (a ∷ held) (locks a ∷ ops)
  gives_back :
      {a : GlobalAddress} {held : List GlobalAddress} {ops : List LockOp}
      → Holding (a ∷ held) ops
      → Holding held (unlocks a ∷ ops)

-- The nodes that reads find: they have room for `branch_factor` children and ascending separators.
abbrev pub WellFormed : ℕ → History → Type 0
WellFormed bf history =
    (t : ℕ) (a : GlobalAddress)
    → let node = (history t).internal a in
      IsSorted node.header.last_index node.entries
      × (length node.entries ≡ bf)
      × (node.header.last_index + 1 ≤ bf)

-- Where a key is to go once the child for the keys from `key` on is in: the keys that `key` parts from
-- its old slot go to the child, the others where the node led.
abbrev pub routed : InternalNode → Key → GlobalAddress → Key → GlobalAddress
routed node key child k =
    let last = node.header.last_index in
    if leb key k && (slot last k node.entries == slot last key node.entries)
    then child
    else next_address node k

-- The node as it was read after the CAS at a moment that found it unlocked.
pub record LockedNode (history : History) (key : Key) (level : ℕ) (a : GlobalAddress) (t : ℕ)
    : Type 0 where
  pub free : ((history t).internal a).header.lock ≡ 0
  pub at_level : ((history (t + 1)).internal a).header.level ≡ level
  pub within : in_fence ((history (t + 1)).internal a).header key ≡ true

module _ (params : Parameters) (history : History) (key : Key) (child : GlobalAddress)
    (level : ℕ) where
  abbrev pub IsRouted : Placement → Type 0
  IsRouted (grows root) =
      (t : ℕ) × ((k : Key) → next_address root k ≡ (if ltb k key then (history t).root else child))
  IsRouted (present a) =
      (t : ℕ) × LockedNode history key level a t
      × (let node = (history (t + 1)).internal a in
          has_key (node.header.last_index + 1) key node.entries ≡ true)
  IsRouted (places a t node') =
      LockedNode history key level a t
      × ((k : Key) → next_address node' k ≡ routed ((history (t + 1)).internal a) key child k)
  IsRouted (splits a t parts) =
      LockedNode history key level a t
      × ((k : Key)
          → (if ltb k parts.middle_key
              then next_address parts.left k
              else next_address parts.right k)
            ≡ routed ((history (t + 1)).internal a) key child k)

  abbrev pub IsRoutedIf : Option Placement → Type 0
  IsRoutedIf none = ℕ
  IsRoutedIf (some placement) = IsRouted placement

  module _ (three : 3 ≤ params.branch_factor)
      (well_formed : WellFormed params.branch_factor history) where
    pub IsRouted-place_entry :
        (a : GlobalAddress) (t : ℕ)
        → LockedNode history key level a t
        → IsRoutedIf (place_entry params key child a t ((history (t + 1)).internal a))
    unfolding place_entry
    IsRouted-place_entry a t node_locked =
        let node = (history (t + 1)).internal a in
        let last = node.header.last_index in
        let (sorted, size, fits) = well_formed (t + 1) a in
        elim (Bool-cases (has_key (last + 1) key node.entries)) [
          | inl old ↦ rw old (t, node_locked, old)
          | inr fresh ↦ elim (Bool-cases (leb params.branch_factor (last + 1))) [
            | inl full ↦
                let at_most = leb→le _ _ full in
                let split = λ (k : Key).
                  next_address-split_node params.branch_factor node key child params.stray k three
                    (omega arith) size sorted fresh in
                rw (fresh, full, (split 0).0) (node_locked, λ k. (split k).1)
            | inr room ↦
                rw (fresh, room)
                  (
                    node_locked,
                    λ k.
                        next_address-insert_entry node key child params.stray k (ground arith)
                          sorted fresh,
                  )
          ]
        ]

-- What is placed at each level: the next one up takes the middle key of a split and the new node.
abbrev pub AreRouted : Parameters → History → Key → GlobalAddress → ℕ → List Placement → Type 0
AreRouted params history key child level [] = ⊥
AreRouted params history key child level (splits a t parts ∷ above) =
    IsRouted params history key child level (splits a t parts)
    × AreRouted params history parts.middle_key (params.new_node_address level) (level + 1) above
AreRouted params history key child level (grows root ∷ above) =
    IsRouted params history key child level (grows root) × (above ≡ [])
AreRouted params history key child level (present a ∷ above) =
    IsRouted params history key child level (present a) × (above ≡ [])
AreRouted params history key child level (places a t node ∷ above) =
    IsRouted params history key child level (places a t node) × (above ≡ [])

-- A split is of the node at the address.
abbrev pub IsNodeOf : GlobalAddress → Placement → Type 0
IsNodeOf a (splits b t parts) = a ≡ b
IsNodeOf a (grows root) = ℕ
IsNodeOf a (present b) = ℕ
IsNodeOf a (places b t node) = ℕ

abbrev pub NodeIf : GlobalAddress → Option Placement → Type 0
NodeIf a none = ℕ
NodeIf a (some p) = IsNodeOf a p

NodeIf-split_at : (a : GlobalAddress) (t : ℕ) (o : Option SplitNode) → NodeIf a (split_at a t o)
NodeIf-split_at a t none = 0
NodeIf-split_at a t (some parts) = refl

pub place_entry-node :
    (params : Parameters) (key : Key) (child a : GlobalAddress) (t : ℕ) (node : InternalNode)
    → NodeIf a (place_entry params key child a t node)
unfolding place_entry
place_entry-node params key child a t node =
    let last = node.header.last_index in
    elim (Bool-cases (has_key (last + 1) key node.entries)) [
      | inl old ↦ rw old 0
      | inr fresh ↦ elim (Bool-cases (leb params.branch_factor (last + 1))) [
        | inl full ↦ rw (fresh, full) (NodeIf-split_at a t _)
        | inr room ↦ rw (fresh, room) 0
      ]
    ]
