-- ===== src/Index/Internal/Split.antt =====
-- Splitting a full internal node: the two halves, against the node with the new pair placed.
use faunus.Index.Internal.Insert.{IsSorted, place-IsSorted, child-place}
use faunus.Index.Internal.Place.{place_lem}
use faunus.Index.Internal.Slot.{slot, next_address-slot}
use faunus.Index.Slot.{slot_of-IsSlot, slot_of-agree, slot_of-low, slot_of-high}
use faunus.Index.Internal.{
  Key, InternalEntry, InternalNode, no_entry, entry_at, next_address, has_key, place, split_entries,
  split_node, split_internal_node,
}
use faunus.Prelude.{
  ℕ, zero, suc, ◌+◌, ◌-◌, ◌/◌, ◌≤◌, ◌<◌, ◌≡◌, refl, ◌∙◌, sym, ap, false, ◌&&◌, List, [], ◌∷◌, ◌++◌,
  ltb, leb, ◌==◌, if◌then◌else◌, dec_lt, lt→ltb, le→ltb, length, length-append, take, fill,
  get_or-fill, arith, some, true,
}
use faunus.Rdma.GlobalAddress.{GlobalAddress}

-- An array read as another one at every index has its slots and its keys.
abbrev Agree : List InternalEntry → List InternalEntry → Type 0
Agree es fs = (j : ℕ) → entry_at es j ≡ entry_at fs j

has_key-Agree :
    (n : ℕ) (k : Key) (es fs : List InternalEntry) → Agree es fs → has_key n k es ≡ has_key n k fs
unfolding has_key
has_key-Agree zero k es fs a = refl
has_key-Agree (suc n) k es fs a = rw (a n, has_key-Agree n k es fs a)

take-length : (n : ℕ) (es : List InternalEntry) → length es ≤ n → take n es ≡ es
take-length zero [] h = refl
take-length zero (e ∷ es) h = absurd (omega arith)
take-length (suc n) [] h = refl
take-length (suc n) (e ∷ es) h = rw (take-length n es (omega arith))

append-Agree : (es : List InternalEntry) → Agree (es ++ no_entry ∷ []) es
append-Agree [] zero = refl
append-Agree [] (suc j) = refl
append-Agree (e ∷ es) zero = refl
append-Agree (e ∷ es) (suc j) = append-Agree es j

-- The two halves of an array that ascends, by where a key belongs in the whole.
module _ (bf : ℕ) (k : Key) (es : List InternalEntry) (two : 2 ≤ bf) (sorted : IsSorted bf es)
    (size : length es ≡ bf + 1) where
  abbrev middle : ℕ
  middle = bf / 2

  abbrev lefts : List InternalEntry
  lefts = fill bf 0 (λ i. if leb i middle then entry_at es i else no_entry)

  abbrev rights : List InternalEntry
  rights =
      fill bf 0
        (λ i. if ltb (i + middle + 1) (length es) then entry_at es (i + middle + 1) else no_entry)

  lefts_lem : (j : ℕ) → j ≤ bf / 2 → entry_at lefts j ≡ entry_at es j
  lefts_lem j h =
      get_or-fill bf 0 j (λ i. if leb i middle then entry_at es i else no_entry) no_entry
        (omega arith)
      ∙ ground arith

  rights_lem : (j : ℕ) → j + bf / 2 < bf → entry_at rights j ≡ entry_at es (j + bf / 2 + 1)
  rights_lem j h =
      get_or-fill bf 0 j
        (λ i. if ltb (i + middle + 1) (length es) then entry_at es (i + middle + 1) else no_entry)
        no_entry (omega arith)
      ∙ rw (lt→ltb (0 + j + bf / 2 + 1) (length es) (omega arith))
          (ap (λ i. entry_at es (i + bf / 2 + 1)) (omega arith))

  abbrev keys : List InternalEntry → ℕ → Key
  keys fs i = (entry_at fs i).key

  child-lefts :
      k < (entry_at es (bf / 2)).key
      → (entry_at lefts (slot (bf / 2) k lefts)).child ≡ (entry_at es (slot bf k es)).child
  child-lefts h =
      let (e, le) =
        slot_of-low bf (bf / 2) k (keys es) (keys lefts) (omega arith) h
          (λ j l. ap (λ x. x.key) (lefts_lem j (omega arith))) in
      ap (λ x. (entry_at lefts x).child) e ∙ ap (λ x. x.child) (lefts_lem (slot bf k es) le)

  child-rights :
      (entry_at es (bf / 2)).key ≤ k
      → (entry_at rights (slot (bf - bf / 2 - 1) k rights)).child
        ≡ (entry_at es (slot bf k es)).child
  child-rights h =
      let within = (slot_of-IsSlot bf k (keys es)).within in
      let (e, gt) =
        slot_of-high bf (bf / 2) k (keys es) (keys rights) (omega arith) sorted h
          (λ j l. ap (λ x. x.key) (rights_lem j (omega arith))) in
      ap (λ x. x.child) (rights_lem (slot (bf - bf / 2 - 1) k rights) (omega arith))
      ∙ ap (λ x. (entry_at es x).child) e

  pub child-halves :
      (if ltb k (entry_at es (bf / 2)).key
        then (entry_at lefts (slot (bf / 2) k lefts)).child
        else (entry_at rights (slot (bf - bf / 2 - 1) k rights)).child)
      ≡ (entry_at es (slot bf k es)).child
  child-halves = elim (dec_lt k (entry_at es (bf / 2)).key) [
    | yes h ↦ rw (lt→ltb _ _ h) (child-lefts h)
    | no h ↦ rw (le→ltb k (entry_at es (bf / 2)).key (omega arith)) (child-rights (omega arith))
  ]

split_suc :
    (node : InternalNode) (key : Key) (child : GlobalAddress) (stray : Key) (k : Key)
    → let last = node.header.last_index in
      let es = node.entries in
      let parts = split_node (last + 1) node key child stray in
      1 ≤ last
      → length es ≡ last + 1
      → IsSorted last es
      → has_key (last + 1) key es ≡ false
      → (if ltb k parts.middle_key then next_address parts.left k else next_address parts.right k)
        ≡ (if leb key k && (slot last k es == slot last key es) then child else next_address node k)
unfolding split_node split_entries
split_suc node key child stray k two size sorted fresh =
    let last = node.header.last_index in
    let es = node.entries in
    let parts = split_node (last + 1) node key child stray in
    let grown = take (last + 1) es ++ no_entry ∷ [] in
    let same : take (last + 1) es ≡ es = take-length (last + 1) es (omega arith) in
    let agree : Agree grown es = rw same (append-Agree es) in
    let grown_size : length grown ≡ last + 2 =
      rw same (length-append es (no_entry ∷ []) ∙ omega arith) in
    let grown_sorted : IsSorted last grown = λ i j h l. rw (agree i, agree j) (sorted i j h l) in
    let grown_fresh = has_key-Agree (last + 1) key grown es agree ∙ fresh in
    let slots : (x : Key) → slot last x grown ≡ slot last x es = λ x.
      slot_of-agree last x (λ m. (entry_at es m).key) (λ m. (entry_at grown m).key)
        (λ j l. ap (λ e. e.key) (agree j)) in
    let halves =
      child-halves (last + 1) k (place last key child stray grown) (omega arith)
        (place-IsSorted last key child stray grown (omega arith) grown_sorted grown_fresh)
        ((place_lem last key child stray grown 0 (omega arith)).2 ∙ grown_size ∙ omega arith) in
    rw (next_address-slot parts.left k, next_address-slot parts.right k)
      (halves
        ∙ child-place last key child stray grown (omega arith) grown_sorted grown_fresh k
        ∙ rw (slots k, slots key, agree (slot last k es), next_address-slot node k))

-- Splitting a full node of `bf` children, at least three, whose separators ascend and where no entry
-- carries `key`: no assertion fails, and the two nodes route every key as an insert would. Below the
-- middle key the left node, from it on the right node, lead to the new child for the keys that `key`
-- parts from its old slot, and where the node led before for all others.
pub next_address-split_node :
    (bf : ℕ) (node : InternalNode) (key : Key) (child : GlobalAddress) (stray : Key) (k : Key)
    → let last = node.header.last_index in
      let es = node.entries in
      let parts = split_node bf node key child stray in
      3 ≤ bf
      → last + 1 ≡ bf
      → length es ≡ bf
      → IsSorted last es
      → has_key (last + 1) key es ≡ false
      → (split_internal_node bf node key child stray ≡ some parts)
        × ((if ltb k parts.middle_key
              then next_address parts.left k
              else next_address parts.right k)
            ≡ (if leb key k && (slot last k es == slot last key es)
                then child
                else next_address node k))
unfolding split_internal_node split_node
next_address-split_node bf node key child stray k three full size sorted fresh =
    let count : (node.header.last_index + 2 == bf + 1) ≡ true = ground arith in
    let room : ltb (bf / 2) (bf - 1) ≡ true = lt→ltb _ _ (omega arith) in
    (
      rw (count, room) refl,
      rw (sym full) (split_suc node key child stray k (omega arith) (omega arith) sorted fresh),
    )

-- Splitting a full node hands its key range over without a gap: the left node keeps the lower fence,
-- the right one the upper fence, they meet at the middle key, and together they have the children of
-- the full node and the new one.
split_node-fences :
    (bf : ℕ) (node : InternalNode) (key : Key) (child : GlobalAddress) (stray : Key)
    → let parts = split_node bf node key child stray in
      1 ≤ bf
      → node.header.last_index + 1 ≡ bf
      → (parts.left.header.fence_first ≡ node.header.fence_first)
        × (parts.left.header.fence_second ≡ parts.right.header.fence_first)
        × (parts.right.header.fence_second ≡ node.header.fence_second)
        × (parts.left.header.last_index + 1 + (parts.right.header.last_index + 1)
            ≡ node.header.last_index + 1 + 1)
unfolding split_node
split_node-fences bf node key child stray one full = (refl, refl, refl, omega arith)
