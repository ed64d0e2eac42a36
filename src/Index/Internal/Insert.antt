-- ===== src/Index/Internal/Insert.antt =====
-- Inserting a separator and the child to its right: where each search goes afterwards.
use faunus.Index.Internal.Place.{spot-le, place_lem}
use faunus.Index.Internal.Slot.{slot, next_address-slot}
use faunus.Index.Slot.{
  Ascending, with_key, slot_of-IsSlot, IsSlot-unique, slot_of-place, place-Ascending,
}
use faunus.Index.Internal.{
  Key, InternalEntry, InternalNode, entry_at, next_address, has_key, spot, place, insert_entry,
}
use faunus.Prelude.{
  ℕ, zero, suc, true, ◌∙◌, ◌+◌, ◌-◌, ◌≤◌, ◌<◌, ◌≡◌, ◌≢◌, false, ◌&&◌, List, leb, ◌==◌,
  if◌then◌else◌, dec_lt, lt→ltb, le→ltb, ℕ_discrete, length, arith,
}
use faunus.Rdma.GlobalAddress.{GlobalAddress}

-- The keys before `last` ascend.
abbrev pub IsSorted : ℕ → List InternalEntry → Type 0
IsSorted last es = Ascending last (λ m. (entry_at es m).key)

has_key-ne :
    (n : ℕ) (key : Key) (es : List InternalEntry) (j : ℕ)
    → has_key n key es ≡ false
    → j < n
    → (entry_at es j).key ≢ key
unfolding has_key
has_key-ne zero key es j h l = absurd (omega arith)
has_key-ne (suc n) key es j h l = elim (ℕ_discrete j n) [
  | yes e ↦ rw e (ground arith)
  | no ne ↦ has_key-ne n key es j (ground arith) (omega arith)
]

-- Before the spot the keys lie below the new one; from it on they do not.
spot-before :
    (n : ℕ) (key : Key) (es : List InternalEntry)
    → 0 < spot n key es
    → (entry_at es (spot n key es - 1)).key < key
unfolding spot
spot-before zero key es h = absurd (omega arith)
spot-before (suc n) key es h = elim (dec_lt (entry_at es n).key key) [
  | yes p ↦ let e : n + 1 - 1 ≡ n = omega arith in rw (lt→ltb _ _ p) (rw e p)
  | no p ↦
      let stay : spot (suc n) key es ≡ spot n key es =
        rw (le→ltb (entry_at es n).key key (omega arith)) in
      rw stay (spot-before n key es (rw stay at h))
]

spot-after :
    (n : ℕ) (key : Key) (es : List InternalEntry) (j : ℕ)
    → spot n key es ≤ j
    → j < n
    → key ≤ (entry_at es j).key
unfolding spot
spot-after zero key es j h l = absurd (omega arith)
spot-after (suc n) key es j h l = elim (dec_lt (entry_at es n).key key) [
  | yes p ↦ let here : spot (suc n) key es ≡ n + 1 = rw (lt→ltb _ _ p) in absurd (omega arith)
  | no p ↦
      let stay : spot (suc n) key es ≡ spot n key es =
        rw (le→ltb (entry_at es n).key key (omega arith)) in
      elim (ℕ_discrete j n) [
        | yes e ↦ rw e (omega arith)
        | no ne ↦ spot-after n key es j (rw stay at h) (omega arith)
      ]
]

module _ (last : ℕ) (key : Key) (child : GlobalAddress) (stray : Key) (es : List InternalEntry)
    (room : last + 1 < length es) (sorted : IsSorted last es)
    (fresh : has_key (last + 1) key es ≡ false) where
  p : ℕ
  p = spot last key es

  before : (j : ℕ) → j < p → (entry_at es j).key < key
  unfolding p
  before j h = elim (ℕ_discrete j (p - 1)) [
    | yes e ↦ rw e (spot-before last key es (omega arith))
    | no ne ↦ omega (
      arith,
      spot-before last key es (omega arith),
      sorted j (p - 1) (omega arith) (omega (arith, spot-le last key es)),
    )
  ]

  after : (j : ℕ) → p ≤ j → j < last → key < (entry_at es j).key
  unfolding p
  after j h l = omega (arith, spot-after last key es j h l, has_key-ne (last + 1) key es j fresh)

  -- The spot is the slot of the new key.
  spot-slot : slot last key es ≡ p
  unfolding p
  spot-slot = IsSlot-unique (slot_of-IsSlot last key (λ m. (entry_at es m).key)) (record {
    within = spot-le last key es;
    below = λ j h. omega (arith, before j h);
    above = λ h. after p (omega arith) h;
  })

  placed :
      (j : ℕ)
      → j ≤ last
      → (entry_at (place last key child stray es) j).key
        ≡ with_key (λ m. (entry_at es m).key) p key j
  unfolding p
  placed j l = (place_lem last key child stray es j room).0 ∙ ground arith

  -- The keys stay in order.
  pub place-IsSorted : IsSorted (last + 1) (place last key child stray es)
  unfolding p
  place-IsSorted =
      place-Ascending last key p (λ m. (entry_at es m).key)
        (λ m. (entry_at (place last key child stray es) m).key) (spot-le last key es) before after
        placed sorted

  -- The child at the slot of `k`, after the new pair is placed.
  pub child-place :
      (k : Key)
      → (entry_at
          (place last key child stray es)
          (slot (last + 1) k (place last key child stray es))).child
        ≡ (if leb key k && (slot last k es == slot last key es)
            then child
            else (entry_at es (slot last k es)).child)
  unfolding p
  child-place k =
      let s = slot last k es in
      let a = slot_of-IsSlot last k (λ m. (entry_at es m).key) in
      let within = a.within in
      let low = spot-le last key es in
      let moved =
        slot_of-place last key p (λ m. (entry_at es m).key)
          (λ m. (entry_at (place last key child stray es) m).key) low before after placed k in
      elim (dec_lt k key) [
        | yes h ↦
            let le : s ≤ p = elim (dec_lt p s) [
              | yes b ↦ absurd (omega (arith, a.below p b, after p (omega arith)))
              | no b ↦ omega arith
            ] in
            let off : leb key k ≡ false = ground arith in
            rw (moved, off, (place_lem last key child stray es s room).1) (ground arith)
        | no h ↦
            let ge : p ≤ s = elim (dec_lt s p) [
              | yes b ↦ absurd (omega (arith, before s b, a.above (omega arith)))
              | no b ↦ omega arith
            ] in
            let on : leb key k ≡ true = ground arith in
            rw (moved, on, (place_lem last key child stray es (s + 1) room).1, spot-slot)
              (ground arith)
      ]

-- Inserting a separator `key` that no entry up to the last one carries, into a node with room whose
-- separators ascend, changes the search of exactly the keys that `key` now parts from the rest of its
-- old slot: a key at or above `key` in the same slot goes to the new child, every other key goes
-- where it went. The value that the shift reads out of range has no effect.
pub next_address-insert_entry :
    (node : InternalNode) (key : Key) (child : GlobalAddress) (stray : Key) (k : Key)
    → let last = node.header.last_index in
      let es = node.entries in
      last + 1 < length es
      → IsSorted last es
      → has_key (last + 1) key es ≡ false
      → next_address (insert_entry node key child stray) k
        ≡ (if leb key k && (slot last k es == slot last key es) then child else next_address node k)
unfolding insert_entry
next_address-insert_entry node key child stray k room sorted fresh =
    let last = node.header.last_index in
    rw (next_address-slot node k, next_address-slot (insert_entry node key child stray) k)
      (child-place last key child stray node.entries room sorted fresh k)

-- Such an insert keeps the separators ascending, one more of them.
insert_entry-IsSorted :
    (node : InternalNode) (key : Key) (child : GlobalAddress) (stray : Key)
    → node.header.last_index + 1 < length node.entries
    → IsSorted node.header.last_index node.entries
    → has_key (node.header.last_index + 1) key node.entries ≡ false
    → let node' = insert_entry node key child stray in
      IsSorted node'.header.last_index node'.entries
unfolding insert_entry
insert_entry-IsSorted node key child stray room sorted fresh =
    place-IsSorted node.header.last_index key child stray node.entries room sorted fresh
