-- ===== src/Index/Internal/Slot.antt =====
-- Which child a search takes.
use faunus.Index.Internal.{Key, InternalEntry, InternalNode, entry_at, search_from, next_address}
use faunus.Index.Slot.{slot_from, slot_of}
use faunus.Prelude.{ℕ, zero, suc, ◌+◌, ◌≡◌, List, dec_lt, lt→ltb, le→ltb, arith}
use mathlib.Core.Option.{get_or}
use native.Mathlib.Numerals.{add-one}

-- The keys before `last` separate the children 0 to `last`.
abbrev pub slot : ℕ → Key → List InternalEntry → ℕ
slot last key es = slot_of last key (λ i. (entry_at es i).key)

search_from-slot :
    (n i last : ℕ) (key : Key) (es : List InternalEntry)
    → i + n ≡ last
    → get_or (search_from (n + 1) i key es) (entry_at es last).child
      ≡ (entry_at es (slot_from n i key (λ m. (entry_at es m).key))).child
unfolding search_from slot_from
search_from-slot zero i last key es e = let e' : i ≡ last = omega arith in rw e' (ground arith)
search_from-slot (suc n) i last key es e = rw add-one (elim (dec_lt key (entry_at es i).key) [
  | yes p ↦ rw (lt→ltb _ _ p)
  | no p ↦
      rw (le→ltb key (entry_at es i).key (omega arith))
        (rw add-one at (search_from-slot n (i + 1) last key es (omega arith)))
])

-- The search descends to the child of the key's slot.
pub next_address-slot :
    (node : InternalNode) (key : Key)
    → next_address node key
      ≡ (entry_at node.entries (slot node.header.last_index key node.entries)).child
unfolding next_address
next_address-slot node key =
    search_from-slot node.header.last_index 0 node.header.last_index key node.entries (omega arith)
