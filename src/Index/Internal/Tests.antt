-- ===== src/Index/Internal/Tests.antt =====
-- Runs of searches, inserts and splits, and each theorem at an input.
use faunus.Index.Internal.Insert.{IsSorted, next_address-insert_entry}
use faunus.Index.Internal.Slot.{slot}
use faunus.Index.Internal.Split.{next_address-split_node}
use faunus.Index.Internal.{
  InternalNode, no_entry, next_address, search_from, has_key, spot, shift, place, insert_entry,
  split_entries, split_node, split_internal_node,
}
use faunus.Prelude.{
  zero, suc, ◌≡◌, refl, false, ◌&&◌, [], ◌∷◌, ltb, leb, ◌==◌, if◌then◌else◌, arith, some,
}

-- Three children, with room for a fourth: below 10, from 10 to 19, and from 20 on.
abbrev three : InternalNode
three = record {
  header = record { lock = 0; level = 1; fence_first = 0; fence_second = 100; last_index = 2 };
  entries =
      record { key = 10; child = 0x100 }
      ∷ record { key = 20; child = 0x200 }
      ∷ record { key = 0; child = 0x300 }
      ∷ no_entry
      ∷ [];
}

-- Full with four children.
abbrev four : InternalNode
four = record {
  header = record { lock = 0; level = 1; fence_first = 0; fence_second = 100; last_index = 3 };
  entries =
      record { key = 10; child = 0x100 }
      ∷ record { key = 20; child = 0x200 }
      ∷ record { key = 30; child = 0x300 }
      ∷ record { key = 0; child = 0x400 }
      ∷ [];
}

three-IsSorted : IsSorted 2 three.entries
three-IsSorted zero (suc zero) h l = omega arith
three-IsSorted zero zero h l = absurd (omega arith)
three-IsSorted (suc i) (suc zero) h l = absurd (omega arith)
three-IsSorted (suc i) zero h l = absurd (omega arith)
three-IsSorted i (suc (suc j)) h l = absurd (omega arith)

four-IsSorted : IsSorted 3 four.entries
four-IsSorted zero (suc zero) h l = omega arith
four-IsSorted zero (suc (suc zero)) h l = omega arith
four-IsSorted (suc zero) (suc (suc zero)) h l = omega arith
four-IsSorted zero zero h l = absurd (omega arith)
four-IsSorted (suc i) zero h l = absurd (omega arith)
four-IsSorted (suc i) (suc zero) h l = absurd (omega arith)
four-IsSorted (suc (suc i)) (suc (suc zero)) h l = absurd (omega arith)
four-IsSorted i (suc (suc (suc j))) h l = absurd (omega arith)

search_run : next_address three 15 ≡ 0x200
unfolding next_address search_from
search_run = refl

insert_run : next_address (insert_entry three 15 0x250 99) 17 ≡ 0x250
unfolding next_address search_from insert_entry place spot shift
insert_run = refl

split_run : (split_node 4 four 15 0x250 99).middle_key ≡ 20
unfolding split_node split_entries place spot shift
split_run = refl

three-fresh : has_key 3 15 three.entries ≡ false
unfolding has_key
three-fresh = refl

four-fresh : has_key 4 15 four.entries ≡ false
unfolding has_key
four-fresh = refl

next_address-insert_entry_example : next_address (insert_entry three 15 0x250 99) 17 ≡ (
    if leb 15 17 && (slot 2 17 three.entries == slot 2 15 three.entries)
    then 0x250
    else next_address three 17)
next_address-insert_entry_example =
    next_address-insert_entry three 15 0x250 99 17 (omega arith) three-IsSorted three-fresh

next_address-split_node_example :
    let parts = split_node 4 four 15 0x250 99 in
    (split_internal_node 4 four 15 0x250 99 ≡ some parts)
    × ((if ltb 17 parts.middle_key then next_address parts.left 17 else next_address parts.right 17)
        ≡ (if leb 15 17 && (slot 3 17 four.entries == slot 3 15 four.entries)
            then 0x250
            else next_address four 17))
next_address-split_node_example =
    next_address-split_node 4 four 15 0x250 99 17 (omega arith) refl refl four-IsSorted four-fresh
