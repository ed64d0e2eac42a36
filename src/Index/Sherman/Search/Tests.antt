-- ===== src/Index/Sherman/Search/Tests.antt =====
-- Searches in a tree of two pages, and in one whose root has split.
use faunus.Index.Sherman.Leaf.{Items, search_leaf, fingerprint, xor_bytes}
use faunus.Index.Sherman.Internal.{next_level}
use faunus.Index.Sherman.Search.Rounds.{still}
use faunus.Index.Sherman.Search.Routes.{Route, at_leaf, down, seen, read-Route}
use faunus.Index.Sherman.Search.Sibling.{searches-sibling}
use faunus.Index.Outcome.{answer, running}
use faunus.Index.Sherman.Search.{leaf, internal, Memory, read, insert_target, internal_target}
use faunus.Index.Sherman.{Key, InternalPage, LeafPage, new_header, check_consistent}
use faunus.Prelude.{◌≡◌, refl, none, some, [], ◌∷◌, ◌==◌, if◌then◌else◌, arith}
use faunus.Rdma.GlobalAddress.{GlobalAddress}

abbrev items_of_tree : Items
items_of_tree a = if a == 64 then some (record { key = 0x02_01; value = 8 }) else none

abbrev leaf_of_tree : LeafPage
leaf_of_tree = record {
  embedding_lock = 0;
  front_version = 1;
  hdr = new_header 0 0xff_ff;
  records = record { fingerprint = 3; kv_ptr = 64 } ∷ [];
  rear_version = 1;
}

-- A page of level 1 for the keys below `highest`, with the leaf at 20 to the left of 0x04_00.
abbrev page_of_tree : Key → GlobalAddress → InternalPage
page_of_tree highest sibling = record {
  embedding_lock = 0;
  front_version = 2;
  hdr = record {
    leftmost_ptr = 20;
    sibling_ptr = sibling;
    level = 1;
    count = 1;
    lowest = 0;
    highest = highest;
  };
  records = record { key = 0x04_00; ptr = 30 } ∷ [];
  rear_version = 2;
}

abbrev tree : Memory
tree = record {
  root = 10;
  node = λ a. if a == 10 then internal (page_of_tree 0xff_ff 0) else leaf leaf_of_tree;
  items = items_of_tree;
}

-- The root has handed the keys from 0x01_00 on to its sibling at 40.
abbrev split_tree : Memory
split_tree = record {
  root = 10;
  node = λ a.
      if a == 10
      then internal (page_of_tree 0x01_00 40)
      else if a == 40
      then internal (page_of_tree 0xff_ff 0)
      else leaf leaf_of_tree;
  items = items_of_tree;
}

tree-Route : Route tree 0x02_01 10 1 20 leaf_of_tree
unfolding next_level check_consistent
tree-Route =
    down refl (record { consistent = refl; low = omega arith; high = omega arith; height = refl })
      (at_leaf refl
        (record { consistent = refl; low = omega arith; high = omega arith; height = refl }))

read-Route_example :
    read 3 2 9 (still tree) 5 0x02_01
    ≡ answer (seen (search_leaf 2 items_of_tree leaf_of_tree.records 0x02_01))
read-Route_example =
    read-Route 3 2 9 tree 0x02_01 1 20 leaf_of_tree 5 tree-Route (omega arith) (omega arith)

searches-sibling_example :
    (read 3 2 100 (still split_tree) 5 0x02_01 ≡ running)
    × (insert_target 3 2 (still split_tree) 5 0x02_01 ≡ answer none)
unfolding check_consistent
searches-sibling_example =
    searches-sibling 3 2 100 split_tree 0x02_01 (page_of_tree 0x01_00 40) (page_of_tree 0xff_ff 0) 0
      5 (omega arith) refl refl (omega arith) (ground arith) (ground arith) refl
      (record { consistent = refl; low = omega arith; high = omega arith; height = refl })

-- The key is in the leaf of either tree.
reads :
    (read 3 2 9 (still tree) 5 0x02_01 ≡ answer (some 8))
    × (read 3 2 9 (still tree) 5 0x02_00 ≡ answer none)
unfolding read fingerprint xor_bytes check_consistent next_level search_leaf
reads = (refl, refl)

targets : internal_target 3 2 9 (still tree) 5 0x02_01 1 ≡ answer (some 10)
unfolding internal_target check_consistent
targets = refl
