-- ===== src/Index/Sherman/Root/Tests.antt =====
-- A new tree, and one whose root, a leaf, has split.
use faunus.Index.Sherman.Leaf.{search_leaf}
use faunus.Index.Sherman.Root.Update.{read-update_root_offset}
use faunus.Index.Sherman.Root.{update_root_offset}
use faunus.Index.Sherman.Search.Rounds.{still}
use faunus.Index.Sherman.Search.Routes.{Route, at_leaf, seen}
use faunus.Index.Outcome.{answer}
use faunus.Index.Sherman.Search.{Memory, leaf, read}
use faunus.Index.Sherman.{Key, LeafPage, check_consistent}
use faunus.Prelude.{◌≡◌, refl, true, none, some, [], ◌∷◌, ◌==◌, if◌then◌else◌, arith}
use faunus.Rdma.GlobalAddress.{GlobalAddress}

abbrev half : Key → Key → GlobalAddress → GlobalAddress → LeafPage
half lowest highest sibling kv_ptr = record {
  embedding_lock = 0;
  front_version = 3;
  hdr = record {
    leftmost_ptr = 0;
    sibling_ptr = sibling;
    level = 0;
    count = 0;
    lowest = lowest;
    highest = highest;
  };
  records = record { fingerprint = 3; kv_ptr = kv_ptr } ∷ [];
  rear_version = 3;
}

-- The root at 10 has split, the page at 20 has its upper half.
abbrev split_root : Memory
split_root = record {
  root = 10;
  node = λ a. if a == 20 then leaf (half 0x02_00 0xff_ff 0 64) else leaf (half 0 0x02_00 20 72);
  items = λ a.
      if a == 64
      then some (record { key = 0x02_01; value = 8 })
      else some (record { key = 0x01_02; value = 7 });
}

abbrev no_tree : Memory
no_tree = record { root = 0; node = λ a. leaf (half 9 9 9 9); items = λ a. none }

split_root-Route :
    Route
      (update_root_offset 4 0xff_ff split_root 10 0x02_00 20 1 10 30).1
      0x02_01
      20
      0
      20
      (half 0x02_00 0xff_ff 0 64)
unfolding update_root_offset check_consistent
split_root-Route =
    at_leaf refl
      (record { consistent = refl; low = omega arith; high = omega arith; height = refl })

read-update_root_offset_example :
    let (ok, mem') = update_root_offset 4 0xff_ff split_root 10 0x02_00 20 1 10 30 in
    (ok ≡ true)
    × (read 2 2 5 (still mem') 0 0x02_01
        ≡ answer (seen (search_leaf 2 mem'.items (half 0x02_00 0xff_ff 0 64).records 0x02_01)))
read-update_root_offset_example =
    read-update_root_offset 4 0xff_ff split_root 10 0x02_00 20 0 10 30 2 2 5 0 0x02_01 20
      (half 0x02_00 0xff_ff 0 64) refl (omega arith) (omega arith) (omega arith) (omega arith)
      split_root-Route
