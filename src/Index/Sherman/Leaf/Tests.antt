-- ===== src/Index/Sherman/Leaf/Tests.antt =====
-- The leaf pages at a page of four records, of which two are in use.
use faunus.Index.Sherman.Leaf.Insert.{Fresh, finds, insert_to_leaf-finds, HasSucceeded}
use faunus.Index.Sherman.Leaf.Keyed.{Printed}
use faunus.Index.Sherman.Leaf.Sort.{Distinct}
use faunus.Index.Sherman.Leaf.Split.{search_leaf-split_leaf}
use faunus.Index.Sherman.Leaf.{
  KvItem, Items, fingerprint, xor_bytes, search_leaf, keyed_entries, split_leaf, insert_to_leaf,
  SplitLeaf, try_split_leaf,
}
use faunus.Index.Sherman.Leaf.Found.{used_records}
use faunus.Index.Sherman.{new_header, no_leaf_entry, LeafPage}
use faunus.Prelude.{
  ℕ, ◌≡◌, refl, sym, ap, false, none, some, [], ◌∷◌, ltb, ◌==◌, if◌then◌else◌, arith,
}
use mathlib.Core.Option

-- Two keys of two bytes with the same exclusive or.
abbrev example_items : Items
example_items a =
    if a == 64
    then some (record { key = 0x01_02; value = 7 })
    else if a == 72
    then some (record { key = 0x02_01; value = 8 })
    else none

abbrev example_leaf : LeafPage
example_leaf = record {
  embedding_lock = 0;
  front_version = 1;
  hdr = new_header 0 0xff_ff;
  records =
      record { fingerprint = 3; kv_ptr = 72 }
      ∷ no_leaf_entry
      ∷ record { fingerprint = 3; kv_ptr = 64 }
      ∷ no_leaf_entry
      ∷ [];
  rear_version = 1;
}

example_leaf-Fresh : Fresh 80 example_leaf.records
unfolding Fresh
example_leaf-Fresh = ((ground arith), ((ground arith), ((ground arith), ((ground arith), tt))))

insert_to_leaf-finds_example :
    HasSucceeded (insert_to_leaf 2 4 false example_leaf example_items 0x03_00 9 80 72 96)
    × (finds 2 example_leaf example_items
          (insert_to_leaf 2 4 false example_leaf example_items 0x03_00 9 80 72 96)
          0x02_01
        ≡ (if 0x02_01 == 0x03_00
            then some 9
            else search_leaf 2 example_items example_leaf.records 0x02_01))
unfolding used_records
insert_to_leaf-finds_example =
    insert_to_leaf-finds 2 4 false example_leaf example_items 0x03_00 9 80 72 96 0x02_01
      (omega arith) (omega arith) (ground arith) example_leaf-Fresh refl (omega arith)

known :
    (key value : ℕ) (item : KvItem)
    → some (record { key = key; value = value }) ≡ some item
    → key ≡ item.key
known key value item h =
    ap (λ o. (Option.get_or {A = KvItem} o (record { key = 0; value = 0 })).key) h

example_leaf-Printed : Printed 2 example_items example_leaf.records
unfolding Printed fingerprint xor_bytes
example_leaf-Printed = (
  λ item h. rw (sym (known 0x02_01 8 item h)) refl,
  (
    λ item h. absurd (cc h),
    (λ item h. rw (sym (known 0x01_02 7 item h)) refl, (λ item h. absurd (cc h), tt)),
  ),
)

example_leaf-Distinct : Distinct (keyed_entries example_items example_leaf.records)
unfolding keyed_entries
example_leaf-Distinct = (((ground arith), tt), (tt, tt))

abbrev halves : SplitLeaf
halves = split_leaf 4 example_items example_leaf 96

-- Two records are in use; the page is at 104.
holds : try_split_leaf 4 example_items example_leaf 104 96 2 ≡ some halves
unfolding try_split_leaf
holds = refl

search_leaf-split_leaf_example :
    (if ltb 0x01_02 halves.split_key
      then search_leaf 2 example_items halves.left.records 0x01_02
      else search_leaf 2 example_items halves.right.records 0x01_02)
    ≡ search_leaf 2 example_items example_leaf.records 0x01_02
search_leaf-split_leaf_example =
    search_leaf-split_leaf 2 4 example_items example_leaf 104 96 2 halves 0x01_02
      example_leaf-Printed example_leaf-Distinct (omega arith) holds

searches :
    (search_leaf 2 example_items example_leaf.records 0x01_02 ≡ some 7)
    × (search_leaf 2 example_items example_leaf.records 0x02_01 ≡ some 8)
    × (search_leaf 2 example_items example_leaf.records 0x03_00 ≡ none)
unfolding search_leaf fingerprint xor_bytes
searches = (refl, refl, refl)

splits : (split_leaf 4 example_items example_leaf 96).split_key ≡ 0x02_01
unfolding split_leaf
splits = refl
