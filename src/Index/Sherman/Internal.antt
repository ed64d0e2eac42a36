-- ===== src/Index/Sherman/Internal.antt =====
-- src/kv_index/sherman_index.cpp: the internal pages. The leftmost child stands in the header and
-- the child to the right of each key in the record of that key.
pub mod Routing
pub mod Place
pub mod Insert
pub mod Split
mod Tests
use faunus.Index.Sherman.{
  Key, Header, new_header, InternalEntry, no_entry, Page, InternalPage, set_consistent,
  set_consistent,
}
use faunus.Prelude.{
  ℕ, zero, suc, ◌+◌, ◌-◌, ◌/◌, Bool, true, false, ◌||◌, Option, none, some, List, get_or, set, fill,
  ltb, leb, ◌==◌, if◌then◌else◌, ◌&&◌, not,
}
use faunus.Rdma.GlobalAddress.{GlobalAddress, null}
use mathlib.Core.Option

abbrev pub record_at : List InternalEntry → ℕ → InternalEntry
record_at records i = get_or records i no_entry

-- The loop over the records from `i` on, `n` of them.
unfoldable pub search_records : ℕ → ℕ → Key → List InternalEntry → Option GlobalAddress
search_records zero i key records = none
search_records (suc n) i key records =
    let rest = search_records n (i + 1) key records in
    if ltb key (record_at records i).key then some (record_at records (i - 1)).ptr else rest

-- `search_node`: the child of an internal page that a search descends to.
unfoldable pub next_level : InternalPage → Key → GlobalAddress
unfolding search_records
next_level page key =
    let cnt = page.hdr.count in
    if ltb key (record_at page.records 0).key
    then page.hdr.leftmost_ptr
    else Option.get_or (search_records (cnt - 1) 1 key page.records)
        (record_at page.records (cnt - 1)).ptr

-- `get_leaf_from_cache_entry`, for an entry from `start` to `end_key` with the page
unfoldable pub get_leaf_from_cache_entry : Key → Key → InternalPage → Key → GlobalAddress
unfolding search_records
get_leaf_from_cache_entry start end_key page key =
    let last_index = page.hdr.count - 1 in
    if ltb key start || leb end_key key
    then null
    else if ltb key (record_at page.records 0).key
    then page.hdr.leftmost_ptr
    else Option.get_or (search_records last_index 1 key page.records)
        (record_at page.records last_index).ptr

-- `insert_to_internal`: whether the key is in the record at an index, or belongs there.
pub data Position : Type 0 where
  update_at : (index : ℕ) → Position
  insert_at : (index : ℕ) → Position

-- The search for it, from record `n - 1` down.
unfoldable pub find_position : ℕ → Key → List InternalEntry → Position
find_position zero key records = insert_at 0
find_position (suc i) key records =
    let rest = find_position i key records in
    if (record_at records i).key == key
    then update_at i
    else if ltb (record_at records i).key key
    then insert_at (i + 1)
    else rest

-- The loop that moves records to the right, `n` rounds with `i` falling.
unfoldable pub shift_records : ℕ → ℕ → List InternalEntry → List InternalEntry
shift_records zero i records = records
shift_records (suc n) i records =
    shift_records n (i - 1) (set records i (record_at records (i - 1)))

-- The update, or the shift and the writes.
unfoldable pub write_record : InternalPage → Key → GlobalAddress → Position → InternalPage
unfolding shift_records
write_record page key v (update_at i) = record page {
  records = set page.records i (record { key = (record_at page.records i).key; ptr = v });
}
write_record page key v (insert_at index) =
    let cnt = page.hdr.count in
    record page {
      records =
          set (shift_records (cnt - index) cnt page.records) index (record { key = key; ptr = v });
      hdr = record page.hdr { count = cnt + 1 };
    }

unfoldable pub insert_record : InternalPage → Key → GlobalAddress → InternalPage
unfolding find_position write_record
insert_record page key v = write_record page key v (find_position page.hdr.count key page.records)

-- The two pages of a split, and the key between them.
pub record SplitPage : Type 0 where
  pub left : InternalPage
  pub right : InternalPage
  pub split_key : Key

-- `insert_to_internal`, from the split of a full page to the links
unfoldable pub split_page : ℕ → InternalPage → GlobalAddress → SplitPage
split_page cardinality page sibling_addr =
    let cnt = page.hdr.count in
    let m = cnt / 2 in
    let split_key = (record_at page.records m).key in
    record {
      left = record page {
        hdr = record page.hdr {
          count = cnt - (cnt - m);
          highest = split_key;
          sibling_ptr = sibling_addr;
        };
      };
      right = record {
        embedding_lock = 0;
        front_version = 0;
        hdr = record {
          leftmost_ptr = (record_at page.records m).ptr;
          sibling_ptr = page.hdr.sibling_ptr;
          level = page.hdr.level;
          count = cnt - (m + 1);
          lowest = split_key;
          highest = page.hdr.highest;
        };
        records =
            fill cardinality 0
              (λ j. if ltb j (cnt - (m + 1)) then record_at page.records (j + m + 1) else no_entry);
        rear_version = 0;
      };
      split_key = split_key;
    }

-- What `insert_to_internal` does with the page that it has locked and read: it goes on to the right
-- sibling, writes the page back, or writes the two pages of a split; `failed` stands for its
-- assertions.
pub data InternalOutcome : Type 0 where
  go_right : (sibling : GlobalAddress) → InternalOutcome
  write_back : (page : InternalPage) → InternalOutcome
  write_split : (parts : SplitPage) → InternalOutcome
  failed : InternalOutcome

-- The assertions on the key between the halves and on the links.
unfoldable pub can_split : InternalPage → Key → GlobalAddress → GlobalAddress → Bool
can_split page split_key page_addr sibling_addr =
    ltb page.hdr.lowest split_key
    && ltb split_key page.hdr.highest
    && not (sibling_addr == page_addr)
    && not (page.hdr.sibling_ptr == page_addr)
    && not (page.hdr.sibling_ptr == sibling_addr)

unfoldable pub insert_to_internal :
    ℕ → InternalPage → GlobalAddress → Key → GlobalAddress → GlobalAddress → InternalOutcome
unfolding insert_record split_page set_consistent can_split
insert_to_internal cardinality page page_addr key v sibling_addr =
    let page' = insert_record page key v in
    let parts = split_page cardinality page' sibling_addr in
    if leb page.hdr.highest key
    then (if page.hdr.sibling_ptr == null then failed else go_right page.hdr.sibling_ptr)
    else if ltb key page.hdr.lowest || (page.hdr.count == cardinality)
    then failed
    else if page'.hdr.count == cardinality
    then (if can_split page' parts.split_key page_addr sibling_addr
        then write_split (record {
          left = set_consistent parts.left;
          right = set_consistent parts.right;
          split_key = parts.split_key;
        })
        else failed)
    else write_back (set_consistent page')

-- `InternalPage(left, key, right, level)`, the new root of `update_root_offset`
unfoldable pub root_page : ℕ → Key → GlobalAddress → Key → GlobalAddress → ℕ → InternalPage
root_page cardinality max_key left key right level = record {
  embedding_lock = 0;
  front_version = 0;
  hdr = record (new_header level max_key) { leftmost_ptr = left; count = 1 };
  records =
      fill cardinality 0 (λ j. if j == 0 then record { key = key; ptr = right } else no_entry);
  rear_version = 0;
}
