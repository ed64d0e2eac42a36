-- ===== src/Index/Sherman/Leaf.antt =====
-- src/kv_index/sherman_index.cpp: the leaf pages. A record carries 12 bits of the exclusive or of the
-- bytes of its key and points to an item apart from the page. The items are a function from
-- addresses; an address without an item is one whose read fails. The allocator's answers are
-- arguments.
pub mod Lookup
pub mod Found
pub mod Insert
pub mod Sort
pub mod Keyed
pub mod Split
mod Tests
use faunus.Index.Sherman.{
  Key, Header, LeafEntry, no_leaf_entry, is_empty, Page, LeafPage, set_consistent,
}
use faunus.Prelude.{
  ℕ, zero, suc, ◌+◌, ◌-◌, ◌/◌, ◌%◌, ◌^◌, bit_xor, bit_and, Bool, true, false, ◌&&◌, ◌||◌, Option,
  none, some, List, [], ◌∷◌, ◌++◌, length, get_or, set, replicate, ltb, leb, ◌==◌, if◌then◌else◌,
  not,
}
use faunus.Rdma.GlobalAddress.{GlobalAddress, null}

abbrev pub Value : Type 0
Value = ℕ

-- `KVItem`
pub record KvItem : Type 0 where
  pub key : Key
  pub value : Value

abbrev pub Items : Type 0
Items = GlobalAddress → Option KvItem

abbrev pub write_item : Items → GlobalAddress → KvItem → Items
write_item items addr item a = if a == addr then some item else items a

-- `Fingerprint(const Key& key)`, for a key of `size` bytes.
unfoldable pub xor_bytes : ℕ → Key → ℕ
xor_bytes zero key = 0
xor_bytes (suc size) key = bit_xor (key % 2 ^ 8) (xor_bytes size (key / 2 ^ 8))

unfoldable pub fingerprint : ℕ → Key → ℕ
fingerprint size key = bit_and (xor_bytes size key) 0x0f_ff

-- What the scan of a leaf does with an item that it has read, or failed to read.
unfoldable pub item_or : Option KvItem → Key → Option Value → Option Value
item_or none key rest = rest
item_or (some item) key rest = if item.key == key then some item.value else rest

-- `search_node`: the scan of a leaf. `none` leaves the value of the result as it was.
unfoldable pub search_leaf : ℕ → Items → List LeafEntry → Key → Option Value
unfolding item_or
search_leaf size items [] key = none
search_leaf size items (r ∷ records) key =
    let rest = search_leaf size items records key in
    if is_empty r
    then rest
    else if r.fingerprint == fingerprint size key
    then item_or (items r.kv_ptr) key rest
    else rest

-- `insert_to_leaf`: what its scan finds, the item of the key, or the number of records in use and
-- the first one that is not.
pub data Scan : Type 0 where
  already_at : (ptr : GlobalAddress) (item : KvItem) → Scan
  not_there : (cnt : ℕ) (empty_index : Option ℕ) → Scan

unfoldable pub scan_item : Option KvItem → GlobalAddress → Key → Scan → Scan
scan_item none ptr key rest = rest
scan_item (some item) ptr key rest = if item.key == key then already_at ptr item else rest

unfoldable pub first_empty : Option ℕ → ℕ → Option ℕ
first_empty none i = some i
first_empty (some j) i = some j

-- The scan from record `i` on.
unfoldable pub scan_leaf : ℕ → Items → List LeafEntry → Key → ℕ → ℕ → Option ℕ → Scan
unfolding scan_item first_empty
scan_leaf size items [] key i cnt empty_index = not_there cnt empty_index
scan_leaf size items (r ∷ records) key i cnt empty_index =
    let used = scan_leaf size items records key (i + 1) (cnt + 1) empty_index in
    let unused = scan_leaf size items records key (i + 1) cnt (first_empty empty_index i) in
    if is_empty r
    then unused
    else if r.fingerprint == fingerprint size key
    then scan_item (items r.kv_ptr) r.kv_ptr key used
    else used

-- A record with the key of its item.
pub record KeyedEntry : Type 0 where
  pub key : Key
  pub entry : LeafEntry

unfoldable pub keyed_item : Option KvItem → LeafEntry → List KeyedEntry → List KeyedEntry
keyed_item none r rest = rest
keyed_item (some item) r rest = record { key = item.key; entry = r } ∷ rest

-- The records in use whose items are read.
unfoldable pub keyed_entries : Items → List LeafEntry → List KeyedEntry
unfolding keyed_item
keyed_entries items [] = []
keyed_entries items (r ∷ records) =
    let rest = keyed_entries items records in
    if is_empty r then rest else keyed_item (items r.kv_ptr) r rest

-- `std::sort` by key, as an insertion sort.
unfoldable pub sort_in : KeyedEntry → List KeyedEntry → List KeyedEntry
sort_in e [] = e ∷ []
sort_in e (x ∷ xs) = let rest = sort_in e xs in if ltb x.key e.key then x ∷ rest else e ∷ x ∷ xs

unfoldable pub sort : List KeyedEntry → List KeyedEntry
unfolding sort_in
sort [] = []
sort (e ∷ es) = sort_in e (sort es)

abbrev pub entries : List KeyedEntry → List LeafEntry
entries [] = []
entries (e ∷ es) = e.entry ∷ entries es

abbrev pub split_keys : List KeyedEntry → ℕ → List KeyedEntry × List KeyedEntry
split_keys es zero = ([], es)
split_keys [] (suc m) = ([], [])
split_keys (e ∷ es) (suc m) = let (low, high) = split_keys es m in (e ∷ low, high)

-- The records of a page, filled up with empty ones.
abbrev pub padded : ℕ → List KeyedEntry → List LeafEntry
padded cardinality es = entries es ++ replicate (cardinality - length es) no_leaf_entry

pub record SplitLeaf : Type 0 where
  pub left : LeafPage
  pub right : LeafPage
  pub split_key : Key

abbrev pub first_key : List KeyedEntry → Key
first_key [] = 0
first_key (e ∷ es) = e.key

-- `insert_to_leaf`: the split of a full page. An insert leaves `last_index`, so that the
-- split takes it below -1: the count has 16 bits here.
unfoldable pub split_leaf : ℕ → Items → LeafPage → GlobalAddress → SplitLeaf
unfolding keyed_entries sort set_consistent
split_leaf cardinality items page sibling_addr =
    let es = sort (keyed_entries items page.records) in
    let (low, high) = split_keys es (length es / 2) in
    let split_key = first_key high in
    let moved = length es - length es / 2 in
    record {
      left = set_consistent (record page {
        records = padded cardinality low;
        hdr = record page.hdr {
          count = (page.hdr.count + 2 ^ 16 - moved) % 2 ^ 16;
          highest = split_key;
          sibling_ptr = sibling_addr;
        };
      });
      right = set_consistent (record {
        embedding_lock = 0;
        front_version = 0;
        hdr = record {
          leftmost_ptr = null;
          sibling_ptr = page.hdr.sibling_ptr;
          level = page.hdr.level;
          count = moved;
          lowest = split_key;
          highest = page.hdr.highest;
        };
        records = padded cardinality high;
        rear_version = 0;
      });
      split_key = split_key;
    }

-- The assertions of the split, with the number of records in use: every item was read, the key
-- between the halves lies within the fences, and the links make no cycle.
unfoldable pub can_split_leaf :
    Items → LeafPage → GlobalAddress → GlobalAddress → ℕ → SplitLeaf → Bool
unfolding keyed_entries
can_split_leaf items page leaf_address sibling_addr cnt parts =
    (length (keyed_entries items page.records) == cnt)
    && (ltb page.hdr.lowest parts.split_key
        && ltb parts.split_key page.hdr.highest
        && not (sibling_addr == leaf_address)
        && not (page.hdr.sibling_ptr == leaf_address)
        && not (page.hdr.sibling_ptr == sibling_addr))

unfoldable pub try_split_leaf :
    ℕ → Items → LeafPage → GlobalAddress → GlobalAddress → ℕ → Option SplitLeaf
unfolding split_leaf can_split_leaf
try_split_leaf cardinality items page leaf_address sibling_addr cnt =
    let parts = split_leaf cardinality items page sibling_addr in
    if can_split_leaf items page leaf_address sibling_addr cnt parts then some parts else none

-- What `insert_to_leaf` does with the page that it has locked and read.
pub data LeafOutcome : Type 0 where
  stale : LeafOutcome
  go_right : (sibling : GlobalAddress) → LeafOutcome
  updated : (items : Items) → LeafOutcome
  inserted : (page : LeafPage) (items : Items) → LeafOutcome
  parted : (parts : SplitLeaf) (items : Items) → LeafOutcome
  failed : LeafOutcome

unfoldable pub after_split : Items → Option SplitLeaf → LeafOutcome
after_split items none = failed
after_split items (some parts) = parted parts items

-- What it does after the scan; `failed` stands for its assertions.
unfoldable pub apply_scan :
    ℕ
    → ℕ
    → LeafPage
    → Items
    → Key
    → Value
    → GlobalAddress
    → GlobalAddress
    → GlobalAddress
    → Scan
    → LeafOutcome
unfolding try_split_leaf after_split fingerprint
apply_scan size cardinality page items key value item_addr leaf_address sibling_addr
      (already_at ptr item) =
    updated (write_item items ptr (record { key = item.key; value = value }))
apply_scan size cardinality page items key value item_addr leaf_address sibling_addr
      (not_there cnt none) =
    failed
apply_scan size cardinality page items key value item_addr leaf_address sibling_addr
      (not_there cnt (some i)) =
    let items' = write_item items item_addr (record { key = key; value = value }) in
    let r : LeafEntry = record { fingerprint = fingerprint size key; kv_ptr = item_addr } in
    let page' = record page { records = set page.records i r } in
    if cnt + 1 == cardinality
    then after_split items'
        (try_split_leaf cardinality items' page' leaf_address sibling_addr (cnt + 1))
    else inserted page' items'

unfoldable pub insert_to_leaf :
    ℕ
    → ℕ
    → Bool
    → LeafPage
    → Items
    → Key
    → Value
    → GlobalAddress
    → GlobalAddress
    → GlobalAddress
    → LeafOutcome
unfolding apply_scan scan_leaf
insert_to_leaf size cardinality from_cache page items key value item_addr leaf_address
      sibling_addr =
    let scan = scan_leaf size items page.records key 0 0 none in
    if from_cache && (ltb key page.hdr.lowest || leb page.hdr.highest key)
    then stale
    else if leb page.hdr.highest key
    then (if page.hdr.sibling_ptr == null then failed else go_right page.hdr.sibling_ptr)
    else if ltb key page.hdr.lowest
    then failed
    else apply_scan size cardinality page items key value item_addr leaf_address sibling_addr scan
