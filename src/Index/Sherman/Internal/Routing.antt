-- ===== src/Index/Sherman/Internal/Routing.antt =====
-- Which child a search takes in a page.
use faunus.Index.Sherman.{Key, InternalEntry, InternalPage}
use faunus.Index.Sherman.Internal.{
  record_at, search_records, next_level, get_leaf_from_cache_entry, root_page,
}
use faunus.Index.Slot.{slot_from, slot_of}
use faunus.Prelude.{
  ℕ, zero, suc, ◌+◌, ◌-◌, ◌≤◌, ◌≡◌, refl, ◌&&◌, true, false, List, ltb, leb, ◌==◌, if◌then◌else◌,
  dec_lt, lt→ltb, le→ltb, fill, arith,
}
use faunus.Rdma.GlobalAddress.{GlobalAddress, null}
use mathlib.Core.Option.{get_or}

-- The keys of a page, and its children from the leftmost one on.
abbrev pub keys : InternalPage → ℕ → Key
keys page j = (record_at page.records j).key

abbrev pub child_at : InternalPage → ℕ → GlobalAddress
child_at page i = if i == 0 then page.hdr.leftmost_ptr else (record_at page.records (i - 1)).ptr

abbrev pub page_slot : InternalPage → Key → ℕ
page_slot page key = slot_of page.hdr.count key (λ j. (record_at page.records j).key)

search_records-slot :
    (n i m : ℕ) (key : Key) (records : List InternalEntry)
    → i + n ≡ m + 1
    → get_or (search_records n i key records) (record_at records m).ptr
      ≡ (record_at records (slot_from n i key (λ j. (record_at records j).key) - 1)).ptr
unfolding search_records slot_from
search_records-slot zero i m key records e = let e' : i - 1 ≡ m = omega arith in rw e'
search_records-slot (suc n) i m key records e = elim (dec_lt key (record_at records i).key) [
  | yes p ↦ rw (lt→ltb _ _ p)
  | no p ↦
      rw (le→ltb key (record_at records i).key (omega arith))
        (search_records-slot n (i + 1) m key records (omega arith))
]

slot_from-le : (n i key : ℕ) (ks : ℕ → ℕ) → i ≤ slot_from n i key ks
unfolding slot_from
slot_from-le zero i key ks = omega arith
slot_from-le (suc n) i key ks = ground (arith, slot_from-le n (i + 1) key ks)

-- The common search of both routines, among `cnt` records.
search_page :
    (cnt : ℕ) (page : InternalPage) (key : Key)
    → 1 ≤ cnt
    → (if ltb key (keys page 0)
        then page.hdr.leftmost_ptr
        else get_or
            (search_records (cnt - 1) 1 key page.records)
            (record_at page.records (cnt - 1)).ptr)
      ≡ child_at page (slot_of cnt key (keys page))
unfolding slot_from
search_page zero page key one = absurd (omega arith)
search_page (suc n) page key one = elim (dec_lt key (keys page 0)) [
  | yes p ↦ rw (lt→ltb _ _ p)
  | no p ↦
      let past : (slot_from n 1 key (keys page) == 0) ≡ false =
        ground (arith, slot_from-le n 1 key (keys page)) in
      let less : suc n - 1 ≡ n = omega arith in
      rw (le→ltb key (keys page 0) (omega arith), past, less)
        (search_records-slot n 1 n key page.records (omega arith))
]

-- The search descends to the child at the slot of the key.
pub next_level-slot :
    (page : InternalPage) (key : Key)
    → 1 ≤ page.hdr.count
    → next_level page key ≡ child_at page (page_slot page key)
unfolding next_level
next_level-slot page key one = search_page page.hdr.count page key one

-- Whenever a page has a record, an entry of the cache with it, for the keys from `start` up to
-- `end_key`, gives no leaf for a key outside them and the child that the search of the page descends
-- to for every key inside.
pub get_leaf_from_cache_entry-next_level :
    (start end_key : Key) (page : InternalPage) (key : Key)
    → 1 ≤ page.hdr.count
    → get_leaf_from_cache_entry start end_key page key
      ≡ (if leb start key && ltb key end_key then next_level page key else null)
unfolding get_leaf_from_cache_entry next_level
get_leaf_from_cache_entry-next_level start end_key page key one = elim (dec_lt key start) [
  | yes p ↦ let off : leb start key ≡ false = ground arith in rw (lt→ltb _ _ p, off)
  | no p ↦ elim (dec_lt key end_key) [
    | yes q ↦
        let on : leb start key ≡ true = ground arith in
        let inside : leb end_key key ≡ false = ground arith in
        rw (le→ltb key start (omega arith), on, lt→ltb _ _ q, inside)
    | no q ↦
        let on : leb start key ≡ true = ground arith in
        let outside : leb end_key key ≡ true = ground arith in
        rw (le→ltb key start (omega arith), on, le→ltb key end_key (omega arith), outside)
  ]
]

-- The new root sends the keys below its separator to the left child and the others to the right one.
pub next_level-root_page :
    (cardinality : ℕ) (max_key : Key) (left : GlobalAddress) (key : Key) (right : GlobalAddress)
    (level : ℕ) (k : Key)
    → 1 ≤ cardinality
    → next_level (root_page cardinality max_key left key right level) k
      ≡ (if ltb k key then left else right)
unfolding next_level root_page search_records fill
next_level-root_page (suc n) max_key left key right level k one = refl
next_level-root_page zero max_key left key right level k one = absurd (omega arith)
