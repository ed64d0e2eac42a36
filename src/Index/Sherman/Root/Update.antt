-- ===== src/Index/Sherman/Root/Update.antt =====
-- What a search finds from the root on, after the pointer is set.
use faunus.Index.Sherman.Internal.{next_level, root_page}
use faunus.Index.Sherman.Internal.Routing.{next_level-root_page}
use faunus.Index.Sherman.Leaf.{search_leaf}
use faunus.Index.Sherman.Root.{initialize, update_root_offset, write_node}
use faunus.Index.Sherman.Search.Rounds.{Holds, still}
use faunus.Index.Sherman.Search.Routes.{Route, at_leaf, down, read-Route, seen}
use faunus.Index.Outcome.{answer}
use faunus.Index.Sherman.Search.{Memory, leaf, internal, read}
use faunus.Index.Sherman.{
  Key, InternalPage, LeafPage, new_leaf_page, no_leaf_entry, set_consistent, check_consistent,
}
use faunus.Prelude.{
  ℕ, zero, suc, ◌≤◌, ◌<◌, ◌≡◌, refl, sym, ◌∙◌, ap, true, none, replicate, ltb, ◌==◌, if◌then◌else◌,
  arith,
}
use mathlib.Core.Path.{subst}
use faunus.Rdma.GlobalAddress.{GlobalAddress}

search-none :
    (size n : ℕ) (mem : Memory) (k : Key)
    → search_leaf size mem.items (replicate n no_leaf_entry) k ≡ none
unfolding search_leaf
search-none size zero mem k = refl
search-none size (suc n) mem k = search-none size n mem k

new_leaf_page-empty :
    (size cardinality : ℕ) (max_key : Key) (mem : Memory) (k : Key)
    → search_leaf size mem.items (set_consistent (new_leaf_page cardinality max_key 0)).records k
      ≡ none
unfolding new_leaf_page set_consistent
new_leaf_page-empty size cardinality max_key mem k = search-none size cardinality mem k

new_leaf_page-Holds :
    (cardinality : ℕ) (max_key key : Key)
    → key < max_key
    → Holds (set_consistent (new_leaf_page cardinality max_key 0)) key 0
unfolding new_leaf_page set_consistent check_consistent
new_leaf_page-Holds cardinality max_key key below = record {
  consistent = ground arith;
  low = omega arith;
  high = below;
  height = refl;
}

-- A tree that is initialized where the root pointer was 0 is empty: a read of any key below the
-- greatest one, with fuel for one search, returns that there is none.
read-initialize :
    (cardinality : ℕ) (max_key : Key) (mem : Memory) (root_offset : GlobalAddress)
    (reads size fuel now : ℕ) (key : Key)
    → mem.root ≡ 0
    → key < max_key
    → 1 ≤ reads
    → 1 ≤ fuel
    → read reads size fuel (still (initialize cardinality max_key mem root_offset)) now key
      ≡ answer none
unfolding initialize
read-initialize cardinality max_key mem root_offset reads size fuel now key zero_root below one
      some_fuel =
    let page = set_consistent (new_leaf_page cardinality max_key 0) in
    let mem' : Memory = record (write_node mem root_offset (leaf page)) { root = root_offset } in
    let on : (mem.root == 0) ≡ true = ground arith in
    let same : (root_offset == root_offset) ≡ true = ground arith in
    rw on (
      read-Route reads size fuel mem' key 0 root_offset page now
        (at_leaf (rw same refl) (new_leaf_page-Holds cardinality max_key key below)) one
        (omega arith)
      ∙ ap (λ x. answer (seen x)) (new_leaf_page-empty size cardinality max_key mem key))

root_page-Holds :
    (cardinality : ℕ) (max_key : Key) (left : GlobalAddress) (key : Key) (right : GlobalAddress)
    (h : ℕ) (k : Key)
    → k < max_key
    → Holds (set_consistent (root_page cardinality max_key left key right (suc h))) k (suc h)
unfolding root_page set_consistent check_consistent
root_page-Holds cardinality max_key left key right h k below = record {
  consistent = ground arith;
  low = omega arith;
  high = below;
  height = refl;
}

next_level-new_root :
    (cardinality : ℕ) (max_key : Key) (left : GlobalAddress) (key : Key) (right : GlobalAddress)
    (level : ℕ) (k : Key)
    → 1 ≤ cardinality
    → next_level (set_consistent (root_page cardinality max_key left key right level)) k
      ≡ (if ltb k key then left else right)
unfolding set_consistent next_level
next_level-new_root cardinality max_key left key right level k one =
    next_level-root_page cardinality max_key left key right level k one

-- A page above the start of a route.
read-above :
    (reads size fuel now : ℕ) (mem : Memory) (k : Key) (inner : InternalPage) (p : GlobalAddress)
    (h : ℕ) (a : GlobalAddress) (page : LeafPage)
    → mem.node mem.root ≡ internal inner
    → Holds inner k (suc h)
    → next_level inner k ≡ p
    → Route mem k p h a page
    → 1 ≤ reads
    → suc h < fuel
    → read reads size fuel (still mem) now k
      ≡ answer (seen (search_leaf size mem.items page.records k))
read-above reads size fuel now mem k inner p h a page there holds next route one enough =
    read-Route reads size fuel mem k (suc h) a page now
      (down there holds (subst (λ p. Route mem k p h a page) (sym next) route)) one enough

-- Setting the root pointer to a page above the two halves of a split succeeds if the pointer is still
-- the one that was read. If from the left page for the keys below the key between the halves, or
-- from the right page for the others, a search finds the key within the fences of every page, down to
-- a leaf `h` levels below, then a read from the new root returns what the scan of that leaf finds.
pub read-update_root_offset :
    (cardinality : ℕ) (max_key : Key) (mem : Memory) (left : GlobalAddress) (key : Key)
    (right : GlobalAddress) (h : ℕ) (old_root address : GlobalAddress) (reads size fuel now : ℕ)
    (k : Key) (a : GlobalAddress) (page : LeafPage)
    → let (ok, mem') =
        update_root_offset cardinality max_key mem left key right (suc h) old_root address in
      mem.root ≡ old_root
      → 1 ≤ cardinality
      → k < max_key
      → 1 ≤ reads
      → suc h < fuel
      → Route mem' k (if ltb k key then left else right) h a page
      → (ok ≡ true)
        × (read reads size fuel (still mem') now k
            ≡ answer (seen (search_leaf size mem'.items page.records k)))
unfolding update_root_offset
read-update_root_offset cardinality max_key mem left key right h old_root address reads size fuel
      now k a page same_root some_record below one enough route =
    let ok : (mem.root == old_root) ≡ true = ground arith in
    let ok' : (old_root == mem.root) ≡ true = ground arith in
    let same : (address == address) ≡ true = ground arith in
    let mem' =
      (update_root_offset cardinality max_key mem left key right (suc h) old_root address).1 in
    let new_root = set_consistent (root_page cardinality max_key left key right (suc h)) in
    let there : mem'.node mem'.root ≡ internal new_root = rw ok (rw same refl) in
    (
      ok',
      read-above reads size fuel now mem' k new_root (if ltb k key then left else right) h a page
          there (root_page-Holds cardinality max_key left key right h k below)
          (next_level-new_root cardinality max_key left key right (suc h) k some_record) route one
          enough,
    )
