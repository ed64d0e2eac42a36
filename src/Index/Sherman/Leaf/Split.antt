-- ===== src/Index/Sherman/Leaf/Split.antt =====
-- Splitting a leaf: searches of the two halves.
use mathlib.Core.Path.{subst}
use faunus.Index.Sherman.Leaf.Keyed.{IsKeyed, AllKeyed, Printed, search-lookup, keyed_entries_lem}
use faunus.Index.Sherman.Leaf.Sort.{
  lookup-sort, Distinct, sort-Sorted, lookup-low, lookup-high, length-sort,
}
use faunus.Index.Sherman.Leaf.{
  Items, search_leaf, KeyedEntry, keyed_entries, sort_in, sort, split_keys, first_key, split_leaf,
  SplitLeaf, try_split_leaf, can_split_leaf,
}
use faunus.Index.Sherman.{Key, LeafPage, set_consistent}
use faunus.Prelude.{
  ℕ, zero, suc, ◌-◌, ◌/◌, ◌≤◌, ◌<◌, ◌≡◌, sym, ◌∙◌, Bool-cases, inl, inr, List, [], ◌∷◌, length, ltb,
  if◌then◌else◌, dec_lt, lt→ltb, le→ltb, arith, some, Bool, true, ◌==◌, ◌&&◌, if-eq-some,
}
use faunus.Rdma.GlobalAddress.{GlobalAddress}

module _ (size : ℕ) (items : Items) where
  sort_in-AllKeyed :
      (e : KeyedEntry) (es : List KeyedEntry)
      → IsKeyed size items e
      → AllKeyed size items es
      → AllKeyed size items (sort_in e es)
  unfolding AllKeyed sort_in
  sort_in-AllKeyed e [] h hs = (h, tt)
  sort_in-AllKeyed e (x ∷ xs) h (hx, hs) = elim (Bool-cases (ltb x.key e.key)) [
    | inl less ↦ rw less (hx, sort_in-AllKeyed e xs h hs)
    | inr more ↦ rw more (h, (hx, hs))
  ]

  sort-AllKeyed : (es : List KeyedEntry) → AllKeyed size items es → AllKeyed size items (sort es)
  unfolding AllKeyed sort
  sort-AllKeyed [] hs = tt
  sort-AllKeyed (e ∷ es) (h, hs) = sort_in-AllKeyed e (sort es) h (sort-AllKeyed es hs)

  split_keys-AllKeyed :
      (es : List KeyedEntry) (m : ℕ)
      → AllKeyed size items es
      → AllKeyed size items (split_keys es m).0 × AllKeyed size items (split_keys es m).1
  unfolding AllKeyed
  split_keys-AllKeyed es zero hs = (tt, hs)
  split_keys-AllKeyed [] (suc m) hs = (tt, tt)
  split_keys-AllKeyed (e ∷ es) (suc m) (h, hs) =
      let (low, high) = split_keys-AllKeyed es m hs in ((h, low), high)

halves-search :
    (size cardinality : ℕ) (items : Items) (page : LeafPage) (sibling : GlobalAddress) (k : Key)
    → Printed size items page.records
    → Distinct (keyed_entries items page.records)
    → 1 ≤ length (keyed_entries items page.records)
    → let parts = split_leaf cardinality items page sibling in
      (if ltb k parts.split_key
        then search_leaf size items parts.left.records k
        else search_leaf size items parts.right.records k)
      ≡ search_leaf size items page.records k
unfolding split_leaf set_consistent
halves-search size cardinality items page sibling k printed distinct one =
    let keyed = keyed_entries items page.records in
    let es = sort keyed in
    let m = length es / 2 in
    let low = (split_keys es m).0 in
    let high = (split_keys es m).1 in
    let (all, whole) = keyed_entries_lem size items page.records k printed in
    let (all_low, all_high) =
      split_keys-AllKeyed size items es m (sort-AllKeyed size items keyed all) in
    let inside : m < length es = omega (arith, length-sort keyed) in
    let sorted = sort-Sorted keyed distinct in
    elim (dec_lt k (first_key high)) [
      | yes p ↦ rw (lt→ltb _ _ p) (
          search-lookup size (cardinality - length low) items low k all_low
          ∙ rw (lookup-low es m k sorted inside p, lookup-sort keyed k) (sym whole))
      | no p ↦ rw (le→ltb k (first_key high) (omega arith)) (
          search-lookup size (cardinality - length high) items high k all_high
          ∙ rw (lookup-high es m k sorted inside (omega arith), lookup-sort keyed k) (sym whole))
    ]

first_holds : (n m : ℕ) (b : Bool) → ((n == m) && b) ≡ true → n ≡ m
first_holds n m b h = ground arith

all_read :
    (items : Items) (page : LeafPage) (leaf sibling : GlobalAddress) (cnt : ℕ) (parts : SplitLeaf)
    → can_split_leaf items page leaf sibling cnt parts ≡ true
    → length (keyed_entries items page.records) ≡ cnt
unfolding can_split_leaf
all_read items page leaf sibling cnt parts h =
    first_holds (length (keyed_entries items page.records)) cnt _ h

-- Splitting a leaf whose assertions hold, the number of records in use being that of the items read,
-- loses no item: if the records carry the fingerprints of the keys of their items and these keys
-- differ, then below the key between the halves a search finds in the left page, and from it on in the
-- right page, what it found in the whole page.
pub search_leaf-split_leaf :
    (size cardinality : ℕ) (items : Items) (page : LeafPage) (leaf sibling : GlobalAddress)
    (cnt : ℕ) (parts : SplitLeaf) (k : Key)
    → Printed size items page.records
    → Distinct (keyed_entries items page.records)
    → 1 ≤ cnt
    → try_split_leaf cardinality items page leaf sibling cnt ≡ some parts
    → (if ltb k parts.split_key
        then search_leaf size items parts.left.records k
        else search_leaf size items parts.right.records k)
      ≡ search_leaf size items page.records k
unfolding try_split_leaf
search_leaf-split_leaf size cardinality items page leaf sibling cnt parts k printed distinct one e =
    let made = split_leaf cardinality items page sibling in
    let (good, same) = if-eq-some (can_split_leaf items page leaf sibling cnt made) made e in
    let counted : length (keyed_entries items page.records) ≡ cnt =
      all_read items page leaf sibling cnt made good in
    subst
      (λ p.
        (if ltb k p.split_key
          then search_leaf size items p.left.records k
          else search_leaf size items p.right.records k)
        ≡ search_leaf size items page.records k)
      same
      (halves-search size cardinality items page sibling k printed distinct
        (omega (arith, counted)))
