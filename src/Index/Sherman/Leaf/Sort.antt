-- ===== src/Index/Sherman/Leaf/Sort.antt =====
-- Sorting the records of a leaf, and parting them, against a lookup by key.
use faunus.Index.Sherman.Leaf.{KeyedEntry, sort_in, sort, split_keys, first_key}
use faunus.Index.Sherman.{Key, LeafEntry}
use faunus.Prelude.{
  ℕ, zero, suc, ◌≤◌, ◌<◌, ◌≡◌, ◌≢◌, refl, sym, ◌∙◌, false, Option, none, some, List, [], ◌∷◌,
  length, ◌==◌, if◌then◌else◌, dec_lt, lt→ltb, le→ltb, ℕ_discrete, arith,
}

-- The first entry with a key.
unfoldable pub lookup : List KeyedEntry → Key → Option LeafEntry
lookup [] k = none
lookup (e ∷ es) k = if e.key == k then some e.entry else lookup es k

lookup-sort_in :
    (e : KeyedEntry) (es : List KeyedEntry) (k : Key) → lookup (sort_in e es) k ≡ lookup (e ∷ es) k
unfolding lookup sort_in
lookup-sort_in e [] k = refl
lookup-sort_in e (x ∷ xs) k = elim (dec_lt x.key e.key) [
  | yes p ↦
      rw (lt→ltb _ _ p, lookup-sort_in e xs k)
        (elim (ℕ_discrete x.key k) [
          | yes h ↦ let apart : (e.key == k) ≡ false = ground arith in rw apart refl
          | no h ↦ let other : (x.key == k) ≡ false = ground arith in rw other refl
        ])
  | no p ↦ rw (le→ltb x.key e.key (omega arith)) refl
]

-- Sorting changes no lookup.
pub lookup-sort : (es : List KeyedEntry) (k : Key) → lookup (sort es) k ≡ lookup es k
unfolding lookup sort
lookup-sort [] k = refl
lookup-sort (e ∷ es) k = lookup-sort_in e (sort es) k ∙ rw (lookup-sort es k) refl

-- All keys differ from, or lie above, a key.
abbrev pub Apart : Key → List KeyedEntry → Type 0
Apart k [] = Unit
Apart k (e ∷ es) = (e.key ≢ k) × Apart k es

abbrev pub Above : Key → List KeyedEntry → Type 0
Above k [] = Unit
Above k (e ∷ es) = (k < e.key) × Above k es

abbrev pub Distinct : List KeyedEntry → Type 0
Distinct [] = Unit
Distinct (e ∷ es) = Apart e.key es × Distinct es

abbrev pub Sorted : List KeyedEntry → Type 0
Sorted [] = Unit
Sorted (e ∷ es) = Above e.key es × Sorted es

Above-lower : (b c : Key) (es : List KeyedEntry) → b ≤ c → Above c es → Above b es
Above-lower b c [] h a = tt
Above-lower b c (e ∷ es) h (l, a) = (omega arith, Above-lower b c es h a)

sort_in-Above :
    (b : Key) (e : KeyedEntry) (es : List KeyedEntry)
    → b < e.key
    → Above b es
    → Above b (sort_in e es)
unfolding sort_in
sort_in-Above b e [] h a = (h, tt)
sort_in-Above b e (x ∷ xs) h (l, a) = elim (dec_lt x.key e.key) [
  | yes p ↦ rw (lt→ltb _ _ p) (l, sort_in-Above b e xs h a)
  | no p ↦ rw (le→ltb x.key e.key (omega arith)) (h, (l, a))
]

sort_in-Apart :
    (k : Key) (e : KeyedEntry) (es : List KeyedEntry)
    → e.key ≢ k
    → Apart k es
    → Apart k (sort_in e es)
unfolding sort_in
sort_in-Apart k e [] h a = (h, tt)
sort_in-Apart k e (x ∷ xs) h (l, a) = elim (dec_lt x.key e.key) [
  | yes p ↦ rw (lt→ltb _ _ p) (l, sort_in-Apart k e xs h a)
  | no p ↦ rw (le→ltb x.key e.key (omega arith)) (h, (l, a))
]

sort-Apart : (k : Key) (es : List KeyedEntry) → Apart k es → Apart k (sort es)
unfolding sort
sort-Apart k [] a = tt
sort-Apart k (e ∷ es) (h, a) = sort_in-Apart k e (sort es) h (sort-Apart k es a)

sort_in-Sorted :
    (e : KeyedEntry) (es : List KeyedEntry) → Apart e.key es → Sorted es → Sorted (sort_in e es)
unfolding sort_in
sort_in-Sorted e [] a s = (tt, tt)
sort_in-Sorted e (x ∷ xs) (l, a) (above, s) = elim (dec_lt x.key e.key) [
  | yes p ↦ rw (lt→ltb _ _ p) (sort_in-Above x.key e xs p above, sort_in-Sorted e xs a s)
  | no p ↦
      rw (le→ltb x.key e.key (omega arith))
        ((omega (arith, l), Above-lower e.key x.key xs (omega arith) above), (above, s))
]

pub sort-Sorted : (es : List KeyedEntry) → Distinct es → Sorted (sort es)
unfolding sort
sort-Sorted [] d = tt
sort-Sorted (e ∷ es) (a, d) = sort_in-Sorted e (sort es) (sort-Apart e.key es a) (sort-Sorted es d)

pub lookup-Above : (b k : Key) (es : List KeyedEntry) → Above b es → k ≤ b → lookup es k ≡ none
unfolding lookup
lookup-Above b k [] a h = refl
lookup-Above b k (e ∷ es) (l, a) h =
    let apart : (e.key == k) ≡ false = ground arith in rw apart (lookup-Above b k es a h)

first_key-Above :
    (b : Key) (es : List KeyedEntry) (m : ℕ)
    → Above b es
    → m < length es
    → b < first_key (split_keys es m).1
first_key-Above b [] m a h = absurd (omega arith)
first_key-Above b (e ∷ es) zero (l, a) h = l
first_key-Above b (e ∷ es) (suc m) (l, a) h = first_key-Above b es m a (omega arith)

-- Entries in order, parted at an index: each half has the lookups on its side of the first key of the
-- higher half.
pub lookup-low :
    (es : List KeyedEntry) (m : ℕ) (k : Key)
    → Sorted es
    → m < length es
    → k < first_key (split_keys es m).1
    → lookup (split_keys es m).0 k ≡ lookup es k
unfolding lookup
lookup-low [] m k s h below = absurd (omega arith)
lookup-low (e ∷ es) zero k (above, s) h below =
    let apart : (e.key == k) ≡ false = ground arith in
    rw apart (sym (lookup-Above e.key k es above (omega arith)))
lookup-low (e ∷ es) (suc m) k (above, s) h below = rw (lookup-low es m k s (omega arith) below) refl

pub lookup-high :
    (es : List KeyedEntry) (m : ℕ) (k : Key)
    → Sorted es
    → m < length es
    → first_key (split_keys es m).1 ≤ k
    → lookup (split_keys es m).1 k ≡ lookup es k
unfolding lookup
lookup-high [] m k s h from = absurd (omega arith)
lookup-high (e ∷ es) zero k s h from = refl
lookup-high (e ∷ es) (suc m) k (above, s) h from =
    let past = first_key-Above e.key es m above (omega arith) in
    let apart : (e.key == k) ≡ false = ground arith in
    rw apart (lookup-high es m k s (omega arith) from)

length-sort_in : (e : KeyedEntry) (es : List KeyedEntry) → length (sort_in e es) ≡ suc (length es)
unfolding sort_in
length-sort_in e [] = refl
length-sort_in e (x ∷ xs) = elim (dec_lt x.key e.key) [
  | yes p ↦ rw (lt→ltb _ _ p, length-sort_in e xs) refl
  | no p ↦ rw (le→ltb x.key e.key (omega arith)) refl
]

pub length-sort : (es : List KeyedEntry) → length (sort es) ≡ length es
unfolding sort
length-sort [] = refl
length-sort (e ∷ es) = length-sort_in e (sort es) ∙ rw (length-sort es) refl
