-- ===== src/Index/Leaf/Split.antt =====
-- The split of a leaf: its entries in the order of their keys, and where each of them goes.
use mathlib.Core.Path.{subst}
use faunus.Index.Internal.{Key}
use faunus.Index.KvBlock.{KvBlock}
use faunus.Index.Leaf.{
  LeafNode, free_block, block_at, assign, collect, entry, unlocked, cleared, distribute,
}
use faunus.Prelude.{
  ℕ, zero, suc, ◌+◌, ◌-◌, ◌/◌, ◌≤◌, ◌<◌, ◌≡◌, refl, sym, ap, ◌∙◌, true, false, Option, none, some,
  List, [], ◌∷◌, length, get_or, fill, get_or-fill, ltb, ◌==◌, if◌then◌else◌, dec_lt, ℕ_discrete,
  lt→ltb, le→ltb, arith,
}

-- The block that a list of entries has for a key.
pub block_of : Key → List (Key × KvBlock) → Option KvBlock
block_of key [] = none
block_of key ((k, b) ∷ entries) = if k == key then some b else block_of key entries

-- Ascending keys, all of them above a bound.
abbrev pub IsAbove : Key → List (Key × KvBlock) → Type 0
IsAbove low [] = ℕ
IsAbove low ((k, b) ∷ entries) = (low < k) × IsAbove k entries

abbrev pub IsAscending : List (Key × KvBlock) → Type 0
IsAscending [] = ℕ
IsAscending ((k, b) ∷ entries) = IsAbove k entries

assign-IsAbove :
    (low key : Key) (block : KvBlock) (entries : List (Key × KvBlock))
    → low < key
    → IsAbove low entries
    → IsAbove low (assign key block entries)
unfolding assign
assign-IsAbove low key block [] l h = (l, 0)
assign-IsAbove low key block ((k, b) ∷ entries) l (h, hs) = elim (dec_lt key k) [
  | yes p ↦ rw (lt→ltb key k p) (l, (p, hs))
  | no np ↦ elim (ℕ_discrete key k) [
    | yes e ↦
        let eq : (key == k) ≡ true = ground arith in
        rw (le→ltb key k (omega arith), eq) (l, subst (λ x. IsAbove x entries) (sym e) hs)
    | no ne ↦
        let eq : (key == k) ≡ false = ground arith in
        rw (le→ltb key k (omega arith), eq) (h, assign-IsAbove k key block entries (omega arith) hs)
  ]
]

assign-IsAscending :
    (key : Key) (block : KvBlock) (entries : List (Key × KvBlock))
    → IsAscending entries
    → IsAscending (assign key block entries)
unfolding assign
assign-IsAscending key block [] h = 0
assign-IsAscending key block ((k, b) ∷ entries) h = elim (dec_lt key k) [
  | yes p ↦ rw (lt→ltb key k p) (p, h)
  | no np ↦ elim (ℕ_discrete key k) [
    | yes e ↦
        let eq : (key == k) ≡ true = ground arith in
        rw (le→ltb key k (omega arith), eq) (subst (λ x. IsAbove x entries) (sym e) h)
    | no ne ↦
        let eq : (key == k) ≡ false = ground arith in
        rw (le→ltb key k (omega arith), eq) (assign-IsAbove k key block entries (omega arith) h)
  ]
]

block_of-above :
    (key low : Key) (entries : List (Key × KvBlock))
    → key ≤ low
    → IsAbove low entries
    → block_of key entries ≡ none
unfolding block_of
block_of-above key low [] l h = refl
block_of-above key low ((k, b) ∷ entries) l (h, hs) =
    let ne : (k == key) ≡ false = ground arith in
    rw ne (block_of-above key k entries (omega arith) hs)

-- As a `std::map` does: an assignment changes the block of its key and of no other.
block_of-assign :
    (x key : Key) (block : KvBlock) (entries : List (Key × KvBlock))
    → block_of x (assign key block entries) ≡ (if key == x then some block else block_of x entries)
unfolding assign block_of
block_of-assign x key block [] = refl
block_of-assign x key block ((k, b) ∷ entries) = elim (dec_lt key k) [
  | yes p ↦ rw (lt→ltb key k p) refl
  | no np ↦ elim (ℕ_discrete key k) [
    | yes e ↦
        let eq : (key == k) ≡ true = ground arith in
        rw (le→ltb key k (omega arith), eq) (ground arith)
    | no ne ↦
        let eq : (key == k) ≡ false = ground arith in
        rw (le→ltb key k (omega arith), eq)
          (elim (ℕ_discrete k x) [
            | yes e' ↦ ground arith
            | no ne' ↦ ground (arith, block_of-assign x key block entries)
          ])
  ]
]

-- The last block read with a key.
pub latest : Key → List (Key × KvBlock) → Option KvBlock → Option KvBlock
latest x [] before = before
latest x ((k, b) ∷ taken) before = latest x taken (if k == x then some b else before)

collect-map :
    (x : Key) (taken entries : List (Key × KvBlock))
    → IsAscending entries
    → IsAscending (collect taken entries)
      × (block_of x (collect taken entries) ≡ latest x taken (block_of x entries))
unfolding collect latest
collect-map x [] entries h = (h, refl)
collect-map x ((k, b) ∷ taken) entries h =
    let (up, found) = collect-map x taken (assign k b entries) (assign-IsAscending k b entries h) in
    (up, found ∙ ap (latest x taken) (block_of-assign x k b entries))

-- The entries of a split: their keys ascend strictly, and each key has the block that it was read
-- with last, so that of several items with one key one stays.
pub collect_lem :
    (x : Key) (taken : List (Key × KvBlock))
    → IsAscending (collect taken []) × (block_of x (collect taken []) ≡ latest x taken none)
unfolding block_of
collect_lem x taken = collect-map x taken [] 0

above-entry :
    (low : Key) (entries : List (Key × KvBlock)) (i : ℕ)
    → IsAbove low entries
    → i < length entries
    → low < (entry entries i).0
above-entry low [] i h l = absurd (omega arith)
above-entry low ((k, b) ∷ entries) zero h l = h.0
above-entry low ((k, b) ∷ entries) (suc i) h l =
    omega (arith, h.0, above-entry k entries i h.1 (omega arith))

IsAbove-IsAscending :
    (low : Key) (entries : List (Key × KvBlock)) → IsAbove low entries → IsAscending entries
IsAbove-IsAscending low [] h = 0
IsAbove-IsAscending low ((k, b) ∷ entries) h = h.1

ascending-entry :
    (entries : List (Key × KvBlock)) (i j : ℕ)
    → IsAscending entries
    → i < j
    → j < length entries
    → (entry entries i).0 < (entry entries j).0
ascending-entry [] i j h l m = absurd (omega arith)
ascending-entry ((k, b) ∷ entries) i zero h l m = absurd (omega arith)
ascending-entry ((k, b) ∷ entries) zero (suc j) h l m = above-entry k entries j h (omega arith)
ascending-entry ((k, b) ∷ entries) (suc i) (suc j) h l m =
    ascending-entry entries i j (IsAbove-IsAscending k entries h) (omega arith) (omega arith)

-- Distributing entries with ascending keys over two leaves with room for them: an entry comes to the
-- left leaf exactly when its key lies below the middle key, it stands there unlocked, in a slot of
-- its own, and the left leaf ends where the right one begins.
pub distribute-entry :
    (bf : ℕ) (leaf : LeafNode) (entries : List (Key × KvBlock)) (draws new_draws : ℕ → KvBlock)
    (i : ℕ)
    → IsAscending entries
    → length entries ≤ bf
    → i < length entries
    → let parts = distribute bf leaf entries draws new_draws in
      let middle = length entries / 2 in
      (ltb (entry entries i).0 parts.middle_key ≡ ltb i middle)
      × (block_at
            (if ltb i middle then parts.left.kv_blocks else parts.right.kv_blocks)
            (if ltb i middle then i else i - middle)
          ≡ unlocked (entry entries i).1)
      × (parts.left.header.fence_second ≡ parts.right.header.fence_first)
      × (parts.right.header.fence_second ≡ leaf.header.fence_second)
unfolding distribute
distribute-entry bf leaf entries draws new_draws i h room l =
    let size = length entries in
    let middle = size / 2 in
    let lefts =
      λ (j : ℕ). if ltb j middle then unlocked (entry entries j).1 else cleared (draws j) in
    let rights = λ (j : ℕ).
      if ltb j (size - middle)
      then unlocked (entry entries (j + middle)).1
      else cleared (new_draws j) in
    elim (dec_lt i middle) [
      | yes p ↦
          let key_low = ascending-entry entries i middle h p (omega arith) in
          let at_i : get_or (fill bf 0 lefts) i free_block ≡ lefts (0 + i) =
            get_or-fill bf 0 i lefts free_block (omega arith) in
          rw (lt→ltb i middle p) (
            lt→ltb _ _ key_low,
            at_i
                ∙ rw (lt→ltb (0 + i) middle (omega arith))
                    (ap (λ j. unlocked (entry entries j).1) (omega arith)),
            refl,
            refl,
          )
      | no np ↦
          let high : (entry entries middle).0 ≤ (entry entries i).0 = elim (ℕ_discrete middle i) [
            | yes e ↦ rw e (omega arith)
            | no ne ↦ omega (arith, ascending-entry entries middle i h (omega arith) l)
          ] in
          let at_i : get_or (fill bf 0 rights) (i - middle) free_block ≡ rights (0 + (i - middle)) =
            get_or-fill bf 0 (i - middle) rights free_block (omega arith) in
          rw (le→ltb i middle (omega arith)) (
            le→ltb _ _ high,
            at_i
                ∙ rw (lt→ltb (0 + (i - middle)) (size - middle) (omega arith))
                    (ap (λ j. unlocked (entry entries j).1) (omega arith)),
            refl,
            refl,
          )
    ]
