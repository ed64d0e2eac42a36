-- ===== src/Index/Client/Lookup.antt =====
-- A reader's search of a leaf by fingerprints, against a search of all its slots.
use faunus.Index.Client.{
  Layout, read_items, after_collisions, get_candidate_kvs, update_found, after_candidates,
  handle_local_remove_dupes,
}
use faunus.Index.Find.{Memory, in_fence}
use faunus.Index.Internal.{Key}
use faunus.Index.KvBlock.{KvBlock, Fingerprint, fingerprint, get_addr, get_fingerprint, is_free}
use faunus.Index.Leaf.Duplicates.{matching, intended, scan-intended}
use faunus.Index.Leaf.{Value, LeafNode, block_at, collisions_from, get_fingerprint_collisions, Scan}
use faunus.Prelude.{
  ℕ, zero, suc, ◌+◌, ◌≤◌, ◌<◌, ◌≡◌, refl, ◌∙◌, ap, true, false, not, ◌&&◌, Bool-cases, inl, inr,
  Option, none, some, List, [], ◌∷◌, ◌==◌, ==_iff, if◌then◌else◌, arith,
}

-- The value of the first taken slot, from slot `i` on with `n` left, whose item has the key.
unfoldable pub lookup_from : ℕ → ℕ → Memory → Key → List KvBlock → Option Value
lookup_from zero i mem key blocks = none
lookup_from (suc n) i mem key blocks =
    let block = block_at blocks i in
    let item = mem.item (get_addr block) in
    let rest = lookup_from n (i + 1) mem key blocks in
    if not (is_free block) && (item.key == key) then some item.value else rest

abbrev pub lookup : ℕ → Memory → Key → LeafNode → Option Value
lookup branch_factor mem key leaf = lookup_from branch_factor 0 mem key leaf.kv_blocks

-- A taken slot whose item has the key has the key's fingerprint.
abbrev pub HasPrints : Layout → Memory → Key → LeafNode → Type 0
HasPrints layout mem key leaf =
    (i : ℕ)
    → i < layout.branch_factor
    → is_free (block_at leaf.kv_blocks i) ≡ false
    → (mem.item (get_addr (block_at leaf.kv_blocks i))).key ≡ key
    → get_fingerprint (block_at leaf.kv_blocks i) ≡ fingerprint (layout.bytes key)

abbrev pub answer_of : Scan → Option Value
answer_of scan = if scan.found then some scan.value_out else none

first_value : List (ℕ × Value) → Option Value
first_value [] = none
first_value ((index, v) ∷ ms) = some v

answer_of-intended :
    (value : Value) (ms : List (ℕ × Value)) → answer_of (intended false value ms) ≡ first_value ms
unfolding intended first_value
answer_of-intended value [] = refl
answer_of-intended value ((index, v) ∷ ms) = refl

not_updating : (value : Value) (ms : List (ℕ × Value)) → (intended false value ms).updating ≡ none
unfolding intended
not_updating value [] = refl
not_updating value ((index, v) ∷ ms) = refl

module _ (layout : Layout) (mem : Memory) (key : Key) (fp : Fingerprint) where
  first-lookup :
      (n i : ℕ) (blocks : List KvBlock)
      → ((j : ℕ)
          → i ≤ j
          → j < i + n
          → is_free (block_at blocks j) ≡ false
          → (mem.item (get_addr (block_at blocks j))).key ≡ key
          → get_fingerprint (block_at blocks j) ≡ fp)
      → first_value (matching key (read_items layout mem true (collisions_from n i blocks fp).0))
        ≡ lookup_from n i mem key blocks
  unfolding first_value matching read_items collisions_from lookup_from
  first-lookup zero i blocks prints = refl
  first-lookup (suc n) i blocks prints =
      let block = block_at blocks i in
      let item = mem.item (get_addr block) in
      let rest =
        first-lookup n (i + 1) blocks (λ j l r. prints j (omega (arith, l)) (omega (arith, r))) in
      elim (Bool-cases (is_free block)) [
        | inl free ↦ rw free rest
        | inr taken ↦ elim (Bool-cases (item.key == key)) [
          | inl same ↦
              let print : (get_fingerprint block == fp) ≡ true =
                (==_iff _ _).1 (prints i (omega arith) (omega arith) taken ((==_iff _ _).0 same)) in
              rw (taken, print, same) refl
          | inr other ↦ elim (Bool-cases (get_fingerprint block == fp)) [
            | inl print ↦ rw (taken, print, other) rest
            | inr no_print ↦ rw (taken, no_print, other) rest
          ]
        ]
      ]

scanned :
    (leaf : LeafNode) (key : Key) (value : Value) (candidates : List (ℕ × Key × Value))
    → (after_candidates leaf key value false [] (true, candidates)).success ≡ true
unfolding after_candidates update_found
scanned leaf key value [] = refl
scanned leaf key value (c ∷ cs) =
    ap (λ scan. update_found leaf [] scan.updating) (scan-intended key false (c ∷ cs) value)
    ∙ ap (update_found leaf []) (not_updating value (matching key (c ∷ cs)))

answered :
    (leaf : LeafNode) (key : Key) (value : Value) (candidates : List (ℕ × Key × Value))
    → answer_of (after_candidates leaf key value false [] (true, candidates)).scan
      ≡ first_value (matching key candidates)
unfolding after_candidates matching first_value
answered leaf key value [] = refl
answered leaf key value (c ∷ cs) =
    ap answer_of (scan-intended key false (c ∷ cs) value)
    ∙ answer_of-intended value (matching key (c ∷ cs))

opens :
    (layout : Layout) (mem : Memory) (key : Key) (leaf : LeafNode) (value : Value)
    → in_fence leaf.header key ≡ true
    → handle_local_remove_dupes layout mem key leaf value false true false []
      ≡ after_candidates leaf key value false [] (
        true,
        read_items layout mem true
            (collisions_from layout.branch_factor 0 leaf.kv_blocks
              (fingerprint (layout.bytes key))).0,
      )
unfolding handle_local_remove_dupes get_candidate_kvs after_collisions get_fingerprint_collisions
opens layout mem key leaf value within =
    let fp = fingerprint (layout.bytes key) in
    let found_smo = (collisions_from layout.branch_factor 0 leaf.kv_blocks fp).1 in
    elim (Bool-cases (leaf.header.lock == 0)) [
      | inl l ↦ elim (Bool-cases found_smo) [
        | inl s ↦ rw (within, l, s) refl
        | inr s ↦ rw (within, l, s) refl
      ]
      | inr l ↦ elim (Bool-cases found_smo) [
        | inl s ↦ rw (within, l, s) refl
        | inr s ↦ rw (within, l, s) refl
      ]
    ]

-- A reader of a leaf within whose fences the key lies, locked or not: its search by fingerprints
-- succeeds and has the value that a search of all slots for the key has, if the taken slots with an
-- item of the key have the key's fingerprint.
pub handle-lookup :
    (layout : Layout) (mem : Memory) (key : Key) (leaf : LeafNode) (value : Value)
    → in_fence leaf.header key ≡ true
    → HasPrints layout mem key leaf
    → ((handle_local_remove_dupes layout mem key leaf value false true false []).success ≡ true)
      × (answer_of (handle_local_remove_dupes layout mem key leaf value false true false []).scan
          ≡ lookup layout.branch_factor mem key leaf)
handle-lookup layout mem key leaf value within prints =
    let fp = fingerprint (layout.bytes key) in
    let candidates =
      read_items layout mem true (collisions_from layout.branch_factor 0 leaf.kv_blocks fp).0 in
    let e = opens layout mem key leaf value within in
    (
      ap (λ h. h.success) e ∙ scanned leaf key value candidates,
      ap (λ h. answer_of h.scan) e
          ∙ answered leaf key value candidates
          ∙ first-lookup layout mem key fp layout.branch_factor 0 leaf.kv_blocks
              (λ j l r. prints j (omega (arith, r))),
    )
