-- ===== src/Index/Leaf/Slots.antt =====
-- Which slots of the two leaves of a split are taken.
use faunus.Index.Internal.{Key}
use faunus.Index.KvBlock.{KvBlock, is_free, set_free, set_locked}
use faunus.Index.KvBlock.Words.{is_free-eq, set_locked-eq, set_free-eq}
use faunus.Index.Leaf.{LeafNode, free_block, block_at, entry, unlocked, cleared, distribute}
use faunus.Prelude.{
  ℕ, ◌+◌, ◌-◌, ◌*◌, ◌/◌, ◌%◌, ◌^◌, ◌<◌, ◌≡◌, refl, ◌∙◌, true, false, List, length, get_or, fill,
  get_or-fill, ltb, leb, if◌then◌else◌, dec_lt, lt→ltb, le→ltb, arith,
}

is_free-unlocked : (b : KvBlock) → b < 2 ^ 64 → is_free (unlocked b) ≡ is_free b
unfolding unlocked
is_free-unlocked b h =
    let same : (b / 2 * 2 + 0) / 2 ≡ b / 2 = omega arith in
    rw (is_free-eq (set_locked b false), is_free-eq b, set_locked-eq b false h, same) refl

is_free-cleared : (b : KvBlock) → b < 2 ^ 64 → is_free (cleared b) ≡ true
unfolding cleared
is_free-cleared b h =
    let e = set_locked-eq b false h in
    let small : set_locked b false < 2 ^ 64 = omega (arith, e) in
    let bit : (set_locked b false / 4 * 4 + 1 * 2 + set_locked b false % 2) / 2 % 2 ≡ 1 =
      omega arith in
    rw
      (
        is_free-eq (set_free (set_locked b false) true),
        set_free-eq (set_locked b false) true small,
        bit,
      )
      refl

slot-is_free :
    (bf count j : ℕ) (source draws : ℕ → KvBlock)
    → j < bf
    → ((i : ℕ) → i < count → (source i < 2 ^ 64) × (is_free (source i) ≡ false))
    → ((i : ℕ) → draws i < 2 ^ 64)
    → is_free (
        get_or
          (fill bf 0 (λ i. if ltb i count then unlocked (source i) else cleared (draws i)))
          j
          free_block)
      ≡ leb count j
slot-is_free bf count j source draws l taken small =
    let f = λ (i : ℕ). if ltb i count then unlocked (source i) else cleared (draws i) in
    rw (get_or-fill bf 0 j f free_block l) (elim (dec_lt j count) [
      | yes p ↦
          let (word, used) = taken (0 + j) (omega arith) in
          rw (lt→ltb (0 + j) count (omega arith))
            (is_free-unlocked (source (0 + j)) word ∙ used ∙ ground arith)
      | no np ↦
          rw (le→ltb (0 + j) count (omega arith))
            (is_free-cleared (draws (0 + j)) (small (0 + j)) ∙ ground arith)
    ])

-- Distributing taken blocks over two leaves with room for them, with draws below 2^64: the left leaf
-- has the first half of the slots taken and no other, the right leaf as many as the rest needs.
distribute-is_free :
    (bf : ℕ) (leaf : LeafNode) (entries : List (Key × KvBlock)) (draws new_draws : ℕ → KvBlock)
    (j : ℕ)
    → j < bf
    → ((i : ℕ)
        → i < length entries
        → ((entry entries i).1 < 2 ^ 64) × (is_free (entry entries i).1 ≡ false))
    → ((i : ℕ) → draws i < 2 ^ 64)
    → ((i : ℕ) → new_draws i < 2 ^ 64)
    → let parts = distribute bf leaf entries draws new_draws in
      let size = length entries in
      (is_free (block_at parts.left.kv_blocks j) ≡ leb (size / 2) j)
      × (is_free (block_at parts.right.kv_blocks j) ≡ leb (size - size / 2) j)
unfolding distribute
distribute-is_free bf leaf entries draws new_draws j l taken small new_small =
    let size = length entries in
    (
      slot-is_free bf (size / 2) j (λ i. (entry entries i).1) draws l (λ i m. taken i (omega arith))
          small,
      slot-is_free bf (size - size / 2) j (λ i. (entry entries (i + size / 2)).1) new_draws l
          (λ i m. taken (i + size / 2) (omega arith)) new_small,
    )
