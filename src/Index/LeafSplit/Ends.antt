-- ===== src/Index/LeafSplit/Ends.antt =====
-- How a split leaves a leaf: what it writes and releases, and what cannot change before it does.
use faunus.Index.Internal.{Key}
use faunus.Index.KvBlock.{KvBlock, is_locked, is_free}
use faunus.Index.Leaf.{LeafNode, free_block, block_at, entry, unlocked, cleared, distribute}
use faunus.Index.LeafSplit.Slots.{Holds, IsKept, Half}
use faunus.Index.LeafSplit.Words.{is_locked-unlocked, is_locked-cleared}
use faunus.Index.LeafSplit.{perform_leaf_op, release_node, all_locked}
use faunus.Prelude.{
  ℕ, zero, suc, ◌+◌, ◌/◌, ◌^◌, ◌<◌, ◌≡◌, refl, ap, ◌∙◌, true, false, List, length, length-fill,
  get_or-fill, ltb, if◌then◌else◌, Bool-cases, inl, inr, arith, ◌⊎◌,
}

-- A leaf that is not locked, nor any of its slots.
pub record Released (bf : ℕ) (leaf : LeafNode) : Type 0 where
  pub lock : leaf.header.lock ≡ 0
  pub slot : (i : ℕ) → i < bf → is_locked (block_at leaf.kv_blocks i) ≡ false

-- A leaf of `bf` slots of 64 bits, none of which is locked.
pub record Open (bf : ℕ) (leaf : LeafNode) : Type 0 where
  pub width : length leaf.kv_blocks ≡ bf
  pub slot :
      (i : ℕ)
      → i < bf
      → (block_at leaf.kv_blocks i < 2 ^ 64) × (is_locked (block_at leaf.kv_blocks i) ≡ false)

abbrev pub Free : ℕ → KvBlock → Type 0
Free i w = is_locked w ≡ false

pub Free-kept : IsKept Free
Free-kept i e d same allowed small h = same ∙ h

pub Released-release :
    (bf : ℕ) (P : ℕ → KvBlock → Type 0) (leaf : LeafNode)
    → ((i : ℕ) (w : KvBlock) → i < bf → P i w → is_locked w ≡ false)
    → Holds bf P leaf
    → Released bf (perform_leaf_op release_node leaf)
unfolding perform_leaf_op
Released-release bf P leaf f h = record {
  lock = omega (arith, h.lock);
  slot = λ i l. f i _ l (h.slot i l);
}

-- The words of a locked leaf do not change, but that they are freed.
abbrev pub Fixed : LeafNode → ℕ → KvBlock → Type 0
Fixed seen i w = ((w ≡ block_at seen.kv_blocks i) ⊎ (is_free w ≡ true)) × (is_locked w ≡ true)

pub Fixed-kept : (seen : LeafNode) → IsKept (Fixed seen)
Fixed-kept seen i e d same (inl unlocked_word) small (word, locked) = absurd (cc)
Fixed-kept seen i e d same (inr freed) small (word, locked) = (inr freed, same ∙ locked)

pub all_locked-lem :
    (n i bf : ℕ) (leaf : LeafNode)
    → i + n ≡ bf
    → Holds bf (Half bf true) leaf
    → all_locked n i leaf.kv_blocks ≡ true
unfolding all_locked
all_locked-lem zero i bf leaf e h = refl
all_locked-lem (suc n) i bf leaf e h =
    let (small, bit) = h.slot i (omega arith) in
    let in_range : ltb i bf ≡ true = ground arith in
    let bit' : is_locked (block_at leaf.kv_blocks i) ≡ true = rw in_range at bit in
    rw (bit', all_locked-lem n (i + 1) bf leaf (omega arith) h) refl

pub parts-Holds :
    (bf : ℕ) (seen : LeafNode) (entries : List (Key × KvBlock)) (left right : ℕ → KvBlock)
    → ((i : ℕ) → left i < 2 ^ 64)
    → seen.header.lock ≡ 1
    → Holds bf Free (distribute bf seen entries left right).left
unfolding distribute
parts-Holds bf seen entries left right small lock =
    let middle = length entries / 2 in
    let f = λ (i : ℕ). if ltb i middle then unlocked (entry entries i).1 else cleared (left i) in
    let each : (i : ℕ) → is_locked (f i) ≡ false = λ i. elim (Bool-cases (ltb i middle)) [
      | inl e ↦ rw e (is_locked-unlocked (entry entries i).1)
      | inr e ↦ rw e (is_locked-cleared (left i) (small i))
    ] in
    record {
      width = length-fill bf 0 f;
      lock = lock;
      slot = λ i l. ap is_locked (get_or-fill bf 0 i f free_block l) ∙ each (0 + i);
    }
