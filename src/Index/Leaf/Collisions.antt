-- ===== src/Index/Leaf/Collisions.antt =====
-- The candidates that a leaf has for a fingerprint.
use faunus.Index.KvBlock.{KvBlock, Fingerprint, get_addr, is_locked}
use faunus.Index.Leaf.{
  LeafNode, block_at, is_candidate, collisions_from, get_fingerprint_collisions,
}
use faunus.Prelude.{
  ℕ, zero, suc, ◌+◌, ◌≤◌, ◌<◌, ◌≡◌, ◌∙◌, false, ◌&&◌, Option, none, some, List, [], ◌∷◌, ltb, leb,
  ◌==◌, if◌then◌else◌, Bool-cases, inl, inr, ℕ_discrete, arith,
}
use faunus.Rdma.GlobalAddress.{GlobalAddress}

-- The candidate listed for a slot.
pub candidate_at : ℕ → List (ℕ × GlobalAddress) → Option GlobalAddress
candidate_at i [] = none
candidate_at i ((j, addr) ∷ candidates) = if j == i then some addr else candidate_at i candidates

candidate_at-from :
    (n j i : ℕ) (blocks : List KvBlock) (fp : Fingerprint)
    → candidate_at i (collisions_from n j blocks fp).0 ≡ (
        if leb j i && ltb i (j + n) && is_candidate (block_at blocks i) fp
        then some (get_addr (block_at blocks i))
        else none)
unfolding collisions_from candidate_at
candidate_at-from zero j i blocks fp = ground arith
candidate_at-from (suc n) j i blocks fp = elim (ℕ_discrete j i) [
  | yes e ↦ rw e (elim (Bool-cases (is_candidate (block_at blocks i) fp)) [
    | inl c ↦ rw c (ground arith)
    | inr c ↦ rw (c, candidate_at-from n (i + 1) i blocks fp) (ground arith)
  ])
  | no ne ↦ elim (Bool-cases (is_candidate (block_at blocks j) fp)) [
    | inl c ↦ rw c (ground (arith, candidate_at-from n (j + 1) i blocks fp))
    | inr c ↦ rw (c, candidate_at-from n (j + 1) i blocks fp) (ground arith)
  ]
]

locked-found :
    (n j i : ℕ) (blocks : List KvBlock) (fp : Fingerprint)
    → (collisions_from n j blocks fp).1 ≡ false
    → j ≤ i
    → i < j + n
    → is_locked (block_at blocks i) ≡ false
unfolding collisions_from
locked-found zero j i blocks fp h l r = absurd (omega arith)
locked-found (suc n) j i blocks fp h l r = elim (ℕ_discrete i j) [
  | yes e ↦ rw e (ground arith)
  | no ne ↦ locked-found n (j + 1) i blocks fp (ground arith) (omega arith) (omega arith)
]

-- For each slot of a leaf: it is listed, with its address, exactly when it is taken and has the
-- fingerprint.
collisions-candidate_at :
    (branch_factor i : ℕ) (leaf : LeafNode) (fp : Fingerprint)
    → i < branch_factor
    → candidate_at i (get_fingerprint_collisions branch_factor leaf fp).0 ≡ (
        if is_candidate (block_at leaf.kv_blocks i) fp
        then some (get_addr (block_at leaf.kv_blocks i))
        else none)
unfolding get_fingerprint_collisions
collisions-candidate_at branch_factor i leaf fp h =
    candidate_at-from branch_factor 0 i leaf.kv_blocks fp ∙ ground arith

-- If the search reports no structure modification, no slot of the leaf is locked.
collisions-is_locked :
    (branch_factor i : ℕ) (leaf : LeafNode) (fp : Fingerprint)
    → (get_fingerprint_collisions branch_factor leaf fp).1 ≡ false
    → i < branch_factor
    → is_locked (block_at leaf.kv_blocks i) ≡ false
unfolding get_fingerprint_collisions
collisions-is_locked branch_factor i leaf fp h l =
    locked-found branch_factor 0 i leaf.kv_blocks fp h (omega arith) (omega arith)
