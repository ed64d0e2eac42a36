-- ===== src/Index/Insertion/Probes.antt =====
-- The search of `insert` for a free slot: its order visits every slot.
use faunus.Index.Insertion.{free_slot, full, probe_index, probe}
use faunus.Index.KvBlock.{KvBlock, is_free, is_locked}
use faunus.Index.Leaf.{block_at}
use faunus.Prelude.Bits.{and_mask, xor_split, xor-lt, xor_cancel, two_pow_pos}
use faunus.Prelude.{
  ℕ, zero, suc, ◌+◌, ◌/◌, ◌%◌, ◌^◌, ◌≤◌, ◌<◌, bit_xor, ◌≡◌, refl, ◌∙◌, ap, true, false, List, ◌⊎◌,
  Bool-cases, inl, inr, ℕ_discrete, arith,
}
use native.Mathlib.Nat.{mul-add-mod_self_right, mod-eq_of_lt, mod-lt}
use mathlib.Core.Path.{subst}

module _ (k seed : ℕ) where
  probe_index-xor : (i : ℕ) → i < 2 ^ k → probe_index (2 ^ k) seed i ≡ bit_xor i (seed % 2 ^ k)
  probe_index-xor i h =
      let low : i % 2 ^ k ≡ i = mod-eq_of_lt h in
      let rest : seed % 2 ^ k < 2 ^ k = mod-lt seed (two_pow_pos k) in
      and_mask k (bit_xor i seed)
      ∙ ap (λ (x : ℕ). x % 2 ^ k) (xor_split k i seed)
      ∙ rw low (
          mul-add-mod_self_right (bit_xor (i / 2 ^ k) (seed / 2 ^ k)) (2 ^ k)
            (bit_xor i (seed % 2 ^ k)))
      ∙ mod-eq_of_lt (xor-lt k i (seed % 2 ^ k) h rest)

  probe_index-lt : (i : ℕ) → i < 2 ^ k → probe_index (2 ^ k) seed i < 2 ^ k
  probe_index-lt i h =
      rw (probe_index-xor i h) (xor-lt k i (seed % 2 ^ k) h (mod-lt seed (two_pow_pos k)))

  -- The round that looks at a slot.
  round_of : (j : ℕ) → j < 2 ^ k → (i : ℕ) × (i < 2 ^ k) × (probe_index (2 ^ k) seed i ≡ j)
  round_of j h =
      let rest : seed % 2 ^ k < 2 ^ k = mod-lt seed (two_pow_pos k) in
      let i = bit_xor j (seed % 2 ^ k) in
      let small : i < 2 ^ k = xor-lt k j (seed % 2 ^ k) h rest in
      (i, small, probe_index-xor i small ∙ xor_cancel k j (seed % 2 ^ k) h rest)

-- A slot of the leaf that is free.
abbrev pub IsFreeSlot : ℕ → List KvBlock → ℕ → Type 0
IsFreeSlot branch_factor blocks index =
    (index < branch_factor)
    × (is_free (block_at blocks index) ≡ true)
    × (is_locked (block_at blocks index) ≡ false)

module _ (k seed : ℕ) (blocks : List KvBlock)
    (unlocked : (j : ℕ) → j < 2 ^ k → is_locked (block_at blocks j) ≡ false) where
  rounds :
      (n i : ℕ)
      → i + n ≤ 2 ^ k
      → ((j : ℕ) × (probe (2 ^ k) seed n i blocks ≡ free_slot j) × IsFreeSlot (2 ^ k) blocks j)
        ⊎ ((probe (2 ^ k) seed n i blocks ≡ full)
            × ((r : ℕ)
                → i ≤ r
                → r < i + n
                → is_free (block_at blocks (probe_index (2 ^ k) seed r)) ≡ false))
  unfolding probe
  rounds zero i enough = inr (refl, λ r low high. absurd (omega arith))
  rounds (suc n) i enough =
      let j = probe_index (2 ^ k) seed i in
      let small = probe_index-lt k seed i (omega arith) in
      let clear = unlocked j small in
      elim (Bool-cases (is_free (block_at blocks j))) [
        | inl free ↦ inl (j, rw (clear, free) refl, (small, free, clear))
        | inr taken ↦ elim (rounds n (i + 1) (omega arith)) [
          | inl (j', e, free) ↦ inl (j', rw (clear, taken) e, free)
          | inr (e, none_free) ↦ inr (
            rw (clear, taken) e,
            λ r low high. elim (ℕ_discrete r i) [
              | yes q ↦ rw q taken
              | no nq ↦ none_free r (omega arith) (omega arith)
            ],
          )
        ]
      ]

-- In a leaf of a power of two of slots, none of which is locked, the search ends, from any seed, at a
-- slot that is free if there is one, and reports the leaf full only if every slot is taken.
pub probe-IsFreeSlot :
    (k seed : ℕ) (blocks : List KvBlock)
    → ((j : ℕ) → j < 2 ^ k → is_locked (block_at blocks j) ≡ false)
    → ((j : ℕ) × (probe (2 ^ k) seed (2 ^ k) 0 blocks ≡ free_slot j) × IsFreeSlot (2 ^ k) blocks j)
      ⊎ ((probe (2 ^ k) seed (2 ^ k) 0 blocks ≡ full)
          × ((j : ℕ) → j < 2 ^ k → is_free (block_at blocks j) ≡ false))
probe-IsFreeSlot k seed blocks unlocked =
    elim (rounds k seed blocks unlocked (2 ^ k) 0 (omega arith)) [
      | inl free ↦ inl free
      | inr (e, none_free) ↦ inr (
        e,
        λ j h.
            let (r, small, at) = round_of k seed j h in
            subst (λ j. is_free (block_at blocks j) ≡ false) at
              (none_free r (omega arith) (omega arith)),
      )
    ]

-- A slot that the search ends at is free, whatever the others are.
pub probe_sound :
    (k seed n i j : ℕ) (blocks : List KvBlock)
    → i + n ≤ 2 ^ k
    → probe (2 ^ k) seed n i blocks ≡ free_slot j
    → IsFreeSlot (2 ^ k) blocks j
unfolding probe
probe_sound k seed zero i j blocks enough e = absurd cc
probe_sound k seed (suc n) i j blocks enough e =
    let index = probe_index (2 ^ k) seed i in
    let small = probe_index-lt k seed i (omega arith) in
    elim (Bool-cases (is_locked (block_at blocks index))) [
      | inl l ↦ absurd (let h = rw l at e in cc)
      | inr clear ↦ elim (Bool-cases (is_free (block_at blocks index))) [
        | inr taken ↦ probe_sound k seed n (i + 1) j blocks (omega arith) (rw (clear, taken) at e)
        | inl free ↦
            let same : index ≡ j = let h = rw (clear, free) at e in cc in
            subst (IsFreeSlot (2 ^ k) blocks) same (small, free, clear)
      ]
    ]
