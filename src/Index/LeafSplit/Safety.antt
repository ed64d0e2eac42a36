-- ===== src/Index/LeafSplit/Safety.antt =====
-- A split of a leaf while other clients work on its slots.
use mathlib.Core.List.{append-nil}
use mathlib.Core.Path.{subst}
use faunus.Index.Find.{History, Cache}
use faunus.Index.Internal.{Key}
use faunus.Index.KvBlock.{KvBlock, is_locked, is_free}
use faunus.Index.Leaf.{LeafNode, SplitLeaf, block_at, entry, distribute}
use faunus.Index.LeafSplit.Slots.{
  AreHonest, Holds, Holds-imp, Holds-meanwhile, Half, Half-kept, Half-batch,
}
use faunus.Index.LeafSplit.{
  trylock_node, add_block, meanwhile, get_lock_unlock_kvblocks, perform_leaf_batch,
  get_release_node_op, Others, Draws, Written, SplitReturn, busy, too_few, has_split, after_parent,
  split_entries_of, split_locked, split_leaf, lock_and_read, entries_of,
}
use faunus.Index.Outcome.{Outcome, answer, failed, running}
use faunus.Index.Parent.{Parameters, Inserted, insert_internal_entry}
use faunus.Prelude.{
  ℕ, ◌+◌, ◌/◌, ◌^◌, ◌<◌, ◌≡◌, ◌≢◌, ◌⊎◌, refl, true, false, none, some, List, [], ◌∷◌, length, fill,
  ltb, leb, ◌==◌, if◌then◌else◌, ℕ_discrete, Bool-cases, inl, inr, arith,
}
use faunus.Rdma.GlobalAddress.{GlobalAddress}
use faunus.Index.LeafSplit.Ends.{
  Released, Open, Free, Free-kept, Released-release, Fixed, Fixed-kept, all_locked-lem, parts-Holds,
}

-- The leaf that a split read under its locks has every slot locked, and each slot stands in memory with
-- the same word when it is written, or freed.
abbrev pub Undisturbed : ℕ → Written → Type 0
Undisturbed bf w =
    (i : ℕ)
    → i < bf
    → (is_locked (block_at w.seen.kv_blocks i) ≡ true)
      × ((block_at w.replaced.kv_blocks i ≡ block_at w.seen.kv_blocks i)
          ⊎ (is_free (block_at w.replaced.kv_blocks i) ≡ true))

-- The key between the halves: the middle one of the entries read under the locks.
abbrev pub middle_key_of : ℕ → (GlobalAddress → Key) → Others → LeafNode → Key
middle_key_of bf key_at others locked =
    let entries = entries_of bf key_at (lock_and_read bf others locked) in
    (entry entries (length entries / 2)).0

module _ (cache : Cache) (params : Parameters) (history : History)
    (new_leaf_address : GlobalAddress) (now : ℕ) (c : cache.C) where
  abbrev in_parent : Key → Outcome Inserted
  in_parent key = insert_internal_entry cache params history key new_leaf_address 1 now c

  -- How a split that found `leaf` ends, with the middle key of its entries.
  abbrev pub IsSafe : Key → LeafNode → Outcome SplitReturn → Type 0
  IsSafe middle leaf (answer (busy after)) = (after ≡ leaf) × (leaf.header.lock ≢ 0)
  IsSafe middle leaf (answer (too_few after)) = Released params.branch_factor after
  IsSafe middle leaf (answer (has_split w after)) =
      Undisturbed params.branch_factor w × Released params.branch_factor after
  IsSafe middle leaf failed = (in_parent middle ≡ answer none) ⊎ (in_parent middle ≡ failed)
  IsSafe middle leaf running = in_parent middle ≡ running

module _ (cache : Cache) (params : Parameters) (history : History) (key_at : GlobalAddress → Key)
    (others : Others) (draws : Draws) (new_leaf_address : GlobalAddress) (now : ℕ) (c : cache.C)
    (honest : (t : ℕ) → AreHonest params.branch_factor (others t))
    (small : (i : ℕ) → draws.left i < 2 ^ 64) where
  abbrev pub width : ℕ
  width = params.branch_factor

  abbrev Ends : Key → LeafNode → Outcome SplitReturn → Type 0
  Ends = IsSafe cache params history new_leaf_address now c

  after_parent-IsSafe :
      (leaf : LeafNode) (w : Written) (key : Key) (result : Outcome Inserted)
      → insert_internal_entry cache params history key new_leaf_address 1 now c ≡ result
      → Undisturbed width w
      → Holds width Free w.parts.left
      → Ends key leaf (after_parent w (others (width + 2)) result)
  unfolding after_parent
  after_parent-IsSafe leaf w key (answer (some placed)) e kept h = (
    kept,
    Released-release width Free _ (λ i v l p. p)
        (Holds-meanwhile width Free (others (width + 2)) w.parts.left Free-kept (honest (width + 2))
          h),
  )
  after_parent-IsSafe leaf w key (answer none) e kept h = inl e
  after_parent-IsSafe leaf w key failed e kept h = inr e
  after_parent-IsSafe leaf w key running e kept h = e

  bit_of :
      (seen : LeafNode)
      → Holds width (Half width true) seen
      → (i : ℕ) → i < width
      → is_locked (block_at seen.kv_blocks i) ≡ true
  bit_of seen h i l =
      let in_range : ltb i width ≡ true = ground arith in
      subst (λ t. is_locked (block_at seen.kv_blocks i) ≡ (if t then true else false)) in_range
        (h.slot i l).1

  undisturbed :
      (seen : LeafNode) (parts : SplitLeaf)
      → Holds width (Half width true) seen
      → Undisturbed width
          (record { seen = seen; replaced = meanwhile (others (width + 1)) seen; parts = parts })
  undisturbed seen parts h i l =
      let bit = bit_of seen h in
      let fixed : Holds width (Fixed seen) seen = record {
        width = h.width;
        lock = h.lock;
        slot = λ j m. (inl refl, bit j m);
      } in
      let later =
        Holds-meanwhile width (Fixed seen) (others (width + 1)) seen (Fixed-kept seen)
          (honest (width + 1)) fixed in
      (bit i l, (later.slot i l).0)

  unlocking :
      (seen : LeafNode) → Holds width (Half width true) seen → Holds width (Half 0 false) seen
  unlocking seen h =
      Holds-imp width (Half width true) (Half 0 false) seen
        (λ i l p.
          let none_yet : ltb i 0 ≡ false = ground arith in (p.0, rw none_yet (bit_of seen h i l)))
        h

  released :
      (t : ℕ) (l : LeafNode)
      → Holds width (Half width false) l
      → Released width (perform_leaf_batch (get_release_node_op ∷ []) others t l)
  unfolding perform_leaf_batch
  released t l h =
      Released-release width (Half width false) _
        (λ i w m p.
          let in_range : ltb i width ≡ true = ground arith in
          subst (λ b. is_locked w ≡ (if b then false else true)) in_range p.1)
        (Holds-meanwhile width (Half width false) (others t) l (Half-kept width false) (honest t) h)

  split_entries_of-IsSafe :
      (leaf seen : LeafNode) (entries : List (Key × KvBlock))
      → Holds width (Half width true) seen
      → Ends (entry entries (length entries / 2)).0 leaf (
          split_entries_of cache params history key_at others draws new_leaf_address now c seen
            entries)
  unfolding split_entries_of get_lock_unlock_kvblocks distribute
  split_entries_of-IsSafe leaf seen entries h =
      elim (Bool-cases (leb (length entries) (width / 2))) [
        | inl e ↦ rw e (
            Half-batch width width 0 false (get_release_node_op ∷ []) others (width + 1) seen
              (Released width) (omega arith) honest released (unlocking seen h))
        | inr e ↦ rw e (
            after_parent-IsSafe leaf _ _ _ refl
              (undisturbed seen (distribute width seen entries draws.left draws.right) h)
              (parts-Holds width seen entries draws.left draws.right small h.lock))
      ]

  locked-IsSafe :
      (leaf start : LeafNode)
      → Holds width (Half 0 true) start
      → Ends
          (middle_key_of width key_at others start)
          leaf
          (split_locked cache params history key_at others draws new_leaf_address now c start)
  unfolding split_locked lock_and_read get_lock_unlock_kvblocks perform_leaf_batch
  locked-IsSafe leaf start h =
      let batch = perform_leaf_batch (fill width 0 (λ i. add_block i true)) others 0 start in
      let full : Holds width (Half width true) batch =
        subst (λ ops. Holds width (Half width true) (perform_leaf_batch ops others 0 start))
          (append-nil (fill width 0 (λ i. add_block i true)))
          (Half-batch width width 0 true [] others 0 start (Holds width (Half width true))
            (omega arith) honest (λ t l p. p) h) in
      let seen = meanwhile (others width) batch in
      let seen_full : Holds width (Half width true) seen =
        Holds-meanwhile width (Half width true) (others width) batch (Half-kept width true)
          (honest width) full in
      let node : (seen.header.lock == 0) ≡ false = ground (arith, seen_full.lock) in
      rw (node, all_locked-lem width 0 width seen (omega arith) seen_full)
        (split_entries_of-IsSafe leaf seen (entries_of width key_at seen) seen_full)

  -- Take a leaf whose slots are 64-bit words and not locked, draws below 2^64, and other clients that
  -- keep the lock bit of the slots that they change, and change locked slots only to free them, as
  -- readers do with duplicates. Whatever they do between its verbs, `split_leaf` returns false at once
  -- only if the node was locked, with the leaf as it was. Otherwise, if it returns true, the leaf that
  -- it read had every slot locked, and each slot had the same word in memory when it wrote it or had
  -- been freed since; whether it returns true or gives up for too few entries, neither the node nor a
  -- slot is locked then. It fails or runs out of fuel only where the insertion of the middle key into
  -- the parent fails or does so.
  pub split_leaf-IsSafe :
      (leaf : LeafNode)
      → Open width leaf
      → IsSafe cache params history new_leaf_address now c
          (middle_key_of width key_at others (trylock_node leaf).1)
          leaf
          (split_leaf cache params history key_at others draws new_leaf_address now c leaf)
  unfolding split_leaf trylock_node
  split_leaf-IsSafe leaf h = elim (ℕ_discrete leaf.header.lock 0) [
    | yes e ↦
        let t : (leaf.header.lock == 0) ≡ true = ground arith in
        rw t (
          locked-IsSafe leaf (record leaf { header = record leaf.header { lock = 1 } })
            (record {
              width = h.width;
              lock = refl;
              slot = λ i l.
                  let none_yet : ltb i 0 ≡ false = ground arith in
                  ((h.slot i l).0, rw none_yet (h.slot i l).1);
            }))
    | no ne ↦ let t : (leaf.header.lock == 0) ≡ false = ground arith in rw t (refl, ne)
  ]
