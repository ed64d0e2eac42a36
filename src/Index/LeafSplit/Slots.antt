-- ===== src/Index/LeafSplit/Slots.antt =====
-- What other clients leave of a leaf whose node is locked, and what a batch over all of its slots does.
use mathlib.Core.Path.{subst}
use faunus.Index.KvBlock.{KvBlock, is_locked, add_lock, drop_lock, is_free}
use faunus.Index.Leaf.{LeafNode, free_block, block_at}
use faunus.Index.LeafSplit.Words.{is_locked-add_lock, is_locked-drop_lock}
use faunus.Index.LeafSplit.{
  Access, cas_block, try_lock, trylock_node, access, meanwhile, LeafOp, add_block, perform_leaf_op,
  perform_leaf_batch, Others,
}
use faunus.Prelude.{
  ℕ, zero, suc, ◌+◌, ◌^◌, ◌<◌, ◌≡◌, ◌≢◌, refl, sym, ◌∙◌, Bool, true, false, not, List, [], ◌∷◌,
  ◌++◌, length, length-set, get_or-set, set, fill, ltb, ◌==◌, ==_iff, if◌then◌else◌, ℕ_discrete,
  arith, ◌⊎◌,
}

-- A client keeps the lock bit of the slot that it changes. One that it saw locked it only frees, as
-- `try_delete_kvblock` does; `insert` and `try_update_kvblock` ask for an unlocked word.
abbrev pub IsHonest : ℕ → Access → Type 0
IsHonest bf (cas_block index expected desired) =
    (index < bf)
    × (is_locked desired ≡ is_locked expected)
    × ((is_locked expected ≡ false) ⊎ (is_free desired ≡ true))
    × (desired < 2 ^ 64)
IsHonest bf try_lock = ℕ

abbrev pub AreHonest : ℕ → List Access → Type 0
AreHonest bf [] = ℕ
AreHonest bf (a ∷ others) = IsHonest bf a × AreHonest bf others

-- A leaf of `bf` slots of which a predicate holds, with its node locked.
pub record Holds (bf : ℕ) (P : ℕ → KvBlock → Type 0) (leaf : LeafNode) : Type 0 where
  pub width : length leaf.kv_blocks ≡ bf
  pub lock : leaf.header.lock ≡ 1
  pub slot : (i : ℕ) → i < bf → P i (block_at leaf.kv_blocks i)

-- A predicate that what honest clients write keeps.
abbrev pub IsKept : (ℕ → KvBlock → Type 0) → Type 0
IsKept P =
    (i : ℕ) (e d : KvBlock)
    → is_locked d ≡ is_locked e
    → (is_locked e ≡ false) ⊎ (is_free d ≡ true)
    → d < 2 ^ 64
    → P i e
    → P i d

pub Holds-imp :
    (bf : ℕ) (P Q : ℕ → KvBlock → Type 0) (leaf : LeafNode)
    → ((i : ℕ) → i < bf → P i (block_at leaf.kv_blocks i) → Q i (block_at leaf.kv_blocks i))
    → Holds bf P leaf
    → Holds bf Q leaf
Holds-imp bf P Q leaf f h = record {
  width = h.width;
  lock = h.lock;
  slot = λ i l. f i l (h.slot i l);
}

Holds-set :
    (bf : ℕ) (P Q : ℕ → KvBlock → Type 0) (leaf : LeafNode) (k : ℕ) (v : KvBlock)
    → k < bf
    → Q k v
    → ((i : ℕ)
        → i < bf
        → (k ≢ i)
        → P i (block_at leaf.kv_blocks i)
        → Q i (block_at leaf.kv_blocks i))
    → Holds bf P leaf
    → Holds bf Q (record leaf { kv_blocks = set leaf.kv_blocks k v })
Holds-set bf P Q leaf k v l new old h = record {
  width = length-set leaf.kv_blocks k v ∙ h.width;
  lock = h.lock;
  slot = λ i m.
      let e = get_or-set leaf.kv_blocks k i v free_block (omega (arith, h.width)) in
      elim (ℕ_discrete k i) [
        | yes p ↦
            let t : (k == i) ≡ true = ground arith in
            subst (Q i) (sym (e ∙ rw t refl)) (subst (λ j. Q j v) p new)
        | no np ↦
            let t : (k == i) ≡ false = ground arith in
            subst (Q i) (sym (e ∙ rw t refl)) (old i m np (h.slot i m))
      ];
}

Holds-access :
    (bf : ℕ) (P : ℕ → KvBlock → Type 0) (a : Access) (leaf : LeafNode)
    → IsKept P
    → IsHonest bf a
    → Holds bf P leaf
    → Holds bf P (access a leaf)
unfolding access trylock_node
Holds-access bf P (cas_block k e d) leaf kept honest h =
    let (l, e_open, d_open, d_small) = honest in
    elim (ℕ_discrete (block_at leaf.kv_blocks k) e) [
      | yes p ↦
          let t : (block_at leaf.kv_blocks k == e) ≡ true = (==_iff _ _).1 p in
          rw t (
            Holds-set bf P P leaf k d l
              (kept k e d e_open d_open d_small (subst (P k) p (h.slot k l))) (λ i m n q. q) h)
      | no np ↦ let t : (block_at leaf.kv_blocks k == e) ≡ false = ground arith in rw t h
    ]
Holds-access bf P try_lock leaf kept honest h =
    let t : (leaf.header.lock == 0) ≡ false = ground (arith, h.lock) in
    rw (t, access, trylock_node) h

pub Holds-meanwhile :
    (bf : ℕ) (P : ℕ → KvBlock → Type 0) (others : List Access) (leaf : LeafNode)
    → IsKept P
    → AreHonest bf others
    → Holds bf P leaf
    → Holds bf P (meanwhile others leaf)
unfolding meanwhile
Holds-meanwhile bf P [] leaf kept honest h = h
Holds-meanwhile bf P (a ∷ others) leaf kept honest h =
    Holds-meanwhile bf P others (access a leaf) kept honest.1
      (Holds-access bf P a leaf kept honest.0 h)

-- The slots below `k` have the lock bit `b`, and the others do not.
abbrev pub Half : ℕ → Bool → ℕ → KvBlock → Type 0
Half k b i w = (w < 2 ^ 64) × (is_locked w ≡ (if ltb i k then b else not b))

pub Half-kept : (k : ℕ) (b : Bool) → IsKept (Half k b)
Half-kept k b i e d same allowed small (h, p) = (small, same ∙ p)

Half-add_block :
    (bf k : ℕ) (b : Bool) (leaf : LeafNode)
    → k < bf
    → Holds bf (Half k b) leaf
    → Holds bf (Half (k + 1) b) (perform_leaf_op (add_block k b) leaf)
unfolding perform_leaf_op
Half-add_block bf k b leaf l h =
    let (small, bit) = h.slot k l in
    let here : ltb k k ≡ false = ground arith in
    let next : ltb k (k + 1) ≡ true = ground arith in
    Holds-set bf (Half k b) (Half (k + 1) b) leaf k _ l
      (rw next (
        turned b small
          (subst (λ t. is_locked (block_at leaf.kv_blocks k) ≡ (if t then b else not b)) here bit)))
      (λ i m n q.
        let same : ltb i k ≡ ltb i (k + 1) = ground arith in
        subst
          (λ t.
            (block_at leaf.kv_blocks i < 2 ^ 64)
            × (is_locked (block_at leaf.kv_blocks i) ≡ (if t then b else not b)))
          same q)
      h
  where
    turned :
        (c : Bool) {w : KvBlock}
        → w < 2 ^ 64
        → is_locked w ≡ not c
        → ((if c then add_lock w else drop_lock w) < 2 ^ 64)
          × (is_locked (if c then add_lock w else drop_lock w) ≡ c)
    turned true {w} s p = is_locked-add_lock w s p
    turned false {w} s p = is_locked-drop_lock w s p

-- A batch of fetch-and-adds from slot `k` on to the last gives each slot the lock bit `b`, and what
-- comes after it in the batch starts from there.
pub Half-batch :
    (n bf k : ℕ) (b : Bool) (after : List LeafOp) (others : Others) (now : ℕ) (leaf : LeafNode)
    (G : LeafNode → Type 0)
    → k + n ≡ bf
    → ((t : ℕ) → AreHonest bf (others t))
    → ((t : ℕ) (l : LeafNode) → Holds bf (Half bf b) l → G (perform_leaf_batch after others t l))
    → Holds bf (Half k b) leaf
    → G (perform_leaf_batch (fill n k (λ i. add_block i b) ++ after) others now leaf)
unfolding perform_leaf_batch fill
Half-batch zero bf k b after others now leaf G e honest goal h =
    goal now leaf (subst (λ j. Holds bf (Half j b) leaf) (omega arith) h)
Half-batch (suc n) bf k b after others now leaf G e honest goal h =
    let h' =
      Half-add_block bf k b (meanwhile (others now) leaf) (omega arith)
        (Holds-meanwhile bf (Half k b) (others now) leaf (Half-kept k b) (honest now) h) in
    Half-batch n bf (k + 1) b after others (now + 1) _ G (omega arith) honest goal h'
