-- ===== src/Index/Leaf.antt =====
-- src/kv_index/faunus_index.hpp and .cpp: the leaves of the Faunus tree, and what a client does with
-- a leaf that it has read: the search for candidates, the compare-and-swap loop of an update, the
-- removal of duplicates and the distribution of a split. A key stands for the number of its bytes.
pub mod Collisions
pub mod Update
pub mod Duplicates
pub mod Split
pub mod Slots
mod Tests
use faunus.Index.Internal.{Key, Header}
use faunus.Index.KvBlock.{
  KvBlock, Fingerprint, get_fingerprint, get_addr, is_free, is_locked, set_free, set_locked,
  new_block,
}
use faunus.Prelude.{
  ℕ, zero, suc, ◌+◌, ◌-◌, ◌/◌, Bool, true, false, not, ◌&&◌, ◌||◌, Option, none, some, List, [],
  ◌∷◌, length, get_or, fill, ltb, leb, ◌==◌, if◌then◌else◌,
}
use faunus.Rdma.GlobalAddress.{GlobalAddress, null}
use faunus.Util.ArrayVar.{ArrayVar}

abbrev pub Value : Type 0
Value = ArrayVar

pub record LeafNode : Type 0 where
  pub header : Header
  pub kv_blocks : List KvBlock

-- `KVBlock{0, 0, true, false}`, as `LeafNode()` leaves each slot.
unfoldable pub free_block : KvBlock
unfolding new_block
free_block = new_block 0 null true false

abbrev pub block_at : List KvBlock → ℕ → KvBlock
block_at blocks i = get_or blocks i free_block

-- `get_fingerprint_collisions`: a slot that is taken and has the fingerprint.
abbrev pub is_candidate : KvBlock → Fingerprint → Bool
is_candidate block fp = not (is_free block) && (get_fingerprint block == fp)

-- Its loop from slot `i` on, `n` slots left: the candidates, and whether a slot was locked.
unfoldable pub collisions_from :
    ℕ → ℕ → List KvBlock → Fingerprint → List (ℕ × GlobalAddress) × Bool
unfolding is_free get_fingerprint get_addr is_locked
collisions_from zero i blocks fp = ([], false)
collisions_from (suc n) i blocks fp =
    let block = block_at blocks i in
    let (rest, found_smo) = collisions_from n (i + 1) blocks fp in
    (
      if is_candidate block fp then (i, get_addr block) ∷ rest else rest,
      is_locked block || found_smo,
    )

unfoldable pub get_fingerprint_collisions :
    ℕ → LeafNode → Fingerprint → List (ℕ × GlobalAddress) × Bool
unfolding collisions_from
get_fingerprint_collisions branch_factor leaf fp = collisions_from branch_factor 0 leaf.kv_blocks fp

-- What `try_update_kvblock` comes to: the word that its CAS replaced, whose item is freed; that it
-- gave up; or that it still loops after the attempts given.
pub data UpdateResult : Type 0 where
  updated : (old : KvBlock) → UpdateResult
  gave_up : UpdateResult
  pending : UpdateResult

-- The condition of its loop.
unfoldable pub may_update : KvBlock → KvBlock → Bool
unfolding is_free get_fingerprint is_locked
may_update expected tmp =
    (get_fingerprint tmp == get_fingerprint expected) && not (is_free tmp) && not (is_locked tmp)

-- The loop; `seen` are the words that stand in the slot when each CAS comes to it.
unfoldable pub try_update : List KvBlock → KvBlock → KvBlock → UpdateResult
unfolding may_update
try_update [] expected tmp = if may_update expected tmp then pending else gave_up
try_update (word ∷ seen) expected tmp =
    let rest = try_update seen tmp word in
    if may_update expected tmp then (if word == tmp then updated tmp else rest) else gave_up

-- `try_update_kvblock`
unfoldable pub try_update_kvblock : List KvBlock → KvBlock → UpdateResult
unfolding try_update
try_update_kvblock seen expected = try_update seen expected expected

-- What the loop of `handle_local_remove_dupes` over the candidates leaves: whether the key was
-- found, its value, the slots handed to `try_delete_kvblock` and the one to `try_update_kvblock`.
pub record Scan : Type 0 where
  pub found : Bool
  pub value_out : Value
  pub deleted : List ℕ
  pub updating : Option ℕ

abbrev pub delete_also : ℕ → Scan → Scan
delete_also index scan = record scan { deleted = index ∷ scan.deleted }

-- That loop. A candidate is its slot with the key and the value of its item.
unfoldable pub scan_candidates : Key → Bool → List (ℕ × Key × Value) → Bool → Value → Scan
scan_candidates key from_update [] found value = record {
  found = found;
  value_out = value;
  deleted = [];
  updating = none;
}
scan_candidates key from_update ((index, k, v) ∷ candidates) found value =
    let other = scan_candidates key from_update candidates found value in
    let first = scan_candidates key from_update candidates true v in
    if k == key
    then (if found
        then delete_also index other
        else if from_update
        then record { found = true; value_out = v; deleted = []; updating = some index }
        else first)
    else other

-- `split_leaf`: `entries_map[key] = block` on a `std::map`, a list in the order of its keys.
unfoldable pub assign : Key → KvBlock → List (Key × KvBlock) → List (Key × KvBlock)
assign key block [] = (key, block) ∷ []
assign key block ((k, b) ∷ entries) =
    let rest = assign key block entries in
    if ltb key k
    then (key, block) ∷ (k, b) ∷ entries
    else if key == k
    then (key, block) ∷ entries
    else (k, b) ∷ rest

-- The loop that fills the map with the keys read and the blocks they were read from.
unfoldable pub collect : List (Key × KvBlock) → List (Key × KvBlock) → List (Key × KvBlock)
unfolding assign
collect [] entries = entries
collect ((key, block) ∷ taken) entries = collect taken (assign key block entries)

abbrev pub entry : List (Key × KvBlock) → ℕ → Key × KvBlock
entry entries i = get_or entries i (0, free_block)

unfoldable pub unlocked : KvBlock → KvBlock
unfolding set_locked
unlocked block = set_locked block false

-- A slot that is cleared: `draw` is what `setDifferentRandomFpAddr` left there.
unfoldable pub cleared : KvBlock → KvBlock
unfolding set_locked set_free
cleared draw = set_free (set_locked draw false) true

-- The two leaves of a split.
pub record SplitLeaf : Type 0 where
  pub left : LeafNode
  pub right : LeafNode
  pub middle_key : Key

-- `split_leaf`: the distribution of the sorted entries and the fences. The draws of the cleared
-- slots are given for each leaf and slot.
unfoldable pub distribute :
    ℕ → LeafNode → List (Key × KvBlock) → (ℕ → KvBlock) → (ℕ → KvBlock) → SplitLeaf
unfolding unlocked cleared
distribute branch_factor leaf entries draws new_draws =
    let size = length entries in
    let middle = size / 2 in
    let middle_key = (entry entries middle).0 in
    record {
      left = record {
        header = record leaf.header { fence_second = middle_key };
        kv_blocks =
            fill branch_factor 0
              (λ i. if ltb i middle then unlocked (entry entries i).1 else cleared (draws i));
      };
      right = record {
        header = record {
          lock = 0;
          level = 0;
          fence_first = middle_key;
          fence_second = leaf.header.fence_second;
          last_index = 0;
        };
        kv_blocks = fill branch_factor 0 (λ i.
            if ltb i (size - middle)
            then unlocked (entry entries (i + middle)).1
            else cleared (new_draws i));
      };
      middle_key = middle_key;
    }
