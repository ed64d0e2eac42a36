-- ===== src/Index/LeafSplit/Tests.antt =====
-- Splits of a leaf of four slots, with a client that fills the third slot while the first is locked.
use faunus.Index.Find.Example.{old_cache}
use faunus.Index.Find.Routes.{still}
use faunus.Index.Find.{Memory}
use faunus.Index.Internal.{Header}
use faunus.Index.KvBlock.{KvBlock, is_free, is_locked, get_addr, add_lock, drop_lock}
use faunus.Index.Leaf.{LeafNode, block_at, collect, assign}
use faunus.Index.LeafSplit.Ends.{Open}
use faunus.Index.LeafSplit.Safety.{IsSafe, middle_key_of, split_leaf-IsSafe}
use faunus.Index.LeafSplit.Slots.{AreHonest}
use faunus.Index.LeafSplit.{
  cas_block, try_lock, trylock_node, access, meanwhile, get_lock_unlock_kvblocks, perform_leaf_op,
  perform_leaf_batch, Others, taken_items, all_locked, Draws, too_few, split_entries_of,
  split_locked, split_leaf, lock_and_read, entries_of,
}
use faunus.Index.Outcome.{answer}
use faunus.Index.Parent.{Parameters}
use faunus.Prelude.{ℕ, zero, suc, ◌+◌, ◌*◌, ◌^◌, ◌<◌, ◌≡◌, refl, false, [], ◌∷◌, fill, arith, inl}

abbrev one : KvBlock
one = 0x5 * 2 ^ 52 + 0x40 * 4

abbrev two : KvBlock
two = 0x7 * 2 ^ 52 + 0x80 * 4

abbrev header : Header
header = record { lock = 0; level = 0; fence_first = 0; fence_second = 1000; last_index = 0 }

abbrev leaf : LeafNode
leaf = record { header = header; kv_blocks = one ∷ 2 ∷ 2 ∷ 2 ∷ [] }

abbrev full_leaf : LeafNode
full_leaf = record { header = header; kv_blocks = one ∷ two ∷ 2 ∷ 0xc0 * 4 ∷ [] }

abbrev memory : Memory
memory = record {
  root = 10;
  internal = λ a. record { header = record header { level = 1 }; entries = [] };
  leaf = λ a. full_leaf;
  item = λ a. record { key = a; value = [] };
}

abbrev params : Parameters
params = record {
  branch_factor = 4;
  max_key = 1000;
  fuel = 3;
  stray = 0;
  new_node_address = λ level. 80;
  levels = 2;
}

abbrev others : Others
others zero = []
others (suc zero) = cas_block 2 2 two ∷ try_lock ∷ cas_block 0 one two ∷ []
others (suc (suc t)) = []

others-AreHonest : (t : ℕ) → AreHonest 4 (others t)
unfolding is_locked
others-AreHonest zero = 0
others-AreHonest (suc zero) = (
  (omega arith, refl, inl refl, omega arith),
  (0, ((omega arith, refl, inl refl, omega arith), 0)),
)
others-AreHonest (suc (suc t)) = 0

abbrev draws : Draws
draws = record { left = λ i. 8; right = λ i. 8 }

-- With two items in four slots a split gives up; the client's change of the third slot stays, and
-- its change of the first, which was locked by then, has failed.
gives_up :
    split_leaf old_cache params (still memory) (λ a. a) others draws 50 0 [] leaf
    ≡ answer (too_few (record { header = header; kv_blocks = one ∷ 2 ∷ two ∷ 2 ∷ [] }))
unfolding split_leaf lock_and_read entries_of split_locked split_entries_of trylock_node access
    meanwhile get_lock_unlock_kvblocks perform_leaf_op perform_leaf_batch taken_items all_locked
    is_free is_locked get_addr add_lock drop_lock collect assign fill
gives_up = refl

full_leaf-Open : Open 4 full_leaf
unfolding is_locked
full_leaf-Open = record { width = refl; slot = λ i h. four i h }
  where
    four :
        (i : ℕ)
        → i < 4
        → (block_at full_leaf.kv_blocks i < 2 ^ 64)
          × (is_locked (block_at full_leaf.kv_blocks i) ≡ false)
    four zero h = (omega arith, refl)
    four (suc zero) h = (omega arith, refl)
    four (suc (suc zero)) h = (omega arith, refl)
    four (suc (suc (suc zero))) h = (omega arith, refl)
    four (suc (suc (suc (suc i)))) h = absurd (omega arith)

split_leaf-IsSafe_example :
    IsSafe old_cache params
      (still memory)
      50
      0
      []
      (middle_key_of 4 (λ a. a) others (trylock_node full_leaf).1)
      full_leaf
      (split_leaf old_cache params (still memory) (λ a. a) others draws 50 0 [] full_leaf)
split_leaf-IsSafe_example =
    split_leaf-IsSafe old_cache params (still memory) (λ a. a) others draws 50 0 [] others-AreHonest
      (λ i. omega arith) full_leaf full_leaf-Open
