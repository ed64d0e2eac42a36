-- ===== src/Index/Insertion/Tests.antt =====
-- An insertion that a stale cache leads to the wrong leaf first.
use faunus.Index.Client.{Handled}
use faunus.Index.Find.Example.{old_cache, tree}
use faunus.Index.Find.Routes.{still}
use faunus.Index.Find.{KvItem}
use faunus.Index.Insertion.Justified.{IsJustified}
use faunus.Index.Insertion.Probes.{IsFreeSlot, probe-IsFreeSlot}
use faunus.Index.Insertion.Safety.{insert-IsJustified}
use faunus.Index.Insertion.{free_slot, full, probe, inserted, removes, Client, insert}
use faunus.Index.Internal.{next_address}
use faunus.Index.KvBlock.{KvBlock, is_free, is_locked, new_block}
use faunus.Index.Leaf.{free_block, block_at}
use faunus.Prelude.{ℕ, zero, suc, ◌^◌, ◌<◌, ◌≡◌, ◌⊎◌, refl, true, false, none, List, [], ◌∷◌, arith}
use faunus.Rdma.GlobalAddress.{GlobalAddress}
use faunus.Util.ArrayVar.{from_integer}

abbrev client : Client
client = record {
  layout = record { branch_factor = 2; value_size = 1; bytes = from_integer 8 };
  fuel = 3;
  updates = 1;
  watermark = 2;
  tid_hash = 12345;
}

abbrev blocks : List KvBlock
blocks = free_block ∷ free_block ∷ []

abbrev no_items : GlobalAddress → KvItem
no_items a = record { key = 0; value = [] }

unlocked : (j : ℕ) → j < 2 ^ 1 → is_locked (block_at blocks j) ≡ false
unfolding free_block new_block is_locked
unlocked zero l = refl
unlocked (suc zero) l = refl
unlocked (suc (suc j)) l = absurd (omega arith)

probe-IsFreeSlot_example :
    ((j : ℕ) × (probe (2 ^ 1) 7 (2 ^ 1) 0 blocks ≡ free_slot j) × IsFreeSlot (2 ^ 1) blocks j)
    ⊎ ((probe (2 ^ 1) 7 (2 ^ 1) 0 blocks ≡ full)
        × ((j : ℕ) → j < 2 ^ 1 → is_free (block_at blocks j) ≡ false))
probe-IsFreeSlot_example = probe-IsFreeSlot 1 7 blocks unlocked

-- What the insertion leaves to remove in a memory that does not show it: nothing.
abbrev no_duplicates : Handled
no_duplicates = record {
  success = true;
  scan = record { found = false; value_out = 0 ∷ []; deleted = []; updating = none };
}

insert-IsJustified_example :
    IsJustified client (still (tree blocks no_items)) 150 (inserted 30 1 5 (removes no_duplicates))
unfolding insert next_address free_block
insert-IsJustified_example =
    insert-IsJustified old_cache client (still (tree blocks no_items)) 150 1 0 []
      (inserted 30 1 5 (removes no_duplicates)) refl refl
