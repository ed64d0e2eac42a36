-- ===== src/Index/Find/Example.antt =====
-- A root over two leaves, at 20 for the keys below 100 and at 30 for the others, and a cache with a
-- copy of the root from before the leaf at 20 split.
use faunus.Index.Find.Levels.{Fits, Levelled, EntryFits}
use faunus.Index.Find.Routes.{still, Route, last}
use faunus.Index.Find.{Memory, CachedEntry, Cache, KvItem}
use faunus.Index.Internal.{Key, Header, InternalNode, next_address, search_from}
use faunus.Index.KvBlock.{KvBlock}
use faunus.Index.Leaf.{LeafNode}
use faunus.Prelude.{
  ℕ, ◌≡◌, refl, false, some, List, [], ◌∷◌, ◌==◌, if◌then◌else◌, ℕ_discrete, arith,
}
use faunus.Rdma.GlobalAddress.{GlobalAddress}

abbrev pub header_of : ℕ → Key → Key → ℕ → Header
header_of level first second last_index = record {
  lock = 0;
  level = level;
  fence_first = first;
  fence_second = second;
  last_index = last_index;
}

abbrev pub old_root : InternalNode
old_root = record { header = header_of 1 0 1000 0; entries = record { key = 0; child = 20 } ∷ [] }

abbrev pub root : InternalNode
root = record {
  header = header_of 1 0 1000 1;
  entries = record { key = 100; child = 20 } ∷ record { key = 0; child = 30 } ∷ [];
}

abbrev pub leaf_of : Key → Key → List KvBlock → LeafNode
leaf_of first second blocks = record { header = header_of 0 first second 0; kv_blocks = blocks }

-- With the slots of the leaf at 30 and the items.
abbrev pub tree : List KvBlock → (GlobalAddress → KvItem) → Memory
tree blocks items = record {
  root = 10;
  internal = λ a. if a == 10 then root else record { header = header_of 0 0 0 0; entries = [] };
  leaf = λ a. if a == 30 then leaf_of 100 1000 blocks else leaf_of 0 100 [];
  item = items;
}

abbrev pub entry : CachedEntry
entry = record { entry = 7; address = 10; node = old_root }

-- A cache that always has this entry, and remembers what was invalidated.
abbrev pub old_cache : Cache
old_cache = record {
  C = List ℕ;
  search = λ c key. (some entry, c);
  add = λ c first second address node. c;
  invalidate = λ c e. e ∷ c;
}

abbrev pub height : GlobalAddress → ℕ
height a = if a == 10 then 1 else 0

pub root-Fits : Fits 150 0 height 10 root
unfolding next_address search_from
root-Fits = record { stands = refl; child = λ _. refl }

pub entry-EntryFits : EntryFits 150 0 height entry
unfolding next_address search_from
entry-EntryFits = record { fence = refl; fits = record { stands = refl; child = λ _. refl } }

pub tree-Levelled :
    (blocks : List KvBlock) (items : GlobalAddress → KvItem)
    → Levelled (still (tree blocks items)) 150 0 height
tree-Levelled blocks items now p = elim (ℕ_discrete p 10) [
  | yes e ↦ rw e root-Fits
  | no ne ↦
      let other : (p == 10) ≡ false = ground arith in
      record { stands = rw other refl; child = λ l. absurd (omega (arith, rw other at l)) }
]

pub tree-Route :
    (blocks : List KvBlock) (items : GlobalAddress → KvItem)
    → Route (tree blocks items) 150 0 10 1 30
unfolding next_address search_from
tree-Route blocks items = last (record { unlocked = refl; stands = refl }) refl
