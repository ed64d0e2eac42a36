-- ===== src/Cache/Range/Example.antt =====
-- A cache of one entry over lists.
use faunus.Cache.Range.{RangeCache, SkipList, RetiredQueue, RetiredItem}
use faunus.Prelude.{
  ℕ, Bool, true, false, Option, none, some, List, [], ◌∷◌, ◌++◌, length, leb, ◌==◌, if◌then◌else◌,
}
use faunus.Rdma.Allocators.Slab.{Queue, Allocator, SlabAllocator}

abbrev pub first_up_to : List (ℕ × ℕ) → ℕ → Option ℕ
first_up_to [] key = none
first_up_to ((start, e) ∷ list) key = if leb start key then some e else first_up_to list key

abbrev pub nodes : List (ℕ × ℕ) → List ℕ
nodes [] = []
nodes ((start, e) ∷ list) = e ∷ nodes list

abbrev pub without : List (ℕ × ℕ) → ℕ → Bool × List (ℕ × ℕ)
without [] e = (false, [])
without ((start, e') ∷ list) e =
    let (erased, rest) = without list e in
    if e' == e then (true, list) else (erased, (start, e') ∷ rest)

-- One layer, the last node inserted first.
abbrev pub list_skip : SkipList
list_skip = record {
  L = List (ℕ × ℕ);
  find_smaller_or_equal = first_up_to;
  insert = λ list start e. (start, e) ∷ list;
  erase_node = without;
  num_entries = length;
  layer_entries = λ list. length list ∷ [];
  layer = λ list lvl. nodes list;
}

abbrev pub first_of {ℓ} : {A : Type ℓ} → List A → Option (A × List A)
first_of [] = none
first_of (x ∷ xs) = some (x, xs)

abbrev pub retired_list : RetiredQueue
retired_list = record {
  Q = List RetiredItem;
  enqueue = λ q item. q ++ item ∷ [];
  try_dequeue = first_of;
}

abbrev pub free_list : Queue
free_list = record { Q = List ℕ; enqueue = λ q x. q ++ x ∷ []; try_dequeue = first_of }

abbrev pub no_backing : Allocator
no_backing = record { S = ℕ; allocate = λ s n. (none, s) }

abbrev pub free_count : SlabAllocator free_list no_backing → ℕ
free_count slab = length slab.free_list

-- The entry at 7 with a range and an item, and one free slab.
abbrev pub one_entry :
    {Item : Type 0} → ℕ → ℕ → Item → RangeCache Item list_skip retired_list free_list no_backing
one_entry start end item = record {
  list = (start, 7) ∷ [];
  entries = λ a.
      if a == 7
      then some (record { start = start; end = end; item = item; last_access = 0 })
      else none;
  entry_slab = record { slab_size = 64; num_slabs = 2; free_list = 8 ∷ []; allocator = 0 };
  access_update_interval = 64;
  global_epoch = 1;
  epochs = [];
  retired_q = [];
}
