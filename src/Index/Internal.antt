-- ===== src/Index/Internal.antt =====
-- src/kv_index/faunus_index.hpp and .cpp: the internal nodes of the Faunus tree. A node has
-- `header.last_index + 1` children; the keys of all entries but the last separate them. A key stands
-- for the number of its bytes, by which the code's comparisons order keys (Util/ArrayVar/Order).
pub mod Slot
pub mod Place
pub mod Insert
pub mod Split
pub mod Root
mod Tests
use faunus.Prelude.{
  ℕ, zero, suc, ◌+◌, ◌-◌, ◌/◌, ◌≤◌, Bool, true, false, not, ◌&&◌, ◌||◌, List, Option, none, some,
  ltb, leb, ◌==◌, if◌then◌else◌, get_or, set, fill, length, ◌++◌, [], ◌∷◌, take,
}
use mathlib.Core.Option
use faunus.Rdma.GlobalAddress.{GlobalAddress, null}

abbrev pub Key : Type 0
Key = ℕ

-- `Header`; the pair `fence` is two fields.
pub record Header : Type 0 where
  pub lock : ℕ
  pub level : ℕ
  pub fence_first : Key
  pub fence_second : Key
  pub last_index : ℕ

pub record InternalEntry : Type 0 where
  pub key : Key
  pub child : GlobalAddress

pub record InternalNode : Type 0 where
  pub header : Header
  pub entries : List InternalEntry

-- `InternalEntry{}`
abbrev pub no_entry : InternalEntry
no_entry = record { key = 0; child = null }

abbrev pub entry_at : List InternalEntry → ℕ → InternalEntry
entry_at es i = get_or es i no_entry

abbrev pub set_key : List InternalEntry → ℕ → Key → List InternalEntry
set_key es i k = set es i (record { key = k; child = (entry_at es i).child })

abbrev pub set_child : List InternalEntry → ℕ → GlobalAddress → List InternalEntry
set_child es i c = set es i (record { key = (entry_at es i).key; child = c })

-- `find_node`: the loop that looks for the next level, from entry `i` on, `n` entries left.
unfoldable pub search_from : ℕ → ℕ → Key → List InternalEntry → Option GlobalAddress
search_from zero i key es = none
search_from (suc n) i key es =
    let rest = search_from n (i + 1) key es in
    if ltb key (entry_at es i).key then some (entry_at es i).child else rest

-- `find_node`: the child that the search descends to.
unfoldable pub next_address : InternalNode → Key → GlobalAddress
unfolding search_from
next_address node key =
    Option.get_or (search_from (node.header.last_index + 1) 0 key node.entries)
      (entry_at node.entries node.header.last_index).child

-- `insert_internal_entry`: the test for an existing key, over the entries below `n`.
unfoldable pub has_key : ℕ → Key → List InternalEntry → Bool
has_key zero key es = false
has_key (suc i) key es = (entry_at es i).key == key || has_key i key es

-- The search for the right spot, from entry `n - 1` down.
unfoldable pub spot : ℕ → Key → List InternalEntry → ℕ
spot zero key es = 0
spot (suc i) key es =
    let rest = spot i key es in if ltb (entry_at es i).key key then i + 1 else rest

-- The loop that shifts entries to the right, `n` rounds with `i` falling. In the round `i == 1` the
-- code reads `entries[i - 2].key`, with an index that has wrapped: `stray` is what stands there.
unfoldable pub shift : ℕ → ℕ → Key → List InternalEntry → List InternalEntry
shift zero i stray es = es
shift (suc n) i stray es =
    let moved = if i == 1 then stray else (entry_at es (i - 2)).key in
    shift n (i - 1) stray (set_child (set_key es (i - 1) moved) i (entry_at es (i - 1)).child)

-- The shift and the two writes, in an array whose last child stands at `last`.
unfoldable pub place : ℕ → Key → GlobalAddress → Key → List InternalEntry → List InternalEntry
unfolding spot shift
place last key child stray es =
    let index = spot last key es in
    let shifted = shift (last + 1 - index) (last + 1) stray es in
    set_key (set_child shifted (index + 1) child) index key

-- `insert_internal_entry`: the branch that inserts into a node with room.
unfoldable pub insert_entry : InternalNode → Key → GlobalAddress → Key → InternalNode
unfolding place
insert_entry node key child stray =
    let h = node.header in
    record {
      header = record h { last_index = h.last_index + 1 };
      entries = place h.last_index key child stray node.entries;
    }

-- The two nodes that a split leaves, and the key between them.
pub record SplitNode : Type 0 where
  pub left : InternalNode
  pub right : InternalNode
  pub middle_key : Key

-- `split_internal_node`: the copied entries with the new one placed.
unfoldable pub split_entries : InternalNode → Key → GlobalAddress → Key → List InternalEntry
unfolding place
split_entries node key child stray =
    let last = node.header.last_index in
    place last key child stray (take (last + 1) node.entries ++ no_entry ∷ [])

-- The two nodes that it makes.
unfoldable pub split_node : ℕ → InternalNode → Key → GlobalAddress → Key → SplitNode
unfolding split_entries
split_node branch_factor node key child stray =
    let es = split_entries node key child stray in
    let middle = branch_factor / 2 in
    let middle_key = (entry_at es middle).key in
    record {
      left = record {
        header = record {
          lock = node.header.lock;
          level = node.header.level;
          fence_first = node.header.fence_first;
          fence_second = middle_key;
          last_index = middle;
        };
        entries = fill branch_factor 0 (λ i. if leb i middle then entry_at es i else no_entry);
      };
      right = record {
        header = record {
          lock = 0;
          level = node.header.level;
          fence_first = middle_key;
          fence_second = node.header.fence_second;
          last_index = branch_factor - middle - 1;
        };
        entries = fill branch_factor 0 (λ i.
            if ltb (i + middle + 1) (length es) then entry_at es (i + middle + 1) else no_entry);
      };
      middle_key = middle_key;
    }

-- `split_internal_node` up to the writes, with its assertions: `none` is one that fails.
unfoldable pub split_internal_node : ℕ → InternalNode → Key → GlobalAddress → Key → Option SplitNode
unfolding split_node
split_internal_node branch_factor node key child stray =
    let parts = split_node branch_factor node key child stray in
    if (node.header.last_index + 2 == branch_factor + 1)
      && ltb parts.left.header.last_index (branch_factor - 1)
    then some parts
    else none

-- `setup_new_root`, up to the writes: a root over the old one and its new sibling.
unfoldable pub new_root : ℕ → Key → GlobalAddress → GlobalAddress → ℕ → Key → InternalNode
new_root branch_factor key old_root right_child level max_key = record {
  header = record {
    lock = 0;
    level = level;
    fence_first = 0;
    fence_second = max_key;
    last_index = 1;
  };
  entries =
      set_child (set_child (set_key (fill branch_factor 0 (λ _. no_entry)) 0 key) 0 old_root) 1
        right_child;
}
