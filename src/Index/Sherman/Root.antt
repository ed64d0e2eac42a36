-- ===== src/Index/Sherman/Root.antt =====
-- src/kv_index/sherman_index.cpp: the pointer to the root, which a new tree and a split of the root
-- set by compare-and-swap. The addresses of the new pages, which the allocator gives, are arguments.
pub mod Update
mod Tests
use faunus.Index.Sherman.Internal.{root_page}
use faunus.Index.Sherman.Search.{Memory, Node, leaf, internal}
use faunus.Index.Sherman.{Key, Header, Page, InternalPage, LeafPage, new_leaf_page, set_consistent}
use faunus.Prelude.{ℕ, Bool, ◌==◌, if◌then◌else◌}
use faunus.Rdma.GlobalAddress.{GlobalAddress}

abbrev pub write_node : Memory → GlobalAddress → Node → Memory
write_node mem address node = record mem { node = λ a. if a == address then node else mem.node a }

-- The compare-and-swap of the pointer, and the value that it finds.
abbrev pub cas_root : Memory → GlobalAddress → GlobalAddress → GlobalAddress × Memory
cas_root mem expected desired =
    (mem.root, if mem.root == expected then record mem { root = desired } else mem)

-- `initialize`: the pointer is 0 before.
unfoldable pub initialize : ℕ → Key → Memory → GlobalAddress → Memory
unfolding new_leaf_page set_consistent
initialize cardinality max_key mem root_offset =
    let root = set_consistent (new_leaf_page cardinality max_key 0) in
    (cas_root (write_node mem root_offset (leaf root)) 0 root_offset).1

-- `update_root_offset`
unfoldable pub update_root_offset :
    ℕ
    → Key
    → Memory
    → GlobalAddress
    → Key
    → GlobalAddress
    → ℕ
    → GlobalAddress
    → GlobalAddress
    → Bool × Memory
unfolding root_page set_consistent
update_root_offset cardinality max_key mem left key right level old_root new_root_address =
    let new_root = set_consistent (root_page cardinality max_key left key right level) in
    let (tmp_old_root, mem') =
      cas_root (write_node mem new_root_address (internal new_root)) old_root new_root_address in
    (old_root == tmp_old_root, mem')
