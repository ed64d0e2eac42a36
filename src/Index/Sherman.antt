-- ===== src/Index/Sherman.antt =====
-- src/kv_index/sherman_index.hpp and .cpp: the Sherman tree, a B-link tree whose pages carry fences
-- and the address of their right sibling. A key stands for the number of its bytes.
pub mod Internal
pub mod Leaf
pub mod Search
pub mod Locks
pub mod Root
use faunus.Prelude.{ℕ, suc, ◌+◌, ◌%◌, ◌^◌, Bool, List, get_or, replicate, ◌==◌}
use faunus.Rdma.GlobalAddress.{GlobalAddress, null}

abbrev pub Key : Type 0
Key = ℕ

-- `Header`. For `last_index`, which is -1 in an empty page, stands `count`, one more.
pub record Header : Type 0 where
  pub leftmost_ptr : GlobalAddress
  pub sibling_ptr : GlobalAddress
  pub level : ℕ
  pub count : ℕ
  pub lowest : Key
  pub highest : Key

-- `Header()`
abbrev pub new_header : ℕ → Key → Header
new_header level max_key = record {
  leftmost_ptr = null;
  sibling_ptr = null;
  level = level;
  count = 0;
  lowest = 0;
  highest = max_key;
}

pub record InternalEntry : Type 0 where
  pub key : Key
  pub ptr : GlobalAddress

-- `InternalEntry()`
abbrev pub no_entry : InternalEntry
no_entry = record { key = 0; ptr = null }

-- `LeafEntry`, less the padding
pub record LeafEntry : Type 0 where
  pub fingerprint : ℕ
  pub kv_ptr : GlobalAddress

-- `LeafEntry()`
abbrev pub no_leaf_entry : LeafEntry
no_leaf_entry = record { fingerprint = 0; kv_ptr = null }

abbrev pub is_empty : LeafEntry → Bool
is_empty r = r.kv_ptr == null

-- `InternalPage` and `LeafPage` have the same fields but for the type of their records.
pub record Page (E : Type 0) : Type 0 where
  pub embedding_lock : ℕ
  pub front_version : ℕ
  pub hdr : Header
  pub records : List E
  pub rear_version : ℕ

abbrev pub InternalPage : Type 0
InternalPage = Page InternalEntry

abbrev pub LeafPage : Type 0
LeafPage = Page LeafEntry

-- `LeafPage(level)`, with `cardinality` records
unfoldable pub new_leaf_page : ℕ → Key → ℕ → LeafPage
new_leaf_page cardinality max_key level = record {
  embedding_lock = 0;
  front_version = 0;
  hdr = new_header level max_key;
  records = replicate cardinality no_leaf_entry;
  rear_version = 0;
}

module _ {E : Type 0} where
  -- `set_consistent()`; the versions are bytes.
  unfoldable pub set_consistent : Page E → Page E
  set_consistent page =
      let version = (page.front_version + 1) % 2 ^ 8 in
      record page { front_version = version; rear_version = version }

  -- `check_consistent()`
  unfoldable pub check_consistent : Page E → Bool
  check_consistent page = page.rear_version == page.front_version
