-- ===== src/Index.antt =====
-- src/kv_index: the Faunus tree, from its leaf words to its searches, and the Sherman index.
pub mod Outcome
pub mod Slot
pub mod KvBlock
pub mod Internal
pub mod Leaf
pub mod Find
pub mod Cached
pub mod Client
pub mod Insertion
pub mod Parent
pub mod LeafSplit
pub mod Maintenance
pub mod Sherman
