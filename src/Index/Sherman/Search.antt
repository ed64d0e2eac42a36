-- ===== src/Index/Sherman/Search.antt =====
-- src/kv_index/sherman_index.cpp: the searches of `read`, `insert` and `search_and_insert_to_internal`
-- from the root down. Other clients write meanwhile: what a read sees is given for each moment, and a
-- read takes a moment. A failed assertion ends the program.
pub mod Rounds
pub mod Routes
pub mod Targets
pub mod Sibling
mod Tests
use faunus.Index.Outcome.{Outcome, answer, failed, running}
use faunus.Index.Sherman.Internal.{next_level}
use faunus.Index.Sherman.Leaf.{Value, Items, search_leaf}
use faunus.Index.Sherman.{Key, Header, Page, InternalPage, LeafPage, check_consistent}
use faunus.Prelude.{
  ℕ, zero, suc, ◌+◌, ◌-◌, Bool, true, false, not, ◌||◌, ◌&&◌, Option, none, some, ltb, leb, ◌==◌,
  if◌then◌else◌,
}
use faunus.Rdma.GlobalAddress.{GlobalAddress, null}
use mathlib.Core.Option

-- A page is a leaf if it has no leftmost child.
pub data Node : Type 0 where
  leaf : (page : LeafPage) → Node
  internal : (page : InternalPage) → Node

abbrev pub hdr : Node → Header
hdr (leaf page) = page.hdr
hdr (internal page) = page.hdr

abbrev pub is_consistent : Node → Bool
is_consistent (leaf page) = check_consistent page
is_consistent (internal page) = check_consistent page

-- What the memory servers hold.
pub record Memory : Type 0 where
  pub root : GlobalAddress
  pub node : GlobalAddress → Node
  pub items : Items

-- The memory at each moment.
abbrev pub History : Type 0
History = ℕ → Memory

pub record SearchResult : Type 0 where
  pub is_leaf : Bool
  pub level : ℕ
  pub slibing : GlobalAddress
  pub next_level : GlobalAddress
  pub val : Value

-- `SearchResult result`, with `Value::min()` in it
abbrev pub no_result : SearchResult
no_result = record { is_leaf = false; level = 0; slibing = null; next_level = null; val = 0 }

-- `re_read`: the first consistent page at an address from a moment on, and the next moment.
unfoldable pub re_read : ℕ → History → ℕ → GlobalAddress → Option (Node × ℕ)
re_read zero history now address = none
re_read (suc fuel) history now address =
    let again = re_read fuel history (now + 1) address in
    let node = (history now).node address in
    if is_consistent node then some (node, now + 1) else again

-- `search_node` in a page within whose fences the key lies.
unfoldable pub search_inside : ℕ → Items → Key → SearchResult → Node → Option SearchResult
search_inside size items key result (leaf page) =
    let val = Option.get_or (search_leaf size items page.records key) result.val in
    if page.hdr.level == 0
    then some (record result { is_leaf = true; level = page.hdr.level; val = val })
    else none
search_inside size items key result (internal page) =
    if page.hdr.level == 0
    then none
    else some (record result {
      is_leaf = false;
      level = page.hdr.level;
      next_level = next_level page key;
    })

abbrev pub is_leaf_node : Node → Bool
is_leaf_node (leaf page) = true
is_leaf_node (internal page) = false

-- `search_node` after the read; `none` for a failed assertion.
unfoldable pub search_node :
    ℕ → Items → GlobalAddress → Key → SearchResult → Node → Option SearchResult
unfolding search_inside
search_node size items address key result node =
    let sibling = (hdr node).sibling_ptr in
    let inside = search_inside size items key result node in
    if leb (hdr node).highest key
    then if sibling == null || sibling == address
      then none
      else some (record result {
        is_leaf = is_leaf_node node;
        level = (hdr node).level;
        slibing = sibling;
      })
    else if ltb key (hdr node).lowest
    then none
    else inside

-- What follows a search: the loop ends, or goes on to a page.
pub data Step (A : Type 0) : Type 0 where
  returns : (a : A) → Step A
  goes : (p : GlobalAddress) → Step A

-- `read`
unfoldable pub read_step : SearchResult → Step (Option Value)
read_step result =
    if result.is_leaf
    then if not (result.val == 0)
      then returns (some result.val)
      else if not (result.slibing == null)
      then goes result.slibing
      else returns none
    else if result.slibing == null
    then goes result.next_level
    else goes result.slibing

-- `insert`: the leaf to insert into.
unfoldable pub insert_step : GlobalAddress → SearchResult → Step (Option GlobalAddress)
insert_step p result =
    if result.is_leaf
    then returns (some p)
    else if not (result.slibing == null)
    then goes result.slibing
    else if not (result.level == 1)
    then goes result.next_level
    else returns (some result.next_level)

-- `search_and_insert_to_internal`: the page of a level to insert into. At level 0 an assertion fails.
unfoldable pub internal_step : ℕ → GlobalAddress → SearchResult → Step (Option GlobalAddress)
internal_step level p result =
    if result.level == level
    then returns (some p)
    else if result.level == 0
    then returns none
    else if not (result.slibing == null)
    then goes result.slibing
    else if not (result.level == level + 1)
    then goes result.next_level
    else returns (some result.next_level)

module _ {A : Type 0} where
  unfoldable pub after_read : Option (Node × ℕ) → (Node → ℕ → Outcome A) → Outcome A
  after_read none next = running
  after_read (some (node, now)) next = next node now

  unfoldable pub after_search : Option SearchResult → (SearchResult → Outcome A) → Outcome A
  after_search none next = failed
  after_search (some result) next = next result

  unfoldable pub after_step : Step A → (GlobalAddress → Outcome A) → Outcome A
  after_step (returns a) next = answer a
  after_step (goes p) next = next p

  -- The loops, from `next:` on: `exhausted` after `fuel` searches, of at most `reads` reads each.
  unfoldable pub search_loop :
      (GlobalAddress → SearchResult → Step A)
      → Outcome A
      → ℕ
      → ℕ
      → ℕ
      → History
      → ℕ
      → GlobalAddress
      → Key
      → SearchResult
      → Outcome A
  unfolding after_read after_search after_step search_node re_read
  search_loop step exhausted reads size zero history now p key result = exhausted
  search_loop step exhausted reads size (suc fuel) history now p key result =
      after_read (re_read reads history now p) (λ node now'.
        after_search (search_node size (history now').items p key result node) (λ result'.
          after_step (step p result')
            (λ p'. search_loop step exhausted reads size fuel history now' p' key result')))

-- `read`, without a cache
unfoldable pub read : ℕ → ℕ → ℕ → History → ℕ → Key → Outcome (Option Value)
unfolding search_loop read_step
read reads size fuel history now key =
    search_loop (λ p result. read_step result) running reads size fuel history (now + 1)
      (history now).root key no_result

-- `MAX_RETRIES`
abbrev pub max_retries : ℕ
max_retries = 1_000_000

-- `insert`, without a cache: the leaf that it inserts into, or `none` when it returns false.
unfoldable pub insert_target : ℕ → ℕ → History → ℕ → Key → Outcome (Option GlobalAddress)
unfolding search_loop insert_step
insert_target reads size history now key =
    search_loop insert_step (answer none) reads size max_retries history (now + 1)
      (history now).root key no_result

-- `search_and_insert_to_internal`
unfoldable pub internal_target : ℕ → ℕ → ℕ → History → ℕ → Key → ℕ → Outcome (Option GlobalAddress)
unfolding search_loop internal_step
internal_target reads size fuel history now key level =
    search_loop (internal_step level) running reads size fuel history (now + 1) (history now).root
      key no_result
