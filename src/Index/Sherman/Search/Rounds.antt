-- ===== src/Index/Sherman/Search/Rounds.antt =====
-- One round of the search loops, in a memory that does not change.
use faunus.Index.Sherman.Internal.{next_level}
use faunus.Index.Sherman.Leaf.{search_leaf}
use faunus.Index.Outcome.{Outcome}
use faunus.Index.Sherman.Search.{
  Node, leaf, internal, is_consistent, Memory, History, SearchResult, re_read, search_node,
  search_inside, after_read, after_search, after_step, Step, search_loop,
}
use faunus.Index.Sherman.{Key, Page, InternalPage, LeafPage, check_consistent}
use faunus.Prelude.{ℕ, suc, ◌+◌, ◌≤◌, ◌<◌, ◌≡◌, refl, true, false, some, ltb, leb, ◌==◌, arith}
use faunus.Rdma.GlobalAddress.{GlobalAddress}
use mathlib.Core.Option

-- The key lies within the fences of a page that is written in full.
pub record Holds {E : Type 0} (page : Page E) (key : Key) (level : ℕ) : Type 0 where
  pub consistent : check_consistent page ≡ true
  pub low : page.hdr.lowest ≤ key
  pub high : key < page.hdr.highest
  pub height : page.hdr.level ≡ level

abbrev pub still : Memory → History
still mem now = mem

re_read-still :
    (mem : Memory) (reads now : ℕ) (p : GlobalAddress)
    → is_consistent (mem.node p) ≡ true
    → re_read (suc reads) (still mem) now p ≡ some (mem.node p, now + 1)
unfolding re_read
re_read-still mem reads now p h = rw h refl

module _ {A : Type 0} (step : GlobalAddress → SearchResult → Step A) (exhausted : Outcome A)
    (mem : Memory) (reads size fuel now : ℕ) (p : GlobalAddress) (key : Key)
    (result : SearchResult) where
  -- One round of a loop.
  pub loop-step :
      (n : Node) (result' : SearchResult)
      → mem.node p ≡ n
      → is_consistent n ≡ true
      → search_node size mem.items p key result n ≡ some result'
      → search_loop step exhausted (suc reads) size (suc fuel) (still mem) now p key result
        ≡ after_step (step p result') (λ p'.
          search_loop step exhausted (suc reads) size fuel (still mem) (now + 1) p' key result')
  unfolding search_loop after_read after_search
  loop-step n result' e c found = rw (re_read-still mem reads now p (rw e c), e, found) refl

module _ (size : ℕ) (mem : Memory) (p : GlobalAddress) (key : Key) (result : SearchResult) where
  pub search_node-leaf :
      (page : LeafPage)
      → Holds page key 0
      → search_node size mem.items p key result (leaf page)
        ≡ some (record result {
          is_leaf = true;
          level = 0;
          val = Option.get_or (search_leaf size mem.items page.records key) result.val;
        })
  unfolding search_node search_inside
  search_node-leaf page h =
      let high = h.high in
      let low = h.low in
      let inside : leb page.hdr.highest key ≡ false = ground arith in
      let above : ltb key page.hdr.lowest ≡ false = ground arith in
      rw (inside, above, h.height) refl

  pub search_node-internal :
      (page : InternalPage) (level : ℕ)
      → Holds page key (suc level)
      → search_node size mem.items p key result (internal page)
        ≡ some (record result {
          is_leaf = false;
          level = page.hdr.level;
          next_level = next_level page key;
        })
  unfolding search_node search_inside
  search_node-internal page level h =
      let high = h.high in
      let low = h.low in
      let tall = h.height in
      let inside : leb page.hdr.highest key ≡ false = ground arith in
      let above : ltb key page.hdr.lowest ≡ false = ground arith in
      let inner : (page.hdr.level == 0) ≡ false = ground arith in rw (inside, above, inner) refl
