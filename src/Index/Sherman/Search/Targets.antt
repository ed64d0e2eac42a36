-- ===== src/Index/Sherman/Search/Targets.antt =====
-- Searches of inserts that follow no sibling, in a memory that does not change.
use faunus.Index.Sherman.Search.Routes.{Route, at_leaf, down}
use faunus.Index.Sherman.Search.Rounds.{still, loop-step, search_node-leaf, search_node-internal}
use faunus.Index.Sherman.Internal.{next_level}
use faunus.Index.Sherman.Leaf.{search_leaf}
use faunus.Index.Outcome.{answer}
use faunus.Index.Sherman.Search.{
  leaf, internal, Memory, SearchResult, no_result, after_step, returns, goes, insert_step,
  search_loop, max_retries, insert_target,
}
use faunus.Index.Sherman.{Key, LeafPage}
use faunus.Prelude.{
  ℕ, zero, suc, ◌+◌, ◌≤◌, ◌<◌, ◌≡◌, refl, ◌∙◌, ap, true, false, Bool-cases, inl, inr, none, some,
  ◌==◌, if◌then◌else◌, arith,
}
use faunus.Rdma.GlobalAddress.{GlobalAddress, null}
use mathlib.Core.Option

insert_down :
    (p : GlobalAddress) (result : SearchResult) (child : GlobalAddress) (level : ℕ)
    → result.slibing ≡ null
    → insert_step p (record result { is_leaf = false; level = level; next_level = child })
      ≡ (if level == 1 then returns (some child) else goes child)
unfolding insert_step
insert_down p result child level clear =
    rw clear (elim (Bool-cases (level == 1)) [ inl e ↦ rw e refl | inr e ↦ rw e refl ])

Route-zero :
    {mem : Memory} {key : Key} {p a : GlobalAddress} {page : LeafPage}
    → Route mem key p 0 a page
    → p ≡ a
Route-zero (at_leaf e h) = refl

insert_loop-Route :
    (reads size fuel : ℕ) (mem : Memory) (key : Key) (p : GlobalAddress) (h : ℕ) (a : GlobalAddress)
    (page : LeafPage) (now : ℕ) (result : SearchResult)
    → Route mem key p h a page
    → h < fuel
    → result.slibing ≡ null
    → search_loop insert_step (answer none) (suc reads) size fuel (still mem) now p key result
      ≡ answer (some a)
unfolding after_step insert_step
insert_loop-Route reads size zero mem key p h a page now result route enough clear =
    absurd (omega arith)
insert_loop-Route reads size (suc fuel) mem key p h a page now result (at_leaf e holds) enough
      clear =
    let found = search_leaf size mem.items page.records key in
    loop-step insert_step (answer none) mem reads size fuel now p key result (leaf page)
      (record result { is_leaf = true; level = 0; val = Option.get_or found result.val }) e
      holds.consistent (search_node-leaf size mem p key result page holds)
insert_loop-Route reads size (suc fuel) mem key p (suc zero) a page now result
      (down {page = inner} e holds route) enough clear =
    let one : (inner.hdr.level == 1) ≡ true = ground (arith, holds.height) in
    loop-step insert_step (answer none) mem reads size fuel now p key result (internal inner)
      (record result {
        is_leaf = false;
        level = inner.hdr.level;
        next_level = next_level inner key;
      })
      e holds.consistent (search_node-internal size mem p key result inner 0 holds)
    ∙ rw (insert_down p result (next_level inner key) inner.hdr.level clear, one)
        (ap (λ x. answer (some x)) (Route-zero route))
insert_loop-Route reads size (suc fuel) mem key p (suc (suc h)) a page now result
      (down {page = inner} e holds route) enough clear =
    let more : (inner.hdr.level == 1) ≡ false = ground (arith, holds.height) in
    let result' : SearchResult = record result {
      is_leaf = false;
      level = inner.hdr.level;
      next_level = next_level inner key;
    } in
    loop-step insert_step (answer none) mem reads size fuel now p key result (internal inner)
      result' e holds.consistent (search_node-internal size mem p key result inner (suc h) holds)
    ∙ rw (insert_down p result (next_level inner key) inner.hdr.level clear, more)
        (insert_loop-Route reads size fuel mem key (next_level inner key) (suc h) a page (now + 1)
          result' route (omega arith) clear)

-- In a memory that does not change, where a search from the root finds the key within the fences of
-- every page, down to a leaf `h` levels below, fewer than the retries: the search for the leaf to insert
-- into finds that leaf.
insert_target-Route :
    (reads size : ℕ) (mem : Memory) (key : Key) (h : ℕ) (a : GlobalAddress) (page : LeafPage)
    (now : ℕ)
    → Route mem key mem.root h a page
    → 1 ≤ reads
    → h < max_retries
    → insert_target reads size (still mem) now key ≡ answer (some a)
unfolding insert_target
insert_target-Route zero size mem key h a page now route one enough = absurd (omega arith)
insert_target-Route (suc reads) size mem key h a page now route one enough =
    insert_loop-Route reads size max_retries mem key mem.root h a page (now + 1) no_result route
      enough refl
