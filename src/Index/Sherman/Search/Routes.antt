-- ===== src/Index/Sherman/Search/Routes.antt =====
-- Reads that follow no sibling, in a memory that does not change.
use faunus.Index.Sherman.Search.Rounds.{
  Holds, still, loop-step, search_node-leaf, search_node-internal,
}
use faunus.Index.Sherman.Internal.{next_level}
use faunus.Index.Sherman.Leaf.{Value, search_leaf}
use faunus.Index.Outcome.{Outcome, answer, running}
use faunus.Index.Sherman.Search.{
  leaf, internal, Memory, SearchResult, no_result, after_step, returns, goes, read_step,
  search_loop, read,
}
use faunus.Index.Sherman.{Key, InternalPage, LeafPage}
use faunus.Prelude.{
  ℕ, zero, suc, ◌+◌, ◌≤◌, ◌<◌, ◌≡◌, refl, ◌∙◌, true, false, Bool-cases, inl, inr, Option, none,
  some, ◌==◌, if◌then◌else◌, arith,
}
use faunus.Rdma.GlobalAddress.{GlobalAddress, null}
use mathlib.Core.Option

-- From the page at an address, `h` levels down, to the leaf of the key.
pub data Route (mem : Memory) (key : Key)
    : GlobalAddress → ℕ → GlobalAddress → LeafPage → Type 0 where
  at_leaf :
      {p : GlobalAddress} {page : LeafPage}
      → mem.node p ≡ leaf page
      → Holds page key 0
      → Route mem key p 0 p page
  down :
      {p : GlobalAddress} {h : ℕ} {page : InternalPage} {a : GlobalAddress} {target : LeafPage}
      → mem.node p ≡ internal page
      → Holds page key (suc h)
      → Route mem key (next_level page key) h a target
      → Route mem key p (suc h) a target

-- What `read` makes of the value that it has found.
abbrev pub seen : Option Value → Option Value
seen none = none
seen (some v) = if v == 0 then none else some v

abbrev pub read_loop :
    ℕ → ℕ → ℕ → Memory → ℕ → GlobalAddress → Key → SearchResult → Outcome (Option Value)
read_loop reads size fuel mem now p key result =
    search_loop (λ p result. read_step result) running reads size fuel (still mem) now p key result

goes_down :
    (result : SearchResult) (child : GlobalAddress) (level : ℕ)
    → result.slibing ≡ null
    → read_step (record result { is_leaf = false; level = level; next_level = child }) ≡ goes child
unfolding read_step
goes_down result child level clear = rw clear refl

seen_lem :
    (found : Option Value) (result : SearchResult)
    → result.is_leaf ≡ true
    → result.slibing ≡ null
    → result.val ≡ Option.get_or found 0
    → read_step result ≡ returns (seen found)
unfolding read_step
seen_lem none result leaf_page no_sibling e = rw (leaf_page, no_sibling, e) refl
seen_lem (some v) result leaf_page no_sibling e =
    rw (leaf_page, no_sibling, e)
      (elim (Bool-cases (v == 0)) [ inl z ↦ rw z refl | inr z ↦ rw z refl ])

read_loop-Route :
    (reads size fuel : ℕ) (mem : Memory) (key : Key) (p : GlobalAddress) (h : ℕ) (a : GlobalAddress)
    (page : LeafPage) (now : ℕ) (result : SearchResult)
    → Route mem key p h a page
    → h < fuel
    → result.slibing ≡ null
    → result.val ≡ 0
    → read_loop (suc reads) size fuel mem now p key result
      ≡ answer (seen (search_leaf size mem.items page.records key))
unfolding after_step
read_loop-Route reads size zero mem key p h a page now result route enough clear zero_val =
    absurd (omega arith)
read_loop-Route reads size (suc fuel) mem key p h a page now result (at_leaf e holds) enough clear
      zero_val =
    let found = search_leaf size mem.items page.records key in
    let result' : SearchResult = record result {
      is_leaf = true;
      level = 0;
      val = Option.get_or found result.val;
    } in
    let ends : read_step result' ≡ returns (seen found) =
      seen_lem found result' refl clear (rw zero_val refl) in
    loop-step (λ p result. read_step result) running mem reads size fuel now p key result
      (leaf page) result' e holds.consistent (search_node-leaf size mem p key result page holds)
    ∙ rw ends refl
read_loop-Route reads size (suc fuel) mem key p (suc h) a page now result
      (down {page = inner} e holds route) enough clear zero_val =
    let result' : SearchResult = record result {
      is_leaf = false;
      level = inner.hdr.level;
      next_level = next_level inner key;
    } in
    let on = goes_down result (next_level inner key) inner.hdr.level clear in
    loop-step (λ p result. read_step result) running mem reads size fuel now p key result
      (internal inner) result' e holds.consistent
      (search_node-internal size mem p key result inner h holds)
    ∙ rw on (
        read_loop-Route reads size fuel mem key (next_level inner key) h a page (now + 1) result'
          route (omega arith) clear zero_val)

-- In a memory that does not change, a search from the root that finds the key within the fences of
-- every page, down to a leaf `h` levels below, returns what the scan of the leaf finds, the value 0
-- counting as none, for all fuel above `h`.
pub read-Route :
    (reads size fuel : ℕ) (mem : Memory) (key : Key) (h : ℕ) (a : GlobalAddress) (page : LeafPage)
    (now : ℕ)
    → Route mem key mem.root h a page
    → 1 ≤ reads
    → h < fuel
    → read reads size fuel (still mem) now key
      ≡ answer (seen (search_leaf size mem.items page.records key))
unfolding read
read-Route zero size fuel mem key h a page now route one enough = absurd (omega arith)
read-Route (suc reads) size fuel mem key h a page now route one enough =
    read_loop-Route reads size fuel mem key mem.root h a page (now + 1) no_result route enough refl
      refl
