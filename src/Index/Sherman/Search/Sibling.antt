-- ===== src/Index/Sherman/Search/Sibling.antt =====
-- Searches that follow the sibling of an internal page. `slibing` is set and never cleared, so that
-- the next step goes to the same page again.
use faunus.Index.Sherman.Search.Rounds.{Holds, still, loop-step, search_node-internal}
use faunus.Index.Sherman.Search.Routes.{read_loop}
use faunus.Index.Sherman.Internal.{next_level}
use faunus.Index.Outcome.{answer, running}
use faunus.Index.Sherman.Search.{
  internal, Memory, SearchResult, no_result, search_node, after_step, goes, read_step, insert_step,
  search_loop, read, max_retries, insert_target,
}
use faunus.Index.Sherman.{Key, InternalPage, check_consistent}
use faunus.Prelude.{
  ℕ, zero, suc, ◌+◌, ◌≤◌, ◌≡◌, ◌≢◌, refl, ◌∙◌, true, false, none, some, leb, ◌==◌, arith,
}
use faunus.Rdma.GlobalAddress.{GlobalAddress, null}

search_node-right :
    (size : ℕ) (mem : Memory) (p : GlobalAddress) (key : Key) (result : SearchResult)
    (page : InternalPage)
    → page.hdr.highest ≤ key
    → page.hdr.sibling_ptr ≢ null
    → page.hdr.sibling_ptr ≢ p
    → search_node size mem.items p key result (internal page)
      ≡ some (record result {
        is_leaf = false;
        level = page.hdr.level;
        slibing = page.hdr.sibling_ptr;
      })
unfolding search_node
search_node-right size mem p key result page right some_sibling other =
    let on : leb page.hdr.highest key ≡ true = ground arith in
    let real : (page.hdr.sibling_ptr == null) ≡ false = ground arith in
    let apart : (page.hdr.sibling_ptr == p) ≡ false = ground arith in rw (on, real, apart) refl

module _ (reads size : ℕ) (mem : Memory) (key : Key) (s : GlobalAddress) (page : InternalPage)
    (h : ℕ) (there : mem.node s ≡ internal page) (holds : Holds page key (suc h))
    (real : s ≢ null) where
  abbrev within : SearchResult → SearchResult
  within result = record result {
    is_leaf = false;
    level = page.hdr.level;
    next_level = next_level page key;
  }

  again : (result : SearchResult) → result.slibing ≡ s → read_step (within result) ≡ goes s
  unfolding read_step
  again result e =
      let some_sibling : (s == null) ≡ false = ground arith in rw (e, some_sibling) refl

  insert_again :
      (result : SearchResult) → result.slibing ≡ s → insert_step s (within result) ≡ goes s
  unfolding insert_step
  insert_again result e =
      let some_sibling : (s == null) ≡ false = ground arith in rw (e, some_sibling) refl

  read_loop-sibling :
      (fuel now : ℕ) (result : SearchResult)
      → result.slibing ≡ s
      → read_loop (suc reads) size fuel mem now s key result ≡ running
  unfolding after_step search_loop
  read_loop-sibling zero now result e = refl
  read_loop-sibling (suc fuel) now result e =
      loop-step (λ p result. read_step result) running mem reads size fuel now s key result
        (internal page) (within result) there holds.consistent
        (search_node-internal size mem s key result page h holds)
      ∙ rw (again result e) (read_loop-sibling fuel (now + 1) (within result) e)

  insert_loop-sibling :
      (fuel now : ℕ) (result : SearchResult)
      → result.slibing ≡ s
      → search_loop insert_step (answer none) (suc reads) size fuel (still mem) now s key result
        ≡ answer none
  unfolding after_step search_loop
  insert_loop-sibling zero now result e = refl
  insert_loop-sibling (suc fuel) now result e =
      loop-step insert_step (answer none) mem reads size fuel now s key result (internal page)
        (within result) there holds.consistent
        (search_node-internal size mem s key result page h holds)
      ∙ rw (insert_again result e) (insert_loop-sibling fuel (now + 1) (within result) e)

right_read :
    (result : SearchResult) (level : ℕ) (s : GlobalAddress)
    → s ≢ null
    → read_step (record result { is_leaf = false; level = level; slibing = s }) ≡ goes s
unfolding read_step
right_read result level s real =
    let some_sibling : (s == null) ≡ false = ground arith in rw some_sibling refl

right_insert :
    (p : GlobalAddress) (result : SearchResult) (level : ℕ) (s : GlobalAddress)
    → s ≢ null
    → insert_step p (record result { is_leaf = false; level = level; slibing = s }) ≡ goes s
unfolding insert_step
right_insert p result level s real =
    let some_sibling : (s == null) ≡ false = ground arith in rw some_sibling refl

module _ (reads size : ℕ) (mem : Memory) (key : Key) (root page : InternalPage) (h : ℕ)
    (there : mem.node mem.root ≡ internal root) (whole : check_consistent root ≡ true)
    (right : root.hdr.highest ≤ key) (real : root.hdr.sibling_ptr ≢ null)
    (apart : root.hdr.sibling_ptr ≢ mem.root) (next : mem.node root.hdr.sibling_ptr ≡ internal page)
    (holds : Holds page key (suc h)) where
  abbrev moved : SearchResult
  moved = record no_result {
    is_leaf = false;
    level = root.hdr.level;
    slibing = root.hdr.sibling_ptr;
  }

  read_stuck :
      (fuel now : ℕ) → read_loop (suc reads) size fuel mem now mem.root key no_result ≡ running
  unfolding search_loop after_step
  read_stuck zero now = refl
  read_stuck (suc fuel) now =
      loop-step (λ p result. read_step result) running mem reads size fuel now mem.root key
        no_result (internal root) moved there whole
        (search_node-right size mem mem.root key no_result root right real apart)
      ∙ rw (right_read no_result root.hdr.level root.hdr.sibling_ptr real) (
          read_loop-sibling reads size mem key root.hdr.sibling_ptr page h next holds real fuel
            (now + 1) moved refl)

  insert_stuck :
      (fuel now : ℕ)
      → search_loop insert_step
          (answer none)
          (suc reads)
          size
          fuel
          (still mem)
          now
          mem.root
          key
          no_result
        ≡ answer none
  unfolding search_loop after_step
  insert_stuck zero now = refl
  insert_stuck (suc fuel) now =
      loop-step insert_step (answer none) mem reads size fuel now mem.root key no_result
        (internal root) moved there whole
        (search_node-right size mem mem.root key no_result root right real apart)
      ∙ rw (right_insert mem.root no_result root.hdr.level root.hdr.sibling_ptr real) (
          insert_loop-sibling reads size mem key root.hdr.sibling_ptr page h next holds real fuel
            (now + 1) moved refl)

-- Whenever the root is an internal page below the key, as while its split is not yet in the root
-- pointer, and its sibling is an internal page with the key within its fences, in a memory that does
-- not change: a read runs on for any fuel, and an insert uses up its retries and returns false. It does
-- not matter whether the key is in the tree.
pub searches-sibling :
    (reads size fuel : ℕ) (mem : Memory) (key : Key) (root page : InternalPage) (h now : ℕ)
    → 1 ≤ reads
    → mem.node mem.root ≡ internal root
    → check_consistent root ≡ true
    → root.hdr.highest ≤ key
    → root.hdr.sibling_ptr ≢ null
    → root.hdr.sibling_ptr ≢ mem.root
    → mem.node root.hdr.sibling_ptr ≡ internal page
    → Holds page key (suc h)
    → (read reads size fuel (still mem) now key ≡ running)
      × (insert_target reads size (still mem) now key ≡ answer none)
unfolding read insert_target
searches-sibling zero size fuel mem key root page h now one there whole right real apart next
      holds =
    absurd (omega arith)
searches-sibling (suc reads) size fuel mem key root page h now one there whole right real apart next
      holds =
    (
      read_stuck reads size mem key root page h there whole right real apart next holds fuel
          (now + 1),
      insert_stuck reads size mem key root page h there whole right real apart next holds
          max_retries (now + 1),
    )
