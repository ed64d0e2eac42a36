-- ===== src/Index/Sherman/Internal/Split.antt =====
-- Splitting a full page, and the whole of `insert_to_internal`.
use faunus.Index.Sherman.Internal.Routing.{keys, child_at, page_slot, next_level-slot}
use faunus.Index.Sherman.Internal.Insert.{
  count-insert_record, next_level-insert_record, insert_record-Ascending,
}
use faunus.Index.Sherman.Internal.{
  record_at, next_level, insert_record, SplitPage, split_page, InternalOutcome, go_right,
  write_back, write_split, insert_to_internal, failed, can_split,
}
use faunus.Index.Sherman.{Key, no_entry, InternalPage, set_consistent, set_consistent}
use faunus.Index.Slot.{Ascending, slot_of, slot_of-IsSlot, slot_of-low, slot_of-high}
use faunus.Prelude.{
  ℕ, ◌+◌, ◌-◌, ◌/◌, ◌≤◌, ◌<◌, ◌≡◌, refl, ◌∙◌, ap, true, false, ◌&&◌, length, get_or-fill, ltb, leb,
  ◌==◌, if◌then◌else◌, dec_lt, lt→ltb, le→ltb, ℕ_discrete, arith, ◌≢◌, ◌||◌, Bool-cases, inl, inr,
}
use faunus.Rdma.GlobalAddress.{GlobalAddress, null}

module _ (cardinality : ℕ) (page : InternalPage) (sibling : GlobalAddress) (k : Key)
    (three : 3 ≤ page.hdr.count) (fits : page.hdr.count ≤ cardinality)
    (sorted : Ascending page.hdr.count (keys page)) where
  parts : SplitPage
  parts = split_page cardinality page sibling

  right_lem :
      (j : ℕ)
      → j < page.hdr.count - page.hdr.count / 2 - 1
      → record_at parts.right.records j ≡ record_at page.records (j + page.hdr.count / 2 + 1)
  unfolding parts split_page
  right_lem j h =
      let start : 0 + j ≡ j = omega arith in
      get_or-fill cardinality 0 j
        (λ j.
          if ltb j (page.hdr.count - (page.hdr.count / 2 + 1))
          then record_at page.records (j + page.hdr.count / 2 + 1)
          else no_entry)
        no_entry (omega arith)
      ∙ rw (start, lt→ltb j (page.hdr.count - (page.hdr.count / 2 + 1)) (omega arith))

  counts :
      (parts.left.hdr.count ≡ page.hdr.count / 2)
      × (parts.right.hdr.count ≡ page.hdr.count - page.hdr.count / 2 - 1)
  unfolding parts split_page
  counts = (omega arith, omega arith)

  left_at : (i : ℕ) → child_at parts.left i ≡ child_at page i
  unfolding parts split_page
  left_at i = refl

  right_leftmost : child_at parts.right 0 ≡ child_at page (0 + page.hdr.count / 2 + 1)
  unfolding parts split_page
  right_leftmost =
      let later : (0 + page.hdr.count / 2 + 1 == 0) ≡ false = ground arith in
      let back : 0 + page.hdr.count / 2 + 1 - 1 ≡ page.hdr.count / 2 = omega arith in
      rw (later, back) refl

  right_at :
      (i : ℕ)
      → i ≤ page.hdr.count - page.hdr.count / 2 - 1
      → child_at parts.right i ≡ child_at page (i + page.hdr.count / 2 + 1)
  right_at i h = elim (ℕ_discrete i 0) [
    | yes e ↦ rw e right_leftmost
    | no ne ↦
        let some : (i == 0) ≡ false = ground arith in
        let later : (i + page.hdr.count / 2 + 1 == 0) ≡ false = ground arith in
        let back : i - 1 + page.hdr.count / 2 + 1 ≡ i + page.hdr.count / 2 + 1 - 1 = omega arith in
        rw (some, later) (ap (λ x. x.ptr) (right_lem (i - 1) (omega arith)) ∙ rw back refl)
  ]

  left-child :
      k < keys page (page.hdr.count / 2)
      → child_at parts.left (page_slot parts.left k) ≡ child_at page (page_slot page k)
  unfolding parts split_page
  left-child h =
      let (e, _) =
        slot_of-low page.hdr.count (page.hdr.count / 2) k (keys page) (keys page) (omega arith) h
          (λ j l. refl) in
      rw (counts.0)
        (left_at (slot_of (page.hdr.count / 2) k (keys parts.left)) ∙ ap (child_at page) e)

  right-child :
      keys page (page.hdr.count / 2) ≤ k
      → child_at parts.right (page_slot parts.right k) ≡ child_at page (page_slot page k)
  right-child h =
      let within = (slot_of-IsSlot page.hdr.count k (keys page)).within in
      let (e, gt) =
        slot_of-high page.hdr.count (page.hdr.count / 2) k (keys page) (keys parts.right)
          (omega arith) sorted h (λ j l. ap (λ x. x.key) (right_lem j (omega arith))) in
      rw (counts.1) (
        right_at (slot_of (page.hdr.count - page.hdr.count / 2 - 1) k (keys parts.right))
          (omega arith)
        ∙ ap (child_at page) e)

  split-children :
      (if ltb k (keys page (page.hdr.count / 2))
        then next_level parts.left k
        else next_level parts.right k)
      ≡ next_level page k
  split-children =
      rw
        (
          next_level-slot page k (omega arith),
          next_level-slot parts.left k (omega (arith, counts.0)),
          next_level-slot parts.right k (omega (arith, counts.1)),
        )
        (elim (dec_lt k (keys page (page.hdr.count / 2))) [
          | yes h ↦ rw (lt→ltb _ _ h) (left-child h)
          | no h ↦
              rw (le→ltb k (keys page (page.hdr.count / 2)) (omega arith))
                (right-child (omega arith))
        ])

-- Splitting a page of at least three records with ascending separators, no more of them than a page
-- holds, loses no route: below the key between the halves the left page, from it on the right page,
-- leads every search to the child that the whole page led it to.
next_level-split_page :
    (cardinality : ℕ) (page : InternalPage) (sibling : GlobalAddress) (k : Key)
    → 3 ≤ page.hdr.count
    → page.hdr.count ≤ cardinality
    → Ascending page.hdr.count (keys page)
    → let parts = split_page cardinality page sibling in
      (if ltb k parts.split_key then next_level parts.left k else next_level parts.right k)
      ≡ next_level page k
unfolding split_page parts
next_level-split_page cardinality page sibling k three fits sorted =
    split-children cardinality page sibling k three fits sorted

-- Where a search goes that finds what an insert has written.
abbrev pub route : InternalOutcome → Key → GlobalAddress
route (go_right sibling) k = sibling
route (write_back page) k = next_level page k
route (write_split parts) k =
    if ltb k parts.split_key then next_level parts.left k else next_level parts.right k
route failed k = null

-- An outcome that leads the search to a page, unless an assertion has failed.
abbrev RoutesTo : InternalOutcome → Key → GlobalAddress → Type 0
RoutesTo (go_right sibling) k target = route (go_right sibling) k ≡ target
RoutesTo (write_back page) k target = route (write_back page) k ≡ target
RoutesTo (write_split parts) k target = route (write_split parts) k ≡ target
RoutesTo failed k target = ℕ

routes_unless :
    (o : InternalOutcome) (k : Key) (target : GlobalAddress)
    → o ≢ failed
    → RoutesTo o k target
    → route o k ≡ target
routes_unless (go_right sibling) k target h r = r
routes_unless (write_back page) k target h r = r
routes_unless (write_split halves) k target h r = r
routes_unless failed k target h r = absurd (h refl)

consistent_lem :
    (page : InternalPage) (k : Key) → next_level (set_consistent page) k ≡ next_level page k
unfolding next_level set_consistent
consistent_lem page k = refl

inserted-RoutesTo :
    (cardinality : ℕ) (page : InternalPage) (page_addr : GlobalAddress) (key : Key)
    (v sibling : GlobalAddress) (k : Key)
    → 3 ≤ cardinality
    → cardinality ≡ length page.records
    → 1 ≤ page.hdr.count
    → page.hdr.count < cardinality
    → Ascending page.hdr.count (keys page)
    → key < page.hdr.highest
    → RoutesTo
        (insert_to_internal cardinality page page_addr key v sibling)
        k
        (if leb key k && (page_slot page k == page_slot page key) then v else next_level page k)
unfolding insert_to_internal next_level
inserted-RoutesTo cardinality page page_addr key v sibling k three size one room sorted below =
    let page' = insert_record page key v in
    let parts' = split_page cardinality page' sibling in
    let inserted = next_level-insert_record page key v k one (omega arith) sorted in
    let (more, most) = count-insert_record page key v (omega arith) sorted in
    let within : leb page.hdr.highest key ≡ false = ground arith in
    elim (Bool-cases (ltb key page.hdr.lowest || (page.hdr.count == cardinality))) [
      | inl out ↦ rw (within, out) 0
      | inr fine ↦ elim (ℕ_discrete page'.hdr.count cardinality) [
        | yes full ↦
            let on : (page'.hdr.count == cardinality) ≡ true = ground arith in
            elim (Bool-cases (can_split page' parts'.split_key page_addr sibling)) [
              | inr bad ↦ rw (within, fine, on, bad) 0
              | inl good ↦
                  rw (within, fine, on, good)
                    (next_level-split_page cardinality page' sibling k (omega arith) (omega arith)
                        (insert_record-Ascending page key v (omega arith) sorted)
                      ∙ inserted)
            ]
        | no other ↦
            let off : (page'.hdr.count == cardinality) ≡ false = ground arith in
            rw (within, fine, off, consistent_lem page' k) inserted
      ]
    ]

-- Inserting a separator below the upper fence of a page that is not full, whose separators ascend and
-- of which it has one at least, into pages of three records or more, where no assertion fails: whether
-- the page is written back or split, a search goes to the new child for the keys from the separator on
-- that shared its slot, and for all others where it went.
pub route-insert_to_internal :
    (cardinality : ℕ) (page : InternalPage) (page_addr : GlobalAddress) (key : Key)
    (v sibling : GlobalAddress) (k : Key)
    → 3 ≤ cardinality
    → cardinality ≡ length page.records
    → 1 ≤ page.hdr.count
    → page.hdr.count < cardinality
    → Ascending page.hdr.count (keys page)
    → key < page.hdr.highest
    → insert_to_internal cardinality page page_addr key v sibling ≢ failed
    → route (insert_to_internal cardinality page page_addr key v sibling) k
      ≡ (if leb key k && (page_slot page k == page_slot page key) then v else next_level page k)
route-insert_to_internal cardinality page page_addr key v sibling k three size one room sorted below
      holds =
    routes_unless (insert_to_internal cardinality page page_addr key v sibling) k _ holds (
      inserted-RoutesTo cardinality page page_addr key v sibling k three size one room sorted below)

-- A split hands the key range over without a gap: the left page keeps the lower fence and the right
-- page the upper one and the sibling, they meet at the key between them, and the left page points to
-- the new one. They have all records of the page but one.
split_page-fences :
    (cardinality : ℕ) (page : InternalPage) (sibling : GlobalAddress)
    → 1 ≤ page.hdr.count
    → let parts = split_page cardinality page sibling in
      (parts.left.hdr.lowest ≡ page.hdr.lowest)
      × (parts.left.hdr.highest ≡ parts.right.hdr.lowest)
      × (parts.right.hdr.highest ≡ page.hdr.highest)
      × (parts.left.hdr.sibling_ptr ≡ sibling)
      × (parts.right.hdr.sibling_ptr ≡ page.hdr.sibling_ptr)
      × (parts.left.hdr.count + parts.right.hdr.count + 1 ≡ page.hdr.count)
unfolding split_page
split_page-fences cardinality page sibling one = (refl, refl, refl, refl, refl, omega arith)
