-- ===== src/Index/Sherman/Internal/Insert.antt =====
-- Inserting a separator into a page, or giving it another child.
use faunus.Index.Sherman.Internal.Routing.{keys, child_at, page_slot, next_level-slot}
use faunus.Index.Sherman.Internal.Place.{
  IsPosition, find_position-IsPosition, placed_lem, placed_key,
}
use faunus.Index.Sherman.Internal.{
  record_at, next_level, Position, update_at, insert_at, find_position, write_record, insert_record,
}
use faunus.Index.Sherman.{Key, no_entry, InternalPage}
use faunus.Index.Slot.{
  Ascending, slot_of-IsSlot, IsSlot-unique, slot_of-place, place-Ascending, slot_of-agree,
}
use faunus.Prelude.{
  ℕ, ◌+◌, ◌-◌, ◌≤◌, ◌<◌, ◌≡◌, refl, ◌∙◌, ap, true, false, ◌&&◌, length, get_or-set, ltb, leb, ◌==◌,
  if◌then◌else◌, dec_lt, ℕ_discrete, arith,
}
use faunus.Rdma.GlobalAddress.{GlobalAddress}

module _ (page : InternalPage) (key : Key) (v : GlobalAddress)
    (room : page.hdr.count < length page.records)
    (sorted : Ascending page.hdr.count (keys page)) where
  update_key :
      (i j : ℕ) → i < page.hdr.count → keys (write_record page key v (update_at i)) j ≡ keys page j
  unfolding write_record
  update_key i j l =
      ap (λ e. e.key)
        (get_or-set page.records i j (record { key = (record_at page.records i).key; ptr = v })
          no_entry (omega arith))
      ∙ grind arith

  -- Where the search of `k` goes after the write.
  Routed : Position → Key → Type 0
  Routed position k =
      let page' = write_record page key v position in
      child_at page' (page_slot page' k) ≡ (
        if leb key k && (page_slot page k == page_slot page key)
        then v
        else child_at page (page_slot page k))

  child-update :
      (i : ℕ) (k : Key) → (i < page.hdr.count) × (keys page i ≡ key) → Routed (update_at i) k
  unfolding Routed write_record
  child-update i k (l, e) =
      let page' = write_record page key v (update_at i) in
      let a = slot_of-IsSlot page.hdr.count k (keys page) in
      let new = λ (j : ℕ).
        get_or-set page.records i j (record { key = (record_at page.records i).key; ptr = v })
          no_entry (omega arith) in
      let same : page_slot page' k ≡ page_slot page k =
        slot_of-agree page.hdr.count k (keys page) (keys page') (λ j _. update_key i j l) in
      let own : page_slot page key ≡ i + 1 =
        IsSlot-unique (slot_of-IsSlot page.hdr.count key (keys page)) (record {
          within = omega arith;
          below = λ j h. elim (ℕ_discrete j i) [
            | yes q ↦ rw q (omega arith)
            | no q ↦ omega (arith, sorted j i (omega arith) (omega arith))
          ];
          above = λ h. omega (arith, sorted i (i + 1) (omega arith) h);
        }) in
      let within = a.within in rw (same, own, new (page_slot page k - 1)) (grind (arith, a.below i))

  all_before :
      (p : ℕ)
      → p ≤ page.hdr.count
      → (0 < p → keys page (p - 1) < key)
      → (j : ℕ) → j < p
      → keys page j < key
  all_before p low last_before j h = elim (ℕ_discrete j (p - 1)) [
    | yes q ↦ rw q (last_before (omega arith))
    | no q ↦ omega (arith, last_before (omega arith), sorted j (p - 1) (omega arith) (omega arith))
  ]

  child-insert :
      (p : ℕ) (k : Key)
      → (p ≤ page.hdr.count)
        × (0 < p → keys page (p - 1) < key)
        × ((j : ℕ) → p ≤ j → j < page.hdr.count → key < keys page j)
      → Routed (insert_at p) k
  unfolding Routed write_record
  child-insert p k (low, last_before, after) =
      let page' = write_record page key v (insert_at p) in
      let a = slot_of-IsSlot page.hdr.count k (keys page) in
      let before = all_before p low last_before in
      let new = λ (j : ℕ).
        placed_lem page.hdr.count p (record { key = key; ptr = v }) page.records j low room in
      let moved =
        slot_of-place page.hdr.count key p (keys page) (keys page') low before after
          (λ j h. placed_key page.hdr.count p key v page.records j low room h) k in
      let own : page_slot page key ≡ p =
        IsSlot-unique (slot_of-IsSlot page.hdr.count key (keys page)) (record {
          within = low;
          below = λ j h. omega (arith, before j h);
          above = λ h. after p (omega arith) h;
        }) in
      let within = a.within in
      elim (dec_lt k key) [
        | yes h ↦
            let off : leb key k ≡ false = ground arith in
            let le : page_slot page k ≤ p = elim (dec_lt p (page_slot page k)) [
              | yes b ↦ absurd (omega (arith, a.below p b, after p (omega arith)))
              | no b ↦ omega arith
            ] in
            rw (moved, off)
              (elim (ℕ_discrete (page_slot page k) 0) [
                | yes z ↦ rw z refl
                | no z ↦
                    let apart : (page_slot page k - 1 == p) ≡ false = ground arith in
                    let left : ltb p (page_slot page k - 1) ≡ false = ground arith in
                    let some : (page_slot page k == 0) ≡ false = ground arith in
                    let there : record_at page'.records (page_slot page k - 1)
                        ≡ record_at page.records (page_slot page k - 1) =
                      new (page_slot page k - 1) ∙ rw (apart, left) in
                    rw some (ap (λ e. e.ptr) there)
              ])
        | no h ↦
            let on : leb key k ≡ true = ground arith in
            let ge : p ≤ page_slot page k = elim (dec_lt (page_slot page k) p) [
              | yes b ↦ absurd (omega (arith, before (page_slot page k) b, a.above (omega arith)))
              | no b ↦ omega arith
            ] in
            let here : page_slot page k + 1 - 1 ≡ page_slot page k = omega arith in
            let grown : (page_slot page k + 1 == 0) ≡ false = ground arith in
            rw (moved, on, own)
              (rw (grown, here, new (page_slot page k))
                (elim (ℕ_discrete (page_slot page k) p) [
                  | yes q ↦ let same : (page_slot page k == p) ≡ true = ground arith in rw same refl
                  | no q ↦
                      let apart : (page_slot page k == p) ≡ false = ground arith in
                      let right : ltb p (page_slot page k) ≡ true = ground arith in
                      let upto : leb (page_slot page k) page.hdr.count ≡ true = ground arith in
                      let some : (page_slot page k == 0) ≡ false = ground arith in
                      rw (apart, right, upto, some) refl
                ]))
      ]

  child-position :
      (position : Position) (k : Key)
      → IsPosition page.hdr.count key page.records position
      → Routed position k
  unfolding IsPosition
  child-position (update_at i) k h = child-update i k h
  child-position (insert_at p) k h = child-insert p k h

  count-position :
      (position : Position)
      → let cnt = (write_record page key v position).hdr.count in
        (page.hdr.count ≤ cnt) × (cnt ≤ page.hdr.count + 1)
  unfolding write_record
  count-position (update_at i) = (omega arith, omega arith)
  count-position (insert_at p) = (omega arith, omega arith)

  write-Ascending :
      (position : Position)
      → IsPosition page.hdr.count key page.records position
      → let page' = write_record page key v position in Ascending page'.hdr.count (keys page')
  unfolding IsPosition write_record
  write-Ascending (update_at i) (l, e) a b h last =
      rw (update_key i a l, update_key i b l) (sorted a b h last)
  write-Ascending (insert_at p) (low, last_before, after) a b h last =
      place-Ascending page.hdr.count key p (keys page)
        (keys (write_record page key v (insert_at p))) low (all_before p low last_before) after
        (λ j h. placed_key page.hdr.count p key v page.records j low room h) sorted a b h last

-- Writing a separator and its child into a page with room, of at least one record and with ascending
-- separators, sends to that child exactly the keys from the separator on that shared the slot of the
-- separator, whether the page had the separator or not; every other key goes where it went.
pub next_level-insert_record :
    (page : InternalPage) (key : Key) (v : GlobalAddress) (k : Key)
    → 1 ≤ page.hdr.count
    → page.hdr.count < length page.records
    → Ascending page.hdr.count (keys page)
    → next_level (insert_record page key v) k
      ≡ (if leb key k && (page_slot page k == page_slot page key) then v else next_level page k)
unfolding insert_record Routed
next_level-insert_record page key v k one room sorted =
    let position = find_position page.hdr.count key page.records in
    next_level-slot (write_record page key v position) k
      (omega (arith, (count-position page key v room sorted position).0))
    ∙ child-position page key v room sorted position k
        (find_position-IsPosition page.hdr.count key page.records)
    ∙ rw (next_level-slot page k one)

pub insert_record-Ascending :
    (page : InternalPage) (key : Key) (v : GlobalAddress)
    → page.hdr.count < length page.records
    → Ascending page.hdr.count (keys page)
    → let page' = insert_record page key v in Ascending page'.hdr.count (keys page')
unfolding insert_record
insert_record-Ascending page key v room sorted =
    write-Ascending page key v room sorted (find_position page.hdr.count key page.records)
      (find_position-IsPosition page.hdr.count key page.records)

pub count-insert_record :
    (page : InternalPage) (key : Key) (v : GlobalAddress)
    → page.hdr.count < length page.records
    → Ascending page.hdr.count (keys page)
    → let cnt = (insert_record page key v).hdr.count in
      (page.hdr.count ≤ cnt) × (cnt ≤ page.hdr.count + 1)
unfolding insert_record
count-insert_record page key v room sorted =
    count-position page key v room sorted (find_position page.hdr.count key page.records)
