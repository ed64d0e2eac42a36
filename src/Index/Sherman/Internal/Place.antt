-- ===== src/Index/Sherman/Internal/Place.antt =====
-- The place that the search of an insert finds, and the records after the shift and the writes.
use faunus.Index.Sherman.Internal.{
  record_at, Position, update_at, insert_at, find_position, shift_records,
}
use faunus.Index.Sherman.{Key, InternalEntry, no_entry}
use faunus.Index.Slot.{with_key}
use faunus.Prelude.{
  ℕ, zero, suc, ◌+◌, ◌-◌, ◌≤◌, ◌<◌, ◌≡◌, refl, ◌∙◌, ap, true, false, ◌&&◌, List, length, set,
  length-set, get_or-set, ltb, leb, ◌==◌, if◌then◌else◌, dec_lt, lt→ltb, le→ltb, ℕ_discrete, arith,
}
use faunus.Rdma.GlobalAddress.{GlobalAddress}

-- Where a key is, or belongs, among the first `n` records.
unfoldable pub IsPosition : ℕ → Key → List InternalEntry → Position → Type 0
IsPosition n key records (update_at i) = (i < n) × ((record_at records i).key ≡ key)
IsPosition n key records (insert_at i) =
    (i ≤ n)
    × (0 < i → (record_at records (i - 1)).key < key)
    × ((j : ℕ) → i ≤ j → j < n → key < (record_at records j).key)

grow :
    (n : ℕ) (key : Key) (records : List InternalEntry) (position : Position)
    → key < (record_at records n).key
    → IsPosition n key records position
    → IsPosition (suc n) key records position
unfolding IsPosition
grow n key records (update_at i) above (l, e) = (omega arith, e)
grow n key records (insert_at i) above (l, before, after) = (
  omega arith,
  before,
  λ j a b. elim (ℕ_discrete j n) [ yes e ↦ rw e above | no ne ↦ after j a (omega arith) ],
)

pub find_position-IsPosition :
    (n : ℕ) (key : Key) (records : List InternalEntry)
    → IsPosition n key records (find_position n key records)
unfolding find_position IsPosition
find_position-IsPosition zero key records =
    (omega arith, λ l. absurd (omega arith), λ j a b. absurd (omega arith))
find_position-IsPosition (suc n) key records = elim (ℕ_discrete (record_at records n).key key) [
  | yes e ↦
      let on : ((record_at records n).key == key) ≡ true = ground arith in rw on (omega arith, e)
  | no ne ↦
      let off : ((record_at records n).key == key) ≡ false = ground arith in
      elim (dec_lt (record_at records n).key key) [
        | yes l ↦
            let e : n + 1 - 1 ≡ n = omega arith in
            rw (off, lt→ltb _ _ l) (omega arith, λ _. rw e l, λ j a b. absurd (omega arith))
        | no l ↦
            rw (off, le→ltb (record_at records n).key key (omega arith))
              (grow n key records (find_position n key records) (omega arith)
                (find_position-IsPosition n key records))
      ]
]

shift_records_lem :
    (n i : ℕ) (records : List InternalEntry) (j : ℕ)
    → n ≤ i
    → i < length records
    → record_at (shift_records n i records) j
      ≡ (if ltb (i - n) j && leb j i then record_at records (j - 1) else record_at records j)
unfolding shift_records
shift_records_lem zero i records j h l = ground arith
shift_records_lem (suc n) i records j h l =
    let size = length-set records i (record_at records (i - 1)) in
    let here = get_or-set records i j (record_at records (i - 1)) no_entry l in
    let back = get_or-set records i (j - 1) (record_at records (i - 1)) no_entry l in
    rw
      (
        shift_records_lem n (i - 1) (set records i (record_at records (i - 1))) j (omega arith)
            (omega arith),
        here,
        back,
      )
      (grind arith)

length-shift_records :
    (n i : ℕ) (records : List InternalEntry) → length (shift_records n i records) ≡ length records
unfolding shift_records
length-shift_records zero i records = refl
length-shift_records (suc n) i records =
    length-shift_records n (i - 1) (set records i (record_at records (i - 1)))
    ∙ length-set records i _

-- The records after an insert at `index`, by index.
pub placed_lem :
    (cnt index : ℕ) (entry : InternalEntry) (records : List InternalEntry) (j : ℕ)
    → index ≤ cnt
    → cnt < length records
    → record_at (set (shift_records (cnt - index) cnt records) index entry) j ≡ (
        if j == index
        then entry
        else if ltb index j && leb j cnt
        then record_at records (j - 1)
        else record_at records j)
placed_lem cnt index entry records j h l =
    let size = length-shift_records (cnt - index) cnt records in
    rw
      (
        get_or-set (shift_records (cnt - index) cnt records) index j entry no_entry (omega arith),
        shift_records_lem (cnt - index) cnt records j (omega arith) l,
      )
      (grind arith)

pub placed_key :
    (cnt index : ℕ) (key : Key) (v : GlobalAddress) (records : List InternalEntry) (j : ℕ)
    → index ≤ cnt
    → cnt < length records
    → j ≤ cnt
    → (record_at
        (set (shift_records (cnt - index) cnt records) index (record { key = key; ptr = v }))
        j).key
      ≡ with_key (λ m. (record_at records m).key) index key j
placed_key cnt index key v records j h l within =
    let new = placed_lem cnt index (record { key = key; ptr = v }) records j h l in
    ap (λ e. e.key) new ∙ elim (dec_lt j index) [
      | yes a ↦
          let apart : (j == index) ≡ false = ground arith in
          let left : ltb index j ≡ false = ground arith in rw (apart, left, lt→ltb _ _ a)
      | no a ↦ elim (ℕ_discrete j index) [
        | yes e ↦ rw e (ground arith)
        | no ne ↦
            let apart : (j == index) ≡ false = ground arith in
            let right : ltb index j ≡ true = ground arith in
            let upto : leb j cnt ≡ true = ground arith in
            rw (apart, right, upto, le→ltb j index (omega arith))
      ]
    ]
