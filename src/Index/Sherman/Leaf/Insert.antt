-- ===== src/Index/Sherman/Leaf/Insert.antt =====
-- Insert into a leaf that is not split: what searches find afterwards.
use faunus.Index.Sherman.Leaf.Lookup.{
  or_else, record_value, search_leaf-cons, record_value-agree, record_value-other,
}
use faunus.Index.Sherman.Leaf.Found.{used_records, EmptyAt, IsScan, scan_leaf-IsScan}
use faunus.Index.Sherman.Leaf.{
  LeafOutcome, stale, go_right, updated, inserted, parted, failed, apply_scan, insert_to_leaf,
  Value, KvItem, Items, write_item, fingerprint, item_or, search_leaf, Scan, already_at, not_there,
  scan_leaf,
}
use faunus.Index.Sherman.{Key, LeafPage, LeafEntry, no_leaf_entry, is_empty}
use faunus.Prelude.{
  ℕ, zero, suc, ◌+◌, ◌-◌, ◌≤◌, ◌<◌, ◌≡◌, ◌≢◌, inl, inr, refl, sym, ◌∙◌, Bool, true, false,
  Bool-cases, Option, none, some, List, [], ◌∷◌, ltb, leb, length, get_or, set, ◌==◌, if◌then◌else◌,
  ℕ_discrete, arith,
}
use faunus.Rdma.GlobalAddress.{GlobalAddress, null}

-- No record points to the address.
unfoldable pub Fresh : GlobalAddress → List LeafEntry → Type 0
Fresh addr [] = Unit
Fresh addr (r ∷ records) = (r.kv_ptr ≢ addr) × Fresh addr records

or_else-none : (x y : Option Value) → or_else x y ≡ none → (x ≡ none) × (y ≡ none)
unfolding or_else
or_else-none none y h = (refl, h)
or_else-none (some v) y h = absurd (cc h)

-- Changing the value of an item changes no search but that for its key.
pub search_leaf-other :
    (size : ℕ) (items : Items) (ptr : GlobalAddress) (item : KvItem) (value : Value)
    (records : List LeafEntry) (k : Key)
    → items ptr ≡ some item
    → k ≢ item.key
    → search_leaf size (write_item items ptr (record { key = item.key; value = value })) records k
      ≡ search_leaf size items records k
unfolding search_leaf
search_leaf-other size items ptr item value [] k found apart = refl
search_leaf-other size items ptr item value (r ∷ records) k found apart =
    let items' = write_item items ptr (record { key = item.key; value = value }) in
    search_leaf-cons size items' r records k
    ∙ rw
        (
          record_value-other size items ptr item value found r k apart,
          search_leaf-other size items ptr item value records k found apart,
        )
        (sym (search_leaf-cons size items r records k))

module _ (size : ℕ) (items : Items) (key : Key) (value : Value) (addr : GlobalAddress)
    (real : addr ≢ null) where
  abbrev items' : Items
  items' = write_item items addr (record { key = key; value = value })

  abbrev entry : LeafEntry
  entry = record { fingerprint = fingerprint size key; kv_ptr = addr }

  entry-own : record_value size items' entry key ≡ some value
  unfolding record_value item_or
  entry-own =
      let used : (addr == null) ≡ false = ground arith in
      let print : (fingerprint size key == fingerprint size key) ≡ true = ground arith in
      let here : (addr == addr) ≡ true = ground arith in
      let own : (key == key) ≡ true = ground arith in rw (used, print, here, own) refl

  entry-other : (k : Key) → k ≢ key → record_value size items' entry k ≡ none
  unfolding record_value item_or
  entry-other k apart =
      let used : (addr == null) ≡ false = ground arith in
      let here : (addr == addr) ≡ true = ground arith in
      let own : (key == k) ≡ false = ground arith in
      elim (Bool-cases (fingerprint size key == fingerprint size k)) [
        | inl print ↦ rw (used, print, here, own) refl
        | inr print ↦ rw (used, print) refl
      ]

  record_value-Fresh :
      (r : LeafEntry) (k : Key)
      → r.kv_ptr ≢ addr
      → record_value size items' r k ≡ record_value size items r k
  record_value-Fresh r k apart =
      let off : (r.kv_ptr == addr) ≡ false = ground arith in
      record_value-agree size items items' r k (rw off refl)

  search_leaf-Fresh :
      (records : List LeafEntry) (k : Key)
      → Fresh addr records
      → search_leaf size items' records k ≡ search_leaf size items records k
  unfolding Fresh search_leaf
  search_leaf-Fresh [] k h = refl
  search_leaf-Fresh (r ∷ records) k (apart, fresh) =
      search_leaf-cons size items' r records k
      ∙ rw (record_value-Fresh r k apart, search_leaf-Fresh records k fresh)
          (sym (search_leaf-cons size items r records k))

  empty_value : (r : LeafEntry) (k : Key) → is_empty r ≡ true → record_value size items r k ≡ none
  unfolding record_value
  empty_value r k free = rw free refl

  -- The new record in an empty place.
  pub search_leaf-set :
      (records : List LeafEntry) (i : ℕ) (k : Key)
      → Fresh addr records
      → i < length records
      → is_empty (get_or records i no_leaf_entry) ≡ true
      → search_leaf size items records key ≡ none
      → search_leaf size items' (set records i entry) k
        ≡ (if k == key then some value else search_leaf size items records k)
  unfolding Fresh search_leaf or_else
  search_leaf-set [] i k fresh within free absent = absurd (omega arith)
  search_leaf-set (r ∷ records) zero k (_, fresh) within free absent =
      let same = search_leaf-Fresh records k fresh in
      elim (ℕ_discrete k key) [
        | yes e ↦
            let on : (k == key) ≡ true = ground arith in
            search_leaf-cons size items' entry records k ∙ rw (on, e, entry-own) refl
        | no ne ↦
            let off : (k == key) ≡ false = ground arith in
            search_leaf-cons size items' entry records k
            ∙ rw (off, entry-other k ne, same)
                (sym (search_leaf-cons size items r records k ∙ rw (empty_value r k free) refl))
      ]
  search_leaf-set (r ∷ records) (suc i) k (apart, fresh) within free absent =
      let (nothing, absent') =
        or_else-none (record_value size items r key) (search_leaf size items records key)
          (sym (search_leaf-cons size items r records key) ∙ absent) in
      let rest = search_leaf-set records i k fresh (omega arith) free absent' in
      search_leaf-cons size items' r (set records i entry) k
      ∙ rw (record_value-Fresh r k apart, rest)
          (elim (ℕ_discrete k key) [
            | yes e ↦ let on : (k == key) ≡ true = ground arith in rw (on, e, nothing) refl
            | no ne ↦
                let off : (k == key) ≡ false = ground arith in
                rw off (sym (search_leaf-cons size items r records k))
          ])

-- What a search of the leaf that has the key finds after the outcome of an insert.
abbrev pub finds : ℕ → LeafPage → Items → LeafOutcome → Key → Option Value
finds size page items stale k = search_leaf size items page.records k
finds size page items (go_right sibling) k = search_leaf size items page.records k
finds size page items (updated items') k = search_leaf size items' page.records k
finds size page items (inserted page' items') k = search_leaf size items' page'.records k
finds size page items (parted parts items') k =
    if ltb k parts.split_key
    then search_leaf size items' parts.left.records k
    else search_leaf size items' parts.right.records k
finds size page items failed k = search_leaf size items page.records k

-- The item was updated or inserted, and not refused, passed on, split off or failed.
abbrev pub HasSucceeded : LeafOutcome → Type 0
HasSucceeded (updated items) = ℕ
HasSucceeded (inserted page items) = ℕ
HasSucceeded stale = ⊥
HasSucceeded (go_right sibling) = ⊥
HasSucceeded (parted parts items) = ⊥
HasSucceeded failed = ⊥

apply_scan-finds :
    (size cardinality : ℕ) (page : LeafPage) (items : Items) (key : Key) (value : Value)
    (addr leaf sibling : GlobalAddress) (k : Key) (scan : Scan)
    → addr ≢ null
    → Fresh addr page.records
    → cardinality ≡ length page.records
    → used_records page.records + 1 < cardinality
    → IsScan size items page.records key 0 0 none scan
    → HasSucceeded (apply_scan size cardinality page items key value addr leaf sibling scan)
      × (finds size page items
            (apply_scan size cardinality page items key value addr leaf sibling scan)
            k
          ≡ (if k == key then some value else search_leaf size items page.records k))
unfolding apply_scan IsScan EmptyAt
apply_scan-finds size cardinality page items key value addr leaf sibling k (already_at ptr item)
      real fresh full room (found, own, after) =
    elim (ℕ_discrete k key) [
      | yes e ↦ let on : (k == key) ≡ true = ground arith in rw (on, e) (0, after value)
      | no ne ↦
          let off : (k == key) ≡ false = ground arith in
          rw off (
            0,
            search_leaf-other size items ptr item value page.records k found (λ e. ne (e ∙ own)),
          )
    ]
apply_scan-finds size cardinality page items key value addr leaf sibling k (not_there cnt none) real
      fresh full room (absent, (_, all), total) =
    absurd (omega arith)
apply_scan-finds size cardinality page items key value addr leaf sibling k (not_there cnt (some i))
      real fresh full room (absent, inl e, total) =
    absurd (cc e)
apply_scan-finds size cardinality page items key value addr leaf sibling k (not_there cnt (some i))
      real fresh full room (absent, inr (low, high, free), total) =
    let start : i - 0 ≡ i = omega arith in
    let stays : (cnt + 1 == cardinality) ≡ false = ground arith in
    rw stays (
      0,
      search_leaf-set size items key value addr real page.records i k fresh (omega arith)
          (rw start at free) absent,
    )

-- Inserting a key within the fences of a leaf that has room without a split, more than one record not in
-- use, with an address for a new item that is not null and that no record points to, succeeds: the item
-- is updated, or inserted without a split. Afterwards a search finds the new value for the key, whether
-- it was there before or not, and for every other key what it found before.
pub insert_to_leaf-finds :
    (size cardinality : ℕ) (from_cache : Bool) (page : LeafPage) (items : Items) (key : Key)
    (value : Value) (addr leaf sibling : GlobalAddress) (k : Key)
    → page.hdr.lowest ≤ key
    → key < page.hdr.highest
    → addr ≢ null
    → Fresh addr page.records
    → cardinality ≡ length page.records
    → used_records page.records + 1 < cardinality
    → HasSucceeded
        (insert_to_leaf size cardinality from_cache page items key value addr leaf sibling)
      × (finds size page items
            (insert_to_leaf size cardinality from_cache page items key value addr leaf sibling)
            k
          ≡ (if k == key then some value else search_leaf size items page.records k))
unfolding insert_to_leaf
insert_to_leaf-finds size cardinality from_cache page items key value addr leaf sibling k low high
      real fresh full room =
    let above : ltb key page.hdr.lowest ≡ false = ground arith in
    let below : leb page.hdr.highest key ≡ false = ground arith in
    let here =
      apply_scan-finds size cardinality page items key value addr leaf sibling k
        (scan_leaf size items page.records key 0 0 none) real fresh full room
        (scan_leaf-IsScan size items page.records key 0 0 none) in
    elim (Bool-cases from_cache) [
      | inl c ↦ rw (c, above, below) here
      | inr c ↦ rw (c, below, above) here
    ]
