-- ===== src/Index/Sherman/Leaf/Found.antt =====
-- What the scan of an insert into a leaf has found.
use faunus.Index.Sherman.Leaf.Lookup.{or_else, record_value, search_leaf-cons, record_value-absent}
use faunus.Index.Sherman.Leaf.{
  Value, KvItem, Items, write_item, fingerprint, item_or, search_leaf, Scan, already_at, not_there,
  scan_item, first_empty, scan_leaf,
}
use faunus.Index.Sherman.{Key, LeafEntry, no_leaf_entry, is_empty}
use faunus.Prelude.{
  ℕ, suc, ◌+◌, ◌-◌, ◌≤◌, ◌<◌, ◌≡◌, ◌⊎◌, inl, inr, refl, ◌∙◌, ap, true, false, Bool-cases, Option,
  none, some, List, [], ◌∷◌, length, get_or, ◌==◌, if◌then◌else◌, arith,
}
use faunus.Rdma.GlobalAddress.{GlobalAddress}
use mathlib.Core.Option

-- The records in use.
unfoldable pub used_records : List LeafEntry → ℕ
used_records [] = 0
used_records (r ∷ records) = if is_empty r then used_records records else used_records records + 1

pub used_records-le : (records : List LeafEntry) → used_records records ≤ length records
unfolding used_records
used_records-le [] = omega arith
used_records-le (r ∷ records) = ground (arith, used_records-le records)

-- What the scan from record `i` on has found.
unfoldable pub EmptyAt : List LeafEntry → ℕ → Option ℕ → Option ℕ → Type 0
EmptyAt records i empty none = (empty ≡ none) × (used_records records ≡ length records)
EmptyAt records i empty (some j) =
    (empty ≡ some j)
    ⊎ ((i ≤ j)
        × (j < i + length records)
        × (is_empty (get_or records (j - i) no_leaf_entry) ≡ true))

unfoldable pub IsScan : ℕ → Items → List LeafEntry → Key → ℕ → ℕ → Option ℕ → Scan → Type 0
IsScan size items records key i cnt empty (already_at ptr item) =
    (items ptr ≡ some item)
    × (item.key ≡ key)
    × ((value : Value)
        → search_leaf size (write_item items ptr (record { key = item.key; value = value })) records
            key
          ≡ some value)
IsScan size items records key i cnt empty (not_there cnt' e) =
    (search_leaf size items records key ≡ none)
    × EmptyAt records i empty e
    × (cnt' ≡ cnt + used_records records)

EmptyAt-cons :
    (r : LeafEntry) (records : List LeafEntry) (i : ℕ) (empty e : Option ℕ)
    → is_empty r ≡ false
    → EmptyAt records (i + 1) empty e
    → EmptyAt (r ∷ records) i empty e
unfolding EmptyAt used_records
EmptyAt-cons r records i empty none used (h, all) = (h, rw (used, all) (omega arith))
EmptyAt-cons r records i empty (some j) used (inl h) = inl h
EmptyAt-cons r records i empty (some j) used (inr (low, high, free)) =
    let back : j - i ≡ suc (j - (i + 1)) = omega arith in
    inr (omega arith, omega arith, rw back free)

EmptyAt-first :
    (r : LeafEntry) (records : List LeafEntry) (i : ℕ) (empty e : Option ℕ)
    → is_empty r ≡ true
    → EmptyAt records (i + 1) (first_empty empty i) e
    → EmptyAt (r ∷ records) i empty e
unfolding EmptyAt first_empty
EmptyAt-first r records i none none free (h, _) = absurd (cc h)
EmptyAt-first r records i (some l) none free (h, _) = absurd (cc h)
EmptyAt-first r records i none (some j) free (inl h) =
    let e : i ≡ j = ap (λ o. Option.get_or o 0) h in
    let back : j - i ≡ 0 = omega arith in inr (omega arith, omega arith, rw back free)
EmptyAt-first r records i (some l) (some j) free (inl h) = inl h
EmptyAt-first r records i empty (some j) free (inr (low, high, gap)) =
    let back : j - i ≡ suc (j - (i + 1)) = omega arith in
    inr (omega arith, omega arith, rw back gap)

EmptyAt-self : (i : ℕ) (empty : Option ℕ) → EmptyAt [] i empty empty
unfolding EmptyAt used_records
EmptyAt-self i none = (refl, refl)
EmptyAt-self i (some j) = inl refl

module _ (size : ℕ) (items : Items) (key : Key) (r : LeafEntry) (records : List LeafEntry)
    (i cnt : ℕ) (empty : Option ℕ) where
  module _ (ptr : GlobalAddress) (item : KvItem) (value : Value) (found : items ptr ≡ some item)
      (own : item.key ≡ key) where
    abbrev after_items : Items
    after_items = write_item items ptr (record { key = item.key; value = value })

    pass-search :
        record_value size items r key ≡ none
        → search_leaf size after_items records key ≡ some value
        → search_leaf size after_items (r ∷ records) key ≡ some value
    unfolding or_else
    pass-search nothing after =
        search_leaf-cons size after_items r records key
        ∙ rw (record_value-absent size items ptr item value found r key own nothing, after) refl

  -- The record is in use and has nothing for the key.
  pass :
      (s : Scan)
      → is_empty r ≡ false
      → record_value size items r key ≡ none
      → IsScan size items records key (i + 1) (cnt + 1) empty s
      → IsScan size items (r ∷ records) key i cnt empty s
  unfolding IsScan or_else used_records
  pass (already_at ptr item) used nothing (found, e, after) =
      (found, e, λ value. pass-search ptr item value found e nothing (after value))
  pass (not_there cnt' e) used nothing (absent, free, total) = (
    search_leaf-cons size items r records key ∙ rw (nothing, absent) refl,
    EmptyAt-cons r records i empty e used free,
    rw used (omega arith),
  )

  -- The record is not in use.
  skip :
      (s : Scan)
      → is_empty r ≡ true
      → record_value size items r key ≡ none
      → IsScan size items records key (i + 1) cnt (first_empty empty i) s
      → IsScan size items (r ∷ records) key i cnt empty s
  unfolding IsScan or_else used_records
  skip (already_at ptr item) free nothing (found, e, after) =
      (found, e, λ value. pass-search ptr item value found e nothing (after value))
  skip (not_there cnt' e) free nothing (absent, at_most, total) = (
    search_leaf-cons size items r records key ∙ rw (nothing, absent) refl,
    EmptyAt-first r records i empty e free at_most,
    rw free total,
  )

  unused : is_empty r ≡ true → record_value size items r key ≡ none
  unfolding record_value
  unused free = rw free refl

  mismatch :
      is_empty r ≡ false
      → (r.fingerprint == fingerprint size key) ≡ false
      → record_value size items r key ≡ none
  unfolding record_value
  mismatch used print = rw (used, print) refl

  -- The fingerprint matches, and the item has been read or not.
  match_item :
      (o : Option KvItem) (s : Scan)
      → is_empty r ≡ false
      → (r.fingerprint == fingerprint size key) ≡ true
      → items r.kv_ptr ≡ o
      → IsScan size items records key (i + 1) (cnt + 1) empty s
      → IsScan size items (r ∷ records) key i cnt empty (scan_item o r.kv_ptr key s)
  unfolding scan_item record_value item_or IsScan or_else
  match_item none s used print h rest = pass s used (rw (used, print, h) refl) rest
  match_item (some item) s used print h rest = elim (Bool-cases (item.key == key)) [
    | inl own ↦ rw own (
      h,
      ground (arith, own),
      λ value.
          let here : (r.kv_ptr == r.kv_ptr) ≡ true = ground arith in
          search_leaf-cons size
            (write_item items r.kv_ptr (record { key = item.key; value = value })) r records key
          ∙ rw (used, print, here, own) refl,
    )
    | inr other ↦ rw other (pass s used (rw (used, print, h, other) refl) rest)
  ]

-- The scan finds what its result says.
pub scan_leaf-IsScan :
    (size : ℕ) (items : Items) (records : List LeafEntry) (key : Key) (i cnt : ℕ) (empty : Option ℕ)
    → IsScan size items records key i cnt empty (scan_leaf size items records key i cnt empty)
unfolding scan_leaf IsScan search_leaf used_records
scan_leaf-IsScan size items [] key i cnt empty = (refl, EmptyAt-self i empty, omega arith)
scan_leaf-IsScan size items (r ∷ records) key i cnt empty =
    let used_step = scan_leaf size items records key (i + 1) (cnt + 1) empty in
    let free_step = scan_leaf size items records key (i + 1) cnt (first_empty empty i) in
    let rest = scan_leaf-IsScan size items records key (i + 1) (cnt + 1) empty in
    elim (Bool-cases (is_empty r)) [
      | inl free ↦ rw free (
          skip size items key r records i cnt empty free_step free
            (unused size items key r records i cnt empty free)
            (scan_leaf-IsScan size items records key (i + 1) cnt (first_empty empty i)))
      | inr used ↦ elim (Bool-cases (r.fingerprint == fingerprint size key)) [
        | inl print ↦
            rw (used, print)
              (match_item size items key r records i cnt empty (items r.kv_ptr) used_step used print
                refl rest)
        | inr print ↦
            rw (used, print)
              (pass size items key r records i cnt empty used_step used
                (mismatch size items key r records i cnt empty used print) rest)
      ]
    ]
