-- ===== src/Index/Sherman/Leaf/Lookup.antt =====
-- The search of a leaf, record by record.
use faunus.Index.Sherman.Leaf.{Value, KvItem, Items, write_item, fingerprint, item_or, search_leaf}
use faunus.Index.Sherman.{Key, LeafEntry, is_empty}
use faunus.Prelude.{
  ℕ, ◌≡◌, ◌≢◌, inl, inr, refl, sym, ◌∙◌, true, false, Bool-cases, Option, none, some, List, ◌∷◌,
  ◌==◌, if◌then◌else◌, ℕ_discrete, arith,
}
use faunus.Rdma.GlobalAddress.{GlobalAddress}

unfoldable pub or_else : Option Value → Option Value → Option Value
or_else none y = y
or_else (some v) y = some v

-- The value that one record has for a key.
unfoldable pub record_value : ℕ → Items → LeafEntry → Key → Option Value
unfolding item_or
record_value size items r key =
    if is_empty r
    then none
    else if r.fingerprint == fingerprint size key
    then item_or (items r.kv_ptr) key none
    else none

item_or-or_else :
    (found : Option KvItem) (key : Key) (rest : Option Value)
    → item_or found key rest ≡ or_else (item_or found key none) rest
unfolding item_or or_else
item_or-or_else none key rest = refl
item_or-or_else (some item) key rest = elim (Bool-cases (item.key == key)) [
  | inl e ↦ rw e refl
  | inr e ↦ rw e refl
]

-- The first record that has a value gives it.
pub search_leaf-cons :
    (size : ℕ) (items : Items) (r : LeafEntry) (records : List LeafEntry) (key : Key)
    → search_leaf size items (r ∷ records) key
      ≡ or_else (record_value size items r key) (search_leaf size items records key)
unfolding search_leaf record_value or_else
search_leaf-cons size items r records key = elim (Bool-cases (is_empty r)) [
  | inl e ↦ rw e refl
  | inr e ↦ elim (Bool-cases (r.fingerprint == fingerprint size key)) [
    | inl f ↦ rw (e, f) (item_or-or_else (items r.kv_ptr) key (search_leaf size items records key))
    | inr f ↦ rw (e, f) refl
  ]
]

-- Only the items that the records point to matter.
pub record_value-agree :
    (size : ℕ) (items items' : Items) (r : LeafEntry) (key : Key)
    → items' r.kv_ptr ≡ items r.kv_ptr
    → record_value size items' r key ≡ record_value size items r key
unfolding record_value
record_value-agree size items items' r key same = rw same refl

-- Another value for the item of a key leaves what a record has for other keys, and a record that has
-- nothing for the key still has nothing.
module _ (size : ℕ) (items : Items) (ptr : GlobalAddress) (item : KvItem) (value : Value)
    (found : items ptr ≡ some item) where
  abbrev changed : Items
  changed = write_item items ptr (record { key = item.key; value = value })

  pub record_value-other :
      (r : LeafEntry) (k : Key)
      → k ≢ item.key
      → record_value size changed r k ≡ record_value size items r k
  unfolding record_value item_or
  record_value-other r k apart = elim (ℕ_discrete r.kv_ptr ptr) [
    | yes e ↦
        let here : (r.kv_ptr == ptr) ≡ true = ground arith in
        let differ : (item.key == k) ≡ false = ground arith in rw (here, e, found, differ) refl
    | no ne ↦
        let off : (r.kv_ptr == ptr) ≡ false = ground arith in
        record_value-agree size items changed r k (rw off refl)
  ]

  pub record_value-absent :
      (r : LeafEntry) (key : Key)
      → item.key ≡ key
      → record_value size items r key ≡ none
      → record_value size changed r key ≡ none
  unfolding record_value item_or
  record_value-absent r key own nothing = elim (ℕ_discrete r.kv_ptr ptr) [
    | yes e ↦ elim (Bool-cases (is_empty r)) [
      | inl free ↦ rw free refl
      | inr used ↦ elim (Bool-cases (r.fingerprint == fingerprint size key)) [
        | inl print ↦
            let same : (item.key == key) ≡ true = ground arith in
            let bad : none ≡ some item.value = sym (rw (used, print, e, found, same) at nothing) in
            absurd (cc bad)
        | inr print ↦ rw (used, print) refl
      ]
    ]
    | no ne ↦
        let off : (r.kv_ptr == ptr) ≡ false = ground arith in
        record_value-agree size items changed r key (rw off refl) ∙ nothing
  ]
