-- ===== src/Index/Sherman/Leaf/Keyed.antt =====
-- The records of a leaf with the keys of their items, for searches as lookups among them.
use faunus.Index.Sherman.Leaf.Lookup.{record_value, search_leaf-cons, or_else}
use faunus.Index.Sherman.Leaf.Sort.{lookup}
use faunus.Index.Sherman.Leaf.{
  Value, KvItem, Items, fingerprint, item_or, search_leaf, KeyedEntry, keyed_item, keyed_entries,
  entries,
}
use faunus.Index.Sherman.{Key, LeafEntry, no_leaf_entry, is_empty}
use faunus.Prelude.{
  ℕ, zero, suc, ◌≡◌, refl, sym, ◌∙◌, Bool-cases, inl, inr, true, false, Option, none, some, List,
  [], ◌∷◌, ◌++◌, replicate, ◌==◌, if◌then◌else◌, ℕ_discrete, arith,
}

-- An entry in use with the fingerprint of its key and the item of that key.
pub record IsKeyed (size : ℕ) (items : Items) (e : KeyedEntry) : Type 0 where
  pub value : Value
  pub used : is_empty e.entry ≡ false
  pub print : e.entry.fingerprint ≡ fingerprint size e.key
  pub item : items e.entry.kv_ptr ≡ some (record { key = e.key; value = value })

unfoldable pub AllKeyed : ℕ → Items → List KeyedEntry → Type 0
AllKeyed size items [] = Unit
AllKeyed size items (e ∷ es) = IsKeyed size items e × AllKeyed size items es

-- Every record with an item has the fingerprint of the key of the item.
unfoldable pub Printed : ℕ → Items → List LeafEntry → Type 0
Printed size items [] = Unit
Printed size items (r ∷ records) =
    ((item : KvItem) → items r.kv_ptr ≡ some item → r.fingerprint ≡ fingerprint size item.key)
    × Printed size items records

unfoldable item_value : Option KvItem → Option Value
item_value none = none
item_value (some item) = some item.value

unfoldable pub read_entry : Items → Option LeafEntry → Option Value
unfolding item_value
read_entry items none = none
read_entry items (some r) = item_value (items r.kv_ptr)

record_value-keyed :
    (size : ℕ) (items : Items) (e : KeyedEntry) (k : Key)
    → IsKeyed size items e
    → record_value size items e.entry k
      ≡ (if e.key == k then read_entry items (some e.entry) else none)
unfolding record_value read_entry item_or item_value
record_value-keyed size items e k h = elim (ℕ_discrete e.key k) [
  | yes own ↦
      let on : (e.key == k) ≡ true = ground arith in
      let print : (e.entry.fingerprint == fingerprint size k) ≡ true =
        rw (sym own, h.print) (ground arith) in
      rw (h.used, print, h.item, on) refl
  | no ne ↦
      let off : (e.key == k) ≡ false = ground arith in
      elim (Bool-cases (e.entry.fingerprint == fingerprint size k)) [
        | inl print ↦ rw (h.used, print, h.item, off) refl
        | inr print ↦ rw (h.used, print, off) refl
      ]
]

search-empty :
    (size n : ℕ) (items : Items) (k : Key)
    → search_leaf size items (replicate n no_leaf_entry) k ≡ none
unfolding search_leaf
search-empty size zero items k = refl
search-empty size (suc n) items k = search-empty size n items k

-- A search of keyed entries is a lookup.
pub search-lookup :
    (size n : ℕ) (items : Items) (es : List KeyedEntry) (k : Key)
    → AllKeyed size items es
    → search_leaf size items (entries es ++ replicate n no_leaf_entry) k
      ≡ read_entry items (lookup es k)
unfolding AllKeyed read_entry lookup or_else item_value
search-lookup size n items [] k h = search-empty size n items k
search-lookup size n items (e ∷ es) k (h, hs) =
    search_leaf-cons size items e.entry (entries es ++ replicate n no_leaf_entry) k
    ∙ rw (record_value-keyed size items e k h, search-lookup size n items es k hs)
        (elim (Bool-cases (e.key == k)) [ inl on ↦ rw (on, h.item) refl | inr off ↦ rw off refl ])

unread_value :
    (size : ℕ) (items : Items) (r : LeafEntry) (k : Key)
    → items r.kv_ptr ≡ none
    → record_value size items r k ≡ none
unfolding record_value item_or
unread_value size items r k h = elim (Bool-cases (is_empty r)) [
  | inl free ↦ rw free refl
  | inr used ↦ elim (Bool-cases (r.fingerprint == fingerprint size k)) [
    | inl print ↦ rw (used, print, h) refl
    | inr print ↦ rw (used, print) refl
  ]
]

keyed_lem :
    (size : ℕ) (items : Items) (r : LeafEntry) (found : Option KvItem) (es : List KeyedEntry)
    (k : Key)
    → is_empty r ≡ false
    → items r.kv_ptr ≡ found
    → ((item : KvItem) → items r.kv_ptr ≡ some item → r.fingerprint ≡ fingerprint size item.key)
    → AllKeyed size items es
    → AllKeyed size items (keyed_item found r es)
      × (or_else (record_value size items r k) (read_entry items (lookup es k))
          ≡ read_entry items (lookup (keyed_item found r es) k))
unfolding AllKeyed keyed_item lookup or_else read_entry item_value
keyed_lem size items r none es k used h print all = (all, rw (unread_value size items r k h) refl)
keyed_lem size items r (some item) es k used h print all =
    let here : IsKeyed size items (record { key = item.key; entry = r }) = record {
      value = item.value;
      used = used;
      print = print item h;
      item = h;
    } in
    (
      (here, all),
      rw (record_value-keyed size items (record { key = item.key; entry = r }) k here)
          (elim (Bool-cases (item.key == k)) [ inl on ↦ rw (on, h) refl | inr off ↦ rw off refl ]),
    )

pub keyed_entries_lem :
    (size : ℕ) (items : Items) (records : List LeafEntry) (k : Key)
    → Printed size items records
    → AllKeyed size items (keyed_entries items records)
      × (search_leaf size items records k
          ≡ read_entry items (lookup (keyed_entries items records) k))
unfolding AllKeyed keyed_entries lookup search_leaf read_entry Printed
keyed_entries_lem size items [] k p = (tt, refl)
keyed_entries_lem size items (r ∷ records) k (print, p) =
    let (all, same) = keyed_entries_lem size items records k p in
    elim (Bool-cases (is_empty r)) [
      | inl free ↦ rw free (all, same)
      | inr used ↦
          let (all', found) =
            keyed_lem size items r (items r.kv_ptr) (keyed_entries items records) k used refl print
              all in
          (rw used all', search_leaf-cons size items r records k ∙ rw (same, used) found)
    ]
