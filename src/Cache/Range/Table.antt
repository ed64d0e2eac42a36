-- ===== src/Cache/Range/Table.antt =====
-- What holds of every entry of the cache stays true when entries are changed, freed or made.
use faunus.Cache.Range.{
  SkipList, RetiredQueue, RetiredItem, Entry, RangeCache, set_entry, update_access, retire_entry,
  invalidate, free_entry, free_batch, keep_batch, stamped, after_hit, reclaim_batch, allocated,
}
use faunus.Prelude.{
  ℕ, ◌-◌, ◌≡◌, refl, ap, bit_and, Bool-cases, Option, none, some, List, [], ◌∷◌, ltb, ◌==◌, inl,
  inr,
}
use faunus.Rdma.Allocators.Slab.{Queue, Allocator}
use mathlib.Core.Option
use mathlib.Core.Path.{subst}

module _ (Item : Type 0) (skip_list : SkipList) (retired : RetiredQueue) (queue : Queue)
    (backing : Allocator) (P : ℕ → ℕ → Item → Type 0) where
  -- `P` holds of the range and the item of every entry.
  abbrev pub AllEntries : RangeCache Item skip_list retired queue backing → Type 0
  AllEntries cache =
      (a : ℕ) (entry : Entry Item)
      → cache.entries a ≡ some entry
      → P entry.start entry.end entry.item

  abbrev Table : Type 0
  Table = ℕ → Option (Entry Item)

  abbrev AllOf : Table → Type 0
  AllOf entries =
      (a : ℕ) (entry : Entry Item) → entries a ≡ some entry → P entry.start entry.end entry.item

  AllOf-none :
      (entries : Table) (e : ℕ)
      → AllOf entries
      → AllOf (set_entry Item skip_list retired queue backing entries e none)
  AllOf-none entries e all a entry h = elim (Bool-cases (a == e)) [
    | inl same ↦ absurd (let h' = rw same at h in cc)
    | inr other ↦ all a entry (rw other at h)
  ]

  AllOf-some :
      (entries : Table) (e : ℕ) (new : Entry Item)
      → AllOf entries
      → P new.start new.end new.item
      → AllOf (set_entry Item skip_list retired queue backing entries e (some new))
  AllOf-some entries e new all fits a entry h = elim (Bool-cases (a == e)) [
    | inr other ↦ all a entry (rw other at h)
    | inl same ↦
        let is_new : new ≡ entry =
          ap (λ (o : Option (Entry Item)). Option.get_or {A = Entry Item} o new) (rw same at h) in
        subst (λ (n : Entry Item). P n.start n.end n.item) is_new fits
  ]

  abbrev Cached : Type 0
  Cached = RangeCache Item skip_list retired queue backing

  All-stamped :
      (counter timestamp e : ℕ) (o : Option (Entry Item)) (cache : Cached)
      → cache.entries e ≡ o
      → AllEntries cache
      → AllEntries (stamped Item skip_list retired queue backing counter timestamp e o cache)
  unfolding stamped
  All-stamped counter timestamp e none cache there all = all
  All-stamped counter timestamp e (some entry) cache there all =
      elim (Bool-cases (bit_and counter (cache.access_update_interval - 1) == 0)) [
        | inl due ↦ rw due (
            AllOf-some cache.entries e (record entry { last_access = timestamp }) all
              (all e entry there))
        | inr early ↦ rw early all
      ]

  pub All-after_hit :
      (counter timestamp : ℕ) (hit : Option (ℕ × Entry Item)) (cache : Cached)
      → AllEntries cache
      → AllEntries (after_hit Item skip_list retired queue backing counter timestamp hit cache).1
  unfolding after_hit update_access
  All-after_hit counter timestamp none cache all = all
  All-after_hit counter timestamp (some (e, entry)) cache all =
      All-stamped counter timestamp e (cache.entries e) cache refl all

  pub All-invalidate :
      (cache : Cached) (e : ℕ)
      → AllEntries cache
      → AllEntries (invalidate Item skip_list retired queue backing cache e)
  unfolding invalidate retire_entry
  All-invalidate cache e all = elim (Bool-cases (skip_list.erase_node cache.list e).0) [
    | inl erased ↦ rw erased all
    | inr kept ↦ rw kept all
  ]

  All-free_batch :
      (min_epoch : ℕ) (batch : List RetiredItem) (cache : Cached)
      → AllEntries cache
      → AllEntries (free_batch Item skip_list retired queue backing min_epoch batch cache).1
  unfolding free_batch free_entry
  All-free_batch min_epoch [] cache all = all
  All-free_batch min_epoch (item ∷ batch) cache all =
      elim (Bool-cases (ltb item.retire_epoch min_epoch)) [
        | inl old ↦
            rw old (All-free_batch min_epoch batch _ (AllOf-none cache.entries item.offset all))
        | inr young ↦ rw young (All-free_batch min_epoch batch cache all)
      ]

  All-keep_batch :
      (items : List RetiredItem) (cache : Cached)
      → AllEntries cache
      → AllEntries (keep_batch Item skip_list retired queue backing items cache)
  unfolding keep_batch
  All-keep_batch [] cache all = all
  All-keep_batch (item ∷ items) cache all = all

  pub All-reclaim_batch :
      (min_epoch : ℕ) (batch : List RetiredItem) (cache : Cached)
      → AllEntries cache
      → AllEntries (reclaim_batch Item skip_list retired queue backing min_epoch batch cache)
  unfolding reclaim_batch
  All-reclaim_batch min_epoch [] cache all = all
  All-reclaim_batch min_epoch (item ∷ batch) cache all =
      All-keep_batch _ _ (All-free_batch min_epoch (item ∷ batch) cache all)

  pub All-allocated :
      (entry : Entry Item) (o : Option ℕ) (cache : Cached)
      → P entry.start entry.end entry.item
      → AllEntries cache
      → AllEntries (allocated Item skip_list retired queue backing entry o cache)
  unfolding allocated
  All-allocated entry none cache fits all = all
  All-allocated entry (some e) cache fits all = AllOf-some cache.entries e entry all fits
