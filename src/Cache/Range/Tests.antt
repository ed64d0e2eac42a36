-- ===== src/Cache/Range/Tests.antt =====
-- A cache of one entry: hits, misses, evictions, and that its range stays one.
use faunus.Cache.Range.Table.{AllEntries}
use faunus.Cache.Range.Entries.{AllEntries-operations}
use faunus.Cache.Range.Example.{
  list_skip, retired_list, free_list, no_backing, free_count, one_entry,
}
use faunus.Cache.Range.{Entry, RangeCache, search, invalidate, add, has_key}
use faunus.Prelude.{ℕ, ◌<◌, ◌≡◌, ap, true, Option, some, ◌==◌, Bool-cases, inl, inr, arith}
use mathlib.Core.Option
use mathlib.Core.Path.{subst}

abbrev IsRange : ℕ → ℕ → ℕ → Type 0
IsRange start end item = start < end

abbrev cache : RangeCache ℕ list_skip retired_list free_list no_backing
cache = one_entry 10 20 5

abbrev entry : Entry ℕ
entry = record { start = 10; end = 20; item = 5; last_access = 0 }

cache-AllEntries : AllEntries ℕ list_skip retired_list free_list no_backing IsRange cache
cache-AllEntries a e h = elim (Bool-cases (a == 7)) [
  | inr other ↦ absurd (let h' = rw other at h in cc)
  | inl same ↦
      let is_it : entry ≡ e =
        ap (λ (o : Option (Entry ℕ)). Option.get_or {A = Entry ℕ} o entry) (rw same at h) in
      subst (λ (e : Entry ℕ). e.start < e.end) is_it (omega arith)
]

AllEntries-operations_example :
    let (hit, searched) = search ℕ list_skip retired_list free_list no_backing 0 1 cache 15 in
    AllEntries ℕ list_skip retired_list free_list no_backing IsRange searched
    × AllEntries ℕ list_skip retired_list free_list no_backing IsRange
        (invalidate ℕ list_skip retired_list free_list no_backing cache 7)
    × AllEntries ℕ list_skip retired_list free_list no_backing IsRange
        (add ℕ list_skip retired_list free_list no_backing free_count 1 30 40 6 cache)
    × ((a : ℕ) (e : Entry ℕ)
        → hit ≡ some (a, e)
        → IsRange e.start e.end e.item
          × (has_key ℕ list_skip retired_list free_list no_backing e 15 ≡ true))
AllEntries-operations_example =
    AllEntries-operations ℕ list_skip retired_list free_list no_backing IsRange cache 0 1 15 7 1 30
      40 6 free_count cache-AllEntries (omega arith)
