-- ===== src/Index/Cached/Tests.antt =====
-- A search with a range cache that holds an old copy of the root.
use faunus.Cache.Range.{Entry}
use faunus.Cache.Range.Table.{AllEntries}
use faunus.Cache.Range.Example.{
  list_skip, retired_list, free_list, no_backing, free_count, one_entry,
}
use faunus.Index.Cached.Finds.{HoldsNode, find_node-HoldsNode}
use faunus.Index.Cached.{FaunusCacheItem, FaunusCache, faunus_cache}
use faunus.Index.Find.Example.{old_root, tree, height, tree-Levelled}
use faunus.Index.Find.Levels.{IsRight}
use faunus.Index.Find.Routes.{still}
use faunus.Index.Find.{Memory, Finding, find_node}
use faunus.Index.Internal.{next_address, search_from}
use faunus.Index.Outcome.{answer}
use faunus.Prelude.{◌≡◌, refl, ap, true, false, ltb, Option, [], ◌==◌, Bool-cases, inl, inr, arith}
use mathlib.Core.Option
use mathlib.Core.Path.{subst}

abbrev entry : Entry FaunusCacheItem
entry = record { start = 0; end = 1000; item = (10, old_root); last_access = 0 }

abbrev cache : FaunusCache list_skip retired_list free_list no_backing free_count (λ c. 1)
cache = record {
  cache = one_entry 0 1000 (10, old_root);
  access_counter = 0;
  clock = record { epoch = 1; local = 0 };
}

entry-HoldsNode : HoldsNode 0 3 height 0 1000 (10, old_root)
unfolding next_address search_from
entry-HoldsNode = record {
  first = refl;
  second = refl;
  fits = λ key low high. record {
    stands = refl;
    child = λ above. let miss : ltb key 0 ≡ false = ground arith in rw miss refl;
  };
  enough = omega arith;
}

cache-AllEntries :
    AllEntries FaunusCacheItem list_skip retired_list free_list no_backing
      (HoldsNode 0 3 height)
      cache.cache
cache-AllEntries a e h = elim (Bool-cases (a == 7)) [
  | inr other ↦ absurd (let h' = rw other at h in cc)
  | inl same ↦
      let is_it : entry ≡ e =
        ap
          (λ (o : Option (Entry FaunusCacheItem)).
            Option.get_or {A = Entry FaunusCacheItem} o entry)
          (rw same at h) in
      subst (λ (e : Entry FaunusCacheItem). HoldsNode 0 3 height e.start e.end e.item) is_it
        entry-HoldsNode
]

abbrev empty_tree : Memory
empty_tree = tree [] (λ a. record { key = 0; value = [] })

find_node-HoldsNode_example :
    let with_cache = faunus_cache list_skip retired_list free_list no_backing free_count (λ c. 1) in
    (f : Finding with_cache) × (find_node with_cache 3 (still empty_tree) 150 0 false true 0 cache
      ≡ answer f)
    × IsRight (still empty_tree) 0 height f.result f.node_address
find_node-HoldsNode_example =
    find_node-HoldsNode list_skip retired_list free_list no_backing free_count (λ c. 1)
      (still empty_tree) 150 0 height false true 3 0 cache
      (tree-Levelled [] (λ a. record { key = 0; value = [] })) (omega arith) cache-AllEntries
