-- ===== src/Index/Find/Tests.antt =====
-- Searches in a tree of two levels with a stale copy of the root in the cache.
use faunus.Index.Find.Example.{
  entry, old_cache, tree, height, entry-EntryFits, tree-Levelled, tree-Route,
}
use faunus.Index.Find.Levels.{EntryFits, IsRight, find_node-IsRight}
use faunus.Index.Find.Routes.{still, FoundAt, find_node-Route}
use faunus.Index.Find.{Memory, CachedEntry, Finding, find_node}
use faunus.Index.Outcome.{Outcome, answer, failed, running}
use faunus.Index.Internal.{next_address, search_from}
use faunus.Prelude.{◌<◌, ◌≡◌, refl, ap, true, false, Option, none, some, [], arith}
use faunus.Rdma.GlobalAddress.{GlobalAddress}
use mathlib.Core.Option
use mathlib.Core.Path.{subst}

abbrev empty_tree : Memory
empty_tree = tree [] (λ _. record { key = 0; value = [] })

abbrev address_found : Outcome (Finding old_cache) → Option GlobalAddress
address_found (answer f) = some f.node_address
address_found failed = none
address_found running = none

by_cache : address_found (find_node old_cache 3 (still empty_tree) 150 0 false true 0 []) ≡ some 20
unfolding find_node next_address search_from
by_cache = refl

without_cache :
    address_found (find_node old_cache 3 (still empty_tree) 150 0 false false 0 []) ≡ some 30
unfolding find_node next_address search_from
without_cache = refl

of_entry :
    (e : CachedEntry) → some entry ≡ some e → EntryFits 150 0 height e × (height e.address < 3)
of_entry e h =
    let same : entry ≡ e =
      ap (λ (o : Option CachedEntry). Option.get_or {A = CachedEntry} o entry) h in
    subst (λ e. EntryFits 150 0 height e × (height e.address < 3)) same
      (entry-EntryFits, omega arith)

find_node-IsRight_example :
    (f : Finding old_cache) × (find_node old_cache 3 (still empty_tree) 150 0 false true 0 []
      ≡ answer f)
    × IsRight (still empty_tree) 0 height f.result f.node_address
find_node-IsRight_example =
    find_node-IsRight old_cache (still empty_tree) 150 0 height false true 3 0 []
      (tree-Levelled [] (λ _. record { key = 0; value = [] })) (omega arith) of_entry

find_node-Route_example :
    FoundAt old_cache empty_tree 150 0 false 30
      (find_node old_cache 3 (still empty_tree) 150 0 false false 0 [])
find_node-Route_example =
    find_node-Route old_cache empty_tree 150 0 false 3 0 [] 30 1
      (tree-Route [] (λ _. record { key = 0; value = [] })) (omega arith)
