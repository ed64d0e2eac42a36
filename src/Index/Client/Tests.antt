-- ===== src/Index/Client/Tests.antt =====
-- A read that a stale cache leads to the wrong leaf first, and a removal.
use faunus.Index.Client.Delete.{try_delete_kvblock-slot}
use faunus.Index.Client.Lookup.{lookup_from, HasPrints}
use faunus.Index.Client.Read.{read-lookup}
use faunus.Index.Client.{Layout, read, try_delete_kvblock}
use faunus.Index.Find.Example.{
  entry, old_cache, tree, height, entry-EntryFits, tree-Levelled, tree-Route,
}
use faunus.Index.Find.Levels.{EntryFits}
use faunus.Index.Find.Routes.{still}
use faunus.Index.Find.{CachedEntry, KvItem, in_fence}
use faunus.Index.KvBlock.{
  KvBlock, fingerprint, xor_bytes, new_block, get_fingerprint, get_addr, is_free, is_locked,
  set_random,
}
use faunus.Index.Outcome.{answer}
use faunus.Index.Leaf.{free_block}
use faunus.Prelude.{
  ℕ, zero, suc, ◌+◌, ◌*◌, ◌^◌, ◌<◌, ◌≡◌, ◌≢◌, refl, ap, true, false, Option, some, List, [], ◌∷◌,
  ◌==◌, if◌then◌else◌, ℕ_discrete, arith,
}
use faunus.Rdma.GlobalAddress.{GlobalAddress}
use faunus.Util.ArrayVar.{from_integer, integer_bytes}
use mathlib.Core.Option
use mathlib.Core.Path.{subst}

abbrev layout : Layout
layout = record { branch_factor = 2; value_size = 1; bytes = from_integer 8 }

abbrev items : GlobalAddress → KvItem
items a = if a == 64 then record { key = 150; value = 5 ∷ [] } else record { key = 0; value = [] }

abbrev blocks : List KvBlock
blocks = new_block 150 64 false false ∷ free_block ∷ []

prints : HasPrints layout (tree blocks items) 150 ((tree blocks items).leaf 30)
unfolding new_block free_block get_fingerprint get_addr is_free fingerprint xor_bytes from_integer
    integer_bytes
prints zero l taken same = refl
prints (suc zero) l taken same = absurd cc
prints (suc (suc n)) l taken same = absurd (omega arith)

of_entry :
    (e : CachedEntry) → some entry ≡ some e → EntryFits 150 0 height e × (height e.address < 3)
of_entry e h =
    let same : entry ≡ e =
      ap (λ (o : Option CachedEntry). Option.get_or {A = CachedEntry} o entry) h in
    subst (λ e. EntryFits 150 0 height e × (height e.address < 3)) same
      (entry-EntryFits, omega arith)

only :
    (b : GlobalAddress)
    → height b ≡ 0
    → in_fence ((tree blocks items).leaf b).header 150 ≡ true
    → b ≡ 30
only b low within = elim (ℕ_discrete b 30) [
  | yes e ↦ e
  | no ne ↦
      let other : (b == 30) ≡ false = ground arith in absurd (let h = rw other at within in cc)
]

read-lookup_example :
    read old_cache layout 3 0 (still (tree blocks items)) 150 [] [] ≡ answer (some (5 ∷ []))
unfolding lookup_from new_block get_addr is_free
read-lookup_example =
    read-lookup old_cache layout 3 (tree blocks items) 150 [] 0 1 [] 30 height
      (tree-Levelled blocks items) (omega arith) of_entry (tree-Route blocks items) (omega arith)
      refl prints only

-- The draws give the fingerprint 7 and the address 9.
abbrev removed : ℕ
removed = 7 * 2 ^ 52 + 9 * 4 + 2

abbrev taken_word : ℕ
taken_word = 0x960_0000_0000_0100

try_delete_kvblock-slot_example :
    (taken_word ≡ taken_word
      → (is_free removed ≡ true) × (is_locked removed ≡ is_locked taken_word))
    × (taken_word ≢ taken_word → removed ≡ taken_word)
    × (false ≡ (taken_word == 4096))
unfolding try_delete_kvblock set_random
try_delete_kvblock-slot_example =
    try_delete_kvblock-slot 4096 (7 ∷ 9 ∷ []) taken_word taken_word removed false refl
