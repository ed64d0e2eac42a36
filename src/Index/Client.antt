-- ===== src/Index/Client.antt =====
-- src/kv_index/faunus_index.cpp: what a client does with the leaf that `find_node` reports:
-- `get_candidate_kvs`, `handle_local_remove_dupes`, `try_delete_kvblock`, and the loop of `read`. The
-- counters of retries, hits and misses are left out. A failed assertion ends the program.

pub mod Lookup
pub mod Read
pub mod Delete
mod Tests
use faunus.Index.Find.{
  KvItem, Memory, History, FindNodeResult, found, locked, no_such_level, unknown, Cache, in_fence,
  Finding, find_node,
}
use faunus.Index.Internal.{Key}
use faunus.Index.KvBlock.{
  KvBlock, Fingerprint, fingerprint, is_locked, set_free, set_locked, set_random,
}
use faunus.Index.Leaf.{
  Value, LeafNode, block_at, get_fingerprint_collisions, UpdateResult, updated, gave_up, pending,
  try_update_kvblock, Scan, scan_candidates,
}
use faunus.Index.Outcome.{Outcome, answer, failed, running}
use faunus.Prelude.{
  ℕ, zero, suc, ◌+◌, Bool, true, false, not, ◌&&◌, ◌||◌, Option, none, some, List, [], ◌∷◌, length,
  ltb, ◌==◌, if◌then◌else◌, ◌>>=◌,
}
use faunus.Rdma.GlobalAddress.{GlobalAddress}
use faunus.Util.ArrayVar.{ArrayVar, min_value}

-- The sizes that the types fix, and the bytes of a key.
pub record Layout : Type 0 where
  pub branch_factor : ℕ
  pub value_size : ℕ
  pub bytes : Key → ArrayVar

-- The items of the candidates. Only a read reads their values, which are zeros otherwise.
unfoldable pub read_items :
    Layout → Memory → Bool → List (ℕ × GlobalAddress) → List (ℕ × Key × Value)
unfolding min_value
read_items layout mem from_read [] = []
read_items layout mem from_read ((index, addr) ∷ candidates) =
    let item = mem.item addr in
    let value = if from_read then item.value else min_value layout.value_size in
    (index, item.key, value) ∷ read_items layout mem from_read candidates

-- After the search for candidates: `success`, and the candidates with their items.
unfoldable pub after_collisions :
    Layout → Memory → Bool → Bool → List (ℕ × GlobalAddress) × Bool → Bool × List (ℕ × Key × Value)
unfolding read_items
after_collisions layout mem from_insert from_read (candidates, found_smo) =
    if found_smo && not from_read
    then (false, [])
    else if from_insert && (length candidates == 1)
    then (true, [])
    else (true, read_items layout mem from_read candidates)

-- `get_candidate_kvs`
unfoldable pub get_candidate_kvs :
    Layout → Memory → LeafNode → Fingerprint → Bool → Bool → Bool × List (ℕ × Key × Value)
unfolding after_collisions get_fingerprint_collisions
get_candidate_kvs layout mem leaf fp from_insert from_read =
    after_collisions layout mem from_insert from_read
      (get_fingerprint_collisions layout.branch_factor leaf fp)

-- `try_delete_kvblock` on a slot that holds `word`: the word that it leaves, and whether it reports
-- success. The random draws may run out. The code compares the word that it expected with `pointer`,
-- the address of the variable that the CAS reports through.
unfoldable pub try_delete_kvblock : ℕ → List ℕ → KvBlock → KvBlock → Option (KvBlock × Bool)
unfolding set_free set_locked set_random is_locked
try_delete_kvblock pointer draws word expected = do
  (drawn, _) ← set_random 0 draws
  let desired = set_free (set_locked drawn (is_locked expected)) true
  some (if word == expected then desired else word, expected == pointer)

abbrev pub is_updated : UpdateResult → Bool
is_updated (updated old) = true
is_updated gave_up = false
is_updated pending = false

-- What `handle_local_remove_dupes` returns, and what its scan came to.
pub record Handled : Type 0 where
  pub success : Bool
  pub scan : Scan

abbrev pub nothing : Value → Scan
nothing value = record { found = false; value_out = value; deleted = []; updating = none }

-- The scan returns what the update of the slot found returns, or true.
unfoldable pub update_found : LeafNode → List KvBlock → Option ℕ → Bool
unfolding try_update_kvblock
update_found leaf seen none = true
update_found leaf seen (some index) =
    is_updated (try_update_kvblock seen (block_at leaf.kv_blocks index))

-- The scan of the candidates; `seen` are the words that the attempts of an update find.
unfoldable pub after_candidates :
    LeafNode → Key → Value → Bool → List KvBlock → Bool × List (ℕ × Key × Value) → Handled
unfolding scan_candidates update_found
after_candidates leaf key value from_update seen (success, []) = record {
  success = success;
  scan = nothing value;
}
after_candidates leaf key value from_update seen (success, candidate ∷ candidates) =
    let scan = scan_candidates key from_update (candidate ∷ candidates) false value in
    record { success = update_found leaf seen scan.updating; scan = scan }

-- `handle_local_remove_dupes`, called with `found == false` and a value to overwrite.
unfoldable pub handle_local_remove_dupes :
    Layout → Memory → Key → LeafNode → Value → Bool → Bool → Bool → List KvBlock → Handled
unfolding get_candidate_kvs after_candidates fingerprint
handle_local_remove_dupes layout mem key leaf value from_insert from_read from_update seen =
    let fp = fingerprint (layout.bytes key) in
    let handled =
      after_candidates leaf key value from_update seen
        (get_candidate_kvs layout mem leaf fp from_insert from_read) in
    let refused : Handled = record { success = false; scan = nothing value } in
    if not (in_fence leaf.header key)
    then refused
    else if not (leaf.header.lock == 0) && not from_read
    then refused
    else handled

module _ (cache : Cache) where
  -- What a loop does with the outcome of `find_node`: it goes on with the node, tries again if it was
  -- locked, or fails an assertion.
  unfoldable pub after_result : {A : Type 0} → FindNodeResult → A → A → A → A
  after_result found goes_on again fails = goes_on
  after_result locked goes_on again fails = again
  after_result no_such_level goes_on again fails = fails
  after_result unknown goes_on again fails = fails

  unfoldable pub after_find :
      {A : Type 0} → Outcome (Finding cache) → (Finding cache → Outcome A) → Outcome A
  after_find (answer f) next = next f
  after_find failed next = failed
  after_find running next = running

  -- The end of an attempt of `read`: the value found or `none`, unless the leaf was not the key's.
  unfoldable pub after_leaf : Handled → Outcome (Option Value) → Outcome (Option Value)
  after_leaf handled again =
      if handled.success
      then answer (if handled.scan.found then some handled.scan.value_out else none)
      else again

  -- The loop of `read`, with the attempts left. Only its first attempt uses the cache.
  unfoldable pub read_loop :
      Layout → ℕ → ℕ → History → Key → Value → Bool → ℕ → cache.C → Outcome (Option Value)
  unfolding find_node after_find after_result after_leaf handle_local_remove_dupes
  read_loop layout fuel zero history key value use_cache now c = failed
  read_loop layout fuel (suc attempts) history key value use_cache now c =
      after_find (find_node cache fuel history key 0 false use_cache now c) (λ f.
        let again = λ (t : ℕ). read_loop layout fuel attempts history key value false t f.state in
        let leaf = (history f.now).leaf f.node_address in
        let handled =
          handle_local_remove_dupes layout (history (f.now + 1)) key leaf value false true false
            [] in
        after_result f.result (after_leaf handled (again (f.now + 2))) (again f.now) failed)

  -- `read`: the loop has 1,000,000 attempts.
  unfoldable pub read : Layout → ℕ → ℕ → History → Key → Value → cache.C → Outcome (Option Value)
  unfolding read_loop
  read layout fuel now history key value c =
      read_loop layout fuel 1_000_000 history key value true now c
