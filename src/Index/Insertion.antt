-- ===== src/Index/Insertion.antt =====
-- src/kv_index/faunus_index.cpp: `insert`, as a loop of attempts that each end it or go on. What other
-- clients write meanwhile is given for each moment. The counters and pauses are left out, and the
-- write of the item is noted only.
pub mod Probes
pub mod Candidates
pub mod Justified
pub mod Safety
mod Tests
use faunus.Index.Client.{
  Layout, is_updated, get_candidate_kvs, Handled, handle_local_remove_dupes, after_result,
  after_find,
}
use faunus.Index.Find.{History, CachedEntry, Cache, in_fence, Finding, drop_entry, find_node}
use faunus.Index.Internal.{Key}
use faunus.Index.KvBlock.{KvBlock, fingerprint, is_free, is_locked}
use faunus.Index.Leaf.{Value, LeafNode, block_at, try_update_kvblock, UpdateResult}
use faunus.Index.Outcome.{Outcome, answer, failed, running}
use faunus.Prelude.{
  ℕ, zero, suc, ◌+◌, ◌-◌, ◌*◌, ◌/◌, ◌%◌, ◌^◌, bit_and, bit_xor, Bool, true, false, not, ◌&&◌,
  Option, none, some, List, [], ◌∷◌, ltb, ◌==◌, if◌then◌else◌,
}
use faunus.Rdma.GlobalAddress.{GlobalAddress, null}
use faunus.Util.ArrayVar.{min_value}

-- `mix64`
unfoldable pub mix64 : ℕ → ℕ
mix64 x =
    let a = bit_xor x (x / 2 ^ 33) in
    let b = a * 0xff51_afd7_ed55_8ccd % 2 ^ 64 in
    let c = bit_xor b (b / 2 ^ 33) in
    let d = c * 0xc4ce_b9fe_1a85_ec53 % 2 ^ 64 in bit_xor d (d / 2 ^ 33)

-- The slot that the round `i` of the search for a free slot looks at.
abbrev pub probe_index : ℕ → ℕ → ℕ → ℕ
probe_index branch_factor seed i = bit_and (bit_xor i seed) (branch_factor - 1)

-- How the search for a free slot ends.
pub data Probe : Type 0 where
  free_slot : (index : ℕ) → Probe
  locked_slot : Probe
  full : Probe

-- From round `i` on, with `n` rounds left.
unfoldable pub probe : ℕ → ℕ → ℕ → ℕ → List KvBlock → Probe
unfolding is_locked is_free
probe branch_factor seed zero i blocks = full
probe branch_factor seed (suc n) i blocks =
    let index = probe_index branch_factor seed i in
    let rest = probe branch_factor seed n (i + 1) blocks in
    if is_locked (block_at blocks index)
    then locked_slot
    else if is_free (block_at blocks index)
    then free_slot index
    else rest

-- The first candidate with the key.
unfoldable pub slot_of : Key → List (ℕ × Key × Value) → Option ℕ
slot_of key [] = none
slot_of key ((index, k, v) ∷ candidates) =
    let rest = slot_of key candidates in if k == key then some index else rest

-- The slots in use, from slot `i` on, with `n` left.
unfoldable pub num_used : ℕ → ℕ → List KvBlock → ℕ
unfolding is_free
num_used zero i blocks = 0
num_used (suc n) i blocks =
    let rest = num_used n (i + 1) blocks in if is_free (block_at blocks i) then rest else rest + 1

-- The words that the attempts of an update find in a slot, from a moment on.
unfoldable pub words_seen : ℕ → History → ℕ → GlobalAddress → ℕ → List KvBlock
words_seen zero history now address index = []
words_seen (suc n) history now address index =
    block_at ((history now).leaf address).kv_blocks index
    ∷ words_seen n history (now + 1) address index

-- What follows an insertion into a free slot: nothing, the split of the leaf or its request, or the
-- removal of duplicates.
pub data Follow : Type 0 where
  nothing_more : Follow
  splits : (leaf_address : GlobalAddress) → Follow
  removes : (handled : Handled) → Follow

-- What `insert` has done when it is about to return, up to the split. An update that is `pending` is
-- still in its loop.
pub data Insertion : Type 0 where
  updated_slot : (address : GlobalAddress) (index : ℕ) (result : UpdateResult) → Insertion
  inserted : (address : GlobalAddress) (index moment : ℕ) (follow : Follow) → Insertion

abbrev pub is_open : LeafNode → Key → Bool
is_open leaf key = (leaf.header.lock == 0) && in_fence leaf.header key

-- The parameters of a client: the sizes, the fuel of a search, the attempts of an update, the limit of
-- `num_used`, and the hash of the thread.
pub record Client : Type 0 where
  pub layout : Layout
  pub fuel : ℕ
  pub updates : ℕ
  pub watermark : ℕ
  pub tid_hash : ℕ

module _ (cache : Cache) where
  -- The variables that an attempt leaves to the next.
  pub record State : Type 0 where
    pub wrote_kvitem : Bool
    pub leaf_read : Bool
    pub leaf_address : GlobalAddress
    pub leaf : LeafNode
    pub cached_entry : Option CachedEntry
    pub state : cache.C
    pub now : ℕ

  pub data Turn : Type 0 where
    done : (insertion : Insertion) → Turn
    again : (st : State) → Turn

  -- After the search for duplicates or the split: the leaf has been read again.
  unfoldable pub finish : Client → History → Key → GlobalAddress → LeafNode → ℕ → Follow
  unfolding num_used handle_local_remove_dupes
  finish client history key address leaf now =
      let used = num_used client.layout.branch_factor 0 leaf.kv_blocks in
      let handled =
        handle_local_remove_dupes client.layout (history now) key leaf
          (min_value client.layout.value_size) true false false [] in
      if not (is_open leaf key)
      then nothing_more
      else if ltb client.watermark used
      then splits address
      else removes handled

  -- The CAS of a free slot and the read of the leaf after it.
  unfoldable pub after_probe : Client → History → Key → State → Probe → Turn
  unfolding finish
  after_probe client history key st full = again (record st { leaf_read = false })
  after_probe client history key st locked_slot = again (record st { leaf_read = false })
  after_probe client history key st (free_slot index) =
      let word = block_at ((history st.now).leaf st.leaf_address).kv_blocks index in
      let leaf' = (history (st.now + 1)).leaf st.leaf_address in
      if word == block_at st.leaf.kv_blocks index
      then done (
          inserted st.leaf_address index st.now
            (finish client history key st.leaf_address leaf' (st.now + 2)))
      else again (record st { leaf_read = is_open leaf' key; leaf = leaf'; now = st.now + 2 })

  unfoldable pub after_search : Client → History → Key → ℕ → State → Option ℕ → Turn
  unfolding after_probe probe words_seen try_update_kvblock mix64
  after_search client history key attempt st none =
      let seed = mix64 (bit_xor client.tid_hash attempt) in
      let branch_factor = client.layout.branch_factor in
      after_probe client history key st (probe branch_factor seed branch_factor 0 st.leaf.kv_blocks)
  after_search client history key attempt st (some index) =
      let seen = words_seen client.updates history st.now st.leaf_address index in
      done (
        updated_slot st.leaf_address index
          (try_update_kvblock seen (block_at st.leaf.kv_blocks index)))

  unfoldable pub after_candidates :
      Client → History → Key → ℕ → State → Bool × List (ℕ × Key × Value) → Turn
  unfolding after_search slot_of
  after_candidates client history key attempt st (true, candidates) =
      after_search client history key attempt st (slot_of key candidates)
  after_candidates client history key attempt st (false, candidates) =
      again (record st { leaf_read = false })

  -- An attempt, once the leaf is at hand.
  unfoldable pub search_and_probe : Client → History → Key → ℕ → State → Turn
  unfolding after_candidates get_candidate_kvs fingerprint
  search_and_probe client history key attempt st =
      let fp = fingerprint (client.layout.bytes key) in
      let st' = record st { now = st.now + 1 } in
      after_candidates client history key attempt st'
        (get_candidate_kvs client.layout (history st.now) st.leaf fp false false)

  -- The read of the leaf that `find_node` reports, together with the write of the item.
  unfoldable pub read_leaf : Client → History → Key → ℕ → State → Finding cache → Outcome Turn
  unfolding search_and_probe
  read_leaf client history key attempt st f =
      let leaf = (history f.now).leaf f.node_address in
      let st' : State = record {
        wrote_kvitem = true;
        leaf_read = false;
        leaf_address = f.node_address;
        leaf = leaf;
        cached_entry = f.cached_entry;
        state = f.state;
        now = f.now + 1;
      } in
      let searched = search_and_probe client history key attempt st' in
      if not (leaf.header.level == 0)
      then failed
      else if is_open leaf key
      then answer searched
      else answer (again st')

  -- An attempt of `insert`. Only the first uses the cache, and a later one drops the entry used before.
  unfoldable pub turn : Client → History → Key → ℕ → State → Outcome Turn
  unfolding read_leaf search_and_probe after_find after_result find_node drop_entry
  turn client history key attempt st =
      let c = drop_entry cache (ltb 0 attempt) st.cached_entry st.state in
      let searched =
        after_find cache (find_node cache client.fuel history key 0 false (attempt == 0) st.now c)
          (λ f.
            after_result cache f.result (read_leaf client history key attempt st f)
              (answer (
                again (record st {
                  leaf_read = false;
                  cached_entry = f.cached_entry;
                  state = f.state;
                  now = f.now;
                })))
              failed) in
      if st.leaf_read then answer (search_and_probe client history key attempt st) else searched

  unfoldable pub after_turn : Outcome Turn → (State → Outcome Insertion) → Outcome Insertion
  after_turn (answer (done insertion)) next = answer insertion
  after_turn (answer (again st)) next = next st
  after_turn failed next = failed
  after_turn running next = running

  -- The loop, with the attempts left.
  unfoldable pub insert_loop : Client → History → Key → ℕ → ℕ → State → Outcome Insertion
  unfolding turn after_turn
  insert_loop client history key zero attempt st = failed
  insert_loop client history key (suc left) attempt st =
      after_turn (turn client history key attempt st)
        (λ st'. insert_loop client history key left (attempt + 1) st')

  -- The variables before the first attempt.
  abbrev pub start : ℕ → cache.C → State
  start now c = record {
    wrote_kvitem = false;
    leaf_read = false;
    leaf_address = null;
    leaf = record {
      header = record { lock = 0; level = 0; fence_first = 0; fence_second = 0; last_index = 0 };
      kv_blocks = [];
    };
    cached_entry = none;
    state = c;
    now = now;
  }

  -- `insert`: the loop has 1,000,000 attempts.
  unfoldable pub insert : Client → History → Key → ℕ → cache.C → Outcome Insertion
  unfolding insert_loop
  insert client history key now c = insert_loop client history key 1_000_000 0 (start now c)
