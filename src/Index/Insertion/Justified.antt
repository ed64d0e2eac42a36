-- ===== src/Index/Insertion/Justified.antt =====
-- What justifies the end of an attempt of `insert`, and that an attempt with a leaf at hand is so.
use faunus.Index.Client.{read_items, get_candidate_kvs, after_collisions}
use faunus.Index.Find.{History, Cache}
use faunus.Index.Insertion.Candidates.{HasItem, slot_of-some, slot_of-none}
use faunus.Index.Insertion.Probes.{IsFreeSlot, probe_sound}
use faunus.Index.Insertion.{
  Probe, free_slot, locked_slot, full, probe, slot_of, Insertion, updated_slot, inserted, is_open,
  Client, State, Turn, done, again, after_probe, after_search, after_candidates, search_and_probe,
  mix64,
}
use faunus.Index.Internal.{Key}
use faunus.Index.KvBlock.{Fingerprint, fingerprint}
use faunus.Index.Leaf.{block_at, collisions_from, get_fingerprint_collisions}
use faunus.Prelude.{
  ℕ, zero, ◌+◌, ◌^◌, ◌<◌, bit_xor, ◌≡◌, refl, ◌∙◌, ap, true, false, Option, none, some, ◌==◌,
  ==_iff, Bool-cases, inl, inr, arith,
}
use faunus.Rdma.GlobalAddress.{GlobalAddress}

abbrev pub print : Client → Key → Fingerprint
print client key = fingerprint (client.layout.bytes key)

-- A leaf as it stood at a moment, open for the key.
abbrev pub WasOpen : History → Key → GlobalAddress → ℕ → Type 0
WasOpen history key a moment = is_open ((history moment).leaf a) key ≡ true

-- What justifies the insertion into slot `i` of the leaf at `a` at a moment: the leaf was open before,
-- no candidate's item had the key between, and the slot was free and still is as it was.
pub record MayInsert (client : Client) (history : History) (key : Key) (a : GlobalAddress)
    (i moment : ℕ) : Type 0 where
  pub read_at : ℕ
  pub items_at : ℕ
  pub in_order : (read_at < items_at) × (items_at < moment)
  pub was_open : WasOpen history key a read_at
  pub absent :
      (j : ℕ)
      → j < client.layout.branch_factor
      → HasItem client.layout
          (history items_at)
          key
          (print client key)
          ((history read_at).leaf a).kv_blocks
          j
      → zero ≡ 1
  pub was_free : IsFreeSlot client.layout.branch_factor ((history read_at).leaf a).kv_blocks i
  pub same :
      block_at ((history moment).leaf a).kv_blocks i
      ≡ block_at ((history read_at).leaf a).kv_blocks i

-- What justifies the update of slot `i`: the leaf was open, and the slot's item had the key.
pub record MayUpdate (client : Client) (history : History) (key : Key) (a : GlobalAddress) (i : ℕ)
    : Type 0 where
  pub read_at : ℕ
  pub items_at : ℕ
  pub in_order : read_at < items_at
  pub was_open : WasOpen history key a read_at
  pub in_leaf : i < client.layout.branch_factor
  pub present :
      HasItem client.layout
        (history items_at)
        key
        (print client key)
        ((history read_at).leaf a).kv_blocks
        i

abbrev pub IsJustified : Client → History → Key → Insertion → Type 0
IsJustified client history key (updated_slot a i result) = MayUpdate client history key a i
IsJustified client history key (inserted a i moment follow) =
    MayInsert client history key a i moment

module _ (cache : Cache) (client : Client) (history : History) (key : Key) (k : ℕ)
    (width : client.layout.branch_factor ≡ 2 ^ k) where
  -- The leaf at hand was read before, and was open.
  abbrev pub AtHand : State cache → Type 0
  AtHand st =
      (t : ℕ) × (t < st.now)
      × (st.leaf ≡ (history t).leaf st.leaf_address)
      × (is_open st.leaf key ≡ true)

  abbrev pub Fresh : State cache → Type 0
  Fresh st = st.leaf_read ≡ true → AtHand st

  abbrev pub GoodTurn : Turn cache → Type 0
  GoodTurn (done insertion) = IsJustified client history key insertion
  GoodTurn (again st) = Fresh st

  -- The leaf at hand was read one moment earlier at least than its items.
  Searched : State cache → Option ℕ → Type 0
  Searched st o =
      (t : ℕ) × (u : ℕ) × (t < u)
      × (u < st.now)
      × (st.leaf ≡ (history t).leaf st.leaf_address)
      × (is_open st.leaf key ≡ true)
      × (slot_of key (
            read_items client.layout (history u) false
              (collisions_from client.layout.branch_factor 0 st.leaf.kv_blocks
                (print client key)).0)
          ≡ o)

  not-Fresh : (st : State cache) → st.leaf_read ≡ false → Fresh st
  not-Fresh st e h = absurd cc

  GoodTurn-after_probe :
      (st : State cache) (p : Probe)
      → Searched st none
      → ((i : ℕ) → p ≡ free_slot i → IsFreeSlot client.layout.branch_factor st.leaf.kv_blocks i)
      → GoodTurn (after_probe cache client history key st p)
  unfolding after_probe Searched
  GoodTurn-after_probe st full s free = not-Fresh (record st { leaf_read = false }) refl
  GoodTurn-after_probe st locked_slot s free = not-Fresh (record st { leaf_read = false }) refl
  GoodTurn-after_probe st (free_slot i) (t, u, l, m, e, op, missing) free =
      let word = block_at ((history st.now).leaf st.leaf_address).kv_blocks i in
      elim (Bool-cases (word == block_at st.leaf.kv_blocks i)) [
        | inr differs ↦ rw differs (λ h. (st.now + 1, omega arith, refl, h))
        | inl same ↦ rw same (record {
          read_at = t;
          items_at = u;
          in_order = (l, m);
          was_open = rw e at op;
          absent = λ j small has.
              slot_of-none client.layout (history u) key (print client key)
                ((history t).leaf st.leaf_address).kv_blocks client.layout.branch_factor 0 j
                (rw e at missing) (omega arith) (omega (arith, small)) has;
          was_free = let f = free i refl in rw e at f;
          same = (==_iff _ _).0 same ∙ ap (λ l. block_at l.kv_blocks i) e;
        })
      ]

  GoodTurn-after_search :
      (attempt : ℕ) (st : State cache) (o : Option ℕ)
      → Searched st o
      → GoodTurn (after_search cache client history key attempt st o)
  unfolding after_search Searched
  GoodTurn-after_search attempt st none s =
      let seed = mix64 (bit_xor client.tid_hash attempt) in
      let n = client.layout.branch_factor in
      GoodTurn-after_probe st (probe n seed n 0 st.leaf.kv_blocks) s (λ i h.
        rw width (probe_sound k seed (2 ^ k) 0 i st.leaf.kv_blocks (omega arith) (rw width at h)))
  GoodTurn-after_search attempt st (some i) (t, u, l, m, e, op, at) =
      let (small, has) =
        slot_of-some client.layout (history u) key (print client key) st.leaf.kv_blocks
          client.layout.branch_factor 0 i at in
      record {
        read_at = t;
        items_at = u;
        in_order = l;
        was_open = rw e at op;
        in_leaf = omega (arith, small);
        present = rw e at has;
      }

  pub GoodTurn-search_and_probe :
      (attempt : ℕ) (st : State cache)
      → AtHand st
      → GoodTurn (search_and_probe cache client history key attempt st)
  unfolding search_and_probe after_candidates get_candidate_kvs after_collisions
      get_fingerprint_collisions Searched
  GoodTurn-search_and_probe attempt st (t, l, e, op) =
      let found_smo =
        (collisions_from client.layout.branch_factor 0 st.leaf.kv_blocks (print client key)).1 in
      let st' : State cache = record st { now = st.now + 1 } in
      elim (Bool-cases found_smo) [
        | inl smo ↦ rw smo (not-Fresh (record st' { leaf_read = false }) refl)
        | inr quiet ↦
            rw quiet (GoodTurn-after_search attempt st' _ (t, st.now, l, omega arith, e, op, refl))
      ]
