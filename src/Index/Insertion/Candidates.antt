-- ===== src/Index/Insertion/Candidates.antt =====
-- Which slot the search among the candidates for a key finds.
use faunus.Index.Client.{Layout, read_items}
use faunus.Index.Find.{Memory}
use faunus.Index.Insertion.{slot_of}
use faunus.Index.Internal.{Key}
use faunus.Index.KvBlock.{KvBlock, Fingerprint, get_addr}
use faunus.Index.Leaf.{block_at, is_candidate, collisions_from}
use faunus.Prelude.{
  ℕ, zero, suc, ◌+◌, ◌≤◌, ◌<◌, ◌≡◌, ap, true, false, Option, none, some, List, ◌==◌, ==_iff,
  Bool-cases, inl, inr, ℕ_discrete, arith,
}
use mathlib.Core.Option
use mathlib.Core.Path.{subst}

module _ (layout : Layout) (mem : Memory) (key : Key) (fp : Fingerprint)
    (blocks : List KvBlock) where
  -- A slot with the fingerprint, and the item that it leads to.
  abbrev pub HasItem : ℕ → Type 0
  HasItem j =
      (is_candidate (block_at blocks j) fp ≡ true)
      × ((mem.item (get_addr (block_at blocks j))).key ≡ key)

  abbrev found_slot : ℕ → ℕ → Option ℕ
  found_slot n i = slot_of key (read_items layout mem false (collisions_from n i blocks fp).0)

  pub slot_of-some : (n i j : ℕ) → found_slot n i ≡ some j → (j < i + n) × HasItem j
  unfolding slot_of read_items collisions_from
  slot_of-some zero i j h = absurd cc
  slot_of-some (suc n) i j h =
      let block = block_at blocks i in
      let item = mem.item (get_addr block) in
      elim (Bool-cases (is_candidate block fp)) [
        | inr no_print ↦
            let (l, has) = slot_of-some n (i + 1) j (rw no_print at h) in (omega (arith, l), has)
        | inl print ↦ elim (Bool-cases (item.key == key)) [
          | inr other ↦
              let (l, has) = slot_of-some n (i + 1) j (rw (print, other) at h) in
              (omega (arith, l), has)
          | inl same ↦
              let here : i ≡ j =
                ap (λ (o : Option ℕ). Option.get_or {A = ℕ} o 0) (rw (print, same) at h) in
              (omega (arith, here), subst HasItem here (print, (==_iff _ _).0 same))
        ]
      ]

  pub slot_of-none : (n i j : ℕ) → found_slot n i ≡ none → i ≤ j → j < i + n → HasItem j → zero ≡ 1
  unfolding slot_of read_items collisions_from
  slot_of-none zero i j h low high has = absurd (omega arith)
  slot_of-none (suc n) i j h low high has =
      let block = block_at blocks i in
      let item = mem.item (get_addr block) in
      elim (Bool-cases (is_candidate block fp)) [
        | inr no_print ↦ elim (ℕ_discrete j i) [
          | yes e ↦ absurd (let p = rw e at has.0 in cc)
          | no ne ↦ slot_of-none n (i + 1) j (rw no_print at h) (omega arith) (omega arith) has
        ]
        | inl print ↦ elim (Bool-cases (item.key == key)) [
          | inl same ↦ absurd (let e = rw (print, same) at h in cc)
          | inr other ↦ elim (ℕ_discrete j i) [
            | yes e ↦ absurd (let p = (==_iff _ _).1 (rw e at has.1) in cc)
            | no ne ↦
                slot_of-none n (i + 1) j (rw (print, other) at h) (omega arith) (omega arith) has
          ]
        ]
      ]
