-- ===== src/Index/Insertion/Safety.antt =====
-- What `insert` has seen when it updates or fills a slot, whatever other clients write meanwhile.
use faunus.Index.Client.{after_find, after_result}
use faunus.Index.Find.{
  History, FindNodeResult, found, locked, no_such_level, unknown, Cache, Finding,
}
use faunus.Index.Insertion.Justified.{IsJustified, Fresh, GoodTurn, GoodTurn-search_and_probe}
use faunus.Index.Insertion.{
  Insertion, is_open, Client, State, Turn, done, again, read_leaf, turn, after_turn, insert_loop,
  start, insert,
}
use faunus.Index.Internal.{Key}
use faunus.Index.Outcome.{Outcome, answer, failed, running, or_else}
use faunus.Prelude.{
  ℕ, zero, suc, ◌+◌, ◌^◌, ◌≡◌, refl, ap, true, false, ◌==◌, Bool-cases, inl, inr, arith,
}
use mathlib.Core.Path.{subst}

module _ (cache : Cache) (client : Client) (history : History) (key : Key) (k : ℕ)
    (width : client.layout.branch_factor ≡ 2 ^ k) where
  abbrev IsGood : Turn cache → Type 0
  IsGood t = GoodTurn cache client history key k width t

  abbrev IsFresh : State cache → Type 0
  IsFresh st = Fresh cache client history key k width st

  abbrev GoodOutcome : Outcome (Turn cache) → Type 0
  GoodOutcome o = (next : Turn cache) → o ≡ answer next → IsGood next

  good_answer : (next : Turn cache) → IsGood next → GoodOutcome (answer next)
  unfolding or_else
  good_answer next h next' e = subst IsGood (ap (or_else next) e) h

  GoodOutcome-read_leaf :
      (attempt : ℕ) (st : State cache) (f : Finding cache)
      → GoodOutcome (read_leaf cache client history key attempt st f)
  unfolding read_leaf
  GoodOutcome-read_leaf attempt st f =
      let leaf = (history f.now).leaf f.node_address in
      elim (Bool-cases (leaf.header.level == 0)) [
        | inr high ↦ rw high (λ next e. absurd cc)
        | inl low ↦ elim (Bool-cases (is_open leaf key)) [
          | inr shut ↦ rw (low, shut) (good_answer _ (λ h. absurd cc))
          | inl op ↦
              let st' : State cache = record {
                wrote_kvitem = true;
                leaf_read = false;
                leaf_address = f.node_address;
                leaf = leaf;
                cached_entry = f.cached_entry;
                state = f.state;
                now = f.now + 1;
              } in
              rw (low, op)
                (good_answer _ (
                  GoodTurn-search_and_probe cache client history key k width attempt st'
                    (f.now, omega arith, refl, op)))
        ]
      ]

  GoodOutcome-after_result :
      (r : FindNodeResult) (x y : Outcome (Turn cache))
      → GoodOutcome x
      → GoodOutcome y
      → GoodOutcome (after_result cache r x y failed)
  unfolding after_result
  GoodOutcome-after_result found x y hx hy = hx
  GoodOutcome-after_result locked x y hx hy = hy
  GoodOutcome-after_result no_such_level x y hx hy = λ next e. absurd cc
  GoodOutcome-after_result unknown x y hx hy = λ next e. absurd cc

  GoodOutcome-after_find :
      (o : Outcome (Finding cache)) (next : Finding cache → Outcome (Turn cache))
      → ((f : Finding cache) → GoodOutcome (next f))
      → GoodOutcome (after_find cache o next)
  unfolding after_find
  GoodOutcome-after_find failed next h = λ next e. absurd cc
  GoodOutcome-after_find running next h = λ next e. absurd cc
  GoodOutcome-after_find (answer f) next h = h f

  GoodOutcome-turn :
      (attempt : ℕ) (st : State cache)
      → IsFresh st
      → GoodOutcome (turn cache client history key attempt st)
  unfolding turn
  GoodOutcome-turn attempt st fresh = elim (Bool-cases st.leaf_read) [
    | inl at_hand ↦ rw at_hand (
        good_answer _
          (GoodTurn-search_and_probe cache client history key k width attempt st (fresh at_hand)))
    | inr not_read ↦ rw not_read (
        GoodOutcome-after_find _ _ (λ f.
          GoodOutcome-after_result f.result _ _ (GoodOutcome-read_leaf attempt st f)
            (good_answer _ (λ h. absurd cc))))
  ]

  after_turn-IsJustified :
      (o : Outcome (Turn cache)) (next : State cache → Outcome Insertion) (insertion : Insertion)
      → GoodOutcome o
      → ((st : State cache)
          → IsFresh st
          → next st ≡ answer insertion
          → IsJustified client history key insertion)
      → after_turn cache o next ≡ answer insertion
      → IsJustified client history key insertion
  unfolding after_turn or_else
  after_turn-IsJustified failed next insertion good on e = absurd cc
  after_turn-IsJustified running next insertion good on e = absurd cc
  after_turn-IsJustified (answer (again st)) next insertion good on e =
      on st (good (again st) refl) e
  after_turn-IsJustified (answer (done now)) next insertion good on e =
      subst (IsJustified client history key) (ap (or_else now) e) (good (done now) refl)

  loop-IsJustified :
      (left attempt : ℕ) (st : State cache) (insertion : Insertion)
      → IsFresh st
      → insert_loop cache client history key left attempt st ≡ answer insertion
      → IsJustified client history key insertion
  unfolding insert_loop
  loop-IsJustified zero attempt st insertion fresh e = absurd cc
  loop-IsJustified (suc left) attempt st insertion fresh e =
      after_turn-IsJustified _ _ insertion (GoodOutcome-turn attempt st fresh)
        (λ st' fresh' e'. loop-IsJustified left (attempt + 1) st' insertion fresh' e') e

-- With a power of two of slots, and whatever other clients write meanwhile: an `insert` that returns
-- after filling a slot saw, at moments in this order, the leaf unlocked and the key within its
-- fences, no candidate item with the key, and the slot, free and unlocked when the leaf was read,
-- unchanged at the CAS; one that returns after an update saw such a leaf and the slot's item with
-- the key.
pub insert-IsJustified :
    (cache : Cache) (client : Client) (history : History) (key : Key) (k now : ℕ) (c : cache.C)
    (insertion : Insertion)
    → client.layout.branch_factor ≡ 2 ^ k
    → insert cache client history key now c ≡ answer insertion
    → IsJustified client history key insertion
unfolding insert
insert-IsJustified cache client history key k now c insertion width e =
    loop-IsJustified cache client history key k width 1_000_000 0 (start cache now c) insertion
      (λ h. absurd cc) e
