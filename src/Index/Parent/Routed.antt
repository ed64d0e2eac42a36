-- ===== src/Index/Parent/Routed.antt =====
-- Where searches go after `insert_internal_entry`, and that it leaves no node locked.
use faunus.Index.Client.{after_find}
use faunus.Index.Find.{
  History, FindNodeResult, found, locked, no_such_level, unknown, Cache, in_fence, Finding,
}
use faunus.Index.Internal.Root.{next_address-new_root}
use faunus.Index.Internal.{Key, SplitNode}
use faunus.Index.Outcome.{Outcome, answer, failed, running}
use faunus.Index.Parent.Placed.{
  Holding, nothing_held, takes, gives_back, IsNodeOf, NodeIf, place_entry-node, AreRouted,
  IsRoutedIf, WellFormed, IsRouted, IsRouted-place_entry,
}
use faunus.Index.Parent.{
  LockOp, Placement, Parameters, State, Turn, done, again, lock_and_place, setup_new_root,
  after_finding, turn, Returned, after_turn, insert_loop, insert_internal_entry, after_place,
  ops_after, grows, present, places, splits, locks, update_root_offset, Inserted, after_above,
  after_loop, insert_levels,
}
use faunus.Prelude.{
  ℕ, zero, suc, ◌+◌, ◌≤◌, ◌≡◌, refl, Bool-cases, inl, inr, none, some, List, [], ◌==◌, ==_iff,
  Option, arith, ◌∷◌,
}
use faunus.Rdma.GlobalAddress.{GlobalAddress}
use mathlib.Core.Path.{subst}

module _ (params : Parameters) (history : History) (three : 3 ≤ params.branch_factor)
    (well_formed : WellFormed params.branch_factor history) (cache : Cache) (key : Key)
    (child : GlobalAddress) (level : ℕ) (held : List GlobalAddress) where
  abbrev Routes : Placement → Type 0
  Routes placement = IsRouted params history key child level placement

  -- The locks held once the loop has ended: a node that was split is one of them.
  abbrev StillHeld : Placement → List LockOp → Type 0
  StillHeld (grows root) ops = Holding held ops
  StillHeld (present a) ops = Holding held ops
  StillHeld (places a t node) ops = Holding held ops
  StillHeld (splits a t parts) ops = Holding (a ∷ held) ops

  abbrev IsGood : Turn cache → Type 0
  IsGood (done placement st) = Routes placement × StillHeld placement st.lock_ops
  IsGood (again st) = Holding held st.lock_ops

  abbrev GoodOutcome : Outcome (Turn cache) → Type 0
  GoodOutcome (answer next) = IsGood next
  GoodOutcome failed = ℕ
  GoodOutcome running = ℕ

  Good-ops_after :
      (p : Placement) (a : GlobalAddress) (ops : List LockOp)
      → IsNodeOf a p
      → Holding held ops
      → StillHeld p (ops_after p a ops)
  Good-ops_after (grows root) a ops same h = gives_back (takes h)
  Good-ops_after (present b) a ops same h = gives_back (takes h)
  Good-ops_after (places b t node) a ops same h = gives_back (takes h)
  Good-ops_after (splits b t parts) a ops same h =
      subst (λ x. Holding (x ∷ held) (locks a ∷ ops)) same (takes h)

  Good-after_place :
      (o : Option Placement) (a : GlobalAddress) (st : State cache)
      → NodeIf a o
      → IsRoutedIf params history key child level o
      → Holding held st.lock_ops
      → GoodOutcome (after_place cache o a st)
  unfolding after_place
  Good-after_place none a st same routed h = 0
  Good-after_place (some p) a st same routed h = (routed, Good-ops_after p a st.lock_ops same h)

  Good-lock_and_place :
      (ops : List LockOp) (f : Finding cache)
      → Holding held ops
      → GoodOutcome (lock_and_place cache params history key child level ops f)
  unfolding lock_and_place
  Good-lock_and_place ops f h =
      let a = f.node_address in
      let node = (history (f.now + 1)).internal a in
      elim (Bool-cases (((history f.now).internal a).header.lock == 0)) [
        | inr busy ↦ rw busy h
        | inl free ↦ elim (Bool-cases (node.header.level == level)) [
          | inr other ↦ rw (free, other) 0
          | inl same ↦ elim (Bool-cases (in_fence node.header key)) [
            | inr outside ↦ rw (free, same, outside) (gives_back (takes h))
            | inl within ↦
                rw (free, same, within)
                  (Good-after_place _ a _ (place_entry-node params key child a f.now node)
                    (IsRouted-place_entry params history key child level three well_formed a f.now
                      (record {
                        free = (==_iff _ _).0 free;
                        at_level = (==_iff _ _).0 same;
                        within = within;
                      }))
                    h)
          ]
        ]
      ]

  Good-after_finding :
      (ops : List LockOp) (f : Finding cache) (r : FindNodeResult)
      → Holding held ops
      → GoodOutcome (after_finding cache params history key child level ops f r)
  unfolding after_finding setup_new_root
  Good-after_finding ops f found h = Good-lock_and_place ops f h
  Good-after_finding ops f locked h = h
  Good-after_finding ops f unknown h = 0
  Good-after_finding ops f no_such_level h =
      elim (Bool-cases (update_root_offset cache history (f.now + 2))) [
        | inr lost ↦ rw lost 0
        | inl swapped ↦ rw swapped (
          (
            f.now,
            λ k.
                next_address-new_root params.branch_factor key (history f.now).root child level
                  params.max_key k (omega arith),
          ),
          h,
        )
      ]

  Good-after_find :
      (o : Outcome (Finding cache)) (next : Finding cache → Outcome (Turn cache))
      → ((f : Finding cache) → GoodOutcome (next f))
      → GoodOutcome (after_find cache o next)
  unfolding after_find
  Good-after_find failed next h = 0
  Good-after_find running next h = 0
  Good-after_find (answer f) next h = h f

  Good-turn :
      (attempt : ℕ) (st : State cache)
      → Holding held st.lock_ops
      → GoodOutcome (turn cache params history key child level attempt st)
  unfolding turn
  Good-turn attempt st h = Good-after_find _ _ (λ f. Good-after_finding st.lock_ops f f.result h)

  abbrev pub GoodReturn : Outcome (Returned cache) → Type 0
  GoodReturn (answer (some (placement, st))) = Routes placement × StillHeld placement st.lock_ops
  GoodReturn (answer none) = ℕ
  GoodReturn failed = ℕ
  GoodReturn running = ℕ

  after_turn_good :
      (o : Outcome (Turn cache)) (next : State cache → Outcome (Returned cache))
      → GoodOutcome o
      → ((st : State cache) → Holding held st.lock_ops → GoodReturn (next st))
      → GoodReturn (after_turn cache o next)
  unfolding after_turn
  after_turn_good failed next good on = 0
  after_turn_good running next good on = 0
  after_turn_good (answer (again st)) next good on = on st good
  after_turn_good (answer (done p st)) next good on = good

  loop_good :
      (left attempt : ℕ) (st : State cache)
      → Holding held st.lock_ops
      → GoodReturn (insert_loop cache params history key child level left attempt st)
  unfolding insert_loop
  loop_good zero attempt st h = 0
  loop_good (suc left) attempt st h =
      after_turn_good _ _ (Good-turn attempt st h) (λ st' h'. loop_good left (attempt + 1) st' h')

  -- An end of all levels from this one on.
  abbrev pub GoodEnd : Outcome Inserted → Type 0
  GoodEnd (answer (some (placements, ops))) =
      AreRouted params history key child level placements × Holding held ops
  GoodEnd (answer none) = ℕ
  GoodEnd failed = ℕ
  GoodEnd running = ℕ

module _ (params : Parameters) (history : History) (three : 3 ≤ params.branch_factor)
    (well_formed : WellFormed params.branch_factor history) (cache : Cache) where
  Good-after_above :
      (key : Key) (child : GlobalAddress) (level : ℕ) (held : List GlobalAddress)
      (a : GlobalAddress) (t : ℕ) (parts : SplitNode) (o : Outcome Inserted)
      → IsRouted params history key child level (splits a t parts)
      → GoodEnd params history three well_formed cache parts.middle_key
          (params.new_node_address level)
          (level + 1)
          (a ∷ held)
          o
      → GoodEnd params history three well_formed cache key child level held
          (after_above cache a (splits a t parts) o)
  unfolding after_above
  Good-after_above key child level held a t parts failed routed h = 0
  Good-after_above key child level held a t parts running routed h = 0
  Good-after_above key child level held a t parts (answer none) routed h = 0
  Good-after_above key child level held a t parts (answer (some (above, ops))) routed h =
      ((routed, h.0), gives_back h.1)

  Good-after_loop :
      (key : Key) (child : GlobalAddress) (level : ℕ) (held : List GlobalAddress)
      (o : Outcome (Returned cache)) (next : SplitNode → State cache → Outcome Inserted)
      → GoodReturn params history three well_formed cache key child level held o
      → ((a : GlobalAddress) (parts : SplitNode) (st : State cache)
          → Holding (a ∷ held) st.lock_ops
          → GoodEnd params history three well_formed cache parts.middle_key
              (params.new_node_address level)
              (level + 1)
              (a ∷ held)
              (next parts st))
      → GoodEnd params history three well_formed cache key child level held
          (after_loop cache o next)
  unfolding after_loop
  Good-after_loop key child level held failed next good on = 0
  Good-after_loop key child level held running next good on = 0
  Good-after_loop key child level held (answer none) next good on = 0
  Good-after_loop key child level held (answer (some (grows root, st))) next good on =
      ((good.0, refl), good.1)
  Good-after_loop key child level held (answer (some (present a, st))) next good on =
      ((good.0, refl), good.1)
  Good-after_loop key child level held (answer (some (places a t node, st))) next good on =
      ((good.0, refl), good.1)
  Good-after_loop key child level held (answer (some (splits a t parts, st))) next good on =
      Good-after_above key child level held a t parts (next parts st) good.0 (on a parts st good.1)

  levels_good :
      (levels : ℕ) (key : Key) (child : GlobalAddress) (level now : ℕ) (c : cache.C)
      (ops : List LockOp) (held : List GlobalAddress)
      → Holding held ops
      → GoodEnd params history three well_formed cache key child level held
          (insert_levels cache params history levels key child level now c ops)
  unfolding insert_levels
  levels_good zero key child level now c ops held h = 0
  levels_good (suc levels) key child level now c ops held h =
      Good-after_loop key child level held _ _
        (loop_good params history three well_formed cache key child level held 1_000_000 0 _ h)
        (λ a parts st h'.
          levels_good levels parts.middle_key (params.new_node_address level) (level + 1) st.now
            st.state st.lock_ops (a ∷ held) h')

-- For nodes with room for `branch_factor` children, at least three, and ascending separators, and
-- whatever other clients write meanwhile: when `insert_internal_entry` returns true, every lock that
-- it took at any level has been given back, the last one taken first. At the level asked for, and
-- after a split also at the next one with the key between the halves and the new node, and so on up,
-- it either wrote a node, or two, that it had locked when it was free and that had the level asked for
-- and the key within its fences, by which every key is led where it was, but the keys that the new one
-- parts from its old slot to the new child; or it found the key in such a node; or it built a root that
-- leads the keys below the new one to the root it read, and the others to the new child.
pub insert_internal_entry-IsRouted :
    (cache : Cache) (params : Parameters) (history : History) (key : Key) (child : GlobalAddress)
    (level now : ℕ) (c : cache.C) (placements : List Placement) (ops : List LockOp)
    → 3 ≤ params.branch_factor
    → WellFormed params.branch_factor history
    → insert_internal_entry cache params history key child level now c
      ≡ answer (some (placements, ops))
    → AreRouted params history key child level placements × Holding [] ops
unfolding insert_internal_entry
insert_internal_entry-IsRouted cache params history key child level now c placements ops three
      well_formed e =
    subst (GoodEnd params history three well_formed cache key child level []) e (
      levels_good params history three well_formed cache params.levels key child level now c [] []
        nothing_held)
