-- ===== src/Index/Parent/Tests.antt =====
-- An entry for a child at 40 placed in a root that holds one child.
use faunus.Index.Outcome.{Outcome, answer, failed, running}
use faunus.Index.Find.Example.{old_cache, header_of}
use faunus.Index.Find.Routes.{still}
use faunus.Index.Find.{Memory}
use faunus.Index.Internal.{InternalNode, insert_entry, split_internal_node}
use faunus.Index.Parent.Placed.{WellFormed, Holding, AreRouted}
use faunus.Index.Parent.Routed.{insert_internal_entry-IsRouted}
use faunus.Index.Parent.{
  locks, unlocks, places, Parameters, insert_internal_entry, LockOp, Inserted, insert_loop,
}
use faunus.Prelude.{refl, [], ◌∷◌, arith, some, none, List, ◌≡◌}

abbrev root : InternalNode
root = record {
  header = header_of 1 0 1000 0;
  entries =
      record { key = 0; child = 20 }
      ∷ record { key = 0; child = 0 }
      ∷ record { key = 0; child = 0 }
      ∷ [];
}

abbrev one_node : Memory
one_node = record {
  root = 10;
  internal = λ a. root;
  leaf = λ a. record { header = header_of 0 0 1000 0; kv_blocks = [] };
  item = λ a. record { key = 0; value = [] };
}

abbrev params : Parameters
params = record {
  branch_factor = 3;
  max_key = 1000;
  fuel = 3;
  stray = 0;
  new_node_address = λ level. 80;
  levels = 2;
}

one_node-WellFormed : WellFormed 3 (still one_node)
one_node-WellFormed t a = (λ i j h l. absurd (omega arith), refl, omega arith)

insert_internal_entry-IsRouted_example :
    AreRouted params (still one_node) 150 40 1 (places 10 0 (insert_entry root 150 40 0) ∷ [])
    × Holding [] (unlocks 10 ∷ locks 10 ∷ [])
unfolding insert_internal_entry insert_loop
insert_internal_entry-IsRouted_example =
    insert_internal_entry-IsRouted old_cache params (still one_node) 150 40 1 0 []
      (places 10 0 (insert_entry root 150 40 0) ∷ []) (unlocks 10 ∷ locks 10 ∷ []) (omega arith)
      one_node-WellFormed refl

-- A full root is split, and the next level is not there: after the split it stays locked until a new
-- root is written.
abbrev full_root : InternalNode
full_root = record {
  header = header_of 1 0 1000 2;
  entries =
      record { key = 100; child = 20 }
      ∷ record { key = 200; child = 30 }
      ∷ record { key = 0; child = 50 }
      ∷ [];
}

abbrev full_node : Memory
full_node = record {
  root = 10;
  internal = λ a. full_root;
  leaf = λ a. record { header = header_of 0 0 1000 0; kv_blocks = [] };
  item = λ a. record { key = 0; value = [] };
}

locks_of : Outcome Inserted → List LockOp
locks_of (answer (some (placements, ops))) = ops
locks_of (answer none) = []
locks_of failed = []
locks_of running = []

splits_root :
    locks_of (insert_internal_entry old_cache params (still full_node) 150 40 1 0 [])
    ≡ unlocks 10 ∷ locks 10 ∷ []
unfolding insert_internal_entry insert_loop split_internal_node locks_of
splits_root = refl
