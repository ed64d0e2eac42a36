-- ===== src/Rdma/Manager/Tests.antt =====
-- Runs of the manager, and each theorem at an input.
use mathlib.Core.Option
use faunus.Prelude.{
  ◌≤◌, ◌≡◌, refl, true, false, some, List, [], ◌∷◌, length, replicate, arith, Bool,
}
use faunus.Rdma.GlobalAddress.{server_index, offset}
use faunus.Rdma.Manager.Batch.{effect, perform_each, perform_batch-each}
use faunus.Rdma.Manager.Locks.{
  HasWord, Clients, taken, here, later, acquire-HasWord, mutual_exclusion,
}
use faunus.Rdma.Manager.{
  RdmaManager, get_server, perform_found, perform_batch, rdma_try_acquire_lock, perform_op,
}
use faunus.Rdma.Simulation.{RdmaOp, cas, faa, write, copy_out, word_of, load, execute}

-- One server with sixteen bytes.
abbrev one_server : RdmaManager
one_server = record {
  servers = replicate 16 0 ∷ [];
  base_rtt_ns = 1000;
  sleep_enabled = true;
  server_finish_times = 50 ∷ [];
  op_counts = 0 ∷ 0 ∷ 0 ∷ 0 ∷ [];
  total_rtt_ns = 0;
  slept = 0;
  tracked = false;
  recorded = [];
}

one_server-HasWord : HasWord one_server 8 0 8 0
unfolding get_server server_index offset load copy_out word_of
one_server-HasWord = record {
  mem = replicate 16 0;
  serves = record { found = refl; known = omega arith; there = refl };
  room = omega arith;
  small = omega arith;
  word = refl;
}

abbrev two_ops : List RdmaOp
two_ops = record { addr = 0; op = write (1 ∷ 2 ∷ []) } ∷ record { addr = 12; op = faa 1 } ∷ []

-- The second operation does not fit the memory.
abbrev done : Bool × RdmaManager × List RdmaOp
done = Option.get_or (perform_each one_server (λ _. 40) two_ops) (true, one_server, [])

runs : perform_each one_server (λ _. 40) two_ops ≡ some done
unfolding perform_each perform_op perform_found execute
runs = refl

perform_batch-each_example : effect (perform_batch one_server (λ _. 40) two_ops) ≡ effect done
perform_batch-each_example = perform_batch-each one_server (λ _. 40) two_ops done runs

abbrev locked : RdmaManager
locked = (perform_found one_server 40 (record { addr = 8; op = cas 0 1 })).1

locked-HasWord : HasWord locked 8 0 8 1
locked-HasWord = acquire-HasWord_lem.1
  where
    acquire-HasWord_lem :
        (rdma_try_acquire_lock one_server 40 8 ≡ some (true, locked)) × HasWord locked 8 0 8 1
    acquire-HasWord_lem = acquire-HasWord 40 one_server-HasWord

abbrev one_holder : Clients
one_holder = record { manager = locked; holders = 7 ∷ [] }

mutual_exclusion_example : length one_holder.holders ≤ 1
mutual_exclusion_example = mutual_exclusion one_server one_server-HasWord (
    later (record { manager = one_server; holders = [] }) one_holder here
      (taken one_server locked 40 7 [] (acquire-HasWord 40 one_server-HasWord).0))
