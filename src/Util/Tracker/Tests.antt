-- ===== src/Util/Tracker/Tests.antt =====
-- An operation with two batches of verbs.
use faunus.Prelude.{ℕ, ◌≡◌, refl, true, false, List, [], ◌∷◌, replicate, get_or}
use faunus.Rdma.Simulation.{RdmaOp, read, write, cas}
use faunus.Util.Histogram.{new_histogram, get_count}
use faunus.Util.Tracker.Totals.{record_batches}
use faunus.Util.Tracker.{
  ByteHistogram, OperationEntry, Tracker, begin_operation, record_rdma_ops, end_operation,
}

abbrev no_bytes : ByteHistogram
no_bytes = record { buckets = replicate 32 0; total_samples = 0; total_bytes = 0 }

abbrev idle_entry : OperationEntry
idle_entry = record {
  successes = 6;
  failures = 0;
  rtt_counts_per_op = new_histogram;
  rdma_op_counts_per_op = replicate 4 new_histogram;
  bytes_read_per_op = no_bytes;
  bytes_written_per_op = no_bytes;
  cache_hits = 0;
  cache_misses = 0;
  retry_counts_per_op = new_histogram;
  local_lock_acquisitions = 0;
  local_lock_handovers = 0;
}

-- A tracker after another operation.
abbrev used_tracker : Tracker
used_tracker = record {
  per_op = replicate 4 idle_entry;
  current_op = 0;
  tracking_active = false;
  rtt_count = 9;
  rdma_op_counts = replicate 4 3;
  bytes_read = 70;
  bytes_written = 80;
  retry_count = 2;
}

abbrev two_batches : List (List RdmaOp)
two_batches =
    (record { addr = 16; op = read [] 64 } ∷ record { addr = 80; op = write (1 ∷ 2 ∷ []) } ∷ [])
    ∷ (record { addr = 8; op = cas 0 1 } ∷ [])
    ∷ []

abbrev entry_at : Tracker → ℕ → OperationEntry
entry_at t kind = get_or t.per_op kind idle_entry

-- The operation ends with two round trips in the entry of its kind.
ends :
    let t = end_operation (record_batches (begin_operation used_tracker 1) two_batches) true in
    (get_count (entry_at t 1).rtt_counts_per_op 2 ≡ 1)
    × ((entry_at t 1).successes ≡ 7)
    × ((entry_at t 0).successes ≡ 6)
unfolding begin_operation record_rdma_ops end_operation get_count
ends = (refl, refl, refl)
