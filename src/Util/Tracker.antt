-- ===== src/Util/Tracker.antt =====
-- src/util/thread_stats.hpp: what a thread counts during a tree operation, and the entry for each kind
-- of operation that it adds to at the end. Latencies, which are floating-point, are left out.
pub mod Totals
mod Tests
use faunus.Prelude.{
  ℕ, zero, suc, ◌+◌, ◌%◌, ◌^◌, Bool, true, false, List, [], ◌∷◌, get_or, set, replicate, ltb, ◌==◌,
  if◌then◌else◌,
}
use faunus.Rdma.Manager.{op_type}
use faunus.Rdma.Simulation.{RdmaOp, Operation, read, write, cas, faa}
use faunus.Prelude.{length}
use faunus.Util.Histogram.{
  DiscreteHistogram, new_histogram, bump, record_value, num_byte_buckets, get_bucket_index,
}

-- `LogarithmicByteHistogram`
pub record ByteHistogram : Type 0 where
  pub buckets : List ℕ
  pub total_samples : ℕ
  pub total_bytes : ℕ

-- `LogarithmicByteHistogram::record`
unfoldable pub record_size : ByteHistogram → ℕ → ByteHistogram
unfolding get_bucket_index
record_size h bytes = record {
  buckets = bump h.buckets (get_bucket_index bytes);
  total_samples = (h.total_samples + 1) % 2 ^ 64;
  total_bytes = (h.total_bytes + bytes) % 2 ^ 64;
}

-- `ThreadStats::OperationEntry`, with the two counters of `CacheStats`
pub record OperationEntry : Type 0 where
  pub successes : ℕ
  pub failures : ℕ
  pub rtt_counts_per_op : DiscreteHistogram
  pub rdma_op_counts_per_op : List DiscreteHistogram
  pub bytes_read_per_op : ByteHistogram
  pub bytes_written_per_op : ByteHistogram
  pub cache_hits : ℕ
  pub cache_misses : ℕ
  pub retry_counts_per_op : DiscreteHistogram
  pub local_lock_acquisitions : ℕ
  pub local_lock_handovers : ℕ

-- An entry of `ThreadStats::per_op` changes.
abbrev pub modify :
    List OperationEntry → ℕ → (OperationEntry → OperationEntry) → List OperationEntry
modify [] i f = []
modify (e ∷ es) zero f = f e ∷ es
modify (e ∷ es) (suc i) f = e ∷ modify es i f

-- `ThreadStatsTracker`: `per_op` has an entry for each kind of operation.
pub record Tracker : Type 0 where
  pub per_op : List OperationEntry
  pub current_op : ℕ
  pub tracking_active : Bool
  pub rtt_count : ℕ
  pub rdma_op_counts : List ℕ
  pub bytes_read : ℕ
  pub bytes_written : ℕ
  pub retry_count : ℕ

-- A change of the entry of the current operation.
abbrev pub in_entry : Tracker → (OperationEntry → OperationEntry) → Tracker
in_entry t f = record t { per_op = modify t.per_op t.current_op f }

unfoldable pub begin_operation : Tracker → ℕ → Tracker
begin_operation t kind = record t {
  current_op = kind;
  tracking_active = true;
  rtt_count = 0;
  rdma_op_counts = replicate 4 0;
  bytes_read = 0;
  bytes_written = 0;
  retry_count = 0;
}

abbrev pub read_bytes : Operation → ℕ
read_bytes (read buffer bytes) = bytes
read_bytes (write buffer) = 0
read_bytes (cas expected desired) = 0
read_bytes (faa increment) = 0

abbrev pub written_bytes : Operation → ℕ
written_bytes (read buffer bytes) = 0
written_bytes (write buffer) = length buffer
written_bytes (cas expected desired) = 0
written_bytes (faa increment) = 0

-- The part of `record_rdma_op` and `record_rdma_ops` for one descriptor.
unfoldable pub count_op : Tracker → RdmaOp → Tracker
unfolding op_type
count_op t op =
    let type_idx = op_type op.op in
    record t {
      rdma_op_counts =
          set t.rdma_op_counts type_idx ((get_or t.rdma_op_counts type_idx 0 + 1) % 2 ^ 32);
      bytes_read = (t.bytes_read + read_bytes op.op) % 2 ^ 64;
      bytes_written = (t.bytes_written + written_bytes op.op) % 2 ^ 64;
    }

unfoldable pub count_ops : Tracker → List RdmaOp → Tracker
unfolding count_op
count_ops t [] = t
count_ops t (op ∷ ops) = count_ops (count_op t op) ops

abbrev pub round_trip : Tracker → Tracker
round_trip t = record t { rtt_count = (t.rtt_count + 1) % 2 ^ 32 }

unfoldable pub record_rdma_op : Tracker → RdmaOp → Tracker
unfolding count_op
record_rdma_op t op = if t.tracking_active then count_op (round_trip t) op else t

unfoldable pub record_rdma_ops : Tracker → List RdmaOp → Tracker
unfolding count_ops
record_rdma_ops t ops = if t.tracking_active then count_ops (round_trip t) ops else t

unfoldable pub record_retry : Tracker → Tracker
record_retry t =
    if t.tracking_active then record t { retry_count = (t.retry_count + 1) % 2 ^ 32 } else t

unfoldable pub record_local_lock_acquisition : Tracker → Bool → Tracker
record_local_lock_acquisition t was_handover =
    if t.tracking_active
    then in_entry t (λ e. record e {
      local_lock_acquisitions = (e.local_lock_acquisitions + 1) % 2 ^ 64;
      local_lock_handovers =
          if was_handover then (e.local_lock_handovers + 1) % 2 ^ 64 else e.local_lock_handovers;
    })
    else t

unfoldable pub record_cache_hit : Tracker → Tracker
record_cache_hit t =
    if t.tracking_active
    then in_entry t (λ e. record e { cache_hits = (e.cache_hits + 1) % 2 ^ 64 })
    else t

unfoldable pub record_cache_miss : Tracker → Tracker
record_cache_miss t =
    if t.tracking_active
    then in_entry t (λ e. record e { cache_misses = (e.cache_misses + 1) % 2 ^ 64 })
    else t

-- The types of verbs that were used, one histogram each.
unfoldable pub record_types : List DiscreteHistogram → List ℕ → List DiscreteHistogram
unfolding record_value
record_types [] counts = []
record_types (h ∷ hs) [] = h ∷ hs
record_types (h ∷ hs) (count ∷ counts) =
    let rest = record_types hs counts in
    if ltb 0 count then record_value h count ∷ rest else h ∷ rest

unfoldable pub end_operation : Tracker → Bool → Tracker
unfolding record_types record_value record_size
end_operation t success =
    if t.tracking_active
    then record (in_entry t (λ e. record {
      successes = if success then (e.successes + 1) % 2 ^ 64 else e.successes;
      failures = if success then e.failures else (e.failures + 1) % 2 ^ 64;
      rtt_counts_per_op = record_value e.rtt_counts_per_op t.rtt_count;
      rdma_op_counts_per_op = record_types e.rdma_op_counts_per_op t.rdma_op_counts;
      bytes_read_per_op = record_size e.bytes_read_per_op t.bytes_read;
      bytes_written_per_op = record_size e.bytes_written_per_op t.bytes_written;
      cache_hits = e.cache_hits;
      cache_misses = e.cache_misses;
      retry_counts_per_op = record_value e.retry_counts_per_op t.retry_count;
      local_lock_acquisitions = e.local_lock_acquisitions;
      local_lock_handovers = e.local_lock_handovers;
    })) { tracking_active = false }
    else t
