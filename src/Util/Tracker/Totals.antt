-- ===== src/Util/Tracker/Totals.antt =====
-- What has been counted between the beginning and the end of an operation.
use faunus.Prelude.{
  ℕ, ◌+◌, ◌%◌, ◌^◌, ◌≡◌, refl, sym, ap, true, List, [], ◌∷◌, length, if◌then◌else◌, arith,
}
use faunus.Rdma.Simulation.{RdmaOp, Operation}
use mathlib.Core.Path.{subst}
use faunus.Util.Tracker.{
  Tracker, begin_operation, read_bytes, written_bytes, count_op, count_ops, round_trip,
  record_rdma_ops,
}

-- The sums over all batches of an operation.
abbrev pub total : (Operation → ℕ) → List RdmaOp → ℕ
total f [] = 0
total f (op ∷ ops) = f op.op + total f ops

abbrev pub total_of : (Operation → ℕ) → List (List RdmaOp) → ℕ
total_of f [] = 0
total_of f (ops ∷ batches) = total f ops + total_of f batches

abbrev pub record_batches : Tracker → List (List RdmaOp) → Tracker
record_batches t [] = t
record_batches t (ops ∷ batches) = record_batches (record_rdma_ops t ops) batches

-- The counters of a tracker that is active.
pub record Counts (t : Tracker) (rtts bytes_read bytes_written : ℕ) : Type 0 where
  pub active : t.tracking_active ≡ true
  pub trips : t.rtt_count ≡ rtts % 2 ^ 32
  pub reads : t.bytes_read ≡ bytes_read % 2 ^ 64
  pub writes : t.bytes_written ≡ bytes_written % 2 ^ 64

count_ops-Counts :
    (t : Tracker) (ops : List RdmaOp) (n r w : ℕ)
    → Counts t n r w
    → Counts (count_ops t ops) n (r + total read_bytes ops) (w + total written_bytes ops)
unfolding count_ops count_op
count_ops-Counts t [] n r w c = record {
  active = c.active;
  trips = c.trips;
  reads = omega (arith, c.reads);
  writes = omega (arith, c.writes);
}
count_ops-Counts t (op ∷ ops) n r w c =
    let next : Counts (count_op t op) n (r + read_bytes op.op) (w + written_bytes op.op) = record {
      active = c.active;
      trips = c.trips;
      reads = omega (arith, c.reads);
      writes = omega (arith, c.writes);
    } in
    let r' : r + read_bytes op.op + total read_bytes ops
        ≡ r + (read_bytes op.op + total read_bytes ops) =
      omega arith in
    let w' : w + written_bytes op.op + total written_bytes ops
        ≡ w + (written_bytes op.op + total written_bytes ops) =
      omega arith in
    rw (r', w') at
      (count_ops-Counts (count_op t op) ops n (r + read_bytes op.op) (w + written_bytes op.op) next)

active_ops :
    (t : Tracker) (ops : List RdmaOp)
    → t.tracking_active ≡ true
    → record_rdma_ops t ops ≡ count_ops (round_trip t) ops
unfolding record_rdma_ops
active_ops t ops h = ap (λ b. if b then count_ops (round_trip t) ops else t) h

record_batches-Counts :
    (t : Tracker) (batches : List (List RdmaOp)) (n r w : ℕ)
    → Counts t n r w
    → Counts
        (record_batches t batches)
        (n + length batches)
        (r + total_of read_bytes batches)
        (w + total_of written_bytes batches)
unfolding record_rdma_ops
record_batches-Counts t [] n r w c = record {
  active = c.active;
  trips = omega (arith, c.trips);
  reads = omega (arith, c.reads);
  writes = omega (arith, c.writes);
}
record_batches-Counts t (ops ∷ batches) n r w c =
    let first : Counts (round_trip t) (n + 1) r w = record {
      active = c.active;
      trips = omega (arith, c.trips);
      reads = c.reads;
      writes = c.writes;
    } in
    let counted = count_ops-Counts (round_trip t) ops (n + 1) r w first in
    let rest =
      record_batches-Counts (count_ops (round_trip t) ops) batches (n + 1)
        (r + total read_bytes ops) (w + total written_bytes ops) counted in
    let whole : Counts (record_batches (count_ops (round_trip t) ops) batches)
        (n + length (ops ∷ batches)) (r + total_of read_bytes (ops ∷ batches))
        (w + total_of written_bytes (ops ∷ batches)) =
      record {
        active = rest.active;
        trips = omega (arith, rest.trips);
        reads = omega (arith, rest.reads);
        writes = omega (arith, rest.writes);
      } in
    subst
      (λ x.
        Counts (record_batches x batches) (n + length (ops ∷ batches))
          (r + total_of read_bytes (ops ∷ batches)) (w + total_of written_bytes (ops ∷ batches)))
      (sym (active_ops t ops c.active)) whole

-- Whatever was counted before, after the beginning of an operation and any batches of verbs the
-- tracker has counted each batch as one round trip, and the bytes of all reads and of all writes in
-- them, in its 32 and 64 bits.
begin_operation-Counts :
    (t : Tracker) (kind : ℕ) (batches : List (List RdmaOp))
    → Counts
        (record_batches (begin_operation t kind) batches)
        (length batches)
        (total_of read_bytes batches)
        (total_of written_bytes batches)
unfolding begin_operation
begin_operation-Counts t kind batches =
    let c =
      record_batches-Counts (begin_operation t kind) batches 0 0 0
        (record { active = refl; trips = refl; reads = refl; writes = refl }) in
    record {
      active = c.active;
      trips = omega (arith, c.trips);
      reads = omega (arith, c.reads);
      writes = omega (arith, c.writes);
    }
