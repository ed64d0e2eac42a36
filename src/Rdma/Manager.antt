-- ===== src/Rdma/Manager.antt =====
-- src/rdma/rdma_manager.hpp and .cpp: the manager that maps an address to a server and performs
-- operations there, with its counters and its model of the time that they take.
pub mod Batch
pub mod Locks
pub mod Delay
mod Tests
use faunus.Prelude.{
  ℕ, suc, ◌+◌, ◌-◌, ◌*◌, ◌/◌, ◌%◌, ◌^◌, max, Bool, true, false, ◌&&◌, Option, none, some, List, [],
  ◌∷◌, ◌++◌, length, get_elem?, get_or, set, ltb, leb, ◌==◌, if◌then◌else◌, ◌>>=◌,
}
use faunus.Rdma.GlobalAddress.{GlobalAddress, server_index, offset}
use faunus.Rdma.Simulation.{
  Memory, Operation, read, write, cas, faa, RdmaOp, Completion, execute, in_bounds,
}

-- The part of `RDMAManager` that operations read or change. `servers` are the memories of
-- `mem_servers_`; `server_finish_times` has one entry for each, 0 where the map has none. `op_counts`
-- and `total_rtt_ns` are the calling thread's statistics. Of the effects outside, `slept` adds up the
-- sleeps and `recorded` has the operations handed to the thread's stats tracker, call by call.
pub record RdmaManager : Type 0 where
  pub servers : List Memory
  pub base_rtt_ns : ℕ
  pub sleep_enabled : Bool
  pub server_finish_times : List ℕ
  pub op_counts : List ℕ
  pub total_rtt_ns : ℕ
  pub slept : ℕ
  pub tracked : Bool
  pub recorded : List (List RdmaOp)

-- `SIMULATED_BW_BPS`
abbrev pub simulated_bw_bps : ℕ
simulated_bw_bps = 12500000000

-- The index of the type in `op_counts`.
unfoldable pub op_type : Operation → ℕ
op_type (read buffer bytes) = 0
op_type (write buffer) = 1
op_type (cas expected desired) = 2
op_type (faa increment) = 3

unfoldable pub transfer_bytes : Operation → ℕ
transfer_bytes (read buffer bytes) = bytes
transfer_bytes (write buffer) = length buffer
transfer_bytes (cas expected desired) = 8
transfer_bytes (faa increment) = 8

unfoldable pub calculate_bw_delay_ns : Operation → ℕ
unfolding transfer_bytes
calculate_bw_delay_ns op = transfer_bytes op * 1000000000 / simulated_bw_bps

-- `get_server`: the server's index and the address there.
unfoldable pub get_server : List Memory → GlobalAddress → Option (ℕ × ℕ)
unfolding server_index offset
get_server servers gaddr =
    if ltb (server_index gaddr) (length servers)
    then some (server_index gaddr, offset gaddr)
    else none

-- What an operation returns, the manager and the descriptor after it.
abbrev pub Outcome : Type 0
Outcome = Bool × RdmaManager × RdmaOp

unfoldable pub execute_at : RdmaManager → RdmaOp → Option (ℕ × ℕ) → Outcome
execute_at mgr op none = (false, mgr, op)
execute_at mgr op (some (server, local_addr)) =
    let done = execute (get_or mgr.servers server []) local_addr op.op in
    (
      done.ok,
      record mgr { servers = set mgr.servers server done.memory },
      record { addr = op.addr; op = done.operation },
    )

unfoldable pub execute_rdma : RdmaManager → RdmaOp → Outcome
unfolding execute_at
execute_rdma mgr op = execute_at mgr op (get_server mgr.servers op.addr)

-- `sleep_ns`
unfoldable pub sleep_ns : RdmaManager → ℕ → RdmaManager
sleep_ns mgr interval =
    if mgr.sleep_enabled then record mgr { slept = mgr.slept + interval } else mgr

-- `get_server_time_delay`, at the time `now`: the delay and the manager.
unfoldable pub get_server_time_delay : RdmaManager → ℕ → ℕ → ℕ → ℕ × RdmaManager
get_server_time_delay mgr server t_trans now =
    let prev = get_or mgr.server_finish_times server 0 in
    let free = if ltb now prev then prev else now in
    let queue = if ltb now prev then prev - now else 0 in
    (
      queue + t_trans,
      record mgr { server_finish_times = set mgr.server_finish_times server (free + t_trans) },
    )

abbrev pub count : List ℕ → Operation → List ℕ
count counts op = set counts (op_type op) (get_or counts (op_type op) 0 + 1)

-- The operations handed to the thread's stats tracker, if it has one.
abbrev track : RdmaManager → List RdmaOp → RdmaManager
track mgr ops = record mgr {
  recorded = if mgr.tracked then mgr.recorded ++ ops ∷ [] else mgr.recorded;
}

-- `perform_op`, where the clock reads `now`, on the server that it found.
unfoldable pub perform_at : RdmaManager → ℕ → RdmaOp → Option (ℕ × ℕ) → Outcome
unfolding get_server_time_delay sleep_ns execute_rdma calculate_bw_delay_ns op_type
perform_at mgr now op none = (false, mgr, op)
perform_at mgr now op (some (server, _)) =
    let one_way_ns = mgr.base_rtt_ns / 2 in
    let bw_delay_ns = calculate_bw_delay_ns op.op in
    let (server_delay, mgr1) = get_server_time_delay mgr server bw_delay_ns now in
    let pre_op_sleep = one_way_ns + server_delay in
    let (result, mgr2, op') = execute_rdma (sleep_ns mgr1 pre_op_sleep) op in
    let post_op_sleep = one_way_ns + (if op_type op.op == 0 then bw_delay_ns else 0) in
    let mgr3 = sleep_ns mgr2 post_op_sleep in
    (
      result,
      track
          (record mgr3 {
            op_counts = count mgr3.op_counts op.op;
            total_rtt_ns = mgr3.total_rtt_ns + (pre_op_sleep + post_op_sleep);
          })
          (op' ∷ []),
      op',
    )

unfoldable pub perform_found : RdmaManager → ℕ → RdmaOp → Outcome
unfolding perform_at get_server
perform_found mgr now op = perform_at mgr now op (get_server mgr.servers op.addr)

-- The assertion of `rdma_read`, which a read out of range fails.
unfoldable pub reads_within : Memory → ℕ → Operation → Bool
reads_within mem addr (read buffer bytes) = in_bounds mem addr bytes
reads_within mem addr (write buffer) = true
reads_within mem addr (cas expected desired) = true
reads_within mem addr (faa increment) = true

-- `perform_op`, with its assertion that the server exists and that of `rdma_read`; `none` is one that
-- fails.
unfoldable pub perform_op : RdmaManager → ℕ → RdmaOp → Option Outcome
unfolding server_index offset reads_within
perform_op mgr now op =
    let mem = get_or mgr.servers (server_index op.addr) [] in
    if ltb (server_index op.addr) (length mgr.servers) && reads_within mem (offset op.addr) op.op
    then some (perform_found mgr now op)
    else none

-- One round of the loop of `perform_batch`: whether the operation went well, the manager, the
-- operation, and the time at the server.
unfoldable pub batch_at : RdmaManager → ℕ → RdmaOp → Option (ℕ × ℕ) → Outcome × ℕ
unfolding get_server_time_delay execute_rdma calculate_bw_delay_ns op_type
batch_at mgr now op none = ((false, mgr, op), 0)
batch_at mgr now op (some (server, _)) =
    let bw_delay_ns = calculate_bw_delay_ns op.op in
    let (server_delay, mgr1) = get_server_time_delay mgr server bw_delay_ns now in
    let (result, mgr2, op') = execute_rdma mgr1 op in
    let one_way_ns = mgr.base_rtt_ns / 2 in
    let mgr3 = record mgr2 {
      op_counts = count mgr2.op_counts op.op;
      total_rtt_ns = mgr2.total_rtt_ns + (one_way_ns + server_delay + one_way_ns);
    } in
    ((result, if result then mgr3 else mgr2, op'), server_delay)

-- The loop: whether all went well, the manager, the operations and the longest time at one server.
-- `now` gives the clock for each operation, by the number of those still to come.
unfoldable pub batch_loop :
    RdmaManager → (ℕ → ℕ) → List RdmaOp → ℕ → Bool × RdmaManager × List RdmaOp × ℕ
unfolding get_server batch_at
batch_loop mgr now [] longest = (true, mgr, [], longest)
batch_loop mgr now (op ∷ ops) longest =
    let ((result, mgr1, op'), server_delay) =
      batch_at mgr (now (length ops)) op (get_server mgr.servers op.addr) in
    let (ok, mgr2, ops', longest') = batch_loop mgr1 now ops (max longest server_delay) in
    if result then (ok, mgr2, op' ∷ ops', longest') else (false, mgr1, op' ∷ ops, longest)

-- `perform_batch`
unfoldable pub perform_batch :
    RdmaManager → (ℕ → ℕ) → List RdmaOp → Bool × RdmaManager × List RdmaOp
unfolding batch_loop sleep_ns
perform_batch mgr now [] = (true, mgr, [])
perform_batch mgr now (op ∷ ops) =
    let one_way_ns = mgr.base_rtt_ns / 2 in
    let (ok, mgr1, ops', longest) = batch_loop (sleep_ns mgr one_way_ns) now (op ∷ ops) 0 in
    if ok
    then (true, track (sleep_ns mgr1 (longest + one_way_ns)) ops', ops')
    else (false, mgr1, ops')

-- `rdma_try_acquire_lock`: whether the word was free. A CAS that fails as a verb fails an assertion,
-- which is `none`.
unfoldable pub acquired : Bool → RdmaManager → Operation → Option (Bool × RdmaManager)
acquired true mgr (cas expected desired) = some (expected == 0, mgr)
acquired true mgr (read buffer bytes) = none
acquired true mgr (write buffer) = none
acquired true mgr (faa increment) = none
acquired false mgr op = none

unfoldable pub rdma_try_acquire_lock : RdmaManager → ℕ → GlobalAddress → Option (Bool × RdmaManager)
unfolding perform_op acquired
rdma_try_acquire_lock mgr now lock_address = do
  (ok, mgr', op') ← perform_op mgr now (record { addr = lock_address; op = cas 0 1 })
  acquired ok mgr' op'.op

-- `rdma_release_lock`: the increment is -1 in 64 bits.
unfoldable pub rdma_release_lock : RdmaManager → ℕ → GlobalAddress → Option (Bool × RdmaManager)
unfolding perform_op
rdma_release_lock mgr now lock_address = do
  (ok, mgr', _) ← perform_op mgr now (record { addr = lock_address; op = faa (2 ^ 64 - 1) })
  some (ok, mgr')

-- `rdma_cas_release_lock` writes eight bytes of zero.
unfoldable pub rdma_cas_release_lock : RdmaManager → ℕ → GlobalAddress → Option (Bool × RdmaManager)
unfolding perform_op
rdma_cas_release_lock mgr now lock_address = do
  let zero_word = 0 ∷ 0 ∷ 0 ∷ 0 ∷ 0 ∷ 0 ∷ 0 ∷ 0 ∷ []
  (ok, mgr', _) ← perform_op mgr now (record { addr = lock_address; op = write zero_word })
  some (ok, mgr')
