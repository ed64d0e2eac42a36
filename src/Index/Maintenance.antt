-- ===== src/Index/Maintenance.antt =====
-- src/kv_index/faunus_index.cpp and src/util/maintenance_queue.hpp: the queues of requested splits and
-- their workers. The queue inside `MaintenanceQueue` is third-party code, given by its operations; a
-- worker runs over what dequeuing yields.
mod Tests
use faunus.Prelude.{
  ℕ, zero, suc, ◌+◌, ◌*◌, ◌/◌, ◌%◌, ◌^◌, bit_xor, ◌≡◌, Bool, true, false, Option, none, some, List,
  [], ◌∷◌, ◌++◌, length, get_elem?, set, replicate, ◌==◌, if◌then◌else◌,
}
use faunus.Rdma.GlobalAddress.{GlobalAddress, null}

-- `FaunusMaintenanceRPC`, without the promise of its result
pub data OpType : Type 0 where
  split merge stop : OpType

pub record FaunusMaintenanceRpc : Type 0 where
  pub op : OpType
  pub leaf_address : GlobalAddress

-- `MaintenanceQueue<FaunusMaintenanceRPC>`
pub record MaintenanceQueue : Type 1 where
  pub Q : Type 0
  pub empty : Q
  pub enqueue : Q → FaunusMaintenanceRpc → Q

-- `hash_int`
unfoldable pub hash_int : ℕ → ℕ
hash_int x =
    let a = bit_xor x (x / 2 ^ 30) * 0xbf58_476d_1ce4_e5b9 % 2 ^ 64 in
    let b = bit_xor a (a / 2 ^ 27) * 0x94d0_49bb_1331_11eb % 2 ^ 64 in bit_xor b (b / 2 ^ 31)

-- What a worker has done: it stopped, a request for a merge failed an assertion, or it waits for more.
-- `results` are those of the splits, in order.
pub data Worked : Type 0 where
  stopped : (results : List Bool) (rest : List FaunusMaintenanceRpc) → Worked
  failed : Worked
  waits : (results : List Bool) → Worked

abbrev pub with_result : Bool → Worked → Worked
with_result result (stopped results rest) = stopped (result ∷ results) rest
with_result result failed = failed
with_result result (waits results) = waits (result ∷ results)

-- The loop of `maintenance_worker` over the requests that `wait_dequeue` yields.
unfoldable pub maintenance_worker : (GlobalAddress → Bool) → List FaunusMaintenanceRpc → Worked
maintenance_worker split_leaf [] = waits []
maintenance_worker split_leaf (rpc ∷ rpcs) =
    let rest = maintenance_worker split_leaf rpcs in
    elim rpc.op [
      | split ↦ with_result (split_leaf rpc.leaf_address) rest
      | merge ↦ failed
      | stop ↦ stopped [] rpcs
    ]

module _ (queue : MaintenanceQueue) where
  -- `create_maintenance_queues`
  unfoldable pub create_maintenance_queues : ℕ → List queue.Q
  create_maintenance_queues num_queues = replicate num_queues queue.empty

  -- `get_maintenance_queue`, with `none` for null
  abbrev pub get_maintenance_queue : List queue.Q → ℕ → Option queue.Q
  get_maintenance_queue queues cs_id = get_elem? queues cs_id

  unfoldable pub enqueue_at :
      List queue.Q → ℕ → FaunusMaintenanceRpc → Option queue.Q → Bool × List queue.Q
  enqueue_at queues queue_idx rpc none = (false, queues)
  enqueue_at queues queue_idx rpc (some q) = (true, set queues queue_idx (queue.enqueue q rpc))

  -- `request_smo`, where maintenance is enabled
  unfoldable pub request_smo : List queue.Q → OpType → GlobalAddress → Bool × List queue.Q
  unfolding enqueue_at hash_int
  request_smo queues op leaf_address =
      let num_queues = length queues in
      let queue_idx = hash_int leaf_address % num_queues in
      let rpc : FaunusMaintenanceRpc = record { op = op; leaf_address = leaf_address } in
      if num_queues == 0
      then (false, queues)
      else enqueue_at queues queue_idx rpc (get_maintenance_queue queues queue_idx)

  unfoldable pub enqueue_stops : ℕ → queue.Q → queue.Q
  enqueue_stops zero q = q
  enqueue_stops (suc n) q =
      enqueue_stops n (queue.enqueue q (record { op = stop; leaf_address = null }))

  -- `stop_maintenance`
  unfoldable pub stop_maintenance : ℕ → List queue.Q → List queue.Q
  unfolding enqueue_stops
  stop_maintenance threads_per_queue [] = []
  stop_maintenance threads_per_queue (q ∷ queues) =
      enqueue_stops threads_per_queue q ∷ stop_maintenance threads_per_queue queues
