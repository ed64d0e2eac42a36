-- ===== src/Index/Maintenance/Tests.antt =====
-- A queue, a request and a worker.
use faunus.Index.Maintenance.{
  FaunusMaintenanceRpc, MaintenanceQueue, split, stop, stopped, request_smo,
  create_maintenance_queues, stop_maintenance, maintenance_worker,
}
use faunus.Prelude.{refl, Bool, List, [], ◌∷◌, ◌++◌, ◌==◌, true, ◌≡◌}
use faunus.Rdma.GlobalAddress.{GlobalAddress, null}

abbrev list_queue : MaintenanceQueue
list_queue = record { Q = List FaunusMaintenanceRpc; empty = []; enqueue = λ q rpc. q ++ rpc ∷ [] }

abbrev splits : GlobalAddress → Bool
splits a = a == 128

abbrev one_queue : List (List FaunusMaintenanceRpc)
one_queue = (request_smo list_queue (create_maintenance_queues list_queue 1) split 128).1

-- The request is served before the worker stops.
serves :
    stop_maintenance list_queue 1 one_queue
    ≡ (record { op = split; leaf_address = 128 } ∷ record { op = stop; leaf_address = null } ∷ [])
      ∷ []
unfolding request_smo create_maintenance_queues stop_maintenance
serves = refl

worker_run :
    maintenance_worker splits
      (record { op = split; leaf_address = 128 } ∷ record { op = stop; leaf_address = null } ∷ [])
    ≡ stopped (true ∷ []) []
unfolding maintenance_worker
worker_run = refl
