-- ===== src/Rdma/Allocators/Tests.antt =====
-- Two memory servers and their allocator.
use faunus.Rdma.Allocators.Servers.{rpc_free-rpc_allocate}
use faunus.Rdma.Allocators.Slab.Once.{times}
use faunus.Rdma.Allocators.{RpcAllocator, no_server, pick_server, rpc_allocate, rpc_free}
use faunus.Rdma.GlobalAddress.{server_index, offset}
use faunus.Prelude.{◌≡◌, refl, [], ◌∷◌, get_or, arith}

abbrev two_servers : RpcAllocator
two_servers = record {
  servers =
      record { next_offset = 96; allocated = 32 ∷ 0 ∷ [] }
      ∷ record { next_offset = 64; allocated = 0 ∷ [] }
      ∷ [];
  rr = 5;
}

rpc_free-rpc_allocate_example :
    let (address, rpc') = rpc_allocate two_servers 128 in
    (server_index address ≡ pick_server two_servers)
    × (offset address
        ≡ (get_or two_servers.servers (pick_server two_servers) no_server).next_offset)
    × ((get_or (rpc_free rpc' address).servers 1 no_server).allocated
        ≡ (get_or two_servers.servers 1 no_server).allocated)
unfolding pick_server times
rpc_free-rpc_allocate_example =
    rpc_free-rpc_allocate two_servers 128 1 (omega arith) (omega arith) (omega arith) refl
