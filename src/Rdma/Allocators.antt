-- ===== src/Rdma/Allocators.antt =====
-- src/rdma/memory_server.cpp, rpc_allocator.hpp, local_allocator.hpp: memory for the indexes. A
-- memory server gives out chunks one after the other, an RPC allocator asks the servers in turn, and
-- a slab allocator cuts chunks into blocks of one size and keeps the free ones in a queue. The mutex
-- and the queues serialize the calls, so each call is one step.
pub mod Slab
pub mod Servers
mod Tests
use faunus.Prelude.{
  ℕ, zero, suc, ◌+◌, ◌-◌, ◌*◌, ◌%◌, ◌<◌, ◌≡◌, Bool, true, false, Option, none, some, List, [], ◌∷◌,
  ◌++◌, length, get_or, set, ltb, ◌==◌, if◌then◌else◌,
}
use faunus.Rdma.GlobalAddress.{GlobalAddress, from_parts, server_index, offset}

-- `MemoryServer`: the set of chunks in use is a list.
pub record MemoryServer : Type 0 where
  pub next_offset : ℕ
  pub allocated : List ℕ

unfoldable pub allocate : MemoryServer → ℕ → ℕ × MemoryServer
allocate server size = (
  server.next_offset,
  record {
    next_offset = server.next_offset + size;
    allocated = server.next_offset ∷ server.allocated;
  },
)

abbrev pub erase : List ℕ → ℕ → List ℕ
erase [] x = []
erase (y ∷ ys) x = let rest = erase ys x in if y == x then rest else y ∷ rest

unfoldable pub free : MemoryServer → ℕ → MemoryServer
free server offset = record server { allocated = erase server.allocated offset }

-- `RPCAllocator`: the servers, and the counter that picks one.
pub record RpcAllocator : Type 0 where
  pub servers : List MemoryServer
  pub rr : ℕ

abbrev pub no_server : MemoryServer
no_server = record { next_offset = 0; allocated = [] }

unfoldable pub pick_server : RpcAllocator → ℕ
pick_server rpc = rpc.rr % length rpc.servers

-- `RPCAllocator::allocate`
unfoldable pub rpc_allocate : RpcAllocator → ℕ → GlobalAddress × RpcAllocator
unfolding pick_server allocate from_parts
rpc_allocate rpc chunk_size =
    let server_idx = pick_server rpc in
    let (local_offset, server) = allocate (get_or rpc.servers server_idx no_server) chunk_size in
    (
      from_parts server_idx local_offset,
      record { servers = set rpc.servers server_idx server; rr = rpc.rr + 1 },
    )

-- `RPCAllocator::free`
unfoldable pub rpc_free : RpcAllocator → GlobalAddress → RpcAllocator
unfolding free server_index offset
rpc_free rpc address =
    let server_idx = server_index address in
    record rpc {
      servers =
          set rpc.servers server_idx
            (free (get_or rpc.servers server_idx no_server) (offset address));
    }
