-- ===== src/Rdma/Allocators/Servers.antt =====
-- Memory servers as the allocator of slabs, and behind the RPC allocator.
use faunus.Prelude.{
  ℕ, ◌+◌, ◌^◌, ◌<◌, ◌≤◌, ◌≡◌, refl, sym, ◌∙◌, ap, ℕ_discrete, Bool-cases, inl, inr, true, false,
  some, List, [], ◌∷◌, length, length-set, get_or, get_or-set, set, ltb, ◌==◌, arith,
}
use faunus.Rdma.Allocators.{
  MemoryServer, allocate, erase, free, RpcAllocator, no_server, pick_server, rpc_allocate, rpc_free,
}
use faunus.Rdma.Allocators.Slab.{Allocator, AllocatorLaws, one_if}
use faunus.Rdma.Allocators.Slab.Once.{times}
use faunus.Rdma.GlobalAddress.Fields.{fields-from_parts}
use faunus.Rdma.GlobalAddress.{from_parts, server_index, offset}
use mathlib.Core.Option

-- A memory server as the allocator of slabs: it never answers -1.
abbrev pub server_allocator : Allocator
server_allocator = record {
  S = MemoryServer;
  allocate = λ server size. (some (allocate server size).0, (allocate server size).1);
}

-- An address is given out if it lies below the next offset.
pub server_allocator-AllocatorLaws : AllocatorLaws server_allocator
unfolding allocate
server_allocator-AllocatorLaws = record {
  given = λ server a. one_if (ltb a server.next_offset);
  given-le = λ server a. ground arith;
  given-some = λ server n start a e.
      let here : server.next_offset ≡ start = ap (λ o. Option.get_or o 0) e in
      rw (sym here) (ground arith);
  given-none = λ server n a e. absurd (cc e);
}

erase-absent : (xs : List ℕ) (x : ℕ) → times xs x ≡ 0 → erase xs x ≡ xs
unfolding times
erase-absent [] x h = refl
erase-absent (y ∷ ys) x h = elim (Bool-cases (y == x)) [
  | inl e ↦ absurd (omega (arith, rw e at h))
  | inr e ↦ rw (e, erase-absent ys x (omega (arith, rw e at h))) refl
]

module _ (servers : List MemoryServer) (k off next i : ℕ) (known : k < length servers)
    (fresh : times (get_or servers k no_server).allocated off ≡ 0) where
  abbrev grown : MemoryServer
  grown = record { next_offset = next; allocated = off ∷ (get_or servers k no_server).allocated }

  abbrev after : List MemoryServer
  after = set servers k grown

  own_lem : (free (get_or after k no_server) off).allocated ≡ (get_or servers k no_server).allocated
  unfolding free
  own_lem =
      let here : (k == k) ≡ true = ground arith in
      let same : (off == off) ≡ true = ground arith in
      let back : get_or after k no_server ≡ grown =
        get_or-set servers k k grown no_server known ∙ rw here refl in
      rw (back, same) (erase-absent (get_or servers k no_server).allocated off fresh)

  freed_lem :
      (get_or (set after k (free (get_or after k no_server) off)) i no_server).allocated
      ≡ (get_or servers i no_server).allocated
  freed_lem =
      let l : k < length after = rw (length-set servers k grown) known in
      let last = get_or-set after k i (free (get_or after k no_server) off) no_server l in
      let first = get_or-set servers k i grown no_server known in
      elim (ℕ_discrete k i) [
        | yes e ↦
            let on : (k == i) ≡ true = ground arith in
            let stood : get_or (set after k (free (get_or after k no_server) off)) i no_server
                ≡ free (get_or after k no_server) off =
              last ∙ rw on refl in
            ap (λ x. x.allocated) stood
            ∙ own_lem
            ∙ ap (λ x. (get_or servers x no_server).allocated) e
        | no ne ↦
            let off_it : (k == i) ≡ false = ground arith in
            let stood : get_or (set after k (free (get_or after k no_server) off)) i no_server
                ≡ get_or servers i no_server =
              last ∙ rw off_it (first ∙ rw off_it refl) in
            ap (λ x. x.allocated) stood
      ]

-- Where some server exists, no more than 256 do, and the one whose turn it is has given out fewer than
-- 2^42 bytes and does not have its next offset in use: an allocation returns an address on that server
-- at its next offset, and giving the address back leaves each server with the chunks that it had.
pub rpc_free-rpc_allocate :
    (rpc : RpcAllocator) (n i : ℕ)
    → let server = get_or rpc.servers (pick_server rpc) no_server in
      let (address, rpc') = rpc_allocate rpc n in
      1 ≤ length rpc.servers
      → length rpc.servers ≤ 2 ^ 8
      → server.next_offset < 2 ^ 42
      → times server.allocated server.next_offset ≡ 0
      → (server_index address ≡ pick_server rpc)
        × (offset address ≡ server.next_offset)
        × ((get_or (rpc_free rpc' address).servers i no_server).allocated
            ≡ (get_or rpc.servers i no_server).allocated)
unfolding rpc_allocate rpc_free allocate
rpc_free-rpc_allocate rpc n i some_server few room fresh =
    let k = pick_server rpc in
    let off = (get_or rpc.servers k no_server).next_offset in
    let known : k < length rpc.servers = ground arith in
    let (server_back, offset_back) = fields-from_parts k off (omega arith) in
    let offset_same : offset (from_parts k off) ≡ off = offset_back ∙ omega arith in
    (
      server_back,
      offset_same,
      rw (server_back, offset_same) (freed_lem rpc.servers k off (off + n) i known fresh),
    )
