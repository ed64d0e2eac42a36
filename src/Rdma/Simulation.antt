-- ===== src/Rdma/Simulation.antt =====
-- src/rdma/rdma_simulation.hpp and .cpp: the memory of one server as its bytes, and the four verbs.
-- A verb returns whether it succeeded, the memory and the descriptor, whose buffer (READ) or expected
-- value (CAS) it overwrites. The buffers are the caller's and are not null.
pub mod Bytes
pub mod Verbs
mod Tests
use faunus.Prelude.{
  ℕ, zero, suc, ◌+◌, ◌*◌, ◌/◌, ◌%◌, ◌^◌, Bool, true, false, List, [], ◌∷◌, length, get_or, set, leb,
  ◌==◌, if◌then◌else◌,
}

abbrev pub Memory : Type 0
Memory = List ℕ

-- `RDMAOp::op`. The increment of FAA stands for its 64 bits.
pub data Operation : Type 0 where
  read : (buffer : List ℕ) (bytes : ℕ) → Operation
  write : (buffer : List ℕ) → Operation
  cas : (expected desired : ℕ) → Operation
  faa : (increment : ℕ) → Operation

-- `RDMAOp`
pub record RdmaOp : Type 0 where
  pub addr : ℕ
  pub op : Operation

-- `std::copy` out of and into the memory.
unfoldable pub copy_out : Memory → ℕ → ℕ → List ℕ
copy_out mem a zero = []
copy_out mem a (suc n) = get_or mem a 0 ∷ copy_out mem (a + 1) n

unfoldable pub copy_in : Memory → ℕ → List ℕ → Memory
copy_in mem a [] = mem
copy_in mem a (b ∷ bs) = copy_in (set mem a b) (a + 1) bs

-- A `uint64_t` in memory, the low byte first.
unfoldable pub word_of : List ℕ → ℕ
word_of [] = 0
word_of (b ∷ bs) = b + 256 * word_of bs

unfoldable pub bytes_of : ℕ → ℕ → List ℕ
bytes_of zero v = []
bytes_of (suc n) v = v % 256 ∷ bytes_of n (v / 256)

unfoldable pub load : Memory → ℕ → ℕ
unfolding copy_out word_of
load mem a = word_of (copy_out mem a 8)

unfoldable pub store : Memory → ℕ → ℕ → Memory
unfolding copy_in bytes_of
store mem a v = copy_in mem a (bytes_of 8 v)

-- What a verb leaves.
pub record Completion : Type 0 where
  pub ok : Bool
  pub memory : Memory
  pub operation : Operation

-- `op.addr + bytes > memory_.size()` does not hold; the sum has 64 bits.
abbrev pub in_bounds : Memory → ℕ → ℕ → Bool
in_bounds mem addr bytes = leb ((addr + bytes) % 2 ^ 64) (length mem)

abbrev pub rejected : Memory → Operation → Completion
rejected mem op = record { ok = false; memory = mem; operation = op }

unfoldable pub rdma_read : Memory → ℕ → List ℕ → ℕ → Completion
unfolding copy_out
rdma_read mem addr buffer bytes =
    if in_bounds mem addr bytes
    then record { ok = true; memory = mem; operation = read (copy_out mem addr bytes) bytes }
    else rejected mem (read buffer bytes)

unfoldable pub rdma_write : Memory → ℕ → List ℕ → Completion
unfolding copy_in
rdma_write mem addr buffer =
    if in_bounds mem addr (length buffer)
    then record { ok = true; memory = copy_in mem addr buffer; operation = write buffer }
    else rejected mem (write buffer)

-- The exchange writes what it saw into `expected`, and succeeds as a verb either way.
unfoldable pub rdma_cas : Memory → ℕ → ℕ → ℕ → Completion
unfolding load store
rdma_cas mem addr expected desired =
    if in_bounds mem addr 8
    then record {
      ok = true;
      memory = if load mem addr == expected then store mem addr desired else mem;
      operation = cas (load mem addr) desired;
    }
    else rejected mem (cas expected desired)

-- The value that `rdma_faa` returns, and the memory after it.
unfoldable pub rdma_faa : Memory → ℕ → ℕ → ℕ × Memory
unfolding load store
rdma_faa mem addr increment =
    if in_bounds mem addr 8
    then (load mem addr, store mem addr ((load mem addr + increment) % 2 ^ 64))
    else (0, mem)

-- `execute_rdma` on the server found: FAA succeeds whatever it did.
unfoldable pub execute : Memory → ℕ → Operation → Completion
unfolding rdma_read rdma_write rdma_cas rdma_faa
execute mem addr (read buffer bytes) = rdma_read mem addr buffer bytes
execute mem addr (write buffer) = rdma_write mem addr buffer
execute mem addr (cas expected desired) = rdma_cas mem addr expected desired
execute mem addr (faa increment) = record {
  ok = true;
  memory = (rdma_faa mem addr increment).1;
  operation = faa increment;
}
