-- ===== src/Rdma/Allocators/Slab/Tests.antt =====
-- A slab allocator over a list of free blocks and a memory server.
use faunus.Rdma.Allocators.Servers.{server_allocator, server_allocator-AllocatorLaws}
use faunus.Rdma.Allocators.Slab.Once.{times, Once, allocate-Once, new-Once}
use faunus.Rdma.Allocators.Slab.{
  Queue, QueueLaws, one_if, SlabAllocator, new_slab_allocator, allocate,
}
use faunus.Rdma.Allocators
use faunus.Rdma.Allocators.{MemoryServer}
use faunus.Prelude.{ℕ, ◌+◌, ◌≡◌, refl, ap, ◌==◌, Option, none, some, List, [], ◌∷◌, arith}
use mathlib.Core.Option

abbrev take_first : List ℕ → Option (ℕ × List ℕ)
take_first [] = none
take_first (x ∷ xs) = some (x, xs)

abbrev list_queue : Queue
list_queue = record { Q = List ℕ; enqueue = λ q x. x ∷ q; try_dequeue = take_first }

take_first-times :
    (q q' : List ℕ) (x a : ℕ)
    → take_first q ≡ some (x, q')
    → times q a ≡ times q' a + one_if (x == a)
unfolding times
take_first-times [] q' x a e = absurd (cc e)
take_first-times (y ∷ ys) q' x a e =
    let head : y ≡ x = ap (λ o. (Option.get_or {A = ℕ × List ℕ} o (0, [])).0) e in
    let tail : ys ≡ q' = ap (λ o. (Option.get_or {A = ℕ × List ℕ} o (0, [])).1) e in
    rw (head, tail) (omega arith)

list_queue-QueueLaws : QueueLaws list_queue
unfolding times
list_queue-QueueLaws = record {
  content = times;
  content-enqueue = λ q x a. omega arith;
  content-try_dequeue = take_first-times;
}

abbrev example_slab : SlabAllocator list_queue server_allocator
example_slab =
    new_slab_allocator list_queue server_allocator [] 16 4
      (record { next_offset = 32; allocated = 0 ∷ [] })

example_slab-Once :
    Once list_queue server_allocator list_queue-QueueLaws server_allocator-AllocatorLaws
      example_slab []
unfolding times list_queue-QueueLaws
example_slab-Once =
    new-Once list_queue server_allocator list_queue-QueueLaws server_allocator-AllocatorLaws [] 16 4
      (record { next_offset = 32; allocated = 0 ∷ [] }) (omega arith) (λ a. refl)

example_slab-first : (allocate list_queue server_allocator example_slab).0 ≡ some 80
unfolding new_slab_allocator allocate Allocators.allocate
example_slab-first = refl

example_slab-taken :
    Once list_queue server_allocator list_queue-QueueLaws server_allocator-AllocatorLaws
      (allocate list_queue server_allocator example_slab).1
      (80 ∷ [])
unfolding new_slab_allocator
example_slab-taken =
    (allocate-Once list_queue server_allocator list_queue-QueueLaws server_allocator-AllocatorLaws
      example_slab [] 80 (omega arith) example_slab-Once example_slab-first).1

allocate-Once_example :
    (times [] 80 ≡ 0)
    × Once list_queue server_allocator list_queue-QueueLaws server_allocator-AllocatorLaws
        (allocate list_queue server_allocator example_slab).1
        (80 ∷ [])
unfolding new_slab_allocator
allocate-Once_example =
    allocate-Once list_queue server_allocator list_queue-QueueLaws server_allocator-AllocatorLaws
      example_slab [] 80 (omega arith) example_slab-Once example_slab-first
