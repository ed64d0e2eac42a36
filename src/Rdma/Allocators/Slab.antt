-- ===== src/Rdma/Allocators/Slab.antt =====
-- src/rdma/local_allocator.hpp: `SlabAllocator`, over an allocator of chunks and a queue of free
-- blocks. The queue is third-party code, of which only the operations and the contents are known.
pub mod Once
mod Tests
use faunus.Prelude.{
  ℕ, zero, suc, ◌+◌, ◌*◌, ◌<◌, ◌≤◌, ◌≡◌, Bool, Option, none, some, List, [], ◌∷◌, length, ltb, leb,
  ◌==◌, ◌&&◌, if◌then◌else◌,
}

-- `ConcurrentQueue<int64_t>`: `try_dequeue` may fail.
pub record Queue : Type 1 where
  pub Q : Type 0
  pub enqueue : Q → ℕ → Q
  pub try_dequeue : Q → Option (ℕ × Q)

-- `Allocator`: `none` stands for -1.
pub record Allocator : Type 1 where
  pub S : Type 0
  pub allocate : S → ℕ → Option ℕ × S

abbrev pub one_if : Bool → ℕ
one_if b = if b then 1 else 0

-- How often each block is in the queue.
pub record QueueLaws (queue : Queue) : Type 0 where
  pub content : queue.Q → ℕ → ℕ
  pub content-enqueue :
      (q : queue.Q) (x a : ℕ) → content (queue.enqueue q x) a ≡ content q a + one_if (x == a)
  pub content-try_dequeue :
      (q q' : queue.Q) (x a : ℕ)
      → queue.try_dequeue q ≡ some (x, q')
      → content q a ≡ content q' a + one_if (x == a)

-- How often each address has been given out: at most once.
pub record AllocatorLaws (backing : Allocator) : Type 0 where
  pub given : backing.S → ℕ → ℕ
  pub given-le : (s : backing.S) (a : ℕ) → given s a ≤ 1
  pub given-some :
      (s : backing.S) (n start a : ℕ)
      → (backing.allocate s n).0 ≡ some start
      → given (backing.allocate s n).1 a ≡ given s a + one_if (leb start a && ltb a (start + n))
  pub given-none :
      (s : backing.S) (n a : ℕ)
      → (backing.allocate s n).0 ≡ none
      → given (backing.allocate s n).1 a ≡ given s a

-- The loop of `get_offsets_from_chunk`.
unfoldable pub offsets_from : ℕ → ℕ → ℕ → ℕ → List ℕ
offsets_from zero offset end slab_size = []
offsets_from (suc fuel) offset end slab_size =
    let rest = offsets_from fuel (offset + slab_size) end slab_size in
    if ltb offset end then offset ∷ rest else []

-- A round takes a byte at least, so that the size of the chunk is fuel enough.
unfoldable pub get_offsets_from_chunk : ℕ → ℕ → ℕ → List ℕ
unfolding offsets_from
get_offsets_from_chunk slab_size start_offset chunk_size =
    offsets_from chunk_size start_offset (start_offset + chunk_size) slab_size

module _ (queue : Queue) (backing : Allocator) where
  pub record SlabAllocator : Type 0 where
    pub slab_size : ℕ
    pub num_slabs : ℕ
    pub free_list : queue.Q
    pub allocator : backing.S

  unfoldable pub enqueue_all : queue.Q → List ℕ → queue.Q
  enqueue_all q [] = q
  enqueue_all q (offset ∷ offsets) = enqueue_all (queue.enqueue q offset) offsets

  unfoldable pub add_slabs : Option ℕ → ℕ → SlabAllocator → SlabAllocator
  unfolding get_offsets_from_chunk enqueue_all
  add_slabs none chunk_size slab = slab
  add_slabs (some new_chunk) chunk_size slab =
      let new_offsets = get_offsets_from_chunk slab.slab_size new_chunk chunk_size in
      record slab {
        free_list = enqueue_all slab.free_list new_offsets;
        num_slabs = slab.num_slabs + length new_offsets;
      }

  -- `get_slabs_nolock`
  unfoldable pub get_slabs_nolock : SlabAllocator → ℕ → SlabAllocator
  unfolding add_slabs
  get_slabs_nolock slab slabs_to_add =
      let chunk_size = slabs_to_add * slab.slab_size in
      let (new_chunk, allocator') = backing.allocate slab.allocator chunk_size in
      add_slabs new_chunk chunk_size (record slab { allocator = allocator' })

  -- A dequeued block is returned; if there is none, the code goes on.
  unfoldable pub dequeued :
      Option (ℕ × queue.Q) → SlabAllocator → Option ℕ × SlabAllocator → Option ℕ × SlabAllocator
  dequeued none slab rest = rest
  dequeued (some (offset, q)) slab rest = (some offset, record slab { free_list = q })

  unfoldable pub allocate_nogrowth : SlabAllocator → Option ℕ × SlabAllocator
  unfolding dequeued
  allocate_nogrowth slab = dequeued (queue.try_dequeue slab.free_list) slab (none, slab)

  -- `allocate`: the queue is tried before and after the growth lock, and after growing.
  unfoldable pub allocate : SlabAllocator → Option ℕ × SlabAllocator
  unfolding allocate_nogrowth get_slabs_nolock
  allocate slab =
      let grown = allocate_nogrowth (get_slabs_nolock slab slab.num_slabs) in
      dequeued (queue.try_dequeue slab.free_list) slab
        (dequeued (queue.try_dequeue slab.free_list) slab grown)

  unfoldable pub free : SlabAllocator → ℕ → SlabAllocator
  free slab offset = record slab { free_list = queue.enqueue slab.free_list offset }

  -- `SlabAllocator(slab_size, num_slabs, allocator)`, with an empty queue
  unfoldable pub new_slab_allocator : queue.Q → ℕ → ℕ → backing.S → SlabAllocator
  unfolding get_slabs_nolock
  new_slab_allocator empty slab_size num_slabs s =
      get_slabs_nolock
        (record { slab_size = slab_size; num_slabs = num_slabs; free_list = empty; allocator = s })
        num_slabs
