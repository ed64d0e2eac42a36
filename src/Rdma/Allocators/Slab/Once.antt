-- ===== src/Rdma/Allocators/Slab/Once.antt =====
-- The blocks in use and the free ones, against the addresses that were given out.
use faunus.Prelude.{
  ℕ, zero, suc, ◌+◌, ◌*◌, ◌≤◌, ◌≡◌, refl, Option, none, some, List, [], ◌∷◌, ltb, leb, ◌==◌, ◌&&◌,
  arith,
}
use faunus.Rdma.Allocators.Slab.{
  Queue, Allocator, one_if, QueueLaws, AllocatorLaws, offsets_from, get_offsets_from_chunk,
  SlabAllocator, enqueue_all, add_slabs, get_slabs_nolock, dequeued, allocate_nogrowth, allocate,
  free, new_slab_allocator,
}

-- How often a block is among those in use.
unfoldable pub times : List ℕ → ℕ → ℕ
times [] a = 0
times (x ∷ xs) a = one_if (x == a) + times xs a

times-offsets :
    (fuel offset end size a : ℕ)
    → 1 ≤ size
    → times (offsets_from fuel offset end size) a ≤ one_if (leb offset a && ltb a end)
unfolding times offsets_from
times-offsets zero offset end size a one = omega arith
times-offsets (suc fuel) offset end size a one =
    ground (arith, times-offsets fuel (offset + size) end size a one)

abbrev pub handed : Option ℕ → List ℕ → List ℕ
handed none out = out
handed (some x) out = x ∷ out

module _ (queue : Queue) (backing : Allocator) (laws : QueueLaws queue)
    (chunks : AllocatorLaws backing) where
  -- With the blocks in use and the free ones, no address occurs more often than it has been given.
  unfoldable pub Once : SlabAllocator queue backing → List ℕ → Type 0
  Once slab out =
      (a : ℕ) → laws.content slab.free_list a + times out a ≤ chunks.given slab.allocator a

  content-enqueue_all :
      (q : queue.Q) (xs : List ℕ) (a : ℕ)
      → laws.content (enqueue_all queue backing q xs) a ≡ laws.content q a + times xs a
  unfolding enqueue_all times
  content-enqueue_all q [] a = omega arith
  content-enqueue_all q (x ∷ xs) a =
      omega (arith, content-enqueue_all (queue.enqueue q x) xs a, laws.content-enqueue q x a)

  add_slabs-Once :
      (slab : SlabAllocator queue backing) (out : List ℕ) (n : ℕ) (found : Option ℕ)
      → 1 ≤ slab.slab_size
      → (backing.allocate slab.allocator n).0 ≡ found
      → Once slab out
      → Once
          (add_slabs queue backing found n
            (record slab { allocator = (backing.allocate slab.allocator n).1 }))
          out
  unfolding add_slabs Once get_offsets_from_chunk
  add_slabs-Once slab out n none one e h a =
      omega (arith, h a, chunks.given-none slab.allocator n a e)
  add_slabs-Once slab out n (some start) one e h a = omega (
    arith,
    h a,
    chunks.given-some slab.allocator n start a e,
    content-enqueue_all slab.free_list (offsets_from n start (start + n) slab.slab_size) a,
    times-offsets n start (start + n) slab.slab_size a one,
  )

  grow-Once :
      (slab : SlabAllocator queue backing) (out : List ℕ) (n : ℕ)
      → 1 ≤ slab.slab_size
      → Once slab out
      → Once (get_slabs_nolock queue backing slab n) out
  unfolding get_slabs_nolock
  grow-Once slab out n one h =
      add_slabs-Once slab out (n * slab.slab_size)
        (backing.allocate slab.allocator (n * slab.slab_size)).0 one refl h

  Handed : List ℕ → Option ℕ × SlabAllocator queue backing → Type 0
  Handed out r = Once r.1 (handed r.0 out)

  dequeued-Once :
      (slab : SlabAllocator queue backing) (out : List ℕ) (found : Option (ℕ × queue.Q))
      (rest : Option ℕ × SlabAllocator queue backing)
      → queue.try_dequeue slab.free_list ≡ found
      → Once slab out
      → Handed out rest
      → Handed out (dequeued queue backing found slab rest)
  unfolding dequeued Handed Once times
  dequeued-Once slab out none rest e h k = k
  dequeued-Once slab out (some (x, q)) rest e h k =
      λ a. omega (arith, h a, laws.content-try_dequeue slab.free_list q x a e)

  nogrowth-Handed :
      (slab : SlabAllocator queue backing) (out : List ℕ)
      → Once slab out
      → Handed out (allocate_nogrowth queue backing slab)
  unfolding allocate_nogrowth Handed
  nogrowth-Handed slab out h =
      dequeued-Once slab out (queue.try_dequeue slab.free_list) (none, slab) refl h h

  allocate-Handed :
      (slab : SlabAllocator queue backing) (out : List ℕ)
      → 1 ≤ slab.slab_size
      → Once slab out
      → Handed out (allocate queue backing slab)
  unfolding allocate
  allocate-Handed slab out one h =
      let grown_slab = get_slabs_nolock queue backing slab slab.num_slabs in
      let grown = allocate_nogrowth queue backing grown_slab in
      let again = dequeued queue backing (queue.try_dequeue slab.free_list) slab grown in
      dequeued-Once slab out (queue.try_dequeue slab.free_list) again refl h (
        dequeued-Once slab out (queue.try_dequeue slab.free_list) grown refl h
          (nogrowth-Handed grown_slab out (grow-Once slab out slab.num_slabs one h)))

  times-own : (x : ℕ) (out : List ℕ) → times (x ∷ out) x ≡ 1 + times out x
  unfolding times
  times-own x out = ground arith

  -- With blocks of a byte at least, and no block in use or free more often than its address was given
  -- out: an allocation that returns a block returns one that was not in use, and this stays true with
  -- that block in use.
  pub allocate-Once :
      (slab : SlabAllocator queue backing) (out : List ℕ) (x : ℕ)
      → 1 ≤ slab.slab_size
      → Once slab out
      → (allocate queue backing slab).0 ≡ some x
      → (times out x ≡ 0) × Once (allocate queue backing slab).1 (x ∷ out)
  unfolding Once Handed
  allocate-Once slab out x one h e =
      let after : Once (allocate queue backing slab).1 (x ∷ out) =
        rw e at (allocate-Handed slab out one h) in
      (
        omega (
          arith,
          after x,
          times-own x out,
          chunks.given-le (allocate queue backing slab).1.allocator x,
        ),
        after,
      )

  -- Giving back a block in use keeps it true that no block is in use or free more often than its
  -- address was given out.
  free-Once :
      (slab : SlabAllocator queue backing) (out : List ℕ) (x : ℕ)
      → Once slab (x ∷ out)
      → Once (free queue backing slab x) out
  unfolding free Once times
  free-Once slab out x h a = omega (arith, h a, laws.content-enqueue slab.free_list x a)

  -- It is true of a new allocator, if the queue is empty.
  pub new-Once :
      (empty : queue.Q) (slab_size num_slabs : ℕ) (s : backing.S)
      → 1 ≤ slab_size
      → ((a : ℕ) → laws.content empty a ≡ 0)
      → Once (new_slab_allocator queue backing empty slab_size num_slabs s) []
  unfolding new_slab_allocator Once times
  new-Once empty slab_size num_slabs s one clean =
      grow-Once
        (record { slab_size = slab_size; num_slabs = num_slabs; free_list = empty; allocator = s })
        [] num_slabs one (λ a. omega (arith, clean a))
