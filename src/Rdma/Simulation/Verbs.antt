-- ===== src/Rdma/Simulation/Verbs.antt =====
-- What the four verbs do to the memory of a server.
use faunus.Prelude.{
  ℕ, ◌+◌, ◌%◌, ◌^◌, ◌≤◌, ◌<◌, ◌≡◌, refl, ap, ◌∙◌, true, false, ◌⊎◌, inl, inr, List, length, get_or,
  leb, ◌==◌, if◌then◌else◌, dec_le, Bool-cases, arith,
}
use faunus.Rdma.Simulation.Bytes.{
  length-copy_in, get_or-copy_in, copy_out-copy_in, load-store, length-store, get_or-store,
}
use faunus.Rdma.Simulation.{
  Memory, Operation, read, write, cas, faa, copy_in, load, rdma_read, rdma_write, rdma_cas,
  rdma_faa, execute,
}

-- The bytes from its address on that an operation can change.
abbrev pub extent : Operation → ℕ
extent (read buffer bytes) = 0
extent (write buffer) = length buffer
extent (cas expected desired) = 8
extent (faa increment) = 8

-- What is left of the bounds test.
fits_lem :
    (mem : Memory) (a n : ℕ)
    → a + n < 2 ^ 64
    → leb ((a + n) % 2 ^ 64) (length mem) ≡ leb (a + n) (length mem)
fits_lem mem a n h = let e : (a + n) % 2 ^ 64 ≡ a + n = omega arith in rw e

-- A write that lies within a memory of less than 2^64 bytes succeeds, and a read of the same place then returns its bytes.
pub read-write :
    (mem : Memory) (a : ℕ) (bytes buffer : List ℕ)
    → a + length bytes ≤ length mem
    → length mem < 2 ^ 64
    → let written = execute mem a (write bytes) in
      let back = execute written.memory a (read buffer (length bytes)) in
      (written.ok ≡ true) × (back.ok ≡ true) × (back.operation ≡ read bytes (length bytes))
unfolding execute rdma_read rdma_write
read-write mem a bytes buffer h l =
    let n = length bytes in
    let l1 = length-copy_in bytes mem a in
    let in1 : leb ((a + n) % 2 ^ 64) (length mem) ≡ true = ground arith in
    let in2 : leb ((a + n) % 2 ^ 64) (length (copy_in mem a bytes)) ≡ true = ground arith in
    rw (in1, in2) (refl, refl, ap (λ b. read b n) (copy_out-copy_in bytes mem a h))

-- No operation whose bytes end below 2^64 changes the size of the memory, or a byte outside the ones
-- that it is about, whether it succeeds or not.
pub execute-frame :
    (mem : Memory) (a : ℕ) (op : Operation) (j : ℕ)
    → a + extent op < 2 ^ 64
    → j < a ⊎ a + extent op ≤ j
    → (length (execute mem a op).memory ≡ length mem)
      × (get_or (execute mem a op).memory j 0 ≡ get_or mem j 0)
unfolding execute rdma_read rdma_write rdma_cas rdma_faa
execute-frame mem a (read buffer bytes) j h out =
    elim (Bool-cases (leb ((a + bytes) % 2 ^ 64) (length mem))) [
      | inl e ↦ rw e (refl, refl)
      | inr e ↦ rw e (refl, refl)
    ]
execute-frame mem a (write buffer) j h out =
    rw (fits_lem mem a (length buffer) h) (elim (dec_le (a + length buffer) (length mem)) [
      | yes p ↦
          let e : leb (a + length buffer) (length mem) ≡ true = ground arith in
          rw e (
            length-copy_in buffer mem a,
            get_or-copy_in buffer mem a j p
                ∙ (elim out [ inl l ↦ ground arith | inr g ↦ ground arith ]),
          )
      | no p ↦
          let e : leb (a + length buffer) (length mem) ≡ false = ground arith in rw e (refl, refl)
    ])
execute-frame mem a (cas expected desired) j h out =
    rw (fits_lem mem a 8 h) (elim (dec_le (a + 8) (length mem)) [
      | yes p ↦
          let e : leb (a + 8) (length mem) ≡ true = ground arith in
          rw e (elim (Bool-cases (load mem a == expected)) [
            | inl q ↦ rw q (length-store mem a desired, get_or-store mem a desired j p out)
            | inr q ↦ rw q (refl, refl)
          ])
      | no p ↦ let e : leb (a + 8) (length mem) ≡ false = ground arith in rw e (refl, refl)
    ])
execute-frame mem a (faa increment) j h out =
    rw (fits_lem mem a 8 h) (elim (dec_le (a + 8) (length mem)) [
      | yes p ↦
          let e : leb (a + 8) (length mem) ≡ true = ground arith in
          rw e (length-store mem a _, get_or-store mem a _ j p out)
      | no p ↦ let e : leb (a + 8) (length mem) ≡ false = ground arith in rw e (refl, refl)
    ])

-- On a word within the memory that ends below 2^64, CAS succeeds as a verb, reports the word it found,
-- and leaves
-- the desired value exactly when it found the expected one; FAA returns the word it found and leaves
-- it with the increment added modulo 2^64.
pub atomics_lem :
    (mem : Memory) (a expected desired increment : ℕ)
    → a + 8 ≤ length mem
    → a + 8 < 2 ^ 64
    → desired < 2 ^ 64
    → let swapped = execute mem a (cas expected desired) in
      let (old, added) = rdma_faa mem a increment in
      (swapped.ok ≡ true)
      × (swapped.operation ≡ cas (load mem a) desired)
      × (load swapped.memory a ≡ (if load mem a == expected then desired else load mem a))
      × (old ≡ load mem a)
      × (load added a ≡ (load mem a + increment) % 2 ^ 64)
unfolding execute rdma_cas rdma_faa
atomics_lem mem a expected desired increment h l d =
    let e : leb ((a + 8) % 2 ^ 64) (length mem) ≡ true = ground arith in
    rw e (
      refl,
      refl,
      elim (Bool-cases (load mem a == expected)) [
        | inl q ↦ rw q (load-store mem a desired h d)
        | inr q ↦ rw q
      ],
      refl,
      load-store mem a ((load mem a + increment) % 2 ^ 64) h (omega arith),
    )
