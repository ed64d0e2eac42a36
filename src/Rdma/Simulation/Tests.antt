-- ===== src/Rdma/Simulation/Tests.antt =====
-- Runs of the verbs, and each theorem at an input.
use faunus.Prelude.{◌≡◌, refl, true, inl, [], ◌∷◌, length, replicate, get_or, arith}
use faunus.Rdma.Simulation.Verbs.{read-write, execute-frame}
use faunus.Rdma.Simulation.{
  Memory, read, write, cas, faa, copy_out, copy_in, word_of, bytes_of, load, store, rdma_cas,
  rdma_faa, execute,
}

abbrev blank : Memory
blank = replicate 16 0

faa_run : load (rdma_faa blank 8 0x1_02).1 8 ≡ 0x1_02
unfolding rdma_faa load store copy_in copy_out word_of bytes_of
faa_run = refl

cas_run : (execute blank 8 (cas 1 7)).operation ≡ cas 0 7
unfolding execute rdma_cas load copy_out word_of
cas_run = refl

read-write_example :
    let written = execute blank 4 (write (1 ∷ 2 ∷ 3 ∷ [])) in
    let back = execute written.memory 4 (read [] 3) in
    (written.ok ≡ true) × (back.ok ≡ true) × (back.operation ≡ read (1 ∷ 2 ∷ 3 ∷ []) 3)
read-write_example = read-write blank 4 (1 ∷ 2 ∷ 3 ∷ []) [] (omega arith) (omega arith)

execute-frame_example :
    (length (execute blank 8 (faa 5)).memory ≡ length blank)
    × (get_or (execute blank 8 (faa 5)).memory 7 0 ≡ get_or blank 7 0)
execute-frame_example = execute-frame blank 8 (faa 5) 7 (omega arith) (inl (omega arith))
