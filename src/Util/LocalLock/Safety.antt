-- ===== src/Util/LocalLock/Safety.antt =====
-- What holds at a node after any steps of its threads.
use faunus.Prelude.{
  ℕ, ◌+◌, ◌^◌, ◌≤◌, ◌<◌, ◌≡◌, refl, sym, ap, ◌∙◌, true, false, some, length-replicate, ◌==◌, ==_iff,
  ◌⊎◌, inl, inr, arith,
}
use faunus.Util.LocalLock.Handover.{serving-eq}
use faunus.Util.LocalLock.Threads.{
  Pc, idle, spin, inside, ticket_of, System, Step, takes, enters, leaves, init, Reach, start, later,
}
use faunus.Util.LocalLock.{LocalLockNode, handover_flag_slots, is_served, current_serving}
use faunus.Util.LocalLock.Invariant.{Inv, take-Inv, enter-Inv, leave-Inv, some-injective}

init-Inv : Inv init 0 0
init-Inv = record {
  node = record {
    word = refl;
    order = omega arith;
    small = omega arith;
    count = omega arith;
    flags = length-replicate handover_flag_slots false;
  };
  counted = refl;
  range = λ i t h. absurd cc;
  entered = λ i t h. absurd cc;
  unique = λ i j t h h'. absurd cc;
  covered = λ t low high. absurd (omega arith);
}

Step-Inv :
    {s t : System} {served next : ℕ}
    → Step s t
    → t.taken < 2 ^ 32
    → Inv s served next
    → (served' : ℕ) × (next' : ℕ) × Inv t served' next'
Step-Inv {served} {next} (takes s i free) h v =
    let c = v.counted in (served, next + 1, take-Inv s i served next v free (omega arith))
Step-Inv {served} {next} (enters s i t at_i turn) h v =
    (served, next, enter-Inv s i t served next v at_i turn)
Step-Inv {served} {next} (leaves s i t at_i) h v =
    (served + 1, next, leave-Inv s i t served next v at_i)

taken-le : {s t : System} → Step s t → s.taken ≤ t.taken
taken-le (takes s i free) = omega arith
taken-le (enters s i t at_i turn) = omega arith
taken-le (leaves s i t at_i) = omega arith

-- What holds after any steps in which fewer than 2^32 tickets were taken.
Reach-Inv :
    {s : System} → Reach s → s.taken < 2 ^ 32 → (served : ℕ) × (next : ℕ) × Inv s served next
Reach-Inv start h = (0, 0, init-Inv)
Reach-Inv (later s t r st) h =
    let (served, next, v) = Reach-Inv r (omega (arith, taken-le st)) in Step-Inv st h v

-- As long as fewer than 2^32 tickets were ever taken at a node, two threads are never inside it
-- together, in whatever order they take tickets, enter and release.
pub local_mutual_exclusion :
    {s : System} (i j t u : ℕ)
    → Reach s
    → s.taken < 2 ^ 32
    → s.pc i ≡ inside t
    → s.pc j ≡ inside u
    → i ≡ j
local_mutual_exclusion i j t u r h a b =
    let (served, next, v) = Reach-Inv r h in
    v.unique i j t (ap ticket_of a)
      (ap ticket_of b ∙ ap some (v.entered j u b ∙ sym (v.entered i t a)))

-- As long as fewer than 2^32 tickets were ever taken, a waiting thread never waits for nobody: some
-- thread is inside, or one whose ticket is served can enter at once.
pub local_no_deadlock :
    {s : System} (i t : ℕ)
    → Reach s
    → s.taken < 2 ^ 32
    → s.pc i ≡ spin t
    → (j : ℕ) × (u : ℕ) × ((s.pc j ≡ inside u) ⊎ ((s.pc j ≡ spin u) × (is_served s.node u ≡ true)))
unfolding is_served
local_no_deadlock {s} i t r h a =
    let (served, next, v) = Reach-Inv r h in
    let (low, high) = v.range i t (ap ticket_of a) in
    let (j, owns) = v.covered served (omega arith) (omega arith) in
    (j, served, go s.node (s.pc j) refl owns (serving-eq s.node served next v.node))
  where
    go :
        (node : LocalLockNode) {served : ℕ} (p : Pc) {q : Pc}
        → q ≡ p
        → ticket_of p ≡ some served
        → current_serving node ≡ served
        → (q ≡ inside served) ⊎ ((q ≡ spin served) × ((served == current_serving node) ≡ true))
    go node idle e h s' = absurd cc
    go node (spin t) e h s' = inr (e ∙ ap spin (some-injective h), (==_iff _ _).1 (sym s'))
    go node (inside t) e h s' = inl (e ∙ ap inside (some-injective h))
