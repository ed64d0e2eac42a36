-- ===== src/Util/LocalLock/Handover.antt =====
-- Handing the lock over: who is told, and how often in a row.
use faunus.Prelude.{
  ℕ, suc, ◌+◌, ◌-◌, ◌*◌, ◌/◌, ◌%◌, ◌^◌, max, ◌≤◌, ◌<◌, ◌≡◌, refl, ◌∙◌, Bool, true, false, ◌&&◌,
  List, [], ◌∷◌, length, get_or, get_or-set, length-set, ltb, if◌then◌else◌, Bool-cases, inl, inr,
  arith,
}
use faunus.Rdma.GlobalAddress.{GlobalAddress, server_index}
use faunus.Util.LocalLock.{
  num_of_lock, max_hand_over_time, handover_flag_slots, LocalLockNode, get_lock_index,
  current_serving, next_ticket, waiters, take_ticket, is_served, enter, can_hand_over, release,
}

-- The index of the lock of an address on one of `num_ms` servers lies among the locks of that server.
get_lock_index-bounds :
    (addr : GlobalAddress) (num_ms : ℕ)
    → server_index addr < num_ms
    → (get_lock_index addr / num_of_lock ≡ server_index addr)
      × (get_lock_index addr < num_ms * num_of_lock)
unfolding get_lock_index
get_lock_index-bounds addr num_ms h = (omega arith, omega arith)

-- A node whose halves are `served` and `next`, with a counter in range and all its flags.
pub record IsNode (node : LocalLockNode) (served next : ℕ) : Type 0 where
  pub word : node.ticket_lock ≡ served * 2 ^ 32 + next
  pub order : served ≤ next
  pub small : next < 2 ^ 32
  pub count : node.handover_count ≤ max_hand_over_time
  pub flags : length node.handover_flags ≡ handover_flag_slots

pub serving-eq :
    (node : LocalLockNode) (served next : ℕ)
    → IsNode node served next
    → current_serving node ≡ served
serving-eq node served next n = omega (arith, n.word, n.order, n.small)

pub next-eq :
    (node : LocalLockNode) (served next : ℕ) → IsNode node served next → next_ticket node ≡ next
next-eq node served next n = omega (arith, n.word, n.order, n.small)

waiters-eq :
    (node : LocalLockNode) (served next : ℕ)
    → IsNode node served next
    → served < next
    → waiters node ≡ next - served - 1
waiters-eq node served next n h =
    omega (arith, serving-eq node served next n, next-eq node served next n, n.order, n.small)

-- Both branches serve the next ticket.
release-ticket_lock :
    (node : LocalLockNode) (served next : ℕ)
    → IsNode node served next
    → served < next
    → (release node).1.ticket_lock ≡ (served + 1) * 2 ^ 32 + next
unfolding release
release-ticket_lock node served next n h =
    let small = n.small in
    let w : (node.ticket_lock + 2 ^ 32) % 2 ^ 64 ≡ (served + 1) * 2 ^ 32 + next =
      omega (arith, n.word) in
    elim (Bool-cases (ltb 0 (waiters node) && ltb node.handover_count max_hand_over_time)) [
      | inl e ↦ rw e w
      | inr e ↦ rw e w
    ]

pub release-IsNode :
    (node : LocalLockNode) (served next : ℕ)
    → IsNode node served next
    → served < next
    → IsNode (release node).1 (served + 1) next
unfolding release
release-IsNode node served next n h =
    let w = release-ticket_lock node served next n h in
    let flags = n.flags in
    elim (Bool-cases (ltb 0 (waiters node) && ltb node.handover_count max_hand_over_time)) [
      | inl e ↦ record {
        word = w;
        order = omega arith;
        small = n.small;
        count = rw e (let c : node.handover_count < 8 = ground arith in omega arith);
        flags = rw e (length-set node.handover_flags _ true ∙ n.flags);
      }
      | inr e ↦ record {
        word = w;
        order = omega arith;
        small = n.small;
        count = rw e (omega arith);
        flags = rw e n.flags;
      }
    ]

-- The release of a held lock, whose own ticket is counted: it hands over exactly when
-- `can_hand_over` says so, which is when another ticket is out and fewer than eight hand-overs came
-- just before. It serves the next ticket in any case, and if it hands over, the thread with that
-- ticket is told when it enters, and its flag is cleared by that.
pub release_lem :
    (node : LocalLockNode) (served next : ℕ)
    → IsNode node served next
    → served < next
    → let (handed, node') = release node in
      let (told, node'') = enter node' (served + 1) in
      (handed ≡ can_hand_over node)
      × (handed ≡ (ltb (served + 1) next && ltb node.handover_count max_hand_over_time))
      × (is_served node' (served + 1) ≡ true)
      × (told ≡ (
          if handed
          then true
          else get_or node.handover_flags ((served + 1) % handover_flag_slots) false))
      × ((enter node'' (served + 1)).0 ≡ false)
unfolding release enter can_hand_over is_served
release_lem node served next n h =
    let small = n.small in
    let flags = n.flags in
    let n' = release-IsNode node served next n h in
    let s = serving-eq node served next n in
    let w = waiters-eq node served next n h in
    let slot = (served + 1) % handover_flag_slots in
    let same : (served + 1) % 2 ^ 32 % handover_flag_slots ≡ slot = omega arith in
    let waits : ltb 0 (waiters node) ≡ ltb (served + 1) next = rw w (ground arith) in
    let decided : (release node).0
        ≡ (ltb 0 (waiters node) && ltb node.handover_count max_hand_over_time) =
      elim (Bool-cases (ltb 0 (waiters node) && ltb node.handover_count max_hand_over_time)) [
        | inl e ↦ rw e
        | inr e ↦ rw e
      ] in
    let s' = serving-eq (release node).1 (served + 1) next n' in
    (
      decided,
      decided ∙ rw waits,
      rw s' (ground arith),
      elim (Bool-cases (ltb 0 (waiters node) && ltb node.handover_count max_hand_over_time)) [
        | inl e ↦
            rw (e, s, same, get_or-set node.handover_flags slot slot true false (omega arith))
              (ground arith)
        | inr e ↦ rw e
      ],
      get_or-set (release node).1.handover_flags slot slot false false (omega (arith, n'.flags))
          ∙ ground arith,
    )

-- A run of releases of one node, with tickets taken in between: whether each handed over.
pub data Run : LocalLockNode → List Bool → LocalLockNode → Type 0 where
  stop : (node : LocalLockNode) → Run node [] node
  ticket :
      (node end : LocalLockNode) (bs : List Bool)
      → Run (take_ticket node).1 bs end
      → Run node bs end
  entry :
      (node end : LocalLockNode) (bs : List Bool) (t : ℕ)
      → Run (enter node t).1 bs end
      → Run node bs end
  released :
      (node end : LocalLockNode) (b : Bool) (bs : List Bool)
      → (release node).0 ≡ b
      → Run (release node).1 bs end
      → Run node (b ∷ bs) end

-- The hand-overs at the start of a list of releases, and the most of them in a row anywhere in it.
pub leading : List Bool → ℕ
leading [] = 0
leading (true ∷ bs) = suc (leading bs)
leading (false ∷ bs) = 0

pub in_a_row : List Bool → ℕ
in_a_row [] = 0
in_a_row (b ∷ bs) = max (leading (b ∷ bs)) (in_a_row bs)

release-count :
    (node : LocalLockNode)
    → node.handover_count ≤ max_hand_over_time
    → (release node).1.handover_count ≡ (if (release node).0 then node.handover_count + 1 else 0)
unfolding release
release-count node h =
    elim (Bool-cases (ltb 0 (waiters node) && ltb node.handover_count max_hand_over_time)) [
      | inl e ↦ rw e (let c : node.handover_count < 8 = ground arith in omega arith)
      | inr e ↦ rw e
    ]

release-limit :
    (node : LocalLockNode) → (release node).0 ≡ true → node.handover_count < max_hand_over_time
unfolding release
release-limit node h =
    elim (Bool-cases (ltb 0 (waiters node) && ltb node.handover_count max_hand_over_time)) [
      | inl e ↦ ground arith
      | inr e ↦ absurd (ground (arith, rw e at h))
    ]

Run-leading :
    {node end : LocalLockNode} {bs : List Bool}
    → Run node bs end
    → node.handover_count ≤ max_hand_over_time
    → node.handover_count + leading bs ≤ max_hand_over_time
unfolding leading take_ticket enter
Run-leading (stop node) h = omega arith
Run-leading (ticket node end bs r) h = Run-leading r h
Run-leading (entry node end bs t r) h = Run-leading r h
Run-leading (released node end false bs e r) h = omega arith
Run-leading (released node end true bs e r) h =
    let c : (release node).1.handover_count ≡ node.handover_count + 1 =
      release-count node h ∙ rw e refl in
    omega (arith, Run-leading r (omega (arith, release-limit node e)), release-limit node e)

-- However threads take tickets, enter and release, a node whose counter is in range never hands over
-- more than eight times in a row.
pub Run-in_a_row :
    {node end : LocalLockNode} {bs : List Bool}
    → Run node bs end
    → node.handover_count ≤ max_hand_over_time
    → in_a_row bs ≤ max_hand_over_time
unfolding in_a_row take_ticket enter
Run-in_a_row (stop node) h = omega arith
Run-in_a_row (ticket node end bs r) h = Run-in_a_row r h
Run-in_a_row (entry node end bs t r) h = Run-in_a_row r h
Run-in_a_row (released node end b bs e r) h =
    let kept : (release node).1.handover_count ≤ max_hand_over_time =
      ground (arith, release-count node h, release-limit node) in
    omega (arith, Run-leading (released node end b bs e r) h, Run-in_a_row r kept)
