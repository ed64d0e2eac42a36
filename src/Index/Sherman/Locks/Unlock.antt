-- ===== src/Index/Sherman/Locks/Unlock.antt =====
-- Unlocking: the remote word and the hand-over.
use faunus.Index.Sherman.Locks.{unlock_address, write_page_and_unlock}
use faunus.Prelude.{
  ℕ, ◌+◌, ◌^◌, ◌<◌, ◌≡◌, refl, sym, lt→ltb, ◌∙◌, true, false, not, ◌&&◌, ltb, Bool-cases, inl, inr,
  arith,
}
use faunus.Util.LocalLock.Handover.{IsNode, next-eq, release_lem}
use faunus.Util.LocalLock.{
  LocalLockNode, next_ticket, waiters, take_ticket, is_served, enter, can_hand_over, release,
  max_hand_over_time,
}

release-can_hand_over : (node : LocalLockNode) → (release node).0 ≡ can_hand_over node
unfolding release can_hand_over
release-can_hand_over node =
    elim (Bool-cases (ltb 0 (waiters node) && ltb node.handover_count max_hand_over_time)) [
      | inl e ↦ rw e refl
      | inr e ↦ rw e refl
    ]

-- An unlock gives the remote lock back exactly if it does not hand it over; so does a write with an
-- unlock if the node has not changed since it asked.
unlock-once :
    (node : LocalLockNode)
    → ((unlock_address node).remote ≡ not (unlock_address node).handed)
      × ((write_page_and_unlock node node).remote ≡ not (write_page_and_unlock node node).handed)
unfolding unlock_address write_page_and_unlock
unlock-once node = (refl, rw (release-can_hand_over node) refl)

asked_lem :
    (node : LocalLockNode) (served : ℕ)
    → IsNode node served (served + 1)
    → can_hand_over node ≡ false
asked_lem node served n =
    let (hands, told, _, _, _) = release_lem node served (served + 1) n (omega arith) in
    let none_waits : ltb (served + 1) (served + 1) ≡ false = ground arith in
    sym hands ∙ told ∙ rw none_waits refl

-- Whenever a lock is held without a waiter, fewer than eight hand-overs came just before, and another
-- thread takes a ticket between the question whether to hand over and the release: the write of a
-- page sets the remote word to 0 and tells that thread all the same that it has the remote lock.
pub write_page_and_unlock-race :
    (node : LocalLockNode) (served : ℕ)
    → IsNode node served (served + 1)
    → served + 2 < 2 ^ 32
    → node.handover_count < max_hand_over_time
    → let (ticket, waiting) = take_ticket node in
      let unlocked = write_page_and_unlock node waiting in
      (unlocked.remote ≡ true)
      × (unlocked.handed ≡ true)
      × (is_served unlocked.node ticket ≡ true)
      × ((enter unlocked.node ticket).0 ≡ true)
unfolding write_page_and_unlock take_ticket
write_page_and_unlock-race node served n room few =
    let word = n.word in
    let waits : IsNode (take_ticket node).1 served (served + 2) = record {
      word = omega arith;
      order = omega arith;
      small = room;
      count = n.count;
      flags = n.flags;
    } in
    let ticket : next_ticket node ≡ served + 1 = next-eq node served (served + 1) n in
    let (_, hands, turn, told, _) =
      release_lem (take_ticket node).1 served (served + 2) waits (omega arith) in
    let ahead : ltb (served + 1) (served + 2) ≡ true = ground arith in
    let yes_hand : (release (take_ticket node).1).0 ≡ true =
      hands ∙ rw (ahead, lt→ltb _ _ few) refl in
    (
      rw (asked_lem node served n) refl,
      yes_hand,
      rw ticket turn,
      rw ticket (told ∙ rw yes_hand refl),
    )
