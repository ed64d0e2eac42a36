-- ===== src/Util/LocalLock/Tests.antt =====
-- Runs of the lock, and each theorem at an input.
use faunus.Prelude.{
  ℕ, ◌+◌, ◌*◌, ◌≤◌, ◌≡◌, ◌⊎◌, refl, true, false, ◌&&◌, [], ◌∷◌, replicate, length-replicate, get_or,
  ltb, if◌then◌else◌, ◌%◌, arith,
}
use faunus.Util.LocalLock.Handover.{IsNode, release_lem, stop, released, in_a_row, Run-in_a_row}
use faunus.Util.LocalLock.Safety.{local_mutual_exclusion, local_no_deadlock}
use faunus.Util.LocalLock.Threads.{
  spin, inside, update, System, takes, enters, init, Reach, start, later,
}
use faunus.Util.LocalLock.{
  max_hand_over_time, handover_flag_slots, LocalLockNode, take_ticket, is_served, enter,
  can_hand_over, release,
}

-- Ticket 4 is inside and ticket 5 waits.
abbrev contended : LocalLockNode
contended = record {
  ticket_lock = 4 * 4294967296 + 6;
  handover_count = 7;
  handover_flags = replicate 1024 false;
}

contended-IsNode : IsNode contended 4 6
contended-IsNode = record {
  word = refl;
  order = omega arith;
  small = omega arith;
  count = omega arith;
  flags = length-replicate 1024 false;
}

release_lem_example :
    let (handed, node') = release contended in
    let (told, node'') = enter node' 5 in
    (handed ≡ can_hand_over contended)
    × (handed ≡ (ltb 5 6 && ltb 7 max_hand_over_time))
    × (is_served node' 5 ≡ true)
    × (told ≡ (
        if handed then true else get_or contended.handover_flags (5 % handover_flag_slots) false))
    × ((enter node'' 5).0 ≡ false)
release_lem_example = release_lem contended 4 6 contended-IsNode (omega arith)

Run-in_a_row_example : in_a_row (true ∷ []) ≤ max_hand_over_time
unfolding release
Run-in_a_row_example =
    Run-in_a_row (released contended _ true [] refl (stop (release contended).1)) (omega arith)

-- Thread 3 takes a ticket and enters.
abbrev waiting_system : System
waiting_system = record {
  node = (take_ticket init.node).1;
  pc = update init.pc 3 (spin (take_ticket init.node).0);
  taken = 0 + 1;
}

waiting-Reach : Reach waiting_system
waiting-Reach = later init waiting_system start (takes init 3 refl)

abbrev entered_system : System
entered_system = record {
  node = (enter waiting_system.node 0).1;
  pc = update waiting_system.pc 3 (inside 0);
  taken = waiting_system.taken;
}

waiting_spins : waiting_system.pc 3 ≡ spin 0
unfolding take_ticket
waiting_spins = refl

waiting_is_served : is_served waiting_system.node 0 ≡ true
unfolding take_ticket is_served
waiting_is_served = refl

local_mutual_exclusion_example : ◌≡◌ {A = ℕ} 3 3
local_mutual_exclusion_example =
    local_mutual_exclusion 3 3 0 0
      (later waiting_system entered_system waiting-Reach
        (enters waiting_system 3 0 waiting_spins waiting_is_served))
      (omega arith) refl refl

local_no_deadlock_example :
    (j : ℕ) × (u : ℕ) × ((waiting_system.pc j ≡ inside u)
      ⊎ ((waiting_system.pc j ≡ spin u) × (is_served waiting_system.node u ≡ true)))
local_no_deadlock_example = local_no_deadlock 3 0 waiting-Reach (omega arith) waiting_spins
