-- ===== src/Util/LocalLock.antt =====
-- src/util/local_lock_manager.hpp: the ticket lock that serializes the threads of a compute server
-- before they go for a lock over the network, and the hand-over of that lock between them.
pub mod Handover
pub mod Threads
pub mod Invariant
pub mod Safety
mod Tests
use faunus.Prelude.{
  ℕ, ◌+◌, ◌-◌, ◌*◌, ◌/◌, ◌%◌, ◌^◌, Bool, true, false, ◌&&◌, List, get_or, set, ltb, ◌==◌,
  if◌then◌else◌,
}
use faunus.Rdma.GlobalAddress.{GlobalAddress, server_index, offset}

-- `kNumOfLock`
abbrev pub num_of_lock : ℕ
num_of_lock = 256 * 1024 / 8

-- `kMaxHandOverTime`
abbrev pub max_hand_over_time : ℕ
max_hand_over_time = 8

-- `kHandoverFlagSlots`
abbrev pub handover_flag_slots : ℕ
handover_flag_slots = 1024

-- `LocalLockNode`: the low half of the word is the next ticket, the high half the one served.
pub record LocalLockNode : Type 0 where
  pub ticket_lock : ℕ
  pub handover_count : ℕ
  pub handover_flags : List Bool

-- `get_lock_index`, in 64 bits.
unfoldable pub get_lock_index : GlobalAddress → ℕ
unfolding server_index offset
get_lock_index addr = server_index addr * num_of_lock + offset addr % num_of_lock

abbrev pub current_serving : LocalLockNode → ℕ
current_serving node = node.ticket_lock / 2 ^ 32 % 2 ^ 32

abbrev pub next_ticket : LocalLockNode → ℕ
next_ticket node = node.ticket_lock % 2 ^ 32

-- The difference of 32-bit numbers.
abbrev pub waiters : LocalLockNode → ℕ
waiters node = (next_ticket node + 2 ^ 32 + 2 ^ 32 - current_serving node - 1) % 2 ^ 32

-- `acquire`: taking a ticket.
unfoldable pub take_ticket : LocalLockNode → ℕ × LocalLockNode
take_ticket node = (next_ticket node, record node { ticket_lock = (node.ticket_lock + 1) % 2 ^ 64 })

-- The test that ends its loop.
unfoldable pub is_served : LocalLockNode → ℕ → Bool
is_served node my_ticket = my_ticket == current_serving node

-- What it does then: it reads and clears the flag of its ticket.
unfoldable pub enter : LocalLockNode → ℕ → Bool × LocalLockNode
enter node my_ticket =
    let slot = my_ticket % handover_flag_slots in
    (
      get_or node.handover_flags slot false,
      record node { handover_flags = set node.handover_flags slot false },
    )

unfoldable pub can_hand_over : LocalLockNode → Bool
can_hand_over node = ltb 0 (waiters node) && ltb node.handover_count max_hand_over_time

abbrev pub served_next : ℕ → ℕ
served_next ticket_lock = (ticket_lock + 2 ^ 32) % 2 ^ 64

-- `release`: whether the lock over the network stays for the next thread. The counter has 8 bits.
unfoldable pub release : LocalLockNode → Bool × LocalLockNode
release node =
    let next_slot = (current_serving node + 1) % 2 ^ 32 % handover_flag_slots in
    if ltb 0 (waiters node) && ltb node.handover_count max_hand_over_time
    then (
      true,
      record {
        ticket_lock = served_next node.ticket_lock;
        handover_count = (node.handover_count + 1) % 2 ^ 8;
        handover_flags = set node.handover_flags next_slot true;
      },
    )
    else (
      false,
      record {
        ticket_lock = served_next node.ticket_lock;
        handover_count = 0;
        handover_flags = node.handover_flags;
      },
    )
