-- ===== src/Util/LocalLock/Threads.antt =====
-- Threads that take turns at one node: each takes a ticket, waits until it is served, enters, and
-- releases. Every step is one that the code takes at once, or that only the holder takes.
use faunus.Prelude.{ℕ, ◌+◌, ◌≡◌, true, false, Option, none, some, replicate, ◌==◌, if◌then◌else◌}
use faunus.Util.LocalLock.{
  handover_flag_slots, LocalLockNode, take_ticket, is_served, enter, release,
}

-- Where a thread is, with its ticket.
pub data Pc : Type 0 where
  idle : Pc
  spin : (ticket : ℕ) → Pc
  inside : (ticket : ℕ) → Pc

abbrev pub ticket_of : Pc → Option ℕ
ticket_of idle = none
ticket_of (spin t) = some t
ticket_of (inside t) = some t

abbrev pub update : (ℕ → Pc) → ℕ → Pc → ℕ → Pc
update pc i p j = if i == j then p else pc j

-- `taken` counts the tickets ever taken.
pub record System : Type 0 where
  pub node : LocalLockNode
  pub pc : ℕ → Pc
  pub taken : ℕ

pub data Step : System → System → Type 0 where
  takes :
      (s : System) (i : ℕ)
      → s.pc i ≡ idle
      → Step s (record {
        node = (take_ticket s.node).1;
        pc = update s.pc i (spin (take_ticket s.node).0);
        taken = s.taken + 1;
      })
  enters :
      (s : System) (i t : ℕ)
      → s.pc i ≡ spin t
      → is_served s.node t ≡ true
      → Step s
          (record { node = (enter s.node t).1; pc = update s.pc i (inside t); taken = s.taken })
  leaves :
      (s : System) (i t : ℕ)
      → s.pc i ≡ inside t
      → Step s (record { node = (release s.node).1; pc = update s.pc i idle; taken = s.taken })

-- As the constructor of the manager leaves a node.
abbrev pub init : System
init = record {
  node = record {
    ticket_lock = 0;
    handover_count = 0;
    handover_flags = replicate handover_flag_slots false;
  };
  pc = λ _. idle;
  taken = 0;
}

pub data Reach : System → Type 0 where
  start : Reach init
  later : (s t : System) → Reach s → Step s t → Reach t
