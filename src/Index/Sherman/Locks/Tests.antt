-- ===== src/Index/Sherman/Locks/Tests.antt =====
-- The lock of a page: attempts, and the race of an unlock.
use faunus.Index.Sherman.Locks.Unlock.{write_page_and_unlock-race}
use faunus.Index.Sherman.Locks.{locked, lock_loop, write_page_and_unlock}
use faunus.Prelude.{◌+◌, ◌*◌, ◌≡◌, refl, true, false, [], ◌∷◌, length-replicate, replicate, arith}
use faunus.Util.LocalLock.Handover.{IsNode}
use faunus.Util.LocalLock.{LocalLockNode, take_ticket, is_served, enter}

abbrev held_once : LocalLockNode
held_once = record {
  ticket_lock = 4 * 4294967296 + 5;
  handover_count = 2;
  handover_flags = replicate 1024 false;
}

held_once-IsNode : IsNode held_once 4 5
held_once-IsNode = record {
  word = refl;
  order = omega arith;
  small = omega arith;
  count = omega arith;
  flags = length-replicate 1024 false;
}

write_page_and_unlock-race_example :
    let (ticket, waiting) = take_ticket held_once in
    let unlocked = write_page_and_unlock held_once waiting in
    (unlocked.remote ≡ true)
    × (unlocked.handed ≡ true)
    × (is_served unlocked.node ticket ≡ true)
    × ((enter unlocked.node ticket).0 ≡ true)
write_page_and_unlock-race_example =
    write_page_and_unlock-race held_once 4 held_once-IsNode (omega arith) (omega arith)

-- A word of the same compute server counts as taken.
takes_own : lock_loop 30064771077 0 0 (5 ∷ 30064771079 ∷ []) ≡ locked
unfolding lock_loop
takes_own = refl
