-- ===== src/Cache/Counters/Tests.antt =====
-- Timestamps at the end of a thread's local counter.
use faunus.Cache.Counters.Timestamps.{next_timestamp-le}
use faunus.Cache.Counters.{Clock, next_timestamp, scan_min_epoch}
use faunus.Prelude.{◌+◌, ◌≤◌, ◌≡◌, refl, [], ◌∷◌, arith}

abbrev clock : Clock
clock = record { epoch = 5; local = 1023 }

next_timestamp-le_example :
    let (first, clock') = next_timestamp clock in
    let (second, clock'') = next_timestamp (record clock' { epoch = clock'.epoch + 3 }) in
    first ≤ second
next_timestamp-le_example = next_timestamp-le clock 3 (omega arith) (omega arith)

-- Idle threads hold 0; without active threads the global epoch counts.
scan_run : scan_min_epoch 9 (0 ∷ 7 ∷ 8 ∷ []) ≡ 7
unfolding scan_min_epoch
scan_run = refl

scan_idle : scan_min_epoch 9 (0 ∷ 0 ∷ []) ≡ 9
unfolding scan_min_epoch
scan_idle = refl
