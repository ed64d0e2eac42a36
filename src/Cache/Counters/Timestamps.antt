-- ===== src/Cache/Counters/Timestamps.antt =====
-- The timestamps that a thread draws.
use faunus.Cache.Counters.{Clock, next_timestamp}
use faunus.Prelude.Bits.{or_high_low}
use faunus.Prelude.{ℕ, ◌+◌, ◌*◌, ◌%◌, ◌^◌, ◌≤◌, ◌<◌, ◌≡◌, leb, dec_le, arith, true, false, refl}

fast :
    (clock : Clock)
    → clock.local ≤ 1023
    → clock.epoch < 2 ^ 53
    → next_timestamp clock ≡ (
      clock.epoch * 2 ^ 10 + clock.local,
      record { epoch = clock.epoch; local = clock.local + 1 },
    )
unfolding next_timestamp
fast clock small low =
    let test : leb clock.local 1023 ≡ true = ground arith in
    let word : clock.epoch * 2 ^ 10 % 2 ^ 64 ≡ clock.epoch * 2 ^ 10 = omega arith in
    let next : (clock.local + 1) % 2 ^ 64 ≡ clock.local + 1 = omega arith in
    rw (test, word, next, or_high_low 10 clock.epoch clock.local (omega arith)) refl

slow :
    (clock : Clock)
    → 1023 < clock.local
    → clock.epoch + 1 < 2 ^ 53
    → next_timestamp clock
      ≡ ((clock.epoch + 1) * 2 ^ 10, record { epoch = clock.epoch + 1; local = 0 })
unfolding next_timestamp
slow clock large low =
    let test : leb clock.local 1023 ≡ false = ground arith in
    let next : (clock.epoch + 1) % 2 ^ 64 ≡ clock.epoch + 1 = omega arith in
    let word : (clock.epoch + 1) * 2 ^ 10 % 2 ^ 64 ≡ (clock.epoch + 1) * 2 ^ 10 = omega arith in
    rw (test, next, word) refl

-- A thread's next timestamp is not below the one before, whatever other threads have added to the
-- shared epoch between the two draws, as long as the epoch stays below 2^53 and the thread's counter
-- is one that draws leave.
pub next_timestamp-le :
    (clock : Clock) (others : ℕ)
    → clock.local ≤ 1024
    → clock.epoch + others + 2 < 2 ^ 53
    → let (first, clock') = next_timestamp clock in
      let (second, clock'') = next_timestamp (record clock' { epoch = clock'.epoch + others }) in
      first ≤ second
next_timestamp-le clock others small low = elim (dec_le clock.local 1022) [
  | yes l ↦ rw (fast clock (omega arith) (omega arith)) (
      rw
        (fast (record { epoch = clock.epoch + others; local = clock.local + 1 }) (omega arith)
          (omega arith))
        (omega arith))
  | no nl ↦ elim (dec_le clock.local 1023) [
    | yes m ↦ rw (fast clock m (omega arith)) (
        rw
          (slow (record { epoch = clock.epoch + others; local = clock.local + 1 }) (omega arith)
            (omega arith))
          (omega arith))
    | no nm ↦ rw (slow clock (omega arith) (omega arith)) (
        rw
          (fast (record { epoch = clock.epoch + 1 + others; local = 0 }) (omega arith)
            (omega arith))
          (omega arith))
  ]
]
