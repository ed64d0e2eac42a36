-- ===== src/Cache/Counters.antt =====
-- src/cache/range_cache.hpp: the timestamps, random numbers and epochs of the cache.
pub mod Timestamps
mod Tests
use faunus.Prelude.{
  ℕ, ◌+◌, ◌-◌, ◌*◌, ◌%◌, ◌/◌, ◌^◌, bit_or, bit_xor, Bool, not, ◌&&◌, List, [], ◌∷◌, ltb, leb, ◌==◌,
  if◌then◌else◌,
}

-- `next_timestamp`: the shared `epoch`, and the thread's `local`.
pub record Clock : Type 0 where
  pub epoch : ℕ
  pub local : ℕ

unfoldable pub next_timestamp : Clock → ℕ × Clock
next_timestamp clock =
    let l = clock.local in
    let e = (clock.epoch + 1) % 2 ^ 64 in
    if leb l 1023
    then (bit_or (clock.epoch * 2 ^ 10 % 2 ^ 64) l, record clock { local = (l + 1) % 2 ^ 64 })
    else (e * 2 ^ 10 % 2 ^ 64, record { epoch = e; local = 0 })

-- `tls_xorshift` from a state that is not 0; the code seeds a state of 0 from a random device.
unfoldable pub tls_xorshift : ℕ → ℕ
tls_xorshift x =
    let a = bit_xor x (x * 2 ^ 13 % 2 ^ 32) in
    let b = bit_xor a (a / 2 ^ 17) in bit_xor b (b * 2 ^ 5 % 2 ^ 32)

abbrev pub max_epoch : ℕ
max_epoch = 2 ^ 64 - 1

-- A round of the loop of `scan_min_epoch`, with the epoch that a thread record holds.
unfoldable pub scan_one : ℕ → ℕ → ℕ
scan_one min_epoch e = if not (e == 0) && ltb e min_epoch then e else min_epoch

unfoldable pub scan_from : ℕ → List ℕ → ℕ
unfolding scan_one
scan_from min_epoch [] = min_epoch
scan_from min_epoch (e ∷ epochs) = scan_from (scan_one min_epoch e) epochs

unfoldable pub scan_result : ℕ → ℕ → ℕ
scan_result global min_epoch = if min_epoch == max_epoch then global else min_epoch

-- `scan_min_epoch`, with the epochs that the records hold
unfoldable pub scan_min_epoch : ℕ → List ℕ → ℕ
unfolding scan_from scan_result
scan_min_epoch global epochs = scan_result global (scan_from max_epoch epochs)

-- `cmpFunc`
unfoldable pub cmp_func : ℕ → ℕ → ℕ
cmp_func a b = if ltb a b then 0 else if ltb b a then 2 else 1

-- `pick_victim_sample`: the layer that the index `r` falls in, from layer `i` on.
unfoldable pub pick_layer : ℕ → ℕ → ℕ → List ℕ → ℕ
pick_layer r accum i [] = 0
pick_layer r accum i (n ∷ entries) =
    let rest = pick_layer r (accum + n) (i + 1) entries in if ltb r (accum + n) then i else rest
