-- ===== src/Index/KvBlock.antt =====
-- src/kv_index/faunus_index.hpp, `Fingerprint` and `KVBlock`: a leaf slot in one 64-bit word that a
-- single CAS can change. Bits 52 to 63 hold the fingerprint, 2 to 51 the address of the key-value
-- item, bit 1 says that the slot is free and bit 0 that it is locked. A block is its word `raw`.
pub mod Words
pub mod Fields
pub mod Random
mod Tests
use faunus.Prelude.{
  ℕ, ◌+◌, ◌-◌, ◌*◌, ◌/◌, ◌%◌, ◌^◌, bit_and, bit_or, bit_xor, Bool, true, false, not, ◌==◌, List, [],
  ◌∷◌, if◌then◌else◌, Option, none, some, ◌>>=◌,
}
use faunus.Rdma.GlobalAddress.{GlobalAddress, from_raw}
use faunus.Util.ArrayVar.{ArrayVar}

abbrev pub Fingerprint : Type 0
Fingerprint = ℕ

-- `Fingerprint(uint16_t v)`
unfoldable pub fingerprint_of_word : ℕ → Fingerprint
fingerprint_of_word v = bit_and (v % 2 ^ 16) 0x0fff

-- The loop of `Fingerprint(const Key& key)`: the exclusive or of the bytes, in a `uint16_t`.
unfoldable pub xor_bytes : ℕ → ArrayVar → ℕ
xor_bytes hash [] = hash
xor_bytes hash (d ∷ ds) = xor_bytes (bit_xor hash d) ds

-- `Fingerprint(const Key& key)`
unfoldable pub fingerprint : ArrayVar → Fingerprint
unfolding xor_bytes
fingerprint key = bit_and (xor_bytes 0 key) 0x0fff

abbrev pub KvBlock : Type 0
KvBlock = ℕ

-- A `bool` as the integer that a cast makes of it.
abbrev pub of_bool : Bool → ℕ
of_bool true = 1
of_bool false = 0

-- `getFingerprint()`; the word is cut to the `uint16_t` of the constructor.
unfoldable pub get_fingerprint : KvBlock → Fingerprint
unfolding fingerprint_of_word
get_fingerprint raw = fingerprint_of_word (raw / 2 ^ 52)

-- `getAddr()`
unfoldable pub get_addr : KvBlock → GlobalAddress
unfolding from_raw
get_addr raw = from_raw (bit_and raw 0x000f_ffff_ffff_ffff / 2 ^ 2)

-- `isFree()`
unfoldable pub is_free : KvBlock → Bool
is_free raw = not (bit_and raw 2 / 2 == 0)

-- `isLocked()`
unfoldable pub is_locked : KvBlock → Bool
is_locked raw = not (bit_and raw 1 == 0)

-- `setFingerprint(fp)`
unfoldable pub set_fingerprint : KvBlock → Fingerprint → KvBlock
set_fingerprint raw fp = bit_or (bit_and raw 0x000f_ffff_ffff_ffff) (fp * 2 ^ 52 % 2 ^ 64)

-- `setAddr(ptr)`. Both masks are written with 15 hexadecimal digits.
unfoldable pub set_addr : KvBlock → GlobalAddress → KvBlock
set_addr raw ptr =
    bit_or (bit_and raw 0xfff_0000_0000_0003) (bit_and (ptr * 2 ^ 2 % 2 ^ 64) 0x000_ffff_ffff_fffc)

-- `setFree(free)`
unfoldable pub set_free : KvBlock → Bool → KvBlock
set_free raw free = bit_or (bit_and raw 0xffff_ffff_ffff_fffd) (of_bool free * 2 % 2 ^ 64)

-- `setLocked(locked)`
unfoldable pub set_locked : KvBlock → Bool → KvBlock
set_locked raw locked = bit_or (bit_and raw 0xffff_ffff_ffff_fffe) (of_bool locked)

-- `KVBlock(fp, ptr, free, locked)`
unfoldable pub new_block : Fingerprint → GlobalAddress → Bool → Bool → KvBlock
unfolding set_fingerprint set_addr set_free set_locked
new_block fp ptr free locked =
    set_locked (set_free (set_addr (set_fingerprint 0 fp) ptr) free) locked

-- The first loop of `setDifferentRandomFpAddr()` over the numbers that `thread_rand64()` gives:
-- the first fingerprint other than the block's, with the numbers left; `none` if they run out.
unfoldable pub draw_fingerprint : Fingerprint → List ℕ → Option (Fingerprint × List ℕ)
unfolding fingerprint_of_word
draw_fingerprint old [] = none
draw_fingerprint old (r ∷ rs) =
    let again = draw_fingerprint old rs in
    let new_fp = fingerprint_of_word (bit_and r 0x0fff) in
    if new_fp == old then again else some (new_fp, rs)

-- The second loop, for the address.
unfoldable pub draw_address : GlobalAddress → List ℕ → Option (GlobalAddress × List ℕ)
unfolding from_raw
draw_address old [] = none
draw_address old (r ∷ rs) =
    let again = draw_address old rs in
    let new_addr = from_raw (bit_and r 0x3_ff_ff_ff_ff_ff) in
    if new_addr == old then again else some (new_addr, rs)

-- `setDifferentRandomFpAddr()`
unfoldable pub set_random : KvBlock → List ℕ → Option (KvBlock × List ℕ)
unfolding draw_fingerprint draw_address set_fingerprint set_addr get_fingerprint get_addr
set_random raw draws = do
  (new_fp, rest) ← draw_fingerprint (get_fingerprint raw) draws
  let raw' = set_fingerprint raw new_fp
  (new_addr, rest') ← draw_address (get_addr raw') rest
  some (set_addr raw' new_addr, rest')

-- A fetch-and-add of +1 or -1 on the word, by which a split sets and clears the lock bit
-- (`get_lock_unlock_kvblocks`).
unfoldable pub add_lock : KvBlock → KvBlock
add_lock raw = (raw + 1) % 2 ^ 64

unfoldable pub drop_lock : KvBlock → KvBlock
drop_lock raw = (raw + (2 ^ 64 - 1)) % 2 ^ 64
