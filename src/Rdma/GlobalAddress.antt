-- ===== src/Rdma/GlobalAddress.antt =====
-- src/rdma/global_address.hpp: an address of 50 bits, a server in the top 8 and an offset on that
-- server in the low 42. An address is its field `raw`; the padding bits are not read.
pub mod Fields
mod Tests
use faunus.Prelude.{ℕ, ◌+◌, ◌*◌, ◌/◌, ◌%◌, ◌^◌, bit_and, bit_or, Bool, ◌==◌, not}

abbrev pub GlobalAddress : Type 0
GlobalAddress = ℕ

-- `GlobalAddress(uint64_t address)`: the bit field keeps 50 bits.
unfoldable pub from_raw : ℕ → GlobalAddress
from_raw address = address % 2 ^ 50

-- `GlobalAddress(uint8_t index, uint64_t off)`
unfoldable pub from_parts : ℕ → ℕ → GlobalAddress
from_parts index off = bit_or (index * 2 ^ 42 % 2 ^ 64) (bit_and off 0x3_ff_ff_ff_ff_ff) % 2 ^ 50

-- `server_index()`, a `uint8_t`
unfoldable pub server_index : GlobalAddress → ℕ
server_index raw = raw / 2 ^ 42 % 2 ^ 8

-- `offset()`
unfoldable pub offset : GlobalAddress → ℕ
offset raw = bit_and raw 0x3_ff_ff_ff_ff_ff

-- `Null()`
abbrev pub null : GlobalAddress
null = 0
