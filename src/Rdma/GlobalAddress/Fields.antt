-- ===== src/Rdma/GlobalAddress/Fields.antt =====
-- The two fields of an address.
use faunus.Prelude.Bits.{and_mask, or_high_low}
use faunus.Prelude.{ℕ, ◌+◌, ◌*◌, ◌%◌, ◌^◌, ◌<◌, ◌≡◌, arith}
use faunus.Rdma.GlobalAddress.{GlobalAddress, from_parts, server_index, offset}

from_parts-eq :
    (index off : ℕ) → index < 2 ^ 8 → from_parts index off ≡ index * 2 ^ 42 + off % 2 ^ 42
unfolding from_parts
from_parts-eq index off h =
    let whole : index * 2 ^ 42 % 2 ^ 64 ≡ index * 2 ^ 42 = omega arith in
    rw (and_mask 42 off, whole, or_high_low 42 index (off % 2 ^ 42) (omega arith)) (omega arith)

offset-eq : (raw : GlobalAddress) → offset raw ≡ raw % 2 ^ 42
unfolding offset
offset-eq raw = and_mask 42 raw

-- An address built from a server below 2^8 and an offset gives both back, the offset cut to 42 bits.
pub fields-from_parts :
    (index off : ℕ)
    → index < 2 ^ 8
    → (server_index (from_parts index off) ≡ index) × (offset (from_parts index off) ≡ off % 2 ^ 42)
unfolding server_index
fields-from_parts index off h =
    rw (offset-eq (from_parts index off), from_parts-eq index off h) (omega arith, omega arith)
