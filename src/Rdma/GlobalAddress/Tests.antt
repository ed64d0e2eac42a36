-- ===== src/Rdma/GlobalAddress/Tests.antt =====
-- Runs of addresses, and each theorem at an input.
use faunus.Prelude.{◌≡◌, refl}
use faunus.Rdma.GlobalAddress.{from_raw, from_parts}

from_parts_run : from_parts 3 0x10 ≡ 0xc00_0000_0010
unfolding from_parts
from_parts_run = refl

from_raw_run : from_raw 0xffff_ffff_ffff_ffff ≡ 0x3_ffff_ffff_ffff
unfolding from_raw
from_raw_run = refl
