-- ===== src/Util/ArrayVar/Tests.antt =====
-- Runs of the byte arrays, and each theorem at an input.
use faunus.Prelude.{◌+◌, ◌≡◌, refl, [], ◌∷◌, ltb, leb, ◌==◌, arith}
use faunus.Util.ArrayVar.Order.{operators_compare}
use faunus.Util.ArrayVar.Value.{value}
use faunus.Util.ArrayVar.{ArrayVar, from_integer, from_bytes, add, sub, lt, le, eq, hash_from}

abbrev carry : ArrayVar
carry = 0 ∷ 1 ∷ 0xff ∷ []

from_integer_run : from_integer 3 0x1ff ≡ carry
unfolding from_integer
from_integer_run = refl

-- A longer array is filled with zeros, a shorter one keeps the low bytes.
from_integer_wide : from_integer 10 0x0102 ≡ 0 ∷ 0 ∷ 0 ∷ 0 ∷ 0 ∷ 0 ∷ 0 ∷ 0 ∷ 1 ∷ 2 ∷ []
unfolding from_integer
from_integer_wide = refl

from_bytes_run : from_bytes 4 (7 ∷ 8 ∷ []) ≡ 7 ∷ 8 ∷ 0 ∷ 0 ∷ []
unfolding from_bytes
from_bytes_run = refl

add_run : add carry 1 ≡ 0 ∷ 2 ∷ 0 ∷ []
unfolding add
add_run = refl

sub_run : sub (0 ∷ 2 ∷ 0 ∷ []) 1 ≡ carry
unfolding sub
sub_run = refl

hash_run : hash_from 0 carry ≡ 31 + 0xff
unfolding hash_from
hash_run = refl

operators_compare_example :
    (lt carry (add carry 1) ≡ ltb (value carry) (value (add carry 1)))
    × (le carry (add carry 1) ≡ leb (value carry) (value (add carry 1)))
    × (eq carry (add carry 1) ≡ (value carry == value (add carry 1)))
unfolding add
operators_compare_example = operators_compare carry (add carry 1) (omega arith) (omega arith) refl
