-- ===== src/Util/ArrayVar.antt =====
-- src/util/array_var.hpp: `ArrayVar<N>`, the big-endian byte array that keys and values are. A
-- value is the list of its N bytes, `data_[0]` first. The loops that run from the last byte to the
-- first (`idx = N - 1 - i`) walk the reversed list.
pub mod Value
pub mod Arithmetic
pub mod Order
mod Tests
use faunus.Prelude.{
  ℕ, zero, suc, ◌+◌, ◌-◌, ◌*◌, ◌/◌, ◌%◌, ◌^◌, ◌<◌, min, bit_and, ◌≡◌, Bool, true, false, not, ◌||◌,
  List, [], ◌∷◌, ◌++◌, reverse, ltb, ◌==◌, if◌then◌else◌, length, take, replicate,
}
use Prim.Native.Nat.{compare, Ordering}

abbrev pub ArrayVar : Type 0
ArrayVar = List ℕ

-- `sizeof(uint64_t)`
abbrev pub word_bytes : ℕ
word_bytes = 8

-- The loop of `ArrayVar(uint64_t v)` from round `i` on: the bytes that it writes, last one first.
unfoldable pub integer_bytes : ℕ → ℕ → ℕ → List ℕ
integer_bytes zero i v = []
integer_bytes (suc n) i v =
    (if ltb i word_bytes then bit_and v 0xff else 0)
    ∷ integer_bytes n (i + 1) (if ltb i word_bytes then v / 2 ^ 8 else v)

-- `ArrayVar(uint64_t v)`
unfoldable pub from_integer : ℕ → ℕ → ArrayVar
unfolding integer_bytes
from_integer n v = reverse (integer_bytes n 0 v)

-- `ArrayVar(const uint8_t* src, size_t size)`, `size` the length of `src`
unfoldable pub from_bytes : ℕ → List ℕ → ArrayVar
from_bytes n src = take (min (length src) n) src ++ replicate (n - min (length src) n) 0

-- The loop of `operator+=` from round `i` on, over the bytes from the last one.
unfoldable pub add_bytes : List ℕ → ℕ → ℕ → ℕ → List ℕ
add_bytes [] i carry v = []
add_bytes (d ∷ ds) i carry v =
    let add = if ltb i word_bytes then carry + bit_and v 0xff else carry in
    let sum = (d + add) % 2 ^ 16 in
    bit_and sum 0xff
    ∷ add_bytes ds (i + 1) (if ltb 0xff sum then 1 else 0)
        (if ltb i word_bytes then v / 2 ^ 8 else v)

-- `operator+=` and `operator+`
unfoldable pub add : ArrayVar → ℕ → ArrayVar
unfolding add_bytes
add a v = reverse (add_bytes (reverse a) 0 0 v)

-- The loop of `operator-=`. The code's `int res = cur - sub` is negative where `cur < sub`, and
-- 256 is added to it then.
unfoldable pub sub_bytes : List ℕ → ℕ → ℕ → ℕ → List ℕ
sub_bytes [] i borrow v = []
sub_bytes (cur ∷ ds) i borrow v =
    let sub = if ltb i word_bytes then borrow + bit_and v 0xff else borrow in
    bit_and (if ltb cur sub then cur + 256 - sub else cur - sub) 0xff
    ∷ sub_bytes ds (i + 1) (if ltb cur sub then 1 else 0)
        (if ltb i word_bytes then v / 2 ^ 8 else v)

-- `operator-=` and `operator-`
unfoldable pub sub : ArrayVar → ℕ → ArrayVar
unfolding sub_bytes
sub a v = reverse (sub_bytes (reverse a) 0 0 v)

-- `compare`: the sign of `memcmp` over the N bytes, as unsigned characters.
unfoldable pub memcmp : ArrayVar → ArrayVar → Ordering
memcmp [] b = Ordering.eq
memcmp (x ∷ xs) [] = Ordering.eq
memcmp (x ∷ xs) (y ∷ ys) =
    let rest = memcmp xs ys in
    elim (compare x y) [
      | Ordering.lt ↦ Ordering.lt
      | Ordering.eq ↦ rest
      | Ordering.gt ↦ Ordering.gt
    ]

-- `operator<`
unfoldable pub lt : ArrayVar → ArrayVar → Bool
unfolding memcmp
lt a b = elim (memcmp a b) [ Ordering.lt ↦ true | _ ↦ false ]

-- `operator<=`
unfoldable pub le : ArrayVar → ArrayVar → Bool
unfolding memcmp
le a b = elim (memcmp a b) [ Ordering.gt ↦ false | _ ↦ true ]

-- `operator==`
unfoldable pub eq : ArrayVar → ArrayVar → Bool
unfolding memcmp
eq a b = elim (memcmp a b) [ Ordering.eq ↦ true | _ ↦ false ]

-- `min()` and `max()`
unfoldable pub min_value : ℕ → ArrayVar
min_value n = replicate n 0

unfoldable pub max_value : ℕ → ArrayVar
max_value n = replicate n 0xff

-- `std::hash<ArrayVar<N>>`, in a 64-bit `size_t`, from the value `h` on.
unfoldable pub hash_from : ℕ → ArrayVar → ℕ
hash_from h [] = h
hash_from h (d ∷ ds) = hash_from ((h * 31 + d) % 2 ^ 64) ds
