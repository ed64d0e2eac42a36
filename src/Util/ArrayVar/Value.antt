-- ===== src/Util/ArrayVar/Value.antt =====
-- The number that a big-endian byte array stands for, and what building one from an integer gives.
use faunus.Prelude.{
  ℕ, zero, suc, ◌+◌, ◌-◌, ◌*◌, ◌/◌, ◌%◌, ◌^◌, ◌≤◌, ◌<◌, ◌≡◌, refl, sym, ap, ◌∙◌, List, [], ◌∷◌,
  ◌++◌, reverse, dec_lt, lt→ltb, le→ltb, length, length-append, arith,
}
use faunus.Prelude.Bits.{and_mask}
use faunus.Util.ArrayVar.{ArrayVar, word_bytes, integer_bytes, from_integer}
use mathlib.Core.Path.{ap₂}
use mathlib.Core.List.{reverse-cons, reverse-reverse}
use native.Mathlib.Nat.{
  pow-succ', one-le-pow, zero-mod, pow-zero, zero-add, suc-add, mul_assoc, div-add-mod', mod-one,
  div-div-eq-div-mul,
}

pow_add : (b m n : ℕ) → b ^ (m + n) ≡ b ^ m * b ^ n
pow_add b zero n = rw (zero-add, pow-zero) (omega arith)
pow_add b (suc m) n = rw (suc-add, pow-succ' b m, pow-succ' b (m + n), pow_add b m n, mul_assoc)

-- `data_` is N bytes.
abbrev pub IsBytes : List ℕ → Type 0
IsBytes [] = Unit
IsBytes (d ∷ ds) = (d < 256) × IsBytes ds

-- The number that the bytes stand for, the first the most significant.
unfoldable pub value : ArrayVar → ℕ
value [] = 0
value (d ∷ ds) = d * 256 ^ length ds + value ds

-- The same from the last byte.
unfoldable pub low_value : List ℕ → ℕ
low_value [] = 0
low_value (d ∷ ds) = d + 256 * low_value ds

value-append : (xs ys : List ℕ) → value (xs ++ ys) ≡ value xs * 256 ^ length ys + value ys
unfolding value
value-append [] ys = omega arith
value-append (x ∷ xs) ys =
    rw (length-append, pow_add, value-append xs ys)
      (omega (arith, mul_assoc x (256 ^ length xs) (256 ^ length ys)))

pub value-reverse : (xs : List ℕ) → value (reverse xs) ≡ low_value xs
unfolding value low_value
value-reverse [] = refl
value-reverse (x ∷ xs) = rw (reverse-cons, value-append) (omega (arith, value-reverse xs))

pub length-reverse : (xs : List ℕ) → length (reverse xs) ≡ length xs
length-reverse [] = refl
length-reverse (x ∷ xs) = rw (reverse-cons, length-append) (omega (arith, length-reverse xs))

pub low_value-reverse : (xs : List ℕ) → low_value (reverse xs) ≡ value xs
low_value-reverse xs = rw (← value-reverse (reverse xs), reverse-reverse)

IsBytes-append : (xs ys : List ℕ) → IsBytes xs → IsBytes ys → IsBytes (xs ++ ys)
IsBytes-append [] ys hx hy = hy
IsBytes-append (x ∷ xs) ys hx hy = (hx.0, IsBytes-append xs ys hx.1 hy)

pub IsBytes-reverse : (xs : List ℕ) → IsBytes xs → IsBytes (reverse xs)
IsBytes-reverse [] h = tt
IsBytes-reverse (x ∷ xs) h =
    rw reverse-cons (IsBytes-append (reverse xs) _ (IsBytes-reverse xs h.1) (h.0, tt))

digits_lt : (x u p : ℕ) → x < 256 → u < p → x * p + u < 256 * p
digits_lt x u p h k = grind arith

-- The first digit decides.
pub digits_order : (x y u w p : ℕ) → x < y → u < p → x * p + u < y * p + w
digits_order x y u w p h k = grind arith

pub value-lt : (xs : List ℕ) → IsBytes xs → value xs < 256 ^ length xs
unfolding value
value-lt [] h = omega arith
value-lt (x ∷ xs) h =
    rw (pow-succ' 256 (length xs)) (digits_lt x (value xs) (256 ^ length xs) h.0 (value-lt xs h.1))

-- N bytes are determined by their number.
pub value-injective :
    (xs ys : List ℕ)
    → IsBytes xs
    → IsBytes ys
    → length xs ≡ length ys
    → value xs ≡ value ys
    → xs ≡ ys
unfolding value
value-injective [] [] hx hy l e = refl
value-injective (x ∷ xs) [] hx hy l e = absurd (omega arith)
value-injective [] (y ∷ ys) hx hy l e = absurd (omega arith)
value-injective (x ∷ xs) (y ∷ ys) hx hy l e =
    let p = 256 ^ length xs in
    let same : length xs ≡ length ys = omega arith in
    let e' : x * p + value xs ≡ y * p + value ys =
      e ∙ ap (λ (n : ℕ). y * 256 ^ n + value ys) (sym same) in
    let u = value-lt xs hx.1 in
    let w : value ys < p = rw same (value-lt ys hy.1) in
    elim (dec_lt x y) [
      | yes l ↦ absurd (omega (arith, digits_order x y (value xs) (value ys) p l u))
      | no ge ↦ elim (dec_lt y x) [
        | yes g ↦ absurd (omega (arith, digits_order y x (value ys) (value xs) p g w))
        | no le ↦
            let heads : x ≡ y = omega arith in
            ap₂ ◌∷◌ heads
              (value-injective xs ys hx.1 hy.1 same (omega (arith, ap (λ (t : ℕ). t * p) heads)))
      ]
    ]

-- One digit of a remainder by a power of 256.
pub digit_mod : (x m : ℕ) → x % (256 * m) ≡ x % 256 + 256 * (x / 256 % m)
digit_mod x m = omega (
  arith,
  ap (λ (t : ℕ). t * m) (div-div-eq-div-mul x 256 m),
  div-add-mod' x (256 * m),
  div-add-mod' (x / 256) m,
)

-- After a round the integer has one byte less, and after the eighth it is 0.
pub room-next :
    (i v : ℕ) → i < word_bytes → v < 256 ^ (word_bytes - i) → v / 256 < 256 ^ (word_bytes - (i + 1))
room-next i v low h =
    let e : word_bytes - i ≡ suc (word_bytes - (i + 1)) = omega arith in
    let h' : v < 256 * 256 ^ (word_bytes - (i + 1)) = rw (e, pow-succ') at h in omega arith

pub room-none : (i v : ℕ) → word_bytes ≤ i → v < 256 ^ (word_bytes - i) → v ≡ 0
room-none i v high h =
    let e : word_bytes - i ≡ 0 = omega arith in let h' : v < 256 ^ 0 = rw e at h in omega arith

-- The loop of the constructor writes the low `n` bytes.
pub integer_bytes-low_value :
    (n i v : ℕ) → v < 256 ^ (word_bytes - i) → low_value (integer_bytes n i v) ≡ v % 256 ^ n
unfolding integer_bytes low_value
integer_bytes-low_value zero i v h = omega (arith, mod-one v)
integer_bytes-low_value (suc n) i v h = elim (dec_lt i word_bytes) [
  | yes low ↦
      let ih = integer_bytes-low_value n (i + 1) (v / 256) (room-next i v low h) in
      rw (lt→ltb i word_bytes low, and_mask 8 v, ih, pow-succ' 256 n, digit_mod v (256 ^ n))
  | no high ↦
      let none : v ≡ 0 = room-none i v (omega arith) h in
      let ih =
        integer_bytes-low_value n (i + 1) 0 (one-le-pow (word_bytes - (i + 1)) 256 (omega arith)) in
      rw (none, le→ltb i word_bytes (omega arith), ih)
        (omega (arith, zero-mod (256 ^ n), zero-mod (256 ^ suc n)))
]

-- The constructor from a `uint64_t` keeps the integer modulo 256^N: the bytes stand for it.
value-from_integer : (n v : ℕ) → v < 2 ^ 64 → value (from_integer n v) ≡ v % 256 ^ n
unfolding from_integer
value-from_integer n v h = value-reverse (integer_bytes n 0 v) ∙ integer_bytes-low_value n 0 v h
