-- ===== src/Prelude/Bits.antt =====
-- `&`, `|` and `^` of the code at variables: each splits at any bit position, and a field that a
-- mask keeps whole or clears is then an equation.
use Prim.Native.Nat.{
  ℕ, zero, suc, ◌+◌, ◌-◌, ◌*◌, ◌/◌, ◌%◌, ◌^◌, ◌≤◌, ◌<◌, min, max, bit_and, bit_or, bit_xor, digits,
  bitwise, differ, bit_and-bitwise, bit_or-bitwise, bit_xor-bitwise,
}
use mathlib.Core.Path.{◌≡◌, refl, sym, ap, ◌∙◌}
use native.Mathlib.Nat.{
  pow-suc, pow-succ', mod-one, div-one, mul-div_cancel, mul-mod_left, div-eq_of_lt, mod-eq_of_lt,
  div-div-eq-div-mul, div-add-mod',
}
use native.Mathlib.Omega.{arith}

-- The digits of a number do not depend on how much fuel is to spare.
module _ (last : ℕ → ℕ) (op : ℕ → ℕ → ℕ) where
  one_spare : (n x y : ℕ) → x ≤ n → digits last op (suc n) x y ≡ digits last op n x y
  one_spare zero zero y h = refl
  one_spare zero (suc x) y h = absurd (omega arith)
  one_spare (suc n) zero y h = refl
  one_spare (suc n) (suc x) y h = rw (one_spare n (suc x / 2) (y / 2) (omega arith))

  spare : (d n x y : ℕ) → x ≤ n → digits last op (n + d) x y ≡ digits last op n x y
  spare zero n x y h = ap (λ t. digits last op t x y) (omega arith)
  spare (suc d) n x y h =
      let e : n + suc d ≡ suc (n + d) = omega arith in
      rw e (one_spare (n + d) x y (omega arith) ∙ spare d n x y h)

  lowest_digit :
      (x y : ℕ)
      → bitwise last op (suc x) y ≡ bitwise last op (suc x / 2) (y / 2) * 2 + op (suc x % 2) (y % 2)
  lowest_digit x y =
      let half = suc x / 2 in
      let enough : half + (x - half) ≡ x = omega arith in
      let same : digits last op x half (y / 2) ≡ digits last op half half (y / 2) =
        ap (λ t. digits last op t half (y / 2)) (sym enough)
        ∙ spare (x - half) half half (y / 2) (omega arith) in
      omega (arith, same)

and_digit : (a b : ℕ) → bit_and a b ≡ bit_and (a / 2) (b / 2) * 2 + min (a % 2) (b % 2)
and_digit zero b = simp bit_and-bitwise (omega arith)
and_digit (suc a) b = simp bit_and-bitwise (lowest_digit (λ _. 0) min a b)

or_digit : (a b : ℕ) → bit_or a b ≡ bit_or (a / 2) (b / 2) * 2 + max (a % 2) (b % 2)
or_digit zero b = simp bit_or-bitwise (omega arith)
or_digit (suc a) b = simp bit_or-bitwise (lowest_digit (λ y. y) max a b)

-- The halves of a number below and above bit `k + 1`, from those of its half.
div_twice : (a p : ℕ) → 0 < p → a / (2 * p) ≡ a / 2 / p
div_twice a p h = sym (div-div-eq-div-mul a 2 p)

mod_twice : (a p : ℕ) → 0 < p → a % (2 * p) ≡ 2 * (a / 2 % p) + a % 2
mod_twice a p h =
    omega (
      arith,
      ap (λ (t : ℕ). t * p) (div_twice a p h),
      div-add-mod' a (2 * p),
      div-add-mod' (a / 2) p,
    )

pub two_pow_pos : (k : ℕ) → 0 < 2 ^ k
two_pow_pos zero = omega arith
two_pow_pos (suc k) = omega (arith, pow-suc 2 k, two_pow_pos k)

mod_half : (a p : ℕ) → 0 < p → a % (2 * p) / 2 ≡ a / 2 % p
mod_half a p h = omega (arith, mod_twice a p h)

mod_even : (a p : ℕ) → 0 < p → a % (2 * p) % 2 ≡ a % 2
mod_even a p h = omega (arith, mod_twice a p h)

module _ (op f : ℕ → ℕ → ℕ)
    (digit : (a b : ℕ) → op a b ≡ op (a / 2) (b / 2) * 2 + f (a % 2) (b % 2))
    (none : op 0 0 ≡ 0) where
  split_twice :
      (p a b : ℕ)
      → 0 < p
      → op (a / 2) (b / 2) ≡ op (a / 2 / p) (b / 2 / p) * p + op (a / 2 % p) (b / 2 % p)
      → op a b ≡ op (a / (2 * p)) (b / (2 * p)) * (2 * p) + op (a % (2 * p)) (b % (2 * p))
  split_twice p a b h ih =
      rw (digit (a % (2 * p)) (b % (2 * p)), mod_half a p h, mod_half b p h, mod_even a p h)
        (rw (mod_even b p h, div_twice a p h, div_twice b p h) (omega (arith, digit a b)))

  split_at : (k a b : ℕ) → op a b ≡ op (a / 2 ^ k) (b / 2 ^ k) * 2 ^ k + op (a % 2 ^ k) (b % 2 ^ k)
  split_at zero a b = rw (div-one a, div-one b, mod-one a, mod-one b) (omega (arith, none))
  split_at (suc k) a b =
      rw (pow-succ' 2 k) (split_twice (2 ^ k) a b (two_pow_pos k) (split_at k (a / 2) (b / 2)))

-- Each operation splits at bit `k`.
pub and_split :
    (k a b : ℕ)
    → bit_and a b ≡ bit_and (a / 2 ^ k) (b / 2 ^ k) * 2 ^ k + bit_and (a % 2 ^ k) (b % 2 ^ k)
and_split = split_at bit_and min and_digit refl

pub or_split :
    (k a b : ℕ)
    → bit_or a b ≡ bit_or (a / 2 ^ k) (b / 2 ^ k) * 2 ^ k + bit_or (a % 2 ^ k) (b % 2 ^ k)
or_split = split_at bit_or max or_digit refl

xor_digit : (a b : ℕ) → bit_xor a b ≡ bit_xor (a / 2) (b / 2) * 2 + differ (a % 2) (b % 2)
xor_digit zero b = simp bit_xor-bitwise (omega arith)
xor_digit (suc a) b = simp bit_xor-bitwise (lowest_digit (λ y. y) differ a b)

pub xor_split :
    (k a b : ℕ)
    → bit_xor a b ≡ bit_xor (a / 2 ^ k) (b / 2 ^ k) * 2 ^ k + bit_xor (a % 2 ^ k) (b % 2 ^ k)
xor_split = split_at bit_xor differ xor_digit refl

zero-and : (b : ℕ) → bit_and 0 b ≡ 0
zero-and b = bit_and-bitwise 0 b

and-zero_fuel : (n a : ℕ) → a ≤ n → bit_and a 0 ≡ 0
and-zero_fuel n zero h = zero-and 0
and-zero_fuel zero (suc a) h = absurd (omega arith)
and-zero_fuel (suc n) (suc a) h =
    omega (arith, and_digit (suc a) 0, and-zero_fuel n (suc a / 2) (omega arith))

or-zero_fuel : (n a : ℕ) → a ≤ n → bit_or a 0 ≡ a
or-zero_fuel n zero h = refl
or-zero_fuel zero (suc a) h = absurd (omega arith)
or-zero_fuel (suc n) (suc a) h =
    omega (arith, or_digit (suc a) 0, or-zero_fuel n (suc a / 2) (omega arith))

-- A zero mask clears, and an `|` with zero keeps.
pub and-zero : (a : ℕ) → bit_and a 0 ≡ 0
and-zero a = and-zero_fuel a a (omega arith)

pub or-zero : (a : ℕ) → bit_or a 0 ≡ a
or-zero a = or-zero_fuel a a (omega arith)

pub zero-or : (b : ℕ) → bit_or 0 b ≡ b
zero-or b = bit_or-bitwise 0 b

-- A mask of `k` low ones is the remainder by `2 ^ k`.
pub and_mask : (k a : ℕ) → bit_and a (2 ^ k - 1) ≡ a % 2 ^ k
and_mask zero a = omega (arith, and-zero a)
and_mask (suc k) a =
    let p = 2 ^ k in
    let half : (2 * p - 1) / 2 ≡ p - 1 = omega (arith, two_pow_pos k) in
    let odd : (2 * p - 1) % 2 ≡ 1 = omega (arith, two_pow_pos k) in
    rw (pow-succ' 2 k, and_digit a (2 * p - 1), half, odd, and_mask k (a / 2))
      (omega (arith, mod_twice a p (two_pow_pos k)))

differ-le : (x y : ℕ) → differ x y ≤ max x y
differ-le zero y = omega arith
differ-le (suc x) zero = omega arith
differ-le (suc x) (suc y) = omega (arith, differ-le x y)

-- `^` stays within the width of its arguments.
pub xor-lt : (k a b : ℕ) → a < 2 ^ k → b < 2 ^ k → bit_xor a b < 2 ^ k
xor-lt zero a b ha hb =
    let ea : a ≡ 0 = omega arith in let eb : b ≡ 0 = omega arith in rw (ea, eb) (omega arith)
xor-lt (suc k) a b ha hb = omega (
  arith,
  pow-succ' 2 k,
  xor_digit a b,
  differ-le (a % 2) (b % 2),
  xor-lt k (a / 2) (b / 2) (omega (arith, pow-succ' 2 k)) (omega (arith, pow-succ' 2 k)),
)

-- `(a << k) | b` is a sum where `b` has `k` bits.
pub or_high_low : (k a b : ℕ) → b < 2 ^ k → bit_or (a * 2 ^ k) b ≡ a * 2 ^ k + b
or_high_low k a b h =
    let q : a * 2 ^ k / 2 ^ k ≡ a = mul-div_cancel a (two_pow_pos k) in
    let r : a * 2 ^ k % 2 ^ k ≡ 0 = mul-mod_left a (2 ^ k) in
    let hi : b / 2 ^ k ≡ 0 = div-eq_of_lt h in
    let lo : b % 2 ^ k ≡ b = mod-eq_of_lt h in
    rw (or_split k (a * 2 ^ k) b, q, r, hi, lo, or-zero a, zero-or b)

pub or_low_high : (k a b : ℕ) → b < 2 ^ k → bit_or b (a * 2 ^ k) ≡ a * 2 ^ k + b
or_low_high k a b h =
    let q : a * 2 ^ k / 2 ^ k ≡ a = mul-div_cancel a (two_pow_pos k) in
    let r : a * 2 ^ k % 2 ^ k ≡ 0 = mul-mod_left a (2 ^ k) in
    let hi : b / 2 ^ k ≡ 0 = div-eq_of_lt h in
    let lo : b % 2 ^ k ≡ b = mod-eq_of_lt h in
    rw (or_split k b (a * 2 ^ k), q, r, hi, lo, or-zero b, zero-or a)

pub or-lt : (k a b : ℕ) → a < 2 ^ k → b < 2 ^ k → bit_or a b < 2 ^ k
or-lt zero a b ha hb =
    let ea : a ≡ 0 = omega arith in let eb : b ≡ 0 = omega arith in rw (ea, eb) (omega arith)
or-lt (suc k) a b ha hb = omega (
  arith,
  pow-succ' 2 k,
  or_digit a b,
  or-lt k (a / 2) (b / 2) (omega (arith, pow-succ' 2 k)) (omega (arith, pow-succ' 2 k)),
)

bit_differs : (x y : ℕ) → x < 2 → y < 2 → (differ x y < 2) × (differ (differ x y) y ≡ x)
bit_differs zero zero h k = (omega arith, refl)
bit_differs zero (suc zero) h k = (omega arith, refl)
bit_differs (suc zero) zero h k = (omega arith, refl)
bit_differs (suc zero) (suc zero) h k = (omega arith, refl)
bit_differs zero (suc (suc y)) h k = absurd (omega arith)
bit_differs (suc zero) (suc (suc y)) h k = absurd (omega arith)
bit_differs (suc (suc x)) y h k = absurd (omega arith)

-- Exclusive or twice with the same word changes nothing.
pub xor_cancel : (k a b : ℕ) → a < 2 ^ k → b < 2 ^ k → bit_xor (bit_xor a b) b ≡ a
xor_cancel zero a b ha hb =
    let ea : a ≡ 0 = omega arith in let eb : b ≡ 0 = omega arith in rw (ea, eb) refl
xor_cancel (suc k) a b ha hb =
    let d = bit_xor a b in
    let low = xor_digit a b in
    let (small, back) = bit_differs (a % 2) (b % 2) (omega arith) (omega arith) in
    let half : d / 2 ≡ bit_xor (a / 2) (b / 2) = omega (arith, low, small) in
    let digit : d % 2 ≡ differ (a % 2) (b % 2) = omega (arith, low, small) in
    let rest =
      xor_cancel k (a / 2) (b / 2) (omega (arith, pow-suc 2 k)) (omega (arith, pow-suc 2 k)) in
    xor_digit d b ∙ rw (half, digit, back, rest) (omega arith)
