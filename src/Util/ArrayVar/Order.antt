-- ===== src/Util/ArrayVar/Order.antt =====
-- The comparison operators, against the numbers that the bytes stand for.
use Prim.Native.Nat.{compare, Ordering}
use faunus.Prelude.{
  ℕ, zero, suc, ◌+◌, ◌^◌, ◌<◌, ◌≡◌, refl, sym, true, [], ◌∷◌, ltb, leb, ◌==◌, dec_lt, length,
  length-replicate, replicate, arith,
}
use faunus.Util.ArrayVar.Value.{IsBytes, value, value-lt, digits_order}
use faunus.Util.ArrayVar.{ArrayVar, memcmp, lt, le, eq, min_value, max_value}
use native.Mathlib.Nat.{pow-succ'}

compare-lt : (a b : ℕ) → a < b → compare a b ≡ Ordering.lt
compare-lt a b h = ground arith

compare-gt : (a b : ℕ) → b < a → compare a b ≡ Ordering.gt
compare-gt a b h = ground arith

compare-eq : (a b : ℕ) → a ≡ b → compare a b ≡ Ordering.eq
compare-eq a b h = ground arith

compare-add : (n a b : ℕ) → compare (n + a) (n + b) ≡ compare a b
compare-add n a b = ground arith

pub memcmp-compare :
    (a b : ArrayVar)
    → IsBytes a
    → IsBytes b
    → length a ≡ length b
    → memcmp a b ≡ compare (value a) (value b)
unfolding memcmp value
memcmp-compare [] [] ha hb l = refl
memcmp-compare [] (y ∷ ys) ha hb l = absurd (omega arith)
memcmp-compare (x ∷ xs) [] ha hb l = absurd (omega arith)
memcmp-compare (x ∷ xs) (y ∷ ys) ha hb l =
    let same : length xs ≡ length ys = omega arith in
    let p = 256 ^ length ys in
    let u : value xs < p = rw same at (value-lt xs ha.1) in
    let w = value-lt ys hb.1 in
    let ih = memcmp-compare xs ys ha.1 hb.1 same in
    elim (dec_lt x y) [
      | yes h ↦
          rw (compare-lt x y h, memcmp, same)
            (sym (compare-lt _ _ (digits_order x y (value xs) (value ys) p h u)))
      | no ge ↦ elim (dec_lt y x) [
        | yes h ↦
            rw (compare-gt x y h, memcmp, same)
              (sym (compare-gt _ _ (digits_order y x (value ys) (value xs) p h w)))
        | no same_head ↦
            let e : x ≡ y = omega arith in rw (compare-eq x y e, memcmp, e, same, compare-add) ih
      ]
    ]

module _ (a b : ArrayVar) (ha : IsBytes a) (hb : IsBytes b) (l : length a ≡ length b) where
  -- On arrays of bytes of one length, `<`, `<=` and `==` compare the numbers that the bytes stand for.
  pub operators_compare :
      (lt a b ≡ ltb (value a) (value b))
      × (le a b ≡ leb (value a) (value b))
      × (eq a b ≡ (value a == value b))
  unfolding lt le eq
  operators_compare = rw (memcmp-compare a b ha hb l, lt, le, eq) (refl, refl, refl)

value-replicate_zero : (n : ℕ) → value (replicate n 0) ≡ 0
unfolding value
value-replicate_zero zero = refl
value-replicate_zero (suc n) = omega (arith, value-replicate_zero n)

value-replicate_ff : (n : ℕ) → value (replicate n 0xff) + 1 ≡ 256 ^ n
unfolding value
value-replicate_ff zero = refl
value-replicate_ff (suc n) =
    rw (pow-succ' 256 n, length-replicate) (omega (arith, value-replicate_ff n))

IsBytes-replicate : (n d : ℕ) → d < 256 → IsBytes (replicate n d)
IsBytes-replicate zero d h = tt
IsBytes-replicate (suc n) d h = (h, IsBytes-replicate n d h)

-- Every array of N bytes lies between `min()` and `max()`, both included, and they stand for 0 and 256^N - 1.
min-le-max :
    (a : ArrayVar)
    → IsBytes a
    → (le (min_value (length a)) a ≡ true)
      × (le a (max_value (length a)) ≡ true)
      × (value (min_value (length a)) ≡ 0)
      × (value (max_value (length a)) + 1 ≡ 256 ^ length a)
unfolding min_value max_value
min-le-max a h =
    let n = length a in
    let lo = value-replicate_zero n in
    let hi = value-replicate_ff n in
    (
      rw
          (operators_compare (replicate n 0) a (IsBytes-replicate n 0 (omega arith)) h
            (length-replicate n 0)).1
          (rw lo (ground arith)),
      rw
          (operators_compare a (replicate n 0xff) h (IsBytes-replicate n 0xff (omega arith))
            (sym (length-replicate n 0xff))).1
          (ground (arith, value-lt a h)),
      lo,
      hi,
    )
