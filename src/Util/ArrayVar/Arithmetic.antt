-- ===== src/Util/ArrayVar/Arithmetic.antt =====
-- `operator+=` and `operator-=`, against arithmetic on the numbers that the bytes stand for.
use faunus.Prelude.{
  ℕ, suc, ◌+◌, ◌-◌, ◌*◌, ◌/◌, ◌%◌, ◌^◌, ◌≤◌, ◌<◌, bit_and, ◌≡◌, refl, sym, ap, ◌∙◌, List, [], ◌∷◌,
  reverse, ltb, dec_lt, lt→ltb, le→ltb, if◌then◌else◌, length, arith,
}
use faunus.Prelude.Bits.{and_mask}
use faunus.Util.ArrayVar.Value.{
  IsBytes, IsBytes-reverse, value, value-lt, low_value, value-reverse, low_value-reverse,
  length-reverse, value-injective, digit_mod, room-next, room-none,
}
use faunus.Util.ArrayVar.{ArrayVar, word_bytes, add_bytes, add, sub_bytes, sub}
use native.Mathlib.Nat.{pow-succ', one-le-pow, mod-one, add-zero, div-add-mod'}

-- The carry after a byte is the part of the sum above 255.
carry-lem : (sum : ℕ) → sum < 512 → (if ltb 0xff sum then 1 else 0) ≡ sum / 256
carry-lem sum h = ground arith

-- The loop of `operator+=` adds the carry and what is left of the integer.
add_bytes-low_value :
    (ds : List ℕ) (i carry v : ℕ)
    → IsBytes ds
    → carry ≤ 1
    → v < 256 ^ (word_bytes - i)
    → low_value (add_bytes ds i carry v) ≡ (low_value ds + carry + v) % 256 ^ length ds
unfolding low_value add_bytes
add_bytes-low_value [] i carry v b c h = omega (arith, mod-one (0 + carry + v))
add_bytes-low_value (d ∷ ds) i carry v b c h =
    let m = 256 ^ length ds in
    let x = d + 256 * low_value ds + carry + v in
    elim (dec_lt i word_bytes) [
      | yes low ↦
          let s = d + (carry + v % 256) in
          let small : s % 65536 ≡ s = omega arith in
          let up : x / 256 ≡ low_value ds + s / 256 + v / 256 = omega arith in
          let ih =
            add_bytes-low_value ds (i + 1) (s / 256) (v / 256) b.1 (omega arith)
              (room-next i v low h) in
          rw
            (
              lt→ltb i word_bytes low,
              and_mask 8 v,
              small,
              carry-lem s (omega arith),
              and_mask 8 s,
              ih,
            )
            (rw (pow-succ' 256 (length ds), digit_mod x m, up) (omega arith))
      | no high ↦
          let s = d + carry in
          let none : v ≡ 0 = room-none i v (omega arith) h in
          let small : s % 65536 ≡ s = omega arith in
          let up : x / 256 ≡ low_value ds + s / 256 + 0 = omega arith in
          let ih =
            add_bytes-low_value ds (i + 1) (s / 256) 0 b.1 (omega arith)
              (one-le-pow (word_bytes - (i + 1)) 256 (omega arith)) in
          rw
            (
              le→ltb i word_bytes (omega arith),
              small,
              carry-lem s (omega arith),
              and_mask 8 s,
              pow-succ' 256 (length ds),
              digit_mod x m,
              up,
            )
            (rw (none, ih) (omega arith))
    ]

byte-lt : (x : ℕ) → bit_and x 0xff < 256
byte-lt x = rw (and_mask 8 x) (omega arith)

-- A loop that maps bytes to bytes, one for one.
abbrev IsBytesOf : List ℕ → List ℕ → Type 0
IsBytesOf ds es = IsBytes es × (length es ≡ length ds)

add_bytes-IsBytes : (ds : List ℕ) (i carry v : ℕ) → IsBytesOf ds (add_bytes ds i carry v)
unfolding add_bytes
add_bytes-IsBytes [] i carry v = (tt, refl)
add_bytes-IsBytes (d ∷ ds) i carry v =
    let ih = add_bytes-IsBytes ds (i + 1) _ _ in ((byte-lt _, ih.0), ap suc ih.1)

sub_bytes-IsBytes : (ds : List ℕ) (i borrow v : ℕ) → IsBytesOf ds (sub_bytes ds i borrow v)
unfolding sub_bytes
sub_bytes-IsBytes [] i borrow v = (tt, refl)
sub_bytes-IsBytes (d ∷ ds) i borrow v =
    let ih = sub_bytes-IsBytes ds (i + 1) _ _ in ((byte-lt _, ih.0), ap suc ih.1)

-- One round of `operator-=`: the new digit and the borrow balance the old digit.
sub_digit :
    (cur less : ℕ)
    → cur < 256
    → less ≤ 256
    → let r : ℕ = bit_and (if ltb cur less then cur + 256 - less else cur - less) 0xff in
      let t : ℕ = if ltb cur less then 1 else 0 in (r + less ≡ cur + 256 * t) × (t ≤ 1)
sub_digit cur less h k = elim (dec_lt cur less) [
  | yes p ↦ rw (lt→ltb cur less p, and_mask 8 (cur + 256 - less)) (omega arith, omega arith)
  | no p ↦ rw (le→ltb cur less (omega arith), and_mask 8 (cur - less)) (omega arith, omega arith)
]

sub_round :
    (r rest t cur m below borrow v : ℕ)
    → r + (borrow + v % 256) ≡ cur + 256 * t
    → cur < 256
    → (rest + t + v / 256) % m ≡ below
    → (r + 256 * rest + borrow + v) % (256 * m) ≡ cur + 256 * below
sub_round r rest t cur m below borrow v balance byte ih =
    let up : (r + 256 * rest + borrow + v) / 256 ≡ rest + t + v / 256 = omega arith in
    rw (digit_mod (r + 256 * rest + borrow + v) m, up) (omega arith)

-- The loop of `operator-=` takes the borrow and what is left of the integer away.
sub_bytes-low_value :
    (ds : List ℕ) (i borrow v : ℕ)
    → IsBytes ds
    → borrow ≤ 1
    → v < 256 ^ (word_bytes - i)
    → (low_value (sub_bytes ds i borrow v) + borrow + v) % 256 ^ length ds ≡ low_value ds
unfolding low_value sub_bytes
sub_bytes-low_value [] i borrow v b c h = mod-one (0 + borrow + v)
sub_bytes-low_value (cur ∷ ds) i borrow v b c h = elim (dec_lt i word_bytes) [
  | yes low ↦
      let (balance, t1) = sub_digit cur (borrow + v % 256) b.0 (omega arith) in
      let ih =
        sub_bytes-low_value ds (i + 1) (if ltb cur (borrow + v % 256) then 1 else 0) (v / 256) b.1
          t1 (room-next i v low h) in
      rw (lt→ltb i word_bytes low, and_mask 8 v, pow-succ' 256 (length ds))
        (sub_round _ _ _ cur (256 ^ length ds) (low_value ds) borrow v balance b.0 ih)
  | no high ↦
      let none : v ≡ 0 = room-none i v (omega arith) h in
      let (balance, t1) = sub_digit cur borrow b.0 (omega arith) in
      let ih =
        sub_bytes-low_value ds (i + 1) (if ltb cur borrow then 1 else 0) 0 b.1 t1
          (one-le-pow (word_bytes - (i + 1)) 256 (omega arith)) in
      rw (le→ltb i word_bytes (omega arith), none, pow-succ' 256 (length ds))
        (sub_round _ _ _ cur (256 ^ length ds) (low_value ds) borrow 0
          (rw (add-zero borrow) balance) b.0 ih)
]

module _ (a : ArrayVar) (v : ℕ) where
  -- Both operators give N bytes.
  pub add-IsBytes : IsBytesOf a (add a v)
  unfolding add
  add-IsBytes =
      let (b, l) = add_bytes-IsBytes (reverse a) 0 0 v in
      (
        IsBytes-reverse _ b,
        rw (length-reverse (add_bytes (reverse a) 0 0 v)) (l ∙ length-reverse a),
      )

  pub sub-IsBytes : IsBytesOf a (sub a v)
  unfolding sub
  sub-IsBytes =
      let (b, l) = sub_bytes-IsBytes (reverse a) 0 0 v in
      (
        IsBytes-reverse _ b,
        rw (length-reverse (sub_bytes (reverse a) 0 0 v)) (l ∙ length-reverse a),
      )

  -- Adding a `uint64_t` to an array of N bytes adds it to the number that the bytes stand for, and
  -- drops the carry beyond N bytes.
  value-add : IsBytes a → v < 2 ^ 64 → value (add a v) ≡ (value a + v) % 256 ^ length a
  unfolding add
  value-add b h =
      let ih = add_bytes-low_value (reverse a) 0 0 v (IsBytes-reverse a b) (omega arith) h in
      rw (
        value-reverse (add_bytes (reverse a) 0 0 v),
        ih,
        low_value-reverse,
        length-reverse,
        add-zero,
      )

  value-sub_back : IsBytes a → v < 2 ^ 64 → (value (sub a v) + v) % 256 ^ length a ≡ value a
  unfolding sub
  value-sub_back b h =
      let ih = sub_bytes-low_value (reverse a) 0 0 v (IsBytes-reverse a b) (omega arith) h in
      let e : low_value (sub_bytes (reverse a) 0 0 v) ≡ value (sub a v) =
        sym (value-reverse (sub_bytes (reverse a) 0 0 v)) in
      rw (e, low_value-reverse, length-reverse, add-zero) at ih

quotients_order : (p q m : ℕ) → p < q → p * m + m ≤ q * m
quotients_order p q m h = grind arith

mod_cancel : (s u v m : ℕ) → s < m → u < m → (s + v) % m ≡ (u + v) % m → s ≡ u
mod_cancel s u v m hs hu e = ground (
  arith,
  div-add-mod' (s + v) m,
  div-add-mod' (u + v) m,
  quotients_order ((s + v) / m) ((u + v) / m) m,
  quotients_order ((u + v) / m) ((s + v) / m) m,
)

module _ (a : ArrayVar) (v : ℕ) (b : IsBytes a) (h : v < 2 ^ 64) where
  -- Subtracting a `uint64_t` from an array of bytes and then adding it gives the array back, also
  -- across a wrap.
  add-sub : add (sub a v) v ≡ a
  add-sub =
      let (bs, ls) = sub-IsBytes a v in
      let (ba, la) = add-IsBytes (sub a v) v in
      value-injective _ _ ba b (la ∙ ls)
        (rw (value-add (sub a v) v bs h, ls) (value-sub_back a v b h))

  -- Adding a `uint64_t` to an array of bytes and then subtracting it gives the array back, also across
  -- a wrap.
  sub-add : sub (add a v) v ≡ a
  sub-add =
      let (ba, la) = add-IsBytes a v in
      let (bs, ls) = sub-IsBytes (add a v) v in
      let s = value (sub (add a v) v) in
      let m = 256 ^ length a in
      let e : (s + v) % m ≡ (value a + v) % m =
        rw la at (value-sub_back (add a v) v ba h) ∙ value-add a v b h in
      let small : s < m = rw (ls ∙ la) at (value-lt _ bs) in
      value-injective _ _ bs b (ls ∙ la) (mod_cancel s (value a) v m small (value-lt a b) e)
