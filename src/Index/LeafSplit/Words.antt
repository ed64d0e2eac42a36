-- ===== src/Index/LeafSplit/Words.antt =====
-- The lock bit of a slot under the fetch-and-adds of a split, and of the words that a split writes.
use native.Mathlib.Nat.{add-zero}
use faunus.Index.KvBlock.Words.{is_locked-eq, set_locked-eq, set_free-eq}
use faunus.Index.KvBlock.{KvBlock, is_locked, set_locked, set_free, add_lock, drop_lock}
use faunus.Index.Leaf.{unlocked, cleared}
use faunus.Prelude.Bits.{and_split, and-zero, or_high_low}
use faunus.Prelude.{
  bit_and, bit_or, ◌+◌, ◌*◌, ◌/◌, ◌%◌, ◌^◌, ◌<◌, ◌≡◌, refl, ◌∙◌, ◌-◌, true, false, arith,
}

pub is_locked-add_lock :
    (w : KvBlock)
    → w < 2 ^ 64
    → is_locked w ≡ false
    → (add_lock w < 2 ^ 64) × (is_locked (add_lock w) ≡ true)
unfolding add_lock
is_locked-add_lock w h e =
    let even : w % 2 ≡ 0 = ground (arith, is_locked-eq w) in
    let odd : (w + 1) % 2 ^ 64 % 2 ≡ 1 = omega arith in
    (omega arith, rw (is_locked-eq ((w + 1) % 2 ^ 64), odd) refl)

pub is_locked-drop_lock :
    (w : KvBlock)
    → w < 2 ^ 64
    → is_locked w ≡ true
    → (drop_lock w < 2 ^ 64) × (is_locked (drop_lock w) ≡ false)
unfolding drop_lock
is_locked-drop_lock w h e =
    let odd : w % 2 ≡ 1 = ground (arith, is_locked-eq w) in
    let even : (w + (2 ^ 64 - 1)) % 2 ^ 64 % 2 ≡ 0 = omega arith in
    (omega arith, rw (is_locked-eq ((w + (2 ^ 64 - 1)) % 2 ^ 64), even) refl)

-- `setLocked(false)` clears the bit of any word.
pub is_locked-unlocked : (w : KvBlock) → is_locked (unlocked w) ≡ false
unfolding unlocked set_locked
is_locked-unlocked w =
    let high = bit_and (w / 2) (0xffff_ffff_ffff_fffe / 2) in
    let word : bit_or (bit_and w 0xffff_ffff_ffff_fffe) 0 ≡ high * 2 + 0 =
      rw (and_split 1 w 0xffff_ffff_ffff_fffe, and-zero (w % 2))
        (rw (add-zero (high * 2)) (or_high_low 1 high 0 (omega arith) ∙ add-zero (high * 2))) in
    let even : (high * 2 + 0) % 2 ≡ 0 = omega arith in
    rw (is_locked-eq (bit_or (bit_and w 0xffff_ffff_ffff_fffe) 0), word, even) refl

pub is_locked-cleared : (w : KvBlock) → w < 2 ^ 64 → is_locked (cleared w) ≡ false
unfolding cleared
is_locked-cleared w h =
    let e = set_locked-eq w false h in
    let small : set_locked w false < 2 ^ 64 = omega (arith, e) in
    let even : (set_locked w false / 4 * 4 + 1 * 2 + set_locked w false % 2) % 2 ≡ 0 =
      omega (arith, e) in
    rw
      (
        is_locked-eq (set_free (set_locked w false) true),
        set_free-eq (set_locked w false) true small,
        even,
      )
      refl
