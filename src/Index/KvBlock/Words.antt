-- ===== src/Index/KvBlock/Words.antt =====
-- Each accessor and each setter of a block as arithmetic on the word.
use faunus.Prelude.Bits.{and_mask, and_split, and-zero, or_split, or_high_low, or_low_high, or-zero}
use faunus.Prelude.{
  ℕ, ◌+◌, ◌*◌, ◌/◌, ◌%◌, ◌^◌, ◌<◌, bit_and, ◌≡◌, Bool, true, false, not, ◌==◌, arith,
}
use native.Mathlib.Nat.{add-zero}
use faunus.Index.KvBlock.{
  KvBlock, of_bool, get_fingerprint, get_addr, is_free, is_locked, set_fingerprint, set_addr,
  set_free, set_locked,
}

pub of_bool-lt : (b : Bool) → of_bool b < 2
of_bool-lt true = omega arith
of_bool-lt false = omega arith

pub get_fingerprint-eq : (raw : KvBlock) → get_fingerprint raw ≡ raw / 2 ^ 52 % 2 ^ 12
unfolding get_fingerprint
get_fingerprint-eq raw = rw (and_mask 12 (raw / 2 ^ 52 % 2 ^ 16)) (omega arith)

pub get_addr-eq : (raw : KvBlock) → get_addr raw ≡ raw / 4 % 2 ^ 50
unfolding get_addr
get_addr-eq raw = rw (and_mask 52 raw) (omega arith)

pub is_locked-eq : (raw : KvBlock) → is_locked raw ≡ not (raw % 2 == 0)
unfolding is_locked
is_locked-eq raw = rw (and_mask 1 raw)

pub is_free-eq : (raw : KvBlock) → is_free raw ≡ not (raw / 2 % 2 == 0)
unfolding is_free
is_free-eq raw =
    let e : (raw / 2 % 2 * 2 + 0) / 2 ≡ raw / 2 % 2 = omega arith in
    rw (and_split 1 raw 2, and_mask 1 (raw / 2), and-zero (raw % 2), e)

pub set_fingerprint-eq :
    (raw fp : ℕ) → fp < 2 ^ 12 → set_fingerprint raw fp ≡ fp * 2 ^ 52 + raw % 2 ^ 52
unfolding set_fingerprint
set_fingerprint-eq raw fp h =
    let whole : fp * 2 ^ 52 % 2 ^ 64 ≡ fp * 2 ^ 52 = omega arith in
    rw (and_mask 52 raw, whole) (or_low_high 52 fp (raw % 2 ^ 52) (omega arith))

-- `setLocked` and `setFree` replace one bit.
pub set_locked-eq : (raw : ℕ) (b : Bool) → raw < 2 ^ 64 → set_locked raw b ≡ raw / 2 * 2 + of_bool b
unfolding set_locked
set_locked-eq raw b h =
    let whole : raw / 2 % 2 ^ 63 ≡ raw / 2 = omega arith in
    rw (and_split 1 raw 0xffff_ffff_ffff_fffe, and_mask 63 (raw / 2), and-zero (raw % 2), whole)
      (rw (add-zero (raw / 2 * 2)) (or_high_low 1 (raw / 2) (of_bool b) (of_bool-lt b)))

pub set_free-eq :
    (raw : ℕ) (b : Bool) → raw < 2 ^ 64 → set_free raw b ≡ raw / 4 * 4 + of_bool b * 2 + raw % 2
unfolding set_free
set_free-eq raw b h =
    let t = of_bool b in
    let t1 = of_bool-lt b in
    let cleared : bit_and raw 0xffff_ffff_ffff_fffd ≡ raw / 4 * 4 + raw % 2 =
      rw (and_split 2 raw 0xffff_ffff_ffff_fffd, and_mask 62 (raw / 4), and_mask 1 (raw % 4))
        (omega arith) in
    let whole : t * 2 % 2 ^ 64 ≡ t * 2 = omega arith in
    let a : (raw / 4 * 4 + raw % 2) / 4 ≡ raw / 4 = omega arith in
    let b' : (raw / 4 * 4 + raw % 2) % 4 ≡ raw % 2 = omega arith in
    let c : t * 2 / 4 ≡ 0 = omega arith in
    let d : t * 2 % 4 ≡ t * 2 = omega arith in
    rw (cleared, whole, or_split 2 (raw / 4 * 4 + raw % 2) (t * 2), a, b', c, d, or-zero (raw / 4))
      (rw (or_low_high 1 t (raw % 2) (omega arith)) (omega arith))

-- What the code's mask of 15 digits keeps: bits 0, 1 and 48 to 59.
kept-eq : (raw : ℕ) → bit_and raw 0xfff_0000_0000_0003 ≡ raw / 2 ^ 48 % 2 ^ 12 * 2 ^ 48 + raw % 4
kept-eq raw =
    rw
      (and_split 48 raw 0xfff_0000_0000_0003, and_mask 12 (raw / 2 ^ 48), and_mask 2 (raw % 2 ^ 48))
      (omega arith)

-- What the code's other mask keeps of the new address: the low 46 bits.
shifted-eq :
    (ptr : ℕ)
    → ptr < 2 ^ 50
    → bit_and (ptr * 2 ^ 2 % 2 ^ 64) 0x000_ffff_ffff_fffc ≡ ptr % 2 ^ 46 * 4
shifted-eq ptr h =
    let whole : ptr * 2 ^ 2 % 2 ^ 64 ≡ ptr * 4 = omega arith in
    let q : ptr * 4 / 2 ^ 2 ≡ ptr = omega arith in
    rw
      (
        whole,
        and_split 2 (ptr * 4) 0x000_ffff_ffff_fffc,
        q,
        and_mask 46 ptr,
        and-zero (ptr * 4 % 2 ^ 2),
      )
      (omega arith)

-- `setAddr`: of the fingerprint the low 8 bits are kept and the high 4 cleared, the top 4 bits of the
-- old address stay, and the low 46 bits are those of the new one.
pub set_addr-eq :
    (raw ptr : ℕ)
    → ptr < 2 ^ 50
    → set_addr raw ptr ≡ raw / 2 ^ 48 % 2 ^ 12 * 2 ^ 48 + ptr % 2 ^ 46 * 4 + raw % 4
unfolding set_addr
set_addr-eq raw ptr h =
    let u = raw / 2 ^ 48 % 2 ^ 12 in
    let a : (u * 2 ^ 48 + raw % 4) / 2 ^ 48 ≡ u = omega arith in
    let b : (u * 2 ^ 48 + raw % 4) % 2 ^ 48 ≡ raw % 4 = omega arith in
    let c : ptr % 2 ^ 46 * 4 / 2 ^ 48 ≡ 0 = omega arith in
    let d : ptr % 2 ^ 46 * 4 % 2 ^ 48 ≡ ptr % 2 ^ 46 * 2 ^ 2 = omega arith in
    rw
      (
        kept-eq raw,
        shifted-eq ptr h,
        or_split 48 (u * 2 ^ 48 + raw % 4) (ptr % 2 ^ 46 * 4),
        a,
        b,
        c,
        d,
        or-zero u,
      )
      (rw (or_low_high 2 (ptr % 2 ^ 46) (raw % 4) (omega arith)) (omega arith))
