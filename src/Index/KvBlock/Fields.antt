-- ===== src/Index/KvBlock/Fields.antt =====
-- What the accessors read after each way of writing a block.
use faunus.Prelude.Bits.{and_mask, xor-lt}
use faunus.Prelude.{
  ℕ, ◌+◌, ◌*◌, ◌/◌, ◌%◌, ◌^◌, ◌<◌, bit_xor, ◌≡◌, refl, ◌∙◌, Bool, true, false, not, ◌==◌, List, [],
  ◌∷◌, arith,
}
use faunus.Index.KvBlock.Words.{
  of_bool-lt, get_fingerprint-eq, get_addr-eq, is_free-eq, is_locked-eq, set_fingerprint-eq,
  set_addr-eq, set_free-eq, set_locked-eq,
}
use faunus.Index.KvBlock.{
  KvBlock, xor_bytes, fingerprint, of_bool, get_fingerprint, get_addr, is_free, is_locked,
  set_fingerprint, set_addr, set_locked, new_block, add_lock, drop_lock,
}
use faunus.Rdma.GlobalAddress.{GlobalAddress}
use faunus.Util.ArrayVar.Value.{IsBytes}

-- A word of four fields.
pub of_fields : ℕ → ℕ → Bool → Bool → KvBlock
of_fields fp ptr free locked = fp * 2 ^ 52 + ptr * 4 + of_bool free * 2 + of_bool locked

-- A block holds these four fields.
pub record Holds (raw : KvBlock) (fp ptr : ℕ) (free locked : Bool) : Type 0 where
  pub print : get_fingerprint raw ≡ fp
  pub addr : get_addr raw ≡ ptr
  pub free_bit : is_free raw ≡ free
  pub lock_bit : is_locked raw ≡ locked

bit_test : (b : Bool) → not (of_bool b == 0) ≡ b
bit_test true = refl
bit_test false = refl

-- The accessors take such a word apart.
pub of_fields-Holds :
    (fp ptr : ℕ) (free locked : Bool)
    → fp < 2 ^ 12
    → ptr < 2 ^ 50
    → Holds (of_fields fp ptr free locked) fp ptr free locked
unfolding of_fields
of_fields-Holds fp ptr free locked h k =
    let raw = fp * 2 ^ 52 + ptr * 4 + of_bool free * 2 + of_bool locked in
    let f1 = of_bool-lt free in
    let l1 = of_bool-lt locked in
    let low : raw % 2 ≡ of_bool locked = omega arith in
    let second : raw / 2 % 2 ≡ of_bool free = omega arith in
    record {
      print = get_fingerprint-eq raw ∙ omega arith;
      addr = get_addr-eq raw ∙ omega arith;
      free_bit = is_free-eq raw ∙ rw second (bit_test free);
      lock_bit = is_locked-eq raw ∙ rw low (bit_test locked);
    }

new_block-eq :
    (fp ptr : ℕ) (free locked : Bool)
    → fp < 2 ^ 12
    → ptr < 2 ^ 50
    → new_block fp ptr free locked ≡ of_fields (fp % 2 ^ 8) (ptr % 2 ^ 46) free locked
unfolding new_block of_fields
new_block-eq fp ptr free locked h k =
    let f1 = of_bool-lt free in
    let l1 = of_bool-lt locked in
    let first : set_fingerprint 0 fp ≡ fp * 2 ^ 52 = rw (set_fingerprint-eq 0 fp h) (omega arith) in
    let second : set_addr (fp * 2 ^ 52) ptr ≡ fp % 2 ^ 8 * 2 ^ 52 + ptr % 2 ^ 46 * 4 =
      rw (set_addr-eq (fp * 2 ^ 52) ptr k) (omega arith) in
    let word = fp % 2 ^ 8 * 2 ^ 52 + ptr % 2 ^ 46 * 4 in
    rw (first, second, set_free-eq word free (omega arith))
      (rw (set_locked-eq (word / 4 * 4 + of_bool free * 2 + word % 2) locked (omega arith))
        (omega arith))

-- The constructor keeps the two bits, of an address of 50 bits the low 46, and of a fingerprint of 12
-- bits the low 8.
new_block-Holds :
    (fp ptr : ℕ) (free locked : Bool)
    → fp < 2 ^ 12
    → ptr < 2 ^ 50
    → Holds (new_block fp ptr free locked) (fp % 2 ^ 8) (ptr % 2 ^ 46) free locked
new_block-Holds fp ptr free locked h k =
    rw (new_block-eq fp ptr free locked h k)
      (of_fields-Holds (fp % 2 ^ 8) (ptr % 2 ^ 46) free locked (omega arith) (omega arith))

xor_bytes-lt : (h : ℕ) (ds : List ℕ) → h < 2 ^ 8 → IsBytes ds → xor_bytes h ds < 2 ^ 8
unfolding xor_bytes
xor_bytes-lt h [] k b = k
xor_bytes-lt h (d ∷ ds) k b = xor_bytes-lt (bit_xor h d) ds (xor-lt 8 h d k b.0) b.1

pub fingerprint-lt : (key : List ℕ) → IsBytes key → fingerprint key < 2 ^ 8
unfolding fingerprint
fingerprint-lt key b =
    rw (and_mask 12 (xor_bytes 0 key)) (omega (arith, xor_bytes-lt 0 key (omega arith) b))

-- A block built for a key, which is a list of bytes, and an address on one of the first 16 servers
-- keeps the key's fingerprint whole, with the address and the two bits.
new_block-key :
    (key : List ℕ) (ptr : GlobalAddress) (free locked : Bool)
    → IsBytes key
    → ptr < 2 ^ 46
    → Holds (new_block (fingerprint key) ptr free locked) (fingerprint key) ptr free locked
new_block-key key ptr free locked b k =
    let small = fingerprint-lt key b in
    let e : fingerprint key % 2 ^ 8 ≡ fingerprint key = omega arith in
    let whole : ptr % 2 ^ 46 ≡ ptr = omega arith in
    rw (e, whole) at (new_block-Holds (fingerprint key) ptr free locked (omega arith) (omega arith))

of_bit : (x : ℕ) → of_bool (not (x % 2 == 0)) ≡ x % 2
of_bit x = ground arith

-- Rewriting the address by one of 50 bits: the top 4 bits of the old one stay and the low 46 are those
-- of the new one; the fingerprint loses its high 4 bits, and the two low bits stay.
pub set_addr-Holds :
    (raw ptr : ℕ)
    → ptr < 2 ^ 50
    → Holds
        (set_addr raw ptr)
        (get_fingerprint raw % 2 ^ 8)
        (get_addr raw / 2 ^ 46 * 2 ^ 46 + ptr % 2 ^ 46)
        (is_free raw)
        (is_locked raw)
unfolding of_fields
set_addr-Holds raw ptr h =
    let word : set_addr raw ptr
        ≡ of_fields (get_fingerprint raw % 2 ^ 8) (get_addr raw / 2 ^ 46 * 2 ^ 46 + ptr % 2 ^ 46)
            (is_free raw) (is_locked raw) =
      rw (get_addr-eq raw, get_fingerprint-eq raw, is_free-eq raw, is_locked-eq raw)
        (rw (set_addr-eq raw ptr h, of_fields, of_bit (raw / 2), of_bit raw) (omega arith)) in
    rw word (
      of_fields-Holds _ _ (is_free raw) (is_locked raw) (omega arith)
        (omega (arith, get_addr-eq raw)))

-- The fetch-and-adds by which a split locks a slot and unlocks it: on an unlocked 64-bit word the
-- first sets the lock bit as `setLocked(true)` does, and the second then gives the word back.
add_lock-set_locked :
    (raw : KvBlock)
    → raw < 2 ^ 64
    → is_locked raw ≡ false
    → (add_lock raw ≡ set_locked raw true) × (drop_lock (add_lock raw) ≡ raw)
unfolding add_lock drop_lock
add_lock-set_locked raw h e =
    let even : raw % 2 ≡ 0 = ground (arith, is_locked-eq raw) in
    rw (set_locked-eq raw true h) (omega arith, omega arith)
