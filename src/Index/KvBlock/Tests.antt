-- ===== src/Index/KvBlock/Tests.antt =====
-- Runs of the blocks, and each theorem at an input.
use faunus.Index.KvBlock.Fields.{Holds, set_addr-Holds}
use faunus.Index.KvBlock.{
  KvBlock, fingerprint, get_fingerprint, get_addr, is_free, is_locked, set_addr, new_block,
}
use faunus.Prelude.{ℕ, ◌+◌, ◌*◌, ◌/◌, ◌%◌, ◌^◌, ◌≡◌, refl, false, List, [], ◌∷◌, arith}

abbrev key : List ℕ
key = 0x12 ∷ 0x34 ∷ 0x56 ∷ 0 ∷ 0 ∷ 0 ∷ 0 ∷ 0xff ∷ []

fingerprint_run : fingerprint key ≡ 0x8f
unfolding fingerprint
fingerprint_run = refl

-- The fingerprint 0x123 loses its first digit.
new_block_run : get_fingerprint (new_block 0x123 5 false false) ≡ 0x23
unfolding new_block get_fingerprint
new_block_run = refl

-- A block of server 16, whose address is then set to one on server 0.
abbrev far : KvBlock
far = 0x8f * 2 ^ 52 + (16 * 2 ^ 42 + 0x40) * 4

set_addr_run : get_addr (set_addr far 0x80) ≡ 16 * 2 ^ 42 + 0x80
unfolding set_addr get_addr
set_addr_run = refl

set_addr-Holds_example :
    Holds
      (set_addr far 0x80)
      (get_fingerprint far % 2 ^ 8)
      (get_addr far / 2 ^ 46 * 2 ^ 46 + 0x80 % 2 ^ 46)
      (is_free far)
      (is_locked far)
set_addr-Holds_example = set_addr-Holds far 0x80 (omega arith)

abbrev near : KvBlock
near = 0x8f * 2 ^ 52 + 0x40 * 4

abbrev redrawn : KvBlock
redrawn = 0x77 * 2 ^ 52 + 0x99 * 4
