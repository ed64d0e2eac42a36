-- ===== src/Index/KvBlock/Random.antt =====
-- `setDifferentRandomFpAddr`: where it changes the word, and where it does not.
use faunus.Prelude.Bits.{and_mask}
use faunus.Prelude.{
  ℕ, ◌+◌, ◌*◌, ◌/◌, ◌%◌, ◌^◌, ◌<◌, bit_and, ◌≡◌, ◌≢◌, ◌∙◌, List, [], ◌∷◌, some, arith, >>=-eq-some,
  sym, ap,
}
use faunus.Index.KvBlock.Fields.{set_addr-Holds}
use faunus.Index.KvBlock.Words.{get_addr-eq, set_fingerprint-eq, set_addr-eq}
use faunus.Index.KvBlock.{
  KvBlock, get_fingerprint, get_addr, draw_fingerprint, draw_address, set_random, set_fingerprint,
  set_addr,
}

-- The address drawn differs from the old one and lies on server 0.
draw_address-ne :
    (old : ℕ) (draws : List ℕ) {new : ℕ} {rest : List ℕ}
    → draw_address old draws ≡ some (new, rest)
    → (new ≢ old) × (new < 2 ^ 42)
unfolding draw_address
draw_address-ne old [] h = cc
draw_address-ne old (r ∷ rs) {new} {rest} h =
    ground (arith, draw_address-ne old rs {new = new} {rest = rest}, and_mask 42 r)

draw_fingerprint-lt :
    (old : ℕ) (draws : List ℕ) {new : ℕ} {rest : List ℕ}
    → draw_fingerprint old draws ≡ some (new, rest)
    → new < 2 ^ 12
unfolding draw_fingerprint
draw_fingerprint-lt old [] h = cc
draw_fingerprint-lt old (r ∷ rs) {new} {rest} h = ground (
  arith,
  draw_fingerprint-lt old rs {new = new} {rest = rest},
  and_mask 12 (bit_and r 0x0fff % 2 ^ 16),
)

get_addr-set_fingerprint :
    (raw fp : ℕ) → fp < 2 ^ 12 → get_addr (set_fingerprint raw fp) ≡ get_addr raw
get_addr-set_fingerprint raw fp h =
    rw (get_addr-eq raw, set_fingerprint-eq raw fp h, get_addr-eq (fp * 2 ^ 52 + raw % 2 ^ 52))
      (omega arith)

overlay : (old new : ℕ) → old < 2 ^ 46 → new < 2 ^ 42 → old / 2 ^ 46 * 2 ^ 46 + new % 2 ^ 46 ≡ new
overlay old new h k = omega arith

-- The word that the draws lead to has 60 bits.
pub set_random-lt :
    (raw : KvBlock) (draws : List ℕ) {raw' : KvBlock} {rest : List ℕ}
    → set_random raw draws ≡ some (raw', rest)
    → raw' < 2 ^ 64
unfolding set_random
set_random-lt raw draws {raw'} {rest} h =
    let (first, e1, h1) = >>=-eq-some (draw_fingerprint (get_fingerprint raw) draws) _ h in
    let word = set_fingerprint raw first.0 in
    let (second, e2, h2) = >>=-eq-some (draw_address (get_addr word) first.1) _ h1 in
    let (other, small) = draw_address-ne (get_addr word) first.1 e2 in
    let same : raw' ≡ set_addr word second.0 = cc in
    omega (arith, same, set_addr-eq word second.0 (omega arith))

-- When the old address lies on one of the first 16 servers, the word that any draws lead to has
-- another address than the old word.
set_random-get_addr :
    (raw : KvBlock) (draws : List ℕ) {raw' : KvBlock} {rest : List ℕ}
    → get_addr raw < 2 ^ 46
    → set_random raw draws ≡ some (raw', rest)
    → get_addr raw' ≢ get_addr raw
unfolding set_random
set_random-get_addr raw draws {raw'} {rest} low h =
    let (first, e1, h1) = >>=-eq-some (draw_fingerprint (get_fingerprint raw) draws) _ h in
    let word = set_fingerprint raw first.0 in
    let (second, e2, h2) = >>=-eq-some (draw_address (get_addr word) first.1) _ h1 in
    let kept = get_addr-set_fingerprint raw first.0 (draw_fingerprint-lt _ draws e1) in
    let (other, small) = draw_address-ne (get_addr word) first.1 e2 in
    let read : get_addr (set_addr word second.0) ≡ second.0 =
      (set_addr-Holds word second.0 (omega arith)).addr
      ∙ overlay (get_addr word) second.0 (omega arith) small in
    let same : raw' ≡ set_addr word second.0 = cc in
    λ e. other (sym read ∙ ap get_addr (sym same) ∙ e ∙ sym kept)
