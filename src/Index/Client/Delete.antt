-- ===== src/Index/Client/Delete.antt =====
-- What `try_delete_kvblock` leaves in the slot, and what it reports.
use faunus.Index.Client.{try_delete_kvblock}
use faunus.Index.KvBlock.Random.{set_random-lt}
use faunus.Index.KvBlock.Words.{of_bool-lt, is_free-eq, is_locked-eq, set_free-eq, set_locked-eq}
use faunus.Index.KvBlock.{KvBlock, of_bool, is_free, is_locked, set_free, set_locked, set_random}
use faunus.Prelude.{
  ℕ, ◌/◌, ◌%◌, ◌^◌, ◌<◌, ◌≡◌, ◌≢◌, refl, ◌∙◌, Bool, true, false, some, List, ◌==◌, ==_iff,
  if◌then◌else◌, >>=-eq-some, Bool-cases, inl, inr, arith,
}

-- A word with its lock bit set as given and its free bit set: what its two bits are.
marked :
    (raw : KvBlock) (b : Bool)
    → raw < 2 ^ 64
    → (is_free (set_free (set_locked raw b) true) ≡ true)
      × (is_locked (set_free (set_locked raw b) true) ≡ b)
marked raw b h =
    let e = set_locked-eq raw b h in
    let bit = of_bool-lt b in
    let small : set_locked raw b < 2 ^ 64 = omega (arith, e, bit) in
    let word = set_free-eq (set_locked raw b) true small in
    let free : set_free (set_locked raw b) true / 2 % 2 ≡ 1 = omega (arith, word) in
    let lock : set_free (set_locked raw b) true % 2 ≡ of_bool b = omega (arith, word, e, bit) in
    (
      rw (is_free-eq (set_free (set_locked raw b) true), free) refl,
      rw (is_locked-eq (set_free (set_locked raw b) true), lock)
          (elim (Bool-cases b) [ inl t ↦ rw t refl | inr f ↦ rw f refl ]),
    )

-- The removal of an expected word, with draws that do not run out: it leaves a word that is free and
-- locked as the expected word was, if that still stood in the slot, and the slot as it was otherwise.
-- Whether it reports success depends on neither: only on whether the expected word is the address of
-- the variable that the CAS reports through.
pub try_delete_kvblock-slot :
    (pointer : ℕ) (draws : List ℕ) (word expected left : KvBlock) (success : Bool)
    → try_delete_kvblock pointer draws word expected ≡ some (left, success)
    → (word ≡ expected → (is_free left ≡ true) × (is_locked left ≡ is_locked expected))
      × (word ≢ expected → left ≡ word)
      × (success ≡ (expected == pointer))
unfolding try_delete_kvblock
try_delete_kvblock-slot pointer draws word expected left success h =
    let (drawn, e, h') = >>=-eq-some (set_random 0 draws) _ h in
    let desired = set_free (set_locked drawn.0 (is_locked expected)) true in
    let bits = marked drawn.0 (is_locked expected) (set_random-lt 0 draws e) in
    let same : left ≡ (if word == expected then desired else word) = cc in
    let reported : success ≡ (expected == pointer) = cc in
    (
      λ q. rw (same, (==_iff word expected).1 q) bits,
      λ nq. let apart : (word == expected) ≡ false = ground arith in same ∙ rw apart refl,
      reported,
    )
