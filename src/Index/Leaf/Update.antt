-- ===== src/Index/Leaf/Update.antt =====
-- The compare-and-swap loop of an update.
use mathlib.Core.Path.{subst}
use faunus.Index.KvBlock.{KvBlock, get_fingerprint, is_free, is_locked}
use faunus.Index.Leaf.{updated, gave_up, pending, may_update, try_update, try_update_kvblock}
use faunus.Prelude.{
  ◌≡◌, ◌≢◌, ◌∙◌, true, false, List, [], ◌∷◌, ◌++◌, ◌==◌, ==_iff, Bool-cases, inl, inr, arith,
}

-- The word that an update replaces has the fingerprint, is taken and is not locked.
abbrev pub IsUpdatable : KvBlock → KvBlock → Type 0
IsUpdatable expected old =
    (get_fingerprint old ≡ get_fingerprint expected)
    × (is_free old ≡ false)
    × (is_locked old ≡ false)

may_update-lem :
    (expected tmp : KvBlock) → may_update expected tmp ≡ true → IsUpdatable expected tmp
unfolding may_update
may_update-lem expected tmp h = (
  (==_iff (get_fingerprint tmp) (get_fingerprint expected)).0 (ground arith),
  ground arith,
  ground arith,
)

no_update : {old : KvBlock} {A : Type 0} → pending ≡ updated old → A
no_update h = absurd cc

no_update_given_up : {old : KvBlock} {A : Type 0} → gave_up ≡ updated old → A
no_update_given_up h = absurd cc

updated-injective : {a b : KvBlock} → updated a ≡ updated b → a ≡ b
updated-injective h = cc

update-step :
    (seen : List KvBlock) (expected tmp : KvBlock) {old : KvBlock}
    → try_update seen expected tmp ≡ updated old
    → IsUpdatable expected old
unfolding try_update
update-step [] expected tmp h = elim (Bool-cases (may_update expected tmp)) [
  | inl e ↦ no_update (rw e at h)
  | inr e ↦ no_update_given_up (rw e at h)
]
update-step (word ∷ seen) expected tmp {old} h = elim (Bool-cases (may_update expected tmp)) [
  | inr e ↦ no_update_given_up (rw e at h)
  | inl e ↦ elim (Bool-cases (word == tmp)) [
    | inl q ↦
        let same : tmp ≡ old = updated-injective (rw (e, q) at h) in
        subst (IsUpdatable expected) same (may_update-lem expected tmp e)
    | inr q ↦
        let (print, free, locked) = update-step seen tmp word (rw (e, q) at h) in
        (print ∙ (may_update-lem expected tmp e).0, free, locked)
  ]
]

-- Whatever words stand in the slot when the attempts come to it: an update that succeeds replaced a
-- word with the fingerprint that the leaf was read with, which was taken and not locked.
pub try_update_kvblock-IsUpdatable :
    (seen : List KvBlock) (expected old : KvBlock)
    → try_update_kvblock seen expected ≡ updated old
    → (get_fingerprint old ≡ get_fingerprint expected)
      × (is_free old ≡ false)
      × (is_locked old ≡ false)
unfolding try_update_kvblock
try_update_kvblock-IsUpdatable seen expected old h = update-step seen expected expected h

no_pending : {b : KvBlock} → updated b ≢ pending
no_pending h = absurd cc

no_pending_given_up : gave_up ≢ pending
no_pending_given_up h = absurd cc

update-ends :
    (seen : List KvBlock) (word expected tmp : KvBlock)
    → try_update (seen ++ word ∷ word ∷ []) expected tmp ≢ pending
unfolding try_update
update-ends [] word expected tmp h = elim (Bool-cases (may_update expected tmp)) [
  | inr e ↦ no_pending_given_up (rw e at h)
  | inl e ↦ elim (Bool-cases (word == tmp)) [
    | inl q ↦ no_pending (rw (e, q) at h)
    | inr q ↦ elim (Bool-cases (may_update tmp word)) [
      | inr e' ↦ no_pending_given_up (rw (e, q, e') at h)
      | inl e' ↦
          let same : (word == word) ≡ true = ground arith in no_pending (rw (e, q, e', same) at h)
    ]
  ]
]
update-ends (x ∷ seen) word expected tmp h = elim (Bool-cases (may_update expected tmp)) [
  | inr e ↦ no_pending_given_up (rw e at h)
  | inl e ↦ elim (Bool-cases (x == tmp)) [
    | inl q ↦ no_pending (rw (e, q) at h)
    | inr q ↦ update-ends seen word tmp x (rw (e, q) at h)
  ]
]

-- The loop ends as soon as two attempts in a row find the same word in the slot, whatever the
-- attempts before found.
try_update_kvblock-ends :
    (seen : List KvBlock) (word expected : KvBlock)
    → try_update_kvblock (seen ++ word ∷ word ∷ []) expected ≢ pending
unfolding try_update_kvblock
try_update_kvblock-ends seen word expected = update-ends seen word expected expected
