-- ===== src/Index/Sherman/Locks/Attempts.antt =====
-- The attempts to take a lock.
use faunus.Index.Sherman.Locks.{locked, deadlock, is_own, lock_loop, try_lock_address}
use faunus.Prelude.{
  ℕ, ◌+◌, ◌≤◌, ◌≡◌, ◌≢◌, inl, inr, refl, Bool, true, false, ◌||◌, Bool-cases, some, List, [], ◌∷◌,
  length, ltb, ◌==◌, arith,
}

-- One of the words is free, or of the compute server itself.
unfoldable pub has_chance : ℕ → List ℕ → Bool
has_chance tag [] = false
has_chance tag (word ∷ words) = (word == 0) || is_own word tag || has_chance tag words

lock_loop-locked :
    (tag retry_cnt pre : ℕ) (words : List ℕ)
    → lock_loop tag retry_cnt pre words ≡ locked
    → has_chance tag words ≡ true
unfolding lock_loop has_chance
lock_loop-locked tag retry_cnt pre [] h = absurd (cc h)
lock_loop-locked tag retry_cnt pre (word ∷ words) h = elim (Bool-cases (word == 0)) [
  | inl free ↦ rw free refl
  | inr taken ↦ elim (Bool-cases (is_own word tag)) [
    | inl own ↦ rw (taken, own) refl
    | inr foreign ↦ elim (Bool-cases (ltb 1_000_000 (retry_cnt + 1))) [
      | inl late ↦ absurd (cc (rw (taken, foreign, late) at h))
      | inr early ↦ elim (Bool-cases (word == pre)) [
        | inl same ↦
            rw (taken, foreign)
              (lock_loop-locked tag (retry_cnt + 1) pre words
                (rw (taken, foreign, early, same) at h))
        | inr changed ↦
            rw (taken, foreign)
              (lock_loop-locked tag 0 word words (rw (taken, foreign, early, changed) at h))
      ]
    ]
  ]
]

-- Over any words, an attempt that is not handed the lock takes it only if a word was 0 or carried the
-- name of the compute server itself.
try_lock_address-locked :
    (tag : ℕ) (words : List ℕ)
    → try_lock_address (some false) tag words ≡ locked
    → has_chance tag words ≡ true
unfolding try_lock_address
try_lock_address-locked tag words h = lock_loop-locked tag 0 0 words h

-- The loop does not give up over a million words or fewer.
lock_loop-patient :
    (tag retry_cnt pre : ℕ) (words : List ℕ)
    → retry_cnt + length words ≤ 1_000_000
    → lock_loop tag retry_cnt pre words ≢ deadlock
unfolding lock_loop
lock_loop-patient tag retry_cnt pre [] h = λ e. cc e
lock_loop-patient tag retry_cnt pre (word ∷ words) h = elim (Bool-cases (word == 0)) [
  | inl free ↦ rw free (λ e. cc e)
  | inr taken ↦ elim (Bool-cases (is_own word tag)) [
    | inl own ↦ rw (taken, own) (λ e. cc e)
    | inr foreign ↦
        let early : ltb 1_000_000 (retry_cnt + 1) ≡ false = ground arith in
        elim (Bool-cases (word == pre)) [
          | inl same ↦
              rw (taken, foreign, early, same)
                (lock_loop-patient tag (retry_cnt + 1) pre words (omega arith))
          | inr changed ↦
              rw (taken, foreign, early, changed) (lock_loop-patient tag 0 word words (omega arith))
        ]
  ]
]
