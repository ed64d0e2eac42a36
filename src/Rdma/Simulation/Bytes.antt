-- ===== src/Rdma/Simulation/Bytes.antt =====
-- Bytes copied into and out of a memory, and 64-bit words in it.
use faunus.Prelude.{
  ℕ, zero, suc, ◌+◌, ◌-◌, ◌*◌, ◌/◌, ◌%◌, ◌^◌, ◌≤◌, ◌<◌, ◌≡◌, refl, ◌∙◌, ap, ◌&&◌, ◌⊎◌, inl, inr,
  List, [], ◌∷◌, length, get_or, set, get_or-set, length-set, ltb, leb, if◌then◌else◌, dec_lt,
  ℕ_discrete, arith,
}
use native.Mathlib.Nat.{pow-succ'}
use faunus.Rdma.Simulation.{Memory, copy_out, copy_in, word_of, bytes_of, load, store}

pub length-copy_in : (bs : List ℕ) (mem : Memory) (a : ℕ) → length (copy_in mem a bs) ≡ length mem
unfolding copy_in
length-copy_in [] mem a = refl
length-copy_in (b ∷ bs) mem a = length-copy_in bs (set mem a b) (a + 1) ∙ length-set mem a b

-- A copy changes the bytes it covers and no other.
pub get_or-copy_in :
    (bs : List ℕ) (mem : Memory) (a j : ℕ)
    → a + length bs ≤ length mem
    → get_or (copy_in mem a bs) j 0
      ≡ (if leb a j && ltb j (a + length bs) then get_or bs (j - a) 0 else get_or mem j 0)
unfolding copy_in
get_or-copy_in [] mem a j h = ground arith
get_or-copy_in (b ∷ bs) mem a j h =
    let l = length-set mem a b in
    rw
      (
        get_or-copy_in bs (set mem a b) (a + 1) j (omega arith),
        get_or-set mem a j b 0 (omega arith),
      )
      (elim (ℕ_discrete j a) [
        | yes e ↦ let z : j - a ≡ zero = omega arith in rw z (ground arith)
        | no ne ↦ elim (dec_lt a j) [
          | yes p ↦ let z : j - a ≡ suc (j - (a + 1)) = omega arith in rw z (ground arith)
          | no p ↦ ground arith
        ]
      ])

length-copy_out : (n : ℕ) (mem : Memory) (a : ℕ) → length (copy_out mem a n) ≡ n
unfolding copy_out
length-copy_out zero mem a = refl
length-copy_out (suc n) mem a = ap suc (length-copy_out n mem (a + 1))

get_or-copy_out :
    (n : ℕ) (mem : Memory) (a j : ℕ) → j < n → get_or (copy_out mem a n) j 0 ≡ get_or mem (a + j) 0
unfolding copy_out
get_or-copy_out zero mem a j h = absurd (omega arith)
get_or-copy_out (suc n) mem a zero h = ap (λ i. get_or mem i 0) (omega arith)
get_or-copy_out (suc n) mem a (suc j) h =
    get_or-copy_out n mem (a + 1) j (omega arith) ∙ ap (λ i. get_or mem i 0) (omega arith)

-- Lists of one length with the same bytes are equal.
pub bytes-ext :
    (xs ys : List ℕ)
    → length xs ≡ length ys
    → ((j : ℕ) → j < length xs → get_or xs j 0 ≡ get_or ys j 0)
    → xs ≡ ys
bytes-ext [] [] l h = refl
bytes-ext [] (y ∷ ys) l h = absurd (omega arith)
bytes-ext (x ∷ xs) [] l h = absurd (omega arith)
bytes-ext (x ∷ xs) (y ∷ ys) l h =
    rw (h zero (omega arith), bytes-ext xs ys (omega arith) (λ j m. h (suc j) (omega arith)))

-- What was copied in is copied out.
pub copy_out-copy_in :
    (bs : List ℕ) (mem : Memory) (a : ℕ)
    → a + length bs ≤ length mem
    → copy_out (copy_in mem a bs) a (length bs) ≡ bs
copy_out-copy_in bs mem a h =
    let l = length-copy_out (length bs) (copy_in mem a bs) a in
    bytes-ext _ bs l (λ j m.
      get_or-copy_out (length bs) (copy_in mem a bs) a j (omega arith)
      ∙ get_or-copy_in bs mem a (a + j) h
      ∙ (let z : a + j - a ≡ j = omega arith in rw z (ground arith)))

-- Copying a part over and then what was there gives the memory back.
pub copy_in-copy_out :
    (bs : List ℕ) (mem : Memory) (a : ℕ)
    → a + length bs ≤ length mem
    → copy_in (copy_in mem a bs) a (copy_out mem a (length bs)) ≡ mem
copy_in-copy_out bs mem a h =
    let old = copy_out mem a (length bs) in
    let l = length-copy_out (length bs) mem a in
    let l1 = length-copy_in bs mem a in
    let l2 = length-copy_in old (copy_in mem a bs) a in
    bytes-ext _ mem (l2 ∙ l1) (λ j m.
      get_or-copy_in old (copy_in mem a bs) a j (omega arith)
      ∙ rw (l, get_or-copy_in bs mem a j h)
          (elim (dec_lt j a) [
            | yes p ↦ ground arith
            | no p ↦ elim (dec_lt j (a + length bs)) [
              | yes q ↦
                  let z : a + (j - a) ≡ j = omega arith in
                  rw (get_or-copy_out (length bs) mem a (j - a) (omega arith), z) (ground arith)
              | no q ↦ ground arith
            ]
          ]))

-- Words and bytes.
pub IsBytes : List ℕ → Type 0
IsBytes bs = (j : ℕ) → get_or bs j 0 < 256

pub length-bytes_of : (n v : ℕ) → length (bytes_of n v) ≡ n
unfolding bytes_of
length-bytes_of zero v = refl
length-bytes_of (suc n) v = ap suc (length-bytes_of n (v / 256))

pub word_of-bytes_of : (n v : ℕ) → v < 256 ^ n → word_of (bytes_of n v) ≡ v
unfolding word_of bytes_of
word_of-bytes_of zero v h = omega arith
word_of-bytes_of (suc n) v h =
    let h' : v < 256 * 256 ^ n = rw (pow-succ' 256 n) at h in
    rw (word_of-bytes_of n (v / 256) (omega arith)) (omega arith)

pub bytes_of-IsBytes : (n v : ℕ) → IsBytes (bytes_of n v)
unfolding bytes_of IsBytes
bytes_of-IsBytes zero v j = omega arith
bytes_of-IsBytes (suc n) v zero = omega arith
bytes_of-IsBytes (suc n) v (suc j) = bytes_of-IsBytes n (v / 256) j

pub copy_out-IsBytes : (n : ℕ) (mem : Memory) (a : ℕ) → IsBytes mem → IsBytes (copy_out mem a n)
unfolding copy_out IsBytes
copy_out-IsBytes zero mem a h j = omega arith
copy_out-IsBytes (suc n) mem a h zero = h a
copy_out-IsBytes (suc n) mem a h (suc j) = copy_out-IsBytes n mem (a + 1) h j

pub bytes_of-word_of : (bs : List ℕ) → IsBytes bs → bytes_of (length bs) (word_of bs) ≡ bs
unfolding word_of bytes_of IsBytes
bytes_of-word_of [] h = refl
bytes_of-word_of (b ∷ bs) h =
    let s = h zero in
    let r : (b + 256 * word_of bs) % 256 ≡ b = omega arith in
    let q : (b + 256 * word_of bs) / 256 ≡ word_of bs = omega arith in
    rw (r, q, bytes_of-word_of bs (λ j. h (suc j)))

word_out-word_in :
    (n : ℕ) (mem : Memory) (a v : ℕ)
    → a + n ≤ length mem
    → v < 256 ^ n
    → word_of (copy_out (copy_in mem a (bytes_of n v)) a n) ≡ v
word_out-word_in n mem a v h l =
    let e = length-bytes_of n v in
    let c : copy_out (copy_in mem a (bytes_of n v)) a n ≡ bytes_of n v =
      rw e at (copy_out-copy_in (bytes_of n v) mem a (omega arith)) in
    rw c (word_of-bytes_of n v l)

word_in-word_out :
    (n : ℕ) (mem : Memory) (a v : ℕ)
    → a + n ≤ length mem
    → IsBytes mem
    → copy_in (copy_in mem a (bytes_of n v)) a (bytes_of n (word_of (copy_out mem a n))) ≡ mem
word_in-word_out n mem a v h b =
    let e = length-bytes_of n v in
    let old : bytes_of n (word_of (copy_out mem a n)) ≡ copy_out mem a n =
      rw (length-copy_out n mem a) at
        (bytes_of-word_of (copy_out mem a n) (copy_out-IsBytes n mem a b)) in
    rw old (rw e at (copy_in-copy_out (bytes_of n v) mem a (omega arith)))

-- A word stored is loaded.
pub load-store :
    (mem : Memory) (a v : ℕ) → a + 8 ≤ length mem → v < 2 ^ 64 → load (store mem a v) a ≡ v
unfolding load store
load-store mem a v h l = word_out-word_in 8 mem a v h (omega arith)

-- Storing a word and then the one that was there gives the memory back.
pub store-load :
    (mem : Memory) (a v : ℕ)
    → a + 8 ≤ length mem
    → IsBytes mem
    → store (store mem a v) a (load mem a) ≡ mem
unfolding load store
store-load mem a v h b = word_in-word_out 8 mem a v h b

pub length-store : (mem : Memory) (a v : ℕ) → length (store mem a v) ≡ length mem
unfolding store
length-store mem a v = length-copy_in (bytes_of 8 v) mem a

pub get_or-store :
    (mem : Memory) (a v j : ℕ)
    → a + 8 ≤ length mem
    → j < a ⊎ a + 8 ≤ j
    → get_or (store mem a v) j 0 ≡ get_or mem j 0
unfolding store
get_or-store mem a v j h out =
    let e = length-bytes_of 8 v in
    get_or-copy_in (bytes_of 8 v) mem a j (omega arith)
    ∙ (elim out [ inl l ↦ ground arith | inr g ↦ ground arith ])

pub load-lt : (mem : Memory) (a : ℕ) → IsBytes mem → load mem a < 2 ^ 64
unfolding load copy_out word_of IsBytes
load-lt mem a b = omega (
  arith,
  b a,
  b (a + 1),
  b (a + 1 + 1),
  b (a + 1 + 1 + 1),
  b (a + 1 + 1 + 1 + 1),
  b (a + 1 + 1 + 1 + 1 + 1),
  b (a + 1 + 1 + 1 + 1 + 1 + 1),
  b (a + 1 + 1 + 1 + 1 + 1 + 1 + 1),
)
