-- ===== src/Index/Slot.antt =====
-- Where a key belongs among ascending separators, of which both indexes keep arrays: the slot of a
-- key is the first separator above it, or the number of separators if there is none.
use faunus.Prelude.{
  ℕ, zero, suc, ◌+◌, ◌-◌, ◌≤◌, ◌<◌, ◌≡◌, ap, true, false, ltb, leb, ◌==◌, if◌then◌else◌, dec_lt,
  ℕ_discrete, lt→ltb, le→ltb, arith,
}

-- Separators by index.
abbrev pub Keys : Type 0
Keys = ℕ → ℕ

unfoldable pub slot_from : ℕ → ℕ → ℕ → Keys → ℕ
slot_from zero i key keys = i
slot_from (suc n) i key keys =
    let rest = slot_from n (i + 1) key keys in if ltb key (keys i) then i else rest

-- The slot among the first `last` separators.
abbrev pub slot_of : ℕ → ℕ → Keys → ℕ
slot_of last key keys = slot_from last 0 key keys

-- `s` is where `key` belongs among the first `last` separators.
pub record IsSlot (last key : ℕ) (keys : Keys) (s : ℕ) : Type 0 where
  pub within : s ≤ last
  pub below : (j : ℕ) → j < s → keys j ≤ key
  pub above : s < last → key < keys s

slot_from-IsSlot :
    (n i last key : ℕ) (keys : Keys)
    → i + n ≡ last
    → ((j : ℕ) → j < i → keys j ≤ key)
    → IsSlot last key keys (slot_from n i key keys)
unfolding slot_from
slot_from-IsSlot zero i last key keys e h = record {
  within = omega arith;
  below = h;
  above = λ l. absurd (omega arith);
}
slot_from-IsSlot (suc n) i last key keys e h = elim (dec_lt key (keys i)) [
  | yes p ↦ rw (lt→ltb _ _ p) (record { within = omega arith; below = h; above = λ _. p })
  | no p ↦ rw (le→ltb key (keys i) (omega arith)) (
      slot_from-IsSlot n (i + 1) last key keys (omega arith) (λ j l. elim (dec_lt j i) [
        | yes q ↦ h j q
        | no q ↦ let e' : j ≡ i = omega arith in rw e' (omega arith)
      ]))
]

pub slot_of-IsSlot : (last key : ℕ) (keys : Keys) → IsSlot last key keys (slot_of last key keys)
slot_of-IsSlot last key keys =
    slot_from-IsSlot last 0 last key keys (omega arith) (λ j l. absurd (omega arith))

pub IsSlot-unique :
    {last key : ℕ} {keys : Keys} {s t : ℕ} → IsSlot last key keys s → IsSlot last key keys t → s ≡ t
IsSlot-unique {s} {t} a b = elim (dec_lt s t) [
  | yes p ↦ absurd (omega (arith, b.below s p, a.above (omega arith)))
  | no p ↦ elim (dec_lt t s) [
    | yes q ↦ absurd (omega (arith, a.below t q, b.above (omega arith)))
    | no q ↦ omega arith
  ]
]

-- The separators ascend.
abbrev pub Ascending : ℕ → Keys → Type 0
Ascending last keys = (i j : ℕ) → i < j → j < last → keys i < keys j

-- Separators with `key` placed at `p`, the later ones moved by one.
abbrev pub with_key : Keys → ℕ → ℕ → Keys
with_key keys p key j = if ltb j p then keys j else if j == p then key else keys (j - 1)

-- A new separator at a place where it keeps the order: the slots up to it stay, the others move.
module _ (last key p : ℕ) (keys keys' : Keys) (low : p ≤ last)
    (before : (j : ℕ) → j < p → keys j < key) (after : (j : ℕ) → p ≤ j → j < last → key < keys j)
    (placed : (j : ℕ) → j ≤ last → keys' j ≡ with_key keys p key j) where
  pub slot_of-place :
      (k : ℕ)
      → slot_of (last + 1) k keys'
        ≡ (if leb key k then slot_of last k keys + 1 else slot_of last k keys)
  slot_of-place k = elim (dec_lt k key) [
    | yes h ↦
        let off : leb key k ≡ false = ground arith in
        let le : s ≤ p = elim (dec_lt p s) [
          | yes b ↦ absurd (omega (arith, a.below p b, a.within, after p (omega arith)))
          | no b ↦ omega arith
        ] in
        let within = a.within in
        rw off (
          IsSlot-unique (slot_of-IsSlot (last + 1) k keys') (record {
            within = omega arith;
            below = λ j l. rw (placed j (omega arith)) (ground (arith, a.below j l));
            above = λ l. rw (placed s (omega arith)) (elim (dec_lt s p) [
              | yes b ↦ ground (arith, a.above (omega arith))
              | no b ↦ ground arith
            ]);
          }))
    | no h ↦
        let on : leb key k ≡ true = ground arith in
        let within = a.within in
        let ge : p ≤ s = elim (dec_lt s p) [
          | yes b ↦ absurd (omega (arith, before s b, a.above (omega arith)))
          | no b ↦ omega arith
        ] in
        rw on (
          IsSlot-unique (slot_of-IsSlot (last + 1) k keys') (record {
            within = omega arith;
            below = λ j l. rw (placed j (omega arith)) (elim (dec_lt j p) [
              | yes b ↦ ground (arith, a.below j (omega arith))
              | no b ↦ elim (ℕ_discrete j p) [
                | yes e ↦ ground arith
                | no ne ↦ ground (arith, a.below (j - 1) (omega arith))
              ]
            ]);
            above = λ l. rw (placed (s + 1) (omega arith)) (ground (arith, a.above (omega arith)));
          }))
  ]
    where
      s : ℕ
      s = slot_of last k keys

      a : IsSlot last k keys s
      a = slot_of-IsSlot last k keys

  pub place-Ascending : Ascending last keys → Ascending (last + 1) keys'
  place-Ascending sorted i j h l =
      rw (placed i (omega arith), placed j (omega arith))
        (elim (dec_lt i p) [
          | yes a ↦ elim (dec_lt j p) [
            | yes b ↦ ground (arith, sorted i j h (omega arith))
            | no b ↦ elim (ℕ_discrete j p) [
              | yes e ↦ ground (arith, before i a)
              | no ne ↦ elim (dec_lt i (j - 1)) [
                | yes c ↦ ground (arith, sorted i (j - 1) c (omega arith))
                | no c ↦ absurd (omega arith)
              ]
            ]
          ]
          | no a ↦ elim (ℕ_discrete i p) [
            | yes e ↦ ground (arith, after (j - 1) (omega arith) (omega arith))
            | no ne ↦ ground (arith, sorted (i - 1) (j - 1) (omega arith) (omega arith))
          ]
        ])

-- Only the separators that are looked at matter.
pub slot_of-agree :
    (last k : ℕ) (keys keys' : Keys)
    → ((j : ℕ) → j < last → keys' j ≡ keys j)
    → slot_of last k keys' ≡ slot_of last k keys
slot_of-agree last k keys keys' same =
    let a = slot_of-IsSlot last k keys in
    let within = a.within in
    IsSlot-unique (slot_of-IsSlot last k keys') (record {
      within = a.within;
      below = λ j l. rw (same j (omega arith)) (a.below j l);
      above = λ l. rw (same _ l) (a.above l);
    })

-- The separators parted at the one at `m`, which belongs to neither half.
module _ (last m k : ℕ) (keys part : Keys) (inside : m < last) where
  pub slot_of-low :
      k < keys m
      → ((j : ℕ) → j < m → part j ≡ keys j)
      → (slot_of m k part ≡ slot_of last k keys) × (slot_of last k keys ≤ m)
  slot_of-low h same =
      let s = slot_of last k keys in
      let a = slot_of-IsSlot last k keys in
      let le : s ≤ m = elim (dec_lt m s) [
        | yes b ↦ absurd (omega (arith, a.below m b))
        | no b ↦ omega arith
      ] in
      (
        IsSlot-unique (slot_of-IsSlot m k part) (record {
          within = le;
          below = λ j l. rw (same j (omega arith)) (a.below j l);
          above = λ l. rw (same s l) (a.above (omega arith));
        }),
        le,
      )

  pub slot_of-high :
      Ascending last keys
      → keys m ≤ k
      → ((j : ℕ) → j + m + 1 < last → part j ≡ keys (j + m + 1))
      → (slot_of (last - m - 1) k part + m + 1 ≡ slot_of last k keys) × (m < slot_of last k keys)
  slot_of-high sorted h same =
      let s = slot_of last k keys in
      let a = slot_of-IsSlot last k keys in
      let within = a.within in
      let gt : m < s = elim (dec_lt m s) [
        | yes b ↦ b
        | no b ↦ elim (ℕ_discrete s m) [
          | yes e ↦ absurd (omega (arith, a.above (omega arith), ap keys e))
          | no ne ↦ absurd (omega (arith, a.above (omega arith), sorted s m (omega arith) inside))
        ]
      ] in
      let back : s - m - 1 + m + 1 ≡ s = omega arith in
      let e : slot_of (last - m - 1) k part ≡ s - m - 1 =
        IsSlot-unique (slot_of-IsSlot (last - m - 1) k part) (record {
          within = omega arith;
          below = λ j l. rw (same j (omega arith)) (a.below (j + m + 1) (omega arith));
          above = λ l. rw (same (s - m - 1) (omega arith), back) (a.above (omega arith));
        }) in
      (rw e back, gt)
