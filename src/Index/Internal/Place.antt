-- ===== src/Index/Internal/Place.antt =====
-- The shift loop and the placing of a new entry, read index by index.
use faunus.Index.Internal.{
  Key, InternalEntry, no_entry, entry_at, set_key, set_child, spot, shift, place,
}
use faunus.Prelude.{
  ℕ, zero, suc, ◌+◌, ◌-◌, ◌≤◌, ◌<◌, ◌≡◌, refl, ◌∙◌, ◌&&◌, List, ltb, leb, ◌==◌, if◌then◌else◌,
  ℕ_discrete, get_or-set, length, length-set, arith,
}
use faunus.Rdma.GlobalAddress.{GlobalAddress}

entry_at-set_key :
    (es : List InternalEntry) (i j : ℕ) (k : Key)
    → i < length es
    → ((entry_at (set_key es i k) j).key ≡ (if i == j then k else (entry_at es j).key))
      × ((entry_at (set_key es i k) j).child ≡ (entry_at es j).child)
entry_at-set_key es i j k h =
    rw (get_or-set es i j (record { key = k; child = (entry_at es i).child }) no_entry h)
      (ground arith, ground arith)

entry_at-set_child :
    (es : List InternalEntry) (i j : ℕ) (c : GlobalAddress)
    → i < length es
    → ((entry_at (set_child es i c) j).key ≡ (entry_at es j).key)
      × ((entry_at (set_child es i c) j).child ≡ (if i == j then c else (entry_at es j).child))
entry_at-set_child es i j c h =
    rw (get_or-set es i j (record { key = (entry_at es i).key; child = c }) no_entry h)
      (ground arith, ground arith)

length-set_key : (es : List InternalEntry) (i : ℕ) (k : Key) → length (set_key es i k) ≡ length es
length-set_key es i k = length-set es i _

length-set_child :
    (es : List InternalEntry) (i : ℕ) (c : GlobalAddress) → length (set_child es i c) ≡ length es
length-set_child es i c = length-set es i _

-- One round: the key before `i` and the child at `i` are overwritten.
round_lem :
    (es : List InternalEntry) (i j : ℕ) (k : Key) (c : GlobalAddress)
    → 0 < i
    → i < length es
    → let es' = set_child (set_key es (i - 1) k) i c in
      ((entry_at es' j).key ≡ (if (i - 1) == j then k else (entry_at es j).key))
      × ((entry_at es' j).child ≡ (if i == j then c else (entry_at es j).child))
      × (length es' ≡ length es)
round_lem es i j k c h l =
    let es1 = set_key es (i - 1) k in
    let l1 = length-set_key es (i - 1) k in
    let (k1, c1) = entry_at-set_key es (i - 1) j k (omega arith) in
    let (k2, c2) = entry_at-set_child es1 i j c (omega arith) in
    (k2 ∙ k1, c2 ∙ rw c1, length-set_child es1 i c ∙ l1)

-- The keys and the children before and after a shift of `n` rounds from `i`, by index.
abbrev shifted_key : (ℕ → Key) → ℕ → ℕ → Key → ℕ → Key
shifted_key k n i stray j =
    if leb (i - n) j && ltb j i then (if j == 0 then stray else k (j - 1)) else k j

abbrev shifted_child : (ℕ → GlobalAddress) → ℕ → ℕ → ℕ → GlobalAddress
shifted_child c n i j = if ltb (i - n) j && leb j i then c (j - 1) else c j

-- One more round.
shifted_key-suc :
    (k : ℕ → Key) (n i j : ℕ) (stray : Key)
    → suc n ≤ i
    → shifted_key
        (λ m. if (i - 1) == m then (if i == 1 then stray else k (i - 2)) else k m)
        n
        (i - 1)
        stray
        j
      ≡ shifted_key k (suc n) i stray j
shifted_key-suc k n i j stray h = elim (ℕ_discrete j (i - 1)) [
  | yes e ↦ ground arith
  | no ne ↦ ground arith
]

shifted_child-suc :
    (c : ℕ → GlobalAddress) (n i j : ℕ)
    → suc n ≤ i
    → shifted_child (λ m. if i == m then c (i - 1) else c m) n (i - 1) j
      ≡ shifted_child c (suc n) i j
shifted_child-suc c n i j h = elim (ℕ_discrete j i) [ yes e ↦ ground arith | no ne ↦ ground arith ]

-- After the shift the keys from `i - n` to `i - 1` and the children from `i - n + 1` to `i` are
-- those that stood one place to the left.
pub shift_lem :
    (n i : ℕ) (stray : Key) (es : List InternalEntry) (j : ℕ)
    → n ≤ i
    → i < length es
    → ((entry_at (shift n i stray es) j).key ≡ shifted_key (λ m. (entry_at es m).key) n i stray j)
      × ((entry_at (shift n i stray es) j).child ≡ shifted_child (λ m. (entry_at es m).child) n i j)
      × (length (shift n i stray es) ≡ length es)
unfolding shift
shift_lem zero i stray es j h l = (ground arith, ground arith, refl)
shift_lem (suc n) i stray es j h l =
    let moved = if i == 1 then stray else (entry_at es (i - 2)).key in
    let c = (entry_at es (i - 1)).child in
    let es' = set_child (set_key es (i - 1) moved) i c in
    let (k1, c1, l1) = round_lem es i j moved c (omega arith) l in
    let (k2, c2, l2) = round_lem es i (j - 1) moved c (omega arith) l in
    let (k3, c3, l3) = shift_lem n (i - 1) stray es' j (omega arith) (omega arith) in
    (
      k3 ∙ rw (k1, k2) (shifted_key-suc (λ m. (entry_at es m).key) n i j stray h),
      c3 ∙ rw (c1, c2) (shifted_child-suc (λ m. (entry_at es m).child) n i j h),
      l3 ∙ l1,
    )

-- The keys and the children with a new pair placed at `p`.
abbrev pub placed_key : (ℕ → Key) → ℕ → ℕ → Key → ℕ → Key
placed_key k p last key j =
    if ltb j p then k j else if j == p then key else if leb j last then k (j - 1) else k j

abbrev pub placed_child : (ℕ → GlobalAddress) → ℕ → ℕ → GlobalAddress → ℕ → GlobalAddress
placed_child c p last child j =
    if leb j p
    then c j
    else if j == p + 1
    then child
    else if leb j (last + 1)
    then c (j - 1)
    else c j

pub spot-le : (last : ℕ) (key : Key) (es : List InternalEntry) → spot last key es ≤ last
unfolding spot
spot-le zero key es = omega arith
spot-le (suc i) key es = ground (arith, spot-le i key es)

final_key :
    (k : ℕ → Key) (p last j : ℕ) (stray key : Key)
    → p ≤ last
    → (if p == j then key else shifted_key k (last + 1 - p) (last + 1) stray j)
      ≡ placed_key k p last key j
final_key k p last j stray key h = ground arith

final_child :
    (c : ℕ → GlobalAddress) (p last j : ℕ) (child : GlobalAddress)
    → p ≤ last
    → (if (p + 1) == j then child else shifted_child c (last + 1 - p) (last + 1) j)
      ≡ placed_child c p last child j
final_child c p last j child h = ground arith

-- The array with the new pair, index by index. The key read out of range never shows.
pub place_lem :
    (last : ℕ) (key : Key) (child : GlobalAddress) (stray : Key) (es : List InternalEntry) (j : ℕ)
    → last + 1 < length es
    → let p = spot last key es in
      let es' = place last key child stray es in
      ((entry_at es' j).key ≡ placed_key (λ m. (entry_at es m).key) p last key j)
      × ((entry_at es' j).child ≡ placed_child (λ m. (entry_at es m).child) p last child j)
      × (length es' ≡ length es)
unfolding place
place_lem last key child stray es j room =
    let p = spot last key es in
    let low : p ≤ last = spot-le last key es in
    let es1 = shift (last + 1 - p) (last + 1) stray es in
    let es2 = set_child es1 (p + 1) child in
    let (k1, c1, l1) = shift_lem (last + 1 - p) (last + 1) stray es j (omega arith) room in
    let (k2, c2) = entry_at-set_child es1 (p + 1) j child (omega arith) in
    let l2 = length-set_child es1 (p + 1) child in
    let (k3, c3) = entry_at-set_key es2 p j key (omega arith) in
    (
      k3 ∙ rw (k2, k1) (final_key (λ m. (entry_at es m).key) p last j stray key low),
      c3 ∙ c2 ∙ rw c1 (final_child (λ m. (entry_at es m).child) p last j child low),
      length-set_key es2 p key ∙ l2 ∙ l1,
    )
