-- ===== src/Index/Find/Levels.antt =====
-- The searches of `find_node` end while other clients write, and at the level asked for.
use faunus.Index.Find.{
  History, FindNodeResult, found, locked, no_such_level, CachedEntry, Cache, is_blocked, Visit,
  ends, goes, visit, in_fence, Finding, add_read, after_visit, find_from, from_root, from_cached,
  after_cache, find_node,
}
use faunus.Index.Internal.{Key, InternalNode, next_address}
use faunus.Index.Outcome.{Outcome, answer}
use faunus.Prelude.{
  ℕ, zero, suc, ◌+◌, ◌≤◌, ◌<◌, ◌≡◌, refl, ◌∙◌, ap, Bool, true, false, ◌&&◌, ◌||◌, Option, none,
  some, ltb, leb, ◌==◌, if◌then◌else◌, ◌⊎◌, inl, inr, Bool-cases, dec_lt, ℕ_discrete, lt→ltb,
  le→ltb, arith,
}
use faunus.Rdma.GlobalAddress.{GlobalAddress}

-- A node that was read at an address stands at the level of the address, and above the level searched
-- for the child that a search goes to stands one level below it.
pub record Fits (key : Key) (level : ℕ) (height : GlobalAddress → ℕ) (address : GlobalAddress)
    (node : InternalNode) : Type 0 where
  pub stands : node.header.level ≡ height address
  pub child : level < height address → height (next_address node key) + 1 ≡ height address

-- The node of every address fits, at every moment.
abbrev pub Levelled : History → Key → ℕ → (GlobalAddress → ℕ) → Type 0
Levelled history key level height =
    (now : ℕ) (p : GlobalAddress) → Fits key level height p ((history now).internal p)

-- An entry of the cache for the key has the key within its fences, and fits.
pub record EntryFits (key : Key) (level : ℕ) (height : GlobalAddress → ℕ) (e : CachedEntry)
    : Type 0 where
  pub fence : in_fence e.node.header key ≡ true
  pub fits : Fits key level height e.address e.node

-- What a result says: a node of the level, a lock, or a root that was too low at some moment.
pub data IsRight (history : History) (level : ℕ) (height : GlobalAddress → ℕ)
    : FindNodeResult → GlobalAddress → Type 0 where
  at_level : {a : GlobalAddress} → height a ≡ level → IsRight history level height found a
  at_lock : {a : GlobalAddress} → IsRight history level height locked a
  too_low :
      {a : GlobalAddress} (moment : ℕ)
      → height (history moment).root < level
      → IsRight history level height no_such_level a

module _ (cache : Cache) (history : History) (key : Key) (level : ℕ)
    (height : GlobalAddress → ℕ) where
  -- A node where a search may stand: one below the level is a root.
  abbrev Stands : Bool → GlobalAddress → Type 0
  Stands in_root p =
      height p < level → (in_root ≡ true) × ((moment : ℕ) × (height (history moment).root < level))

  abbrev Ended : Visit → Type 0
  Ended v =
      (r : FindNodeResult) × (a : GlobalAddress) × (drops : Bool) × (v ≡ ends r a drops)
      × IsRight history level height r a

  abbrev Gone : GlobalAddress → Visit → Type 0
  Gone p v = (a : GlobalAddress) × (v ≡ goes a) × (level < height a) × (height a < height p)

  visit-Fits :
      (from_smo in_root : Bool) (p : GlobalAddress) (node : InternalNode)
      → Fits key level height p node
      → Stands in_root p
      → Ended (visit key level from_smo in_root p node)
        ⊎ Gone p (visit key level from_smo in_root p node)
  unfolding visit
  visit-Fits from_smo in_root p node fits stands =
      let same = fits.stands in
      let next = next_address node key in
      elim (Bool-cases (is_blocked level from_smo node.header)) [
        | inl b ↦ inl (locked, p, true, rw b refl, at_lock)
        | inr b ↦ elim (ℕ_discrete node.header.level level) [
          | yes e ↦
              inl (found, p, false, rw (b, e) (ground arith), at_level (omega (arith, e, same)))
          | no ne ↦
              let apart : (node.header.level == level) ≡ false = ground arith in
              elim (dec_lt node.header.level level) [
                | yes l ↦
                    let (rooted, low) = stands (omega (arith, l, same)) in
                    inl (
                      no_such_level,
                      p,
                      true,
                      rw (b, apart, lt→ltb _ _ l, rooted) refl,
                      too_low low.0 low.1,
                    )
                | no nl ↦
                    let above : level < height p = omega (arith, ne, nl, same) in
                    let one = fits.child above in
                    let high : ltb node.header.level level ≡ false = le→ltb _ _ (omega arith) in
                    let moves : (p == next) ≡ false = elim (ℕ_discrete p next) [
                      | yes q ↦ absurd (omega (arith, one, ap height q))
                      | no nq ↦ ground arith
                    ] in
                    elim (ℕ_discrete node.header.level (level + 1)) [
                      | yes e ↦
                          let last : (node.header.level == level + 1) ≡ true = ground arith in
                          inl (
                            found,
                            next,
                            false,
                            rw (b, apart, high, moves, last) refl,
                            at_level (omega (arith, e, same, one)),
                          )
                      | no nlast ↦
                          let more : (node.header.level == level + 1) ≡ false = ground arith in
                          inr (
                            next,
                            rw (b, apart, high, moves, more) refl,
                            omega (arith, nlast, above, same, one),
                            omega (arith, one),
                          )
                    ]
              ]
        ]
      ]

  abbrev Finds : Outcome (Finding cache) → Type 0
  Finds o =
      (f : Finding cache) × (o ≡ answer f) × IsRight history level height f.result f.node_address

  Finds-after_visit :
      (v : Visit) (cached : Option CachedEntry) (c : cache.C) (now : ℕ) (p : GlobalAddress)
      (next : GlobalAddress → Outcome (Finding cache))
      → ((a : GlobalAddress) → level < height a → height a < height p → Finds (next a))
      → Ended v ⊎ Gone p v
      → Finds (after_visit cache v cached c now next)
  unfolding after_visit
  Finds-after_visit v cached c now p next on (inl (r, a, drops, e, right)) =
      (_, ap (λ w. after_visit cache w cached c now next) e, right)
  Finds-after_visit v cached c now p next on (inr (a, e, above, below)) =
      let (f, g, right) = on a above below in
      (f, ap (λ w. after_visit cache w cached c now next) e ∙ g, right)

  Finds-find_from :
      Levelled history key level height
      → (from_smo : Bool) (cached : Option CachedEntry) (fuel now : ℕ) (c : cache.C)
        (p : GlobalAddress) (in_root : Bool)
      → height p < fuel
      → Stands in_root p
      → Finds (find_from cache fuel history key level from_smo cached now c p in_root)
  unfolding find_from
  Finds-find_from levelled from_smo cached zero now c p in_root enough stands = absurd (omega arith)
  Finds-find_from levelled from_smo cached (suc fuel) now c p in_root enough stands =
      let node = (history now).internal p in
      Finds-after_visit (visit key level from_smo in_root p node) cached
        (add_read cache from_smo p node c) (now + 1) p _
        (λ a above below.
          Finds-find_from levelled from_smo cached fuel (now + 1) (add_read cache from_smo p node c)
            a false (omega arith) (λ low. absurd (omega (arith, low, above))))
        (visit-Fits from_smo in_root p node (levelled now p) stands)

  Finds-from_root :
      Levelled history key level height
      → (from_smo : Bool) (cached : Option CachedEntry) (fuel now : ℕ) (c : cache.C)
      → height (history now).root < fuel
      → Finds (from_root cache fuel history key level from_smo cached now c)
  unfolding from_root
  Finds-from_root levelled from_smo cached fuel now c enough =
      Finds-find_from levelled from_smo cached fuel (now + 1) c (history now).root true enough
        (λ low. (refl, (now, low)))

  Finds-else :
      (b : Bool) (x y : Outcome (Finding cache)) → b ≡ false → Finds y → Finds (if b then x else y)
  Finds-else b x y e h = rw e h

  Finds-from_cached :
      Levelled history key level height
      → (from_smo : Bool) (fuel now : ℕ) (e : CachedEntry) (c : cache.C)
      → height (history now).root < fuel
      → height e.address < fuel
      → EntryFits key level height e
      → Finds (from_cached cache fuel history key level from_smo e now c)
  unfolding from_cached
  Finds-from_cached levelled from_smo fuel now e c enough enough' fits =
      let header = e.node.header in
      let same = fits.fits.stands in
      elim (Bool-cases (leb level header.level && ((header.lock == 0) || from_smo))) [
        | inr no_use ↦
            rw (fits.fence, no_use)
              (Finds-from_root levelled from_smo (some e) fuel now (cache.invalidate c e.entry)
                enough)
        | inl use_it ↦ elim (ℕ_discrete header.level level) [
          | yes q ↦
              let here : (header.level == level) ≡ true = ground arith in
              rw (fits.fence, use_it, here) (_, refl, at_level (omega (arith, q, same)))
          | no nq ↦
              let apart : (header.level == level) ≡ false = ground arith in
              let high : level ≤ header.level = ground arith in
              rw (fits.fence, use_it)
                (Finds-else (header.level == level) _ _ apart (
                  Finds-after_visit (visit key level from_smo false e.address e.node) (some e) c now
                    e.address _
                    (λ a above below.
                      Finds-find_from levelled from_smo (some e) fuel now c a false (omega arith)
                        (λ low. absurd (omega (arith, low, above))))
                    (visit-Fits from_smo false e.address e.node fits.fits
                      (λ low. absurd (omega (arith, low, high, same))))))
        ]
      ]

  Finds-after_cache :
      Levelled history key level height
      → (from_smo : Bool) (fuel now : ℕ) (o : Option CachedEntry) (c : cache.C)
      → height (history now).root < fuel
      → ((e : CachedEntry) → o ≡ some e → EntryFits key level height e × (height e.address < fuel))
      → Finds (after_cache cache fuel history key level from_smo now (o, c))
  unfolding after_cache
  Finds-after_cache levelled from_smo fuel now none c enough fits =
      Finds-from_root levelled from_smo none fuel now c enough
  Finds-after_cache levelled from_smo fuel now (some e) c enough fits =
      let (entry_fits, enough') = fits e refl in
      Finds-from_cached levelled from_smo fuel now e c enough enough' entry_fits

-- For nodes whose levels do not change, and whose children that the key leads to stand one level
-- lower, at every moment: `find_node` ends, whatever other clients write between its reads, with
-- fuel above the levels of the root and of the cached entry, if the cache's entry for the key fits.
-- It fails no assertion, and a node that it reports found is of the level asked for, a missing level
-- was above the root at some moment.
pub find_node-IsRight :
    (cache : Cache) (history : History) (key : Key) (level : ℕ) (height : GlobalAddress → ℕ)
    (from_smo use_cache : Bool) (fuel now : ℕ) (c : cache.C)
    → Levelled history key level height
    → height (history now).root < fuel
    → ((e : CachedEntry)
        → (cache.search c key).0 ≡ some e
        → EntryFits key level height e × (height e.address < fuel))
    → (f : Finding cache) × (find_node cache fuel history key level from_smo use_cache now c
        ≡ answer f)
      × IsRight history level height f.result f.node_address
unfolding find_node
find_node-IsRight cache history key level height from_smo true fuel now c levelled enough fits =
    Finds-after_cache cache history key level height levelled from_smo fuel now
      (cache.search c key).0 (cache.search c key).1 enough fits
find_node-IsRight cache history key level height from_smo false fuel now c levelled enough fits =
    Finds-from_root cache history key level height levelled from_smo none fuel now c enough
