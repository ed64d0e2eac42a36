-- ===== src/Index/Client/Read.antt =====
-- What `read` returns in a memory that does not change, whatever node the cache leads it to first.
use faunus.Index.Client.Lookup.{lookup, HasPrints, handle-lookup}
use faunus.Index.Client.{
  Layout, Handled, handle_local_remove_dupes, after_result, after_find, after_leaf, read_loop, read,
}
use faunus.Index.Find.Levels.{
  Levelled, EntryFits, IsRight, at_level, at_lock, too_low, find_node-IsRight,
}
use faunus.Index.Find.Routes.{still, Route, find_node-Route}
use faunus.Index.Find.{
  Memory, FindNodeResult, found, locked, CachedEntry, Cache, in_fence, Finding, find_node,
}
use faunus.Index.Internal.{Key}
use faunus.Index.Leaf.{Value}
use faunus.Index.Outcome.{Outcome, answer}
use faunus.Prelude.{
  ℕ, zero, suc, ◌+◌, ◌≤◌, ◌<◌, ◌≡◌, refl, ◌∙◌, ap, Bool, true, false, Bool-cases, inl, inr, Option,
  some, [], arith,
}
use faunus.Rdma.GlobalAddress.{GlobalAddress}

refuses :
    (layout : Layout) (mem : Memory) (key : Key) (a : GlobalAddress) (value : Value)
    → in_fence (mem.leaf a).header key ≡ false
    → (handle_local_remove_dupes layout mem key (mem.leaf a) value false true false []).success
      ≡ false
unfolding handle_local_remove_dupes
refuses layout mem key a value out = rw out refl

module _ (cache : Cache) (layout : Layout) (fuel : ℕ) (mem : Memory) (key : Key)
    (value : Value) where
  abbrev loop : ℕ → Bool → ℕ → cache.C → Outcome (Option Value)
  loop attempts use_cache now c =
      read_loop cache layout fuel attempts (still mem) key value use_cache now c

  abbrev handled : GlobalAddress → Handled
  handled a = handle_local_remove_dupes layout mem key (mem.leaf a) value false true false []

  loop-found :
      (attempts : ℕ) (use_cache : Bool) (now : ℕ) (c : cache.C) (f : Finding cache)
      → find_node cache fuel (still mem) key 0 false use_cache now c ≡ answer f
      → f.result ≡ found
      → loop (suc attempts) use_cache now c
        ≡ after_leaf cache (handled f.node_address) (loop attempts false (f.now + 2) f.state)
  unfolding read_loop after_find after_result
  loop-found attempts use_cache now c f e r = rw e (rw r refl)

  loop-locked :
      (attempts : ℕ) (use_cache : Bool) (now : ℕ) (c : cache.C) (f : Finding cache)
      → find_node cache fuel (still mem) key 0 false use_cache now c ≡ answer f
      → f.result ≡ locked
      → loop (suc attempts) use_cache now c ≡ loop attempts false f.now f.state
  unfolding read_loop after_find after_result
  loop-locked attempts use_cache now c f e r = rw e (rw r refl)

  module _ (a : GlobalAddress) (within : in_fence (mem.leaf a).header key ≡ true)
      (prints : HasPrints layout mem key (mem.leaf a)) where
    abbrev right : Outcome (Option Value)
    right = answer (lookup layout.branch_factor mem key (mem.leaf a))

    answers : (again : Outcome (Option Value)) → after_leaf cache (handled a) again ≡ right
    unfolding after_leaf
    answers again =
        let (ok, value_found) = handle-lookup layout mem key (mem.leaf a) value within prints in
        rw ok (ap answer value_found)

    loop-Route :
        (h attempts now : ℕ) (c : cache.C)
        → Route mem key 0 mem.root h a
        → h < fuel
        → loop (suc attempts) false now c ≡ right
    loop-Route h attempts now c route enough =
        let (f, e, r, at) = find_node-Route cache mem key 0 false fuel now c a h route enough in
        loop-found attempts false now c f e r
        ∙ ap (λ p. after_leaf cache (handled p) (loop attempts false (f.now + 2) f.state)) at
        ∙ answers _

    module _ (h attempts now : ℕ) (height : GlobalAddress → ℕ)
        (only : (b : GlobalAddress)
          → height b ≡ 0
          → in_fence (mem.leaf b).header key ≡ true
          → b ≡ a)
        (route : Route mem key 0 mem.root h a) (enough : h < fuel) where
      first-attempt :
          (use_cache : Bool) (c : cache.C) (f : Finding cache) (r : FindNodeResult)
          (p : GlobalAddress)
          → find_node cache fuel (still mem) key 0 false use_cache now c ≡ answer f
          → f.result ≡ r
          → f.node_address ≡ p
          → IsRight (still mem) 0 height r p
          → loop (suc (suc attempts)) use_cache now c ≡ right
      unfolding after_leaf
      first-attempt use_cache c f r p e is_r at (at_level low) =
          let again = loop (suc attempts) false (f.now + 2) f.state in
          loop-found (suc attempts) use_cache now c f e is_r
          ∙ ap (λ p. after_leaf cache (handled p) again) at
          ∙ elim (Bool-cases (in_fence (mem.leaf p).header key)) [
            | inl inside ↦
                ap (λ p. after_leaf cache (handled p) again) (only p low inside) ∙ answers again
            | inr outside ↦
                rw (refuses layout mem key p value outside)
                  (loop-Route h attempts (f.now + 2) f.state route enough)
          ]
      first-attempt use_cache c f r p e is_r at at_lock =
          loop-locked (suc attempts) use_cache now c f e is_r
          ∙ loop-Route h attempts f.now f.state route enough
      first-attempt use_cache c f r p e is_r at (too_low moment low) = absurd (omega arith)

loop-lookup :
    (cache : Cache) (layout : Layout) (fuel attempts : ℕ) (mem : Memory) (key : Key) (value : Value)
    (now h : ℕ) (c : cache.C) (a : GlobalAddress) (height : GlobalAddress → ℕ)
    → 2 ≤ attempts
    → Levelled (still mem) key 0 height
    → height mem.root < fuel
    → ((e : CachedEntry)
        → (cache.search c key).0 ≡ some e
        → EntryFits key 0 height e × (height e.address < fuel))
    → Route mem key 0 mem.root h a
    → h < fuel
    → in_fence (mem.leaf a).header key ≡ true
    → HasPrints layout mem key (mem.leaf a)
    → ((b : GlobalAddress) → height b ≡ 0 → in_fence (mem.leaf b).header key ≡ true → b ≡ a)
    → read_loop cache layout fuel attempts (still mem) key value true now c
      ≡ answer (lookup layout.branch_factor mem key (mem.leaf a))
loop-lookup cache layout fuel zero mem key value now h c a height two levelled enough fits route
      enough' within prints only =
    absurd (omega arith)
loop-lookup cache layout fuel (suc zero) mem key value now h c a height two levelled enough fits
      route enough' within prints only =
    absurd (omega arith)
loop-lookup cache layout fuel (suc (suc attempts)) mem key value now h c a height two levelled
      enough fits route enough' within prints only =
    let (f, e, right) =
      find_node-IsRight cache (still mem) key 0 height false true fuel now c levelled enough fits in
    first-attempt cache layout fuel mem key value a within prints h attempts now height only route
      enough' true c f f.result f.node_address e refl refl right

-- In a memory that does not change, `read` returns what a search of all slots of the key's leaf finds,
-- even if the cache leads it to another node first. The leaf is where the children for the key lead to
-- from the root, past nodes that are not locked; the key lies within its fences and those of no other
-- leaf; its slots with an item of the key have the key's fingerprint; levels and the cache's entry
-- are as `find_node` needs them, and the fuel is above the levels.
pub read-lookup :
    (cache : Cache) (layout : Layout) (fuel : ℕ) (mem : Memory) (key : Key) (value : Value)
    (now h : ℕ) (c : cache.C) (a : GlobalAddress) (height : GlobalAddress → ℕ)
    → Levelled (still mem) key 0 height
    → height mem.root < fuel
    → ((e : CachedEntry)
        → (cache.search c key).0 ≡ some e
        → EntryFits key 0 height e × (height e.address < fuel))
    → Route mem key 0 mem.root h a
    → h < fuel
    → in_fence (mem.leaf a).header key ≡ true
    → HasPrints layout mem key (mem.leaf a)
    → ((b : GlobalAddress) → height b ≡ 0 → in_fence (mem.leaf b).header key ≡ true → b ≡ a)
    → read cache layout fuel now (still mem) key value c
      ≡ answer (lookup layout.branch_factor mem key (mem.leaf a))
unfolding read
read-lookup cache layout fuel mem key value now h c a height levelled enough fits route enough'
      within prints only =
    loop-lookup cache layout fuel 1_000_000 mem key value now h c a height (omega arith) levelled
      enough fits route enough' within prints only
