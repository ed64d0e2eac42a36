-- ===== src/Index/Find/Routes.antt =====
-- The searches of `find_node` in a memory that does not change, past nodes that are not locked.
use faunus.Index.Find.{
  Memory, History, found, CachedEntry, Cache, is_blocked, visit, Finding, add_read, after_visit,
  find_from, from_root, find_node,
}
use faunus.Index.Internal.{Key, Header, next_address}
use faunus.Index.Outcome.{Outcome, answer}
use faunus.Prelude.{
  ℕ, zero, suc, ◌+◌, ◌<◌, ◌≡◌, refl, Bool, true, false, Option, none, ltb, ◌==◌, le→ltb, arith,
}
use faunus.Rdma.GlobalAddress.{GlobalAddress}

abbrev pub still : Memory → History
still mem now = mem

-- The node is not locked and stands at a level.
pub record IsOpen (header : Header) (level : ℕ) : Type 0 where
  pub unlocked : header.lock ≡ 0
  pub stands : header.level ≡ level

-- From the node at an address to the address of the node for the key `h` levels down, which is read
-- only if the search starts there.
pub data Route (mem : Memory) (key : Key) (level : ℕ)
    : GlobalAddress → ℕ → GlobalAddress → Type 0 where
  here : {p : GlobalAddress} → IsOpen (mem.internal p).header level → Route mem key level p 0 p
  last :
      {p : GlobalAddress}
      → IsOpen (mem.internal p).header (level + 1)
      → (p == next_address (mem.internal p) key) ≡ false
      → Route mem key level p 1 (next_address (mem.internal p) key)
  down :
      {p a : GlobalAddress} {h : ℕ}
      → IsOpen (mem.internal p).header (level + (h + 2))
      → (p == next_address (mem.internal p) key) ≡ false
      → Route mem key level (next_address (mem.internal p) key) (suc h) a
      → Route mem key level p (suc (suc h)) a

open_is_blocked :
    (level level' : ℕ) (from_smo : Bool) (header : Header)
    → IsOpen header level'
    → is_blocked level from_smo header ≡ false
unfolding is_blocked
open_is_blocked level level' from_smo header h = let e = h.unlocked in rw e refl

module _ (cache : Cache) (mem : Memory) (key : Key) (level : ℕ) (from_smo : Bool) where
  abbrev pub FoundAt : GlobalAddress → Outcome (Finding cache) → Type 0
  FoundAt a o = (f : Finding cache) × (o ≡ answer f) × (f.result ≡ found) × (f.node_address ≡ a)

  FoundAt-find_from :
      (cached : Option CachedEntry) (fuel now : ℕ) (c : cache.C) (p a : GlobalAddress) (h : ℕ)
      (in_root : Bool)
      → Route mem key level p h a
      → h < fuel
      → FoundAt a (find_from cache fuel (still mem) key level from_smo cached now c p in_root)
  unfolding find_from visit after_visit
  FoundAt-find_from cached zero now c p a h in_root route enough = absurd (omega arith)
  FoundAt-find_from cached (suc fuel) now c p a h in_root (here is_open) enough =
      let header = (mem.internal p).header in
      let same : (header.level == level) ≡ true = let e = is_open.stands in ground arith in
      rw (open_is_blocked level level from_smo header is_open, same) (_, refl, refl, refl)
  FoundAt-find_from cached (suc fuel) now c p a h in_root (last is_open moves) enough =
      let header = (mem.internal p).header in
      let e = is_open.stands in
      let apart : (header.level == level) ≡ false = ground arith in
      let high : ltb header.level level ≡ false = le→ltb _ _ (omega arith) in
      let one : (header.level == level + 1) ≡ true = ground arith in
      rw (open_is_blocked level (level + 1) from_smo header is_open, apart, high, moves, one)
        (_, refl, refl, refl)
  FoundAt-find_from cached (suc fuel) now c p a (suc (suc h)) in_root (down is_open moves route)
        enough =
      let header = (mem.internal p).header in
      let e = is_open.stands in
      let apart : (header.level == level) ≡ false = ground arith in
      let high : ltb header.level level ≡ false = le→ltb _ _ (omega arith) in
      let more : (header.level == level + 1) ≡ false = ground arith in
      rw (open_is_blocked level (level + (h + 2)) from_smo header is_open, apart, high, moves, more)
        (FoundAt-find_from cached fuel (now + 1) (add_read cache from_smo p (mem.internal p) c)
          (next_address (mem.internal p) key) a (suc h) false route (omega arith))

  -- In a memory that does not change, past nodes that are not locked and stand at descending levels,
  -- `find_node` without the cache reports the node that the children for the key lead to from the
  -- root, with fuel above the number of levels between.
  pub find_node-Route :
      (fuel now : ℕ) (c : cache.C) (a : GlobalAddress) (h : ℕ)
      → Route mem key level mem.root h a
      → h < fuel
      → FoundAt a (find_node cache fuel (still mem) key level from_smo false now c)
  unfolding find_node from_root
  find_node-Route fuel now c a h route enough =
      FoundAt-find_from none fuel (now + 1) c mem.root a h true route enough
