-- ===== src/Rdma/Manager/Locks.antt =====
-- The lock words that clients take and give back over the network.
use faunus.Prelude.{
  ℕ, suc, ◌+◌, ◌-◌, ◌%◌, ◌^◌, ◌≤◌, ◌<◌, ◌≡◌, refl, ◌∙◌, sym, ap, Bool, true, false, inr, some, List,
  [], ◌∷◌, length, length-set, get_or, get_or-set, set, ◌==◌, if◌then◌else◌, arith, if-eq-some, ltb,
}
use mathlib.Core.Option
use mathlib.Core.Path.{subst}
use faunus.Rdma.GlobalAddress.{GlobalAddress, server_index, offset}
use faunus.Rdma.Manager.Batch.{effect, effect-perform_found}
use faunus.Rdma.Manager.{
  RdmaManager, get_server, execute_rdma, execute_at, perform_found, acquired, rdma_try_acquire_lock,
  rdma_release_lock, perform_op, reads_within,
}
use faunus.Rdma.Simulation.Verbs.{atomics_lem, execute-frame}
use faunus.Rdma.Simulation.{Memory, Operation, cas, faa, load, execute}

-- The address stands at `a` on a server of the manager whose memory is `mem`.
pub record Serves (mgr : RdmaManager) (addr : GlobalAddress) (server a : ℕ) (mem : Memory)
    : Type 0 where
  pub found : get_server mgr.servers addr ≡ some (server, a)
  pub known : server < length mgr.servers
  pub there : get_or mgr.servers server [] ≡ mem

-- What an operation does to the server it goes to.
perform-Serves :
    {mgr : RdmaManager} {addr : GlobalAddress} {server a : ℕ} {mem : Memory} (now : ℕ)
    (op : Operation)
    → Serves mgr addr server a mem
    → let (ok, mgr', op') = perform_found mgr now (record { addr = addr; op = op }) in
      let done = execute mem a op in
      (ok ≡ done.ok) × (op'.op ≡ done.operation) × Serves mgr' addr server a done.memory
unfolding execute_rdma execute_at get_server
perform-Serves {mgr} {addr} {server} {a} {mem} now op s =
    let e = effect-perform_found mgr now (record { addr = addr; op = op }) in
    let servers' = set mgr.servers server (execute mem a op).memory in
    let done : effect (execute_rdma mgr (record { addr = addr; op = op })) ≡ (
      (execute mem a op).ok,
      servers',
      record { addr = addr; op = (execute mem a op).operation },
    ) =
      rw (s.found, s.there) refl in
    let left = e ∙ done in
    let l : length servers' ≡ length mgr.servers = length-set mgr.servers server _ in
    (
      ap (λ x. x.0) left,
      ap (λ x. x.2.op) left,
      record {
        found = ap (λ x. get_server x.1 addr) left ∙ rw l s.found;
        known = rw (ap (λ x. x.1) left, l) s.known;
        there =
            rw (ap (λ x. x.1) left)
              (get_or-set mgr.servers server server _ [] s.known ∙ ground arith);
      },
    )

-- An operation for a server that is there, and is not a read, fails no assertion.
perform_op-known :
    {mgr : RdmaManager} {addr : GlobalAddress} {server a : ℕ} {mem : Memory} (now : ℕ)
    (op : Operation)
    → ((m : Memory) (b : ℕ) → reads_within m b op ≡ true)
    → Serves mgr addr server a mem
    → perform_op mgr now (record { addr = addr; op = op })
      ≡ some (perform_found mgr now (record { addr = addr; op = op }))
unfolding perform_op get_server
perform_op-known {mgr} {addr} now op within s =
    rw
      (
        (if-eq-some (ltb (server_index addr) (length mgr.servers)) (server_index addr, offset addr)
            s.found).0,
        within (get_or mgr.servers (server_index addr) []) (offset addr),
      )
      refl

cas_within : (m : Memory) (b expected desired : ℕ) → reads_within m b (cas expected desired) ≡ true
unfolding reads_within
cas_within m b expected desired = refl

faa_within : (m : Memory) (b increment : ℕ) → reads_within m b (faa increment) ≡ true
unfolding reads_within
faa_within m b increment = refl

-- The lock word at the address is `w`.
pub record HasWord (mgr : RdmaManager) (addr : GlobalAddress) (server a w : ℕ) : Type 0 where
  pub mem : Memory
  pub serves : Serves mgr addr server a mem
  pub room : a + 8 ≤ length mem
  pub small : a + 8 < 2 ^ 64
  pub word : load mem a ≡ w

cas-HasWord :
    {mgr : RdmaManager} {addr : GlobalAddress} {server a w : ℕ} (now : ℕ)
    → HasWord mgr addr server a w
    → let (ok, mgr', op') = perform_found mgr now (record { addr = addr; op = cas 0 1 }) in
      (ok ≡ true) × (op'.op ≡ cas w 1) × HasWord mgr' addr server a (if w == 0 then 1 else w)
cas-HasWord {mgr} {addr} {server} {a} {w} now h =
    let (ok, same, s) = perform-Serves now (cas 0 1) h.serves in
    let (fine, saw, left, _, _) = atomics_lem h.mem a 0 1 0 h.room h.small (omega arith) in
    let (l, _) = execute-frame h.mem a (cas 0 1) (a + 8) h.small (inr (omega arith)) in
    (
      ok ∙ fine,
      same ∙ saw ∙ ap (λ x. cas x 1) h.word,
      record {
        mem = (execute h.mem a (cas 0 1)).memory;
        serves = s;
        room = rw l h.room;
        small = h.small;
        word = left ∙ rw h.word;
      },
    )

-- Trying to take a lock whose word is within the memory of a server never fails as an operation: it
-- tells whether the word was 0, which is then 1, and leaves another word as it was.
pub acquire-HasWord :
    {mgr : RdmaManager} {addr : GlobalAddress} {server a w : ℕ} (now : ℕ)
    → HasWord mgr addr server a w
    → let mgr' = (perform_found mgr now (record { addr = addr; op = cas 0 1 })).1 in
      (rdma_try_acquire_lock mgr now addr ≡ some (w == 0, mgr'))
      × HasWord mgr' addr server a (if w == 0 then 1 else w)
unfolding rdma_try_acquire_lock acquired
acquire-HasWord now h =
    let (ok, same, h') = cas-HasWord now h in
    (rw (perform_op-known now (cas 0 1) (λ m b. cas_within m b 0 1) h.serves, ok, same), h')

-- Giving back a lock whose word is within the memory of a server succeeds and takes one off the word,
-- modulo 2^64, whatever it was.
release-HasWord :
    {mgr : RdmaManager} {addr : GlobalAddress} {server a w : ℕ} (now : ℕ)
    → HasWord mgr addr server a w
    → let mgr' = (perform_found mgr now (record { addr = addr; op = faa (2 ^ 64 - 1) })).1 in
      (rdma_release_lock mgr now addr ≡ some (true, mgr'))
      × HasWord mgr' addr server a ((w + (2 ^ 64 - 1)) % 2 ^ 64)
unfolding rdma_release_lock execute
release-HasWord {mgr} {addr} {server} {a} {w} now h =
    let inc = faa (2 ^ 64 - 1) in
    let (ok, same, s) = perform-Serves now inc h.serves in
    let (_, _, _, _, left) = atomics_lem h.mem a 0 1 (2 ^ 64 - 1) h.room h.small (omega arith) in
    let (l, _) = execute-frame h.mem a inc (a + 8) h.small (inr (omega arith)) in
    (
      rw (perform_op-known now inc (λ m b. faa_within m b (2 ^ 64 - 1)) h.serves, ok),
      record {
        mem = (execute h.mem a inc).memory;
        serves = s;
        room = rw l h.room;
        small = h.small;
        word = left ∙ rw h.word;
      },
    )

-- Clients at one lock: the manager, and those that hold the lock.
pub record Clients : Type 0 where
  pub manager : RdmaManager
  pub holders : List ℕ

-- A client tries to take the lock and gets it or not, or a holder gives it back.
pub data Step (addr : GlobalAddress) : Clients → Clients → Type 0 where
  taken :
      (mgr mgr' : RdmaManager) (now client : ℕ) (hs : List ℕ)
      → rdma_try_acquire_lock mgr now addr ≡ some (true, mgr')
      → Step addr
          (record { manager = mgr; holders = hs })
          (record { manager = mgr'; holders = client ∷ hs })
  refused :
      (mgr mgr' : RdmaManager) (now : ℕ) (hs : List ℕ)
      → rdma_try_acquire_lock mgr now addr ≡ some (false, mgr')
      → Step addr (record { manager = mgr; holders = hs }) (record { manager = mgr'; holders = hs })
  given_back :
      (mgr mgr' : RdmaManager) (now client : ℕ) (hs : List ℕ) (ok : Bool)
      → rdma_release_lock mgr now addr ≡ some (ok, mgr')
      → Step addr
          (record { manager = mgr; holders = client ∷ hs })
          (record { manager = mgr'; holders = hs })

pub data Reach (addr : GlobalAddress) (start : Clients) : Clients → Type 0 where
  here : Reach addr start start
  later : (s t : Clients) → Reach addr start s → Step addr s t → Reach addr start t

-- The word counts the holders, of which there is one at most.
pub record Guarded (addr : GlobalAddress) (server a : ℕ) (c : Clients) : Type 0 where
  pub few : length c.holders ≤ 1
  pub counted : HasWord c.manager addr server a (length c.holders)

-- What an attempt that returned tells.
acquire-returned :
    {mgr mgr' : RdmaManager} {addr : GlobalAddress} {server a w : ℕ} {b : Bool} (now : ℕ)
    → HasWord mgr addr server a w
    → rdma_try_acquire_lock mgr now addr ≡ some (b, mgr')
    → (b ≡ (w == 0)) × HasWord mgr' addr server a (if w == 0 then 1 else w)
acquire-returned {mgr} {mgr'} {addr} {server} {a} {w} {b} now h e =
    let (e', h') = acquire-HasWord now h in
    let got = (perform_found mgr now (record { addr = addr; op = cas 0 1 })).1 in
    let same : ◌≡◌ {A = Bool × RdmaManager} (w == 0, got) (b, mgr') =
      ap (λ o. Option.get_or o (b, mgr')) (sym e' ∙ e) in
    (
      ap (λ x. x.0) (sym same),
      subst (λ m. HasWord m addr server a (if w == 0 then 1 else w)) (ap (λ x. x.1) same) h',
    )

Step-Guarded :
    {addr : GlobalAddress} {server a : ℕ} {s t : Clients}
    → Step addr s t
    → Guarded addr server a s
    → Guarded addr server a t
Step-Guarded (taken mgr mgr' now client [] e) g = record {
  few = omega arith;
  counted = (acquire-returned now g.counted e).1;
}
Step-Guarded (taken mgr mgr' now client (x ∷ hs) e) g =
    absurd (ground (arith, (acquire-returned now g.counted e).0))
Step-Guarded (refused mgr mgr' now [] e) g =
    absurd (ground (arith, (acquire-returned now g.counted e).0))
Step-Guarded {addr} {server} {a} (refused mgr mgr' now (x ∷ hs) e) g =
    let same : (if suc (length hs) == 0 then 1 else suc (length hs)) ≡ suc (length hs) =
      ground arith in
    record {
      few = g.few;
      counted = subst (HasWord mgr' addr server a) same (acquire-returned now g.counted e).1;
    }
Step-Guarded {addr} {server} {a} (given_back mgr mgr' now client hs ok e) g =
    let few = g.few in
    let (e', h') = release-HasWord now g.counted in
    let done = (perform_found mgr now (record { addr = addr; op = faa (2 ^ 64 - 1) })).1 in
    let same : ◌≡◌ {A = Bool × RdmaManager} (true, done) (ok, mgr') =
      ap (λ o. Option.get_or o (ok, mgr')) (sym e' ∙ e) in
    let less : (suc (length hs) + (2 ^ 64 - 1)) % 2 ^ 64 ≡ length hs = omega arith in
    record {
      few = omega arith;
      counted = subst (HasWord mgr' addr server a) less (
          subst (λ m. HasWord m addr server a ((suc (length hs) + (2 ^ 64 - 1)) % 2 ^ 64))
            (ap (λ x. x.1) same) h');
    }

-- From a lock word of 0 within the memory of a server, with no holder, whatever attempts and
-- releases follow: at most one client holds the lock.
pub mutual_exclusion :
    {addr : GlobalAddress} {server a : ℕ} {c : Clients} (mgr : RdmaManager)
    → HasWord mgr addr server a 0
    → Reach addr (record { manager = mgr; holders = [] }) c
    → length c.holders ≤ 1
mutual_exclusion {addr} {server} {a} {c} mgr h r = (go r).few
  where
    go :
        {d : Clients}
        → Reach addr (record { manager = mgr; holders = [] }) d
        → Guarded addr server a d
    go here = record { few = omega arith; counted = h }
    go (later s t q st) = Step-Guarded st (go q)
