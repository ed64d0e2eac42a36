-- ===== src/Rdma/Manager/Batch.antt =====
-- What operations do to the memories of the servers, alone and in a batch.
use mathlib.Core.Option
use faunus.Rdma.GlobalAddress.{server_index, offset}
use faunus.Prelude.{
  ℕ, ◌+◌, ◌/◌, ◌≡◌, refl, sym, ap, ◌∙◌, Bool, true, false, Option, none, some, Bool-cases, inl, inr,
  List, [], ◌∷◌, length, get_or, set, if◌then◌else◌, ◌==◌, max, ◌>>=◌, >>=-eq-some, ltb, if-eq-some,
  ◌&&◌,
}
use faunus.Rdma.Manager.{
  RdmaManager, get_server, execute_rdma, sleep_ns, get_server_time_delay, perform_found, execute_at,
  perform_at, batch_at, calculate_bw_delay_ns, batch_loop, perform_batch, op_type, perform_op,
  Outcome, reads_within,
}
use faunus.Rdma.Simulation.{Memory, RdmaOp, Completion, execute}

-- What a run leaves besides counters and times.
abbrev pub effect {ℓ} : {A : Type ℓ} → Bool × RdmaManager × A → Bool × List Memory × A
effect (ok, mgr, op) = (ok, mgr.servers, op)

-- The operations performed one at a time on the servers that are found, up to the first that fails.
found_each : RdmaManager → (ℕ → ℕ) → List RdmaOp → Bool × RdmaManager × List RdmaOp
found_each mgr now [] = (true, mgr, [])
found_each mgr now (op ∷ ops) =
    let (ok, mgr', op') = perform_found mgr (now (length ops)) op in
    let (ok', mgr'', ops') = found_each mgr' now ops in
    if ok then (ok', mgr'', op' ∷ ops') else (false, mgr', op' ∷ ops)

sleep_ns-servers : (mgr : RdmaManager) (t : ℕ) → (sleep_ns mgr t).servers ≡ mgr.servers
unfolding sleep_ns
sleep_ns-servers mgr t = elim (Bool-cases mgr.sleep_enabled) [ inl e ↦ rw e | inr e ↦ rw e ]

-- The effect depends on the memories alone.
effect-execute_at :
    (a b : RdmaManager) (op : RdmaOp) (found : Option (ℕ × ℕ))
    → a.servers ≡ b.servers
    → effect (execute_at a op found) ≡ effect (execute_at b op found)
unfolding execute_at
effect-execute_at a b op none h = ap (λ m. (false, m, op)) h
effect-execute_at a b op (some (server, local_addr)) h =
    ap (λ m. after (execute (get_or m server []) local_addr op.op) m) h
  where
    after : Completion → List Memory → Bool × List Memory × RdmaOp
    after done m =
        (done.ok, set m server done.memory, record { addr = op.addr; op = done.operation })

effect-execute_rdma :
    (a b : RdmaManager) (op : RdmaOp)
    → a.servers ≡ b.servers
    → effect (execute_rdma a op) ≡ effect (execute_rdma b op)
unfolding execute_rdma
effect-execute_rdma a b op h =
    effect-execute_at a b op (get_server a.servers op.addr) h
    ∙ ap (λ m. effect (execute_at b op (get_server m op.addr))) h

effect-none :
    (mgr : RdmaManager) (op : RdmaOp)
    → get_server mgr.servers op.addr ≡ none
    → effect (execute_rdma mgr op) ≡ (false, mgr.servers, op)
unfolding execute_rdma execute_at
effect-none mgr op e = ap (λ o. effect (execute_at mgr op o)) e

delay-servers :
    (mgr : RdmaManager) (server t now : ℕ)
    → (get_server_time_delay mgr server t now).1.servers ≡ mgr.servers
unfolding get_server_time_delay
delay-servers mgr server t now = refl

effect-perform_at :
    (mgr : RdmaManager) (now : ℕ) (op : RdmaOp) (found : Option (ℕ × ℕ))
    → get_server mgr.servers op.addr ≡ found
    → effect (perform_at mgr now op found) ≡ effect (execute_rdma mgr op)
unfolding perform_at
effect-perform_at mgr now op none e = sym (effect-none mgr op e)
effect-perform_at mgr now op (some (server, local_addr)) e =
    let bw = calculate_bw_delay_ns op.op in
    let (delay, waiting) = get_server_time_delay mgr server bw now in
    let before = mgr.base_rtt_ns / 2 + delay in
    let later = mgr.base_rtt_ns / 2 + (if op_type op.op == 0 then bw else 0) in
    let (ok, mgr', op') = execute_rdma (sleep_ns waiting before) op in
    ap (λ (m : List Memory). (ok, m, op')) (sleep_ns-servers mgr' later)
    ∙ effect-execute_rdma (sleep_ns waiting before) mgr op
        (sleep_ns-servers waiting before ∙ delay-servers mgr server bw now)

-- An operation performed has the effect of its execution, whatever the delays and counters.
pub effect-perform_found :
    (mgr : RdmaManager) (now : ℕ) (op : RdmaOp)
    → effect (perform_found mgr now op) ≡ effect (execute_rdma mgr op)
unfolding perform_found
effect-perform_found mgr now op = effect-perform_at mgr now op _ refl

either-servers :
    (b : Bool) (x y : RdmaManager)
    → x.servers ≡ y.servers
    → (if b then x else y).servers ≡ y.servers
either-servers true x y h = h
either-servers false x y h = refl

effect-batch_at :
    (mgr : RdmaManager) (now : ℕ) (op : RdmaOp) (found : Option (ℕ × ℕ))
    → get_server mgr.servers op.addr ≡ found
    → effect (batch_at mgr now op found).0 ≡ effect (execute_rdma mgr op)
unfolding batch_at
effect-batch_at mgr now op none e = sym (effect-none mgr op e)
effect-batch_at mgr now op (some (server, local_addr)) e =
    let bw = calculate_bw_delay_ns op.op in
    let (delay, waiting) = get_server_time_delay mgr server bw now in
    let (ok, mgr', op') = execute_rdma waiting op in
    ap (λ (m : List Memory). (ok, m, op')) (either-servers ok _ mgr' refl)
    ∙ effect-execute_rdma waiting mgr op (delay-servers mgr server bw now)

-- What the loop of a batch leaves besides times.
abbrev loop_effect : Bool × RdmaManager × List RdmaOp × ℕ → Bool × List Memory × List RdmaOp
loop_effect (ok, mgr, ops, longest) = (ok, mgr.servers, ops)

-- How the first operation's effect and the others' go together.
abbrev chain :
    Bool × List Memory × RdmaOp
    → Bool × List Memory × List RdmaOp
    → List RdmaOp
    → Bool × List Memory × List RdmaOp
chain (ok, servers, op) (ok', servers', ops') ops =
    if ok then (ok', servers', op ∷ ops') else (false, servers, op ∷ ops)

loop-chain :
    (mgr : RdmaManager) (now : ℕ → ℕ) (op : RdmaOp) (ops : List RdmaOp) (longest : ℕ)
    → let (first, delay) = batch_at mgr (now (length ops)) op (get_server mgr.servers op.addr) in
      loop_effect (batch_loop mgr now (op ∷ ops) longest)
      ≡ chain (effect first) (loop_effect (batch_loop first.1 now ops (max longest delay))) ops
unfolding batch_loop
loop-chain mgr now op ops longest =
    let (first, delay) = batch_at mgr (now (length ops)) op (get_server mgr.servers op.addr) in
    elim (Bool-cases first.0) [ inl e ↦ rw e | inr e ↦ rw e ]

each-chain :
    (mgr : RdmaManager) (now : ℕ → ℕ) (op : RdmaOp) (ops : List RdmaOp)
    → let first = perform_found mgr (now (length ops)) op in
      effect (found_each mgr now (op ∷ ops))
      ≡ chain (effect first) (effect (found_each first.1 now ops)) ops
unfolding found_each
each-chain mgr now op ops = elim (Bool-cases (perform_found mgr (now (length ops)) op).0) [
  | inl e ↦ rw e
  | inr e ↦ rw e
]

loop-each :
    (a b : RdmaManager) (now : ℕ → ℕ) (ops : List RdmaOp) (longest : ℕ)
    → a.servers ≡ b.servers
    → loop_effect (batch_loop a now ops longest) ≡ effect (found_each b now ops)
unfolding batch_loop found_each
loop-each a b now [] longest h = ap (λ m. (true, m, [])) h
loop-each a b now (op ∷ ops) longest h =
    let found = get_server a.servers op.addr in
    let (one, delay) = batch_at a (now (length ops)) op found in
    let other = perform_found b (now (length ops)) op in
    let same : effect one ≡ effect other =
      effect-batch_at a (now (length ops)) op found refl
      ∙ effect-execute_rdma a b op h
      ∙ sym (effect-perform_found b (now (length ops)) op) in
    loop-chain a now op ops longest
    ∙ ap (λ e. chain e (loop_effect (batch_loop one.1 now ops (max longest delay))) ops) same
    ∙ ap (λ e. chain (effect other) e ops)
        (loop-each one.1 other.1 now ops (max longest delay) (ap (λ e. e.1) same))
    ∙ sym (each-chain b now op ops)

batch-loop :
    (mgr : RdmaManager) (now : ℕ → ℕ) (op : RdmaOp) (ops : List RdmaOp)
    → effect (perform_batch mgr now (op ∷ ops))
      ≡ loop_effect (batch_loop (sleep_ns mgr (mgr.base_rtt_ns / 2)) now (op ∷ ops) 0)
unfolding perform_batch
batch-loop mgr now op ops =
    let one_way_ns = mgr.base_rtt_ns / 2 in
    let (ok, mgr1, ops', longest) = batch_loop (sleep_ns mgr one_way_ns) now (op ∷ ops) 0 in
    elim (Bool-cases ok) [
      | inl e ↦
          rw e (
            ap (λ (m : List Memory). (true, m, ops'))
              (sleep_ns-servers mgr1 (longest + one_way_ns)))
      | inr e ↦ rw e
    ]

batch-found_each :
    (mgr : RdmaManager) (now : ℕ → ℕ) (ops : List RdmaOp)
    → effect (perform_batch mgr now ops) ≡ effect (found_each mgr now ops)
unfolding perform_batch found_each
batch-found_each mgr now [] = refl
batch-found_each mgr now (op ∷ ops) =
    batch-loop mgr now op ops
    ∙ loop-each (sleep_ns mgr (mgr.base_rtt_ns / 2)) mgr now (op ∷ ops) 0
        (sleep_ns-servers mgr (mgr.base_rtt_ns / 2))

-- The others' run goes on where the first went well.
unfoldable pub after_one :
    RdmaOp → Option (Bool × RdmaManager × List RdmaOp) → Option (Bool × RdmaManager × List RdmaOp)
after_one op none = none
after_one op (some (ok, mgr, ops)) = some (ok, mgr, op ∷ ops)

-- The operations performed one at a time by `perform_op`, up to the first that fails; `none` where an
-- assertion does.
unfoldable pub perform_each :
    RdmaManager → (ℕ → ℕ) → List RdmaOp → Option (Bool × RdmaManager × List RdmaOp)
unfolding after_one
perform_each mgr now [] = some (true, mgr, [])
perform_each mgr now (op ∷ ops) = perform_op mgr (now (length ops)) op >>= (λ first.
    let rest = perform_each first.1 now ops in
    if first.0 then after_one first.2 rest else some (false, first.1, first.2 ∷ ops))

after_one-eq :
    (op : RdmaOp) (o : Option (Bool × RdmaManager × List RdmaOp))
    {r : Bool × RdmaManager × List RdmaOp}
    → after_one op o ≡ some r
    → (r' : Bool × RdmaManager × List RdmaOp) × (o ≡ some r') × ((r'.0, r'.1, op ∷ r'.2) ≡ r)
unfolding after_one
after_one-eq op none e = absurd (cc e)
after_one-eq op (some (ok, mgr, ops)) {r} e = ((ok, mgr, ops), refl, ap (λ o. Option.get_or o r) e)

-- Where no assertion fails, the servers are found.
perform_op-found :
    (mgr : RdmaManager) (now : ℕ) (op : RdmaOp) {r : Outcome}
    → perform_op mgr now op ≡ some r
    → perform_found mgr now op ≡ r
unfolding perform_op
perform_op-found mgr now op e =
    let mem = get_or mgr.servers (server_index op.addr) [] in
    (if-eq-some
      (ltb (server_index op.addr) (length mgr.servers) && reads_within mem (offset op.addr) op.op)
      (perform_found mgr now op) e).1

perform_each-found :
    (mgr : RdmaManager) (now : ℕ → ℕ) (ops : List RdmaOp) {r : Bool × RdmaManager × List RdmaOp}
    → perform_each mgr now ops ≡ some r
    → found_each mgr now ops ≡ r
unfolding perform_each found_each
perform_each-found mgr now [] {r} e = ap (λ o. Option.get_or o r) e
perform_each-found mgr now (op ∷ ops) {r} e =
    let (first, e1, e2) = >>=-eq-some (perform_op mgr (now (length ops)) op) _ e in
    let same = perform_op-found mgr (now (length ops)) op e1 in
    rw same (elim (Bool-cases first.0) [
      | inl fine ↦
          let (r', e3, e4) = after_one-eq first.2 _ (rw fine at e2) in
          let later = perform_each-found first.1 now ops e3 in rw (fine, later) e4
      | inr bad ↦ rw bad (ap (λ o. Option.get_or o r) (rw bad at e2))
    ])

-- Where the operations performed one at a time, up to the first that fails, fail no assertion, as
-- one on a server that does not exist and a read out of range do: a batch returns what they return,
-- and leaves the same memories and descriptors; those that succeeded before a failure stay in effect.
pub perform_batch-each :
    (mgr : RdmaManager) (now : ℕ → ℕ) (ops : List RdmaOp) (r : Bool × RdmaManager × List RdmaOp)
    → perform_each mgr now ops ≡ some r
    → effect (perform_batch mgr now ops) ≡ effect r
perform_batch-each mgr now ops r e =
    batch-found_each mgr now ops ∙ ap effect (perform_each-found mgr now ops e)
