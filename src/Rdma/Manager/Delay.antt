-- ===== src/Rdma/Manager/Delay.antt =====
-- The time that an operation spends at a server, whose jobs queue up.
use faunus.Prelude.{
  ℕ, ◌+◌, max, ◌==◌, ◌≤◌, ◌<◌, ◌≡◌, ◌∙◌, List, [], ◌∷◌, length, get_or, get_or-set, length-set, ltb,
  if◌then◌else◌, arith,
}
use faunus.Rdma.Manager.{RdmaManager, get_server_time_delay}

-- When the server is free of the jobs so far.
abbrev pub finish : RdmaManager → ℕ → ℕ
finish mgr server = get_or mgr.server_finish_times server 0

-- A job at a known server is served without interruption once it has come and the server is free: it
-- ends `t_trans` after the later of the two, the delay is the time from `now` to that end, and the
-- times of the other servers stay.
delay-fifo :
    (mgr : RdmaManager) (server t_trans now other : ℕ)
    → server < length mgr.server_finish_times
    → let (delay, mgr') = get_server_time_delay mgr server t_trans now in
      (now + delay ≡ max (finish mgr server) now + t_trans)
      × (finish mgr' other ≡ (if server == other then now + delay else finish mgr other))
unfolding get_server_time_delay
delay-fifo mgr server t_trans now other h =
    rw (get_or-set mgr.server_finish_times server other (free + t_trans) 0 h)
      (ground arith, ground arith)
  where
    free : ℕ
    free = if ltb now (finish mgr server) then finish mgr server else now

-- Jobs that come to one server one after another, as time and transfer time: the delays and the
-- manager after them.
pub serve : RdmaManager → ℕ → List (ℕ × ℕ) → RdmaManager
serve mgr server [] = mgr
serve mgr server ((now, t_trans) ∷ jobs) =
    serve (get_server_time_delay mgr server t_trans now).1 server jobs

pub transfers : List (ℕ × ℕ) → ℕ
transfers [] = 0
transfers ((now, t_trans) ∷ jobs) = t_trans + transfers jobs

delay-length :
    (mgr : RdmaManager) (server t now : ℕ)
    → length (get_server_time_delay mgr server t now).1.server_finish_times
      ≡ length mgr.server_finish_times
unfolding get_server_time_delay
delay-length mgr server t now = length-set mgr.server_finish_times server _

-- However the jobs of a server come, they never overlap: it is busy at least as long as their
-- transfers take together.
serve-busy :
    (mgr : RdmaManager) (server : ℕ) (jobs : List (ℕ × ℕ))
    → server < length mgr.server_finish_times
    → finish mgr server + transfers jobs ≤ finish (serve mgr server jobs) server
unfolding serve transfers
serve-busy mgr server [] h = omega arith
serve-busy mgr server ((now, t_trans) ∷ jobs) h =
    let (delay, mgr') = get_server_time_delay mgr server t_trans now in
    let (ends, own) = delay-fifo mgr server t_trans now server h in
    let own' : finish mgr' server ≡ now + delay = own ∙ ground arith in
    omega (arith, serve-busy mgr' server jobs (omega (arith, delay-length mgr server t_trans now)))
