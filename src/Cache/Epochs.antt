-- ===== src/Cache/Epochs.antt =====
-- src/cache/range_cache.hpp: the reclamation by epochs, with the accesses of threads interleaved: the
-- guard of an operation, the retirement of an entry, and the scan of the thread records.
pub mod Invariant
pub mod Safety
mod Tests
use faunus.Cache.Counters.{max_epoch, scan_one, scan_result}
use faunus.Prelude.{
  ℕ, ◌+◌, ◌<◌, ◌≡◌, Bool, true, false, List, [], ◌∷◌, ltb, ◌==◌, ◌||◌, if◌then◌else◌,
}

-- Where a thread is: it has loaded an epoch for its guard, stored it in its record, dequeued a batch
-- under it, scans the records left with the minimum so far, or frees what is below a minimum.
pub data Pc : Type 0 where
  idle : Pc
  loaded : (e : ℕ) → Pc
  active : (e : ℕ) → Pc
  scanning : (e : ℕ) (records : List ℕ) (min_epoch : ℕ) → Pc
  freeing : (e min_epoch : ℕ) → Pc

-- What its record holds.
abbrev pub record_of : Pc → ℕ
record_of idle = 0
record_of (loaded e) = 0
record_of (active e) = e
record_of (scanning e records min_epoch) = e
record_of (freeing e min_epoch) = e

-- Where an entry is: in the skip list, erased from it, with the global epoch read for its retirement,
-- in the queue with its epoch, in the batch of a thread, or not in use.
pub data Place : Type 0 where
  linked : Place
  erased : Place
  noted : (epoch : ℕ) → Place
  retired : (epoch : ℕ) → Place
  taken : (thread epoch : ℕ) → Place
  unused : Place

abbrev pub update {ℓ} : {A : Type ℓ} → (ℕ → A) → ℕ → A → ℕ → A
update f i a j = if i == j then a else f j

abbrev pub is_in : ℕ → List ℕ → Bool
is_in i [] = false
is_in i (j ∷ js) = (i == j) || is_in i js

-- `holds` tells the entries that a thread's operation has found in the skip list.
pub record System : Type 0 where
  pub global_epoch : ℕ
  pub registry : List ℕ
  pub pc : ℕ → Pc
  pub place : ℕ → Place
  pub holds : ℕ → ℕ → Bool

abbrev pub move : System → ℕ → Pc → System
move s i p = record s { pc = update s.pc i p }

abbrev pub put : System → ℕ → Place → System
put s x p = record s { place = update s.place x p }

-- One access of a thread `i`, or one of a thread to an entry `x`.
pub data Step (s : System) : System → Type 0 where
  -- `ensure_thread_record`
  registers : (i : ℕ) → Step s (record s { registry = i ∷ s.registry })
  -- `ThreadGuard`: the load of the global epoch, and the store of it
  loads :
      (i : ℕ)
      → s.pc i ≡ idle
      → is_in i s.registry ≡ true
      → Step s (move s i (loaded s.global_epoch))
  stores : (i e : ℕ) → s.pc i ≡ loaded e → Step s (move s i (active e))
  -- a search in the skip list
  finds :
      (i e x : ℕ)
      → s.pc i ≡ active e
      → s.place x ≡ linked
      → Step s (record s { holds = update s.holds i (update (s.holds i) x true) })
  -- `skiplist_erase_node`, and the two accesses of `retire_entry`
  erases : (x : ℕ) → s.place x ≡ linked → Step s (put s x erased)
  notes : (x : ℕ) → s.place x ≡ erased → Step s (put s x (noted s.global_epoch))
  retires : (x r : ℕ) → s.place x ≡ noted r → Step s (put s x (retired r))
  -- `try_reclaim_budgeted`: an entry of the batch, the scan, and what becomes of the entries
  takes : (i e x r : ℕ) → s.pc i ≡ active e → s.place x ≡ retired r → Step s (put s x (taken i r))
  starts : (i e : ℕ) → s.pc i ≡ active e → Step s (move s i (scanning e s.registry max_epoch))
  scans :
      (i e j min_epoch : ℕ) (records : List ℕ)
      → s.pc i ≡ scanning e (j ∷ records) min_epoch
      → Step s (move s i (scanning e records (scan_one min_epoch (record_of (s.pc j)))))
  decides :
      (i e min_epoch : ℕ)
      → s.pc i ≡ scanning e [] min_epoch
      → Step s (move s i (freeing e (scan_result s.global_epoch min_epoch)))
  frees :
      (i e min_epoch x r : ℕ)
      → s.pc i ≡ freeing e min_epoch
      → s.place x ≡ taken i r
      → ltb r min_epoch ≡ true
      → Step s (put s x unused)
  keeps :
      (i e min_epoch x r : ℕ)
      → s.pc i ≡ freeing e min_epoch
      → s.place x ≡ taken i r
      → ltb r min_epoch ≡ false
      → Step s (put s x (retired r))
  advances : Step s (record s { global_epoch = s.global_epoch + 1 })
  resumes : (i e min_epoch : ℕ) → s.pc i ≡ freeing e min_epoch → Step s (move s i (active e))
  -- `allocEntry` and `skiplist_insert`
  inserts : (x : ℕ) → s.place x ≡ unused → Step s (put s x linked)
  -- `~ThreadGuard`
  leaves :
      (i e : ℕ)
      → s.pc i ≡ active e
      → Step s (record (move s i idle) { holds = update s.holds i (λ x. false) })

-- A cache without entries, before any thread has used it.
abbrev pub init : System
init = record {
  global_epoch = 1;
  registry = [];
  pc = λ i. idle;
  place = λ x. unused;
  holds = λ i x. false;
}

pub data Reach : System → Type 0 where
  begin : Reach init
  step : {s s' : System} → Reach s → Step s s' → Reach s'
