-- ===== src/Cache/Epochs/Safety.antt =====
-- Every step keeps the invariant of the epochs.
use faunus.Cache.Counters.{max_epoch, scan_one, scan_result}
use faunus.Cache.Epochs.Invariant.{
  Guards, of_linked, of_erased, of_noted, of_retired, of_taken, IsBelow, is_idle, Invariant,
  put-Invariant, move-Invariant,
}
use faunus.Cache.Epochs.{
  Pc, idle, loaded, active, scanning, freeing, record_of, Place, linked, erased, noted, retired,
  taken, unused, update, is_in, System, put, Step, registers, loads, stores, finds, erases, notes,
  retires, takes, starts, scans, decides, frees, keeps, advances, resumes, inserts, leaves, Reach,
  begin, step,
}
use faunus.Prelude.{
  ℕ, ◌+◌, ◌≤◌, ◌<◌, ◌≡◌, ◌≢◌, refl, sym, ◌∙◌, ap, true, false, List, [], ◌∷◌, ltb, ◌==◌, ◌⊎◌, inl,
  inr, ℕ_discrete, arith,
}
use mathlib.Core.Path.{subst}

scan_one-le : (m e : ℕ) → scan_one m e ≤ m
unfolding scan_one
scan_one-le m e = ground arith

scan_one-record : (m e : ℕ) → 1 ≤ e → scan_one m e ≤ e
unfolding scan_one
scan_one-record m e one = ground arith

scan_result-le :
    (global m e : ℕ) → global < max_epoch → e ≤ global → m ≤ e → scan_result global m ≤ e
unfolding scan_result
scan_result-le global m e small below h = ground arith

IsBelow-suc : (global : ℕ) (pc : Pc) → IsBelow global pc → IsBelow (global + 1) pc
IsBelow-suc global idle h = omega arith
IsBelow-suc global (loaded e) (one, h) = (one, omega arith)
IsBelow-suc global (active e) (one, h) = (one, omega arith)
IsBelow-suc global (scanning e records min_epoch) (one, h) = (one, omega arith)
IsBelow-suc global (freeing e min_epoch) (one, h) = (one, omega arith)

scan_round :
    (i j m e ej : ℕ) (records : List ℕ)
    → 1 ≤ e
    → (i ≡ j → ej ≡ e)
    → (is_in i (j ∷ records) ≡ true) ⊎ (m ≤ e)
    → (is_in i records ≡ true) ⊎ (scan_one m ej ≤ e)
scan_round i j m e ej records one same (inr h) = let l = scan_one-le m ej in inr (omega arith)
scan_round i j m e ej records one same (inl h) = elim (ℕ_discrete i j) [
  | yes q ↦ let l = scan_one-record m e one in inr (rw (same q) l)
  | no nq ↦ let other : (i == j) ≡ false = ground arith in inl (rw other at h)
]

module _ (s : System) (inv : Invariant s) where
  -- What is known of a thread whose position is known.
  IsBelow-at : (i : ℕ) (p : Pc) → s.pc i ≡ p → IsBelow s.global_epoch p
  IsBelow-at i p e = subst (IsBelow s.global_epoch) e (inv.below i)

  listed_at : (i : ℕ) (p : Pc) → s.pc i ≡ p → is_idle p ≡ false → is_in i s.registry ≡ true
  listed_at i p e busy = inv.listed i (rw e busy)

  -- The entry moves from one known place to another.
  put_at :
      (x : ℕ) (old new : Place)
      → s.place x ≡ old
      → ((i : ℕ)
          → 1 ≤ record_of (s.pc i)
          → record_of (s.pc i) ≤ s.global_epoch
          → Guards s.pc i (record_of (s.pc i)) old
          → Guards s.pc i (record_of (s.pc i)) new)
      → Invariant (put s x new)
  put_at x old new e moves =
      put-Invariant s x new inv (λ i h one low guards.
        moves i one low (subst (Guards s.pc i (record_of (s.pc i))) e guards))

  noted_later : (i e r : ℕ) → Guards s.pc i e (noted r) → Guards s.pc i e (retired r)
  noted_later i e r (of_noted h) = of_retired h

  taken_later :
      (i j e r e' : ℕ)
      → s.pc j ≡ active e'
      → Guards s.pc i e (retired r)
      → Guards s.pc i e (taken j r)
  taken_later i j e r e' at (of_retired h) = of_taken h (rw at (omega arith))

  kept_later : (i j e r : ℕ) → Guards s.pc i e (taken j r) → Guards s.pc i e (retired r)
  kept_later i j e r (of_taken h w) = of_retired h

  never_freed :
      (i j e r e' m : ℕ) (p : Place)
      → s.pc j ≡ freeing e' m
      → ltb r m ≡ true
      → Guards s.pc i e (taken j r)
      → Guards s.pc i e p
  never_freed i j e r e' m p at old (of_taken h w) =
      let low : m ≤ e = rw at at w in absurd (ground arith)

  unused_later : (i e : ℕ) (p : Place) → Guards s.pc i e unused → Guards s.pc i e p
  unused_later i e p h = elim h [ ]

  self : (i : ℕ) → (i == i) ≡ true
  self i = ground arith

  -- A thread drops what it has found.
  cleared : (i : ℕ) → Invariant (record s { holds = update s.holds i (λ x. false) })
  cleared i = record {
    positive = inv.positive;
    below = inv.below;
    listed = inv.listed;
    guarded = λ j y h. elim (ℕ_discrete i j) [
      | no nq ↦ let other : (i == j) ≡ false = ground arith in inv.guarded j y (rw other at h)
      | yes q ↦ let same : (i == j) ≡ true = ground arith in absurd (let h' = rw same at h in cc)
    ];
  }

  step-Invariant : (s' : System) → Step s s' → s.global_epoch < max_epoch → Invariant s'
  step-Invariant s' (registers i) small = record {
    positive = inv.positive;
    below = inv.below;
    listed = λ j h. let l = inv.listed j h in rw l (ground arith);
    guarded = inv.guarded;
  }
  step-Invariant s' (loads i at known) small =
      move-Invariant s i (loaded s.global_epoch) inv (inv.positive, omega arith) (λ h. known)
        (λ x h one. absurd (let one' = rw at at one in omega arith))
        (λ j one low listed w. omega arith)
  step-Invariant s' (stores i e at) small =
      move-Invariant s i (active e) inv (IsBelow-at i (loaded e) at)
        (λ h. listed_at i (loaded e) at refl)
        (λ x h one. absurd (let one' = rw at at one in omega arith))
        (λ j one low listed w. omega arith)
  step-Invariant s' (finds i e x at here) small = record {
    positive = inv.positive;
    below = inv.below;
    listed = inv.listed;
    guarded = λ j y h. elim (ℕ_discrete i j) [
      | no nq ↦ let other : (i == j) ≡ false = ground arith in inv.guarded j y (rw other at h)
      | yes q ↦
          let same : (i == j) ≡ true = ground arith in
          elim (ℕ_discrete x y) [
            | no nr ↦
                let other : (x == y) ≡ false = ground arith in
                inv.guarded j y (subst (λ (j : ℕ). s.holds j y ≡ true) q (rw (same, other) at h))
            | yes r ↦
                let there : s.place y ≡ linked = ap s.place (sym r) ∙ here in
                let (one, low) = IsBelow-at i (active e) at in
                (rw (ap (λ (k : ℕ). record_of (s.pc k)) (sym q), at) one, rw there of_linked)
          ]
    ];
  }
  step-Invariant s' (erases x at) small = put_at x linked erased at (λ i one low guards. of_erased)
  step-Invariant s' (notes x at) small =
      put_at x erased (noted s.global_epoch) at (λ i one low guards. of_noted low)
  step-Invariant s' (retires x r at) small =
      put_at x (noted r) (retired r) at
        (λ i one low guards. noted_later i (record_of (s.pc i)) r guards)
  step-Invariant s' (takes i e x r at here) small =
      put_at x (retired r) (taken i r) here
        (λ j one low guards. taken_later j i (record_of (s.pc j)) r e at guards)
  step-Invariant s' (starts i e at) small =
      move-Invariant s i (scanning e s.registry max_epoch) inv (IsBelow-at i (active e) at)
        (λ h. listed_at i (active e) at refl) (λ x h one. rw at refl)
        (λ j one low listed w. inl listed)
  step-Invariant s' (scans i e j m records at) small =
      let m' = scan_one m (record_of (s.pc j)) in
      move-Invariant s i (scanning e records m') inv (IsBelow-at i (scanning e (j ∷ records) m) at)
        (λ h. listed_at i (scanning e (j ∷ records) m) at refl) (λ x h one. rw at refl)
        (λ i' one low listed w.
          scan_round i' j m (record_of (s.pc i')) (record_of (s.pc j)) records one
            (λ q. ap (λ (k : ℕ). record_of (s.pc k)) (sym q)) (rw at at w))
  step-Invariant s' (decides i e m at) small =
      let m' = scan_result s.global_epoch m in
      move-Invariant s i (freeing e m') inv (IsBelow-at i (scanning e [] m) at)
        (λ h. listed_at i (scanning e [] m) at refl) (λ x h one. rw at refl)
        (λ j one low listed w.
          scan_result-le s.global_epoch m (record_of (s.pc j)) small low
            (elim (rw at at w) [ inl h ↦ absurd cc | inr h ↦ h ]))
  step-Invariant s' (frees i e m x r at here old) small =
      put_at x (taken i r) unused here
        (λ j one low guards. never_freed j i (record_of (s.pc j)) r e m unused at old guards)
  step-Invariant s' (keeps i e m x r at here young) small =
      put_at x (taken i r) (retired r) here
        (λ j one low guards. kept_later j i (record_of (s.pc j)) r guards)
  step-Invariant s' advances small = record {
    positive = let p = inv.positive in omega arith;
    below = λ i. IsBelow-suc s.global_epoch (s.pc i) (inv.below i);
    listed = inv.listed;
    guarded = inv.guarded;
  }
  step-Invariant s' (resumes i e m at) small =
      move-Invariant s i (active e) inv (IsBelow-at i (freeing e m) at)
        (λ h. listed_at i (freeing e m) at refl) (λ x h one. rw at refl)
        (λ j one low listed w. omega arith)
  step-Invariant s' (inserts x at) small = put_at x unused linked at (λ i one low guards. of_linked)
  step-Invariant s' (leaves i e at) small =
      move-Invariant (record s { holds = update s.holds i (λ x. false) }) i idle (cleared i)
        inv.positive (λ h. absurd cc) (λ x h one. absurd (let h' = rw (self i) at h in cc))
        (λ j one low listed w. omega arith)

step-le : (s s' : System) → Step s s' → s.global_epoch ≤ s'.global_epoch
step-le s s' (registers i) = omega arith
step-le s s' (loads i at known) = omega arith
step-le s s' (stores i e at) = omega arith
step-le s s' (finds i e x at here) = omega arith
step-le s s' (erases x at) = omega arith
step-le s s' (notes x at) = omega arith
step-le s s' (retires x r at) = omega arith
step-le s s' (takes i e x r at here) = omega arith
step-le s s' (starts i e at) = omega arith
step-le s s' (scans i e j m records at) = omega arith
step-le s s' (decides i e m at) = omega arith
step-le s s' (frees i e m x r at here old) = omega arith
step-le s s' (keeps i e m x r at here young) = omega arith
step-le s s' advances = omega arith
step-le s s' (resumes i e m at) = omega arith
step-le s s' (inserts x at) = omega arith
step-le s s' (leaves i e at) = omega arith

Reach-Invariant : (s : System) → Reach s → s.global_epoch < max_epoch → Invariant s
Reach-Invariant s begin small = record {
  positive = omega arith;
  below = λ i. omega arith;
  listed = λ i h. absurd cc;
  guarded = λ i x h. absurd cc;
}
Reach-Invariant s (step {s = before} reach next) small =
    let low = step-le before s next in
    step-Invariant before (Reach-Invariant before reach (omega arith)) s next (omega arith)

held : (pc : ℕ → Pc) (i e : ℕ) (p : Place) → Guards pc i e p → p ≢ unused
held pc i e p of_linked q = cc
held pc i e p of_erased q = cc
held pc i e p (of_noted h) q = cc
held pc i e p (of_retired h) q = cc
held pc i e p (of_taken h w) q = cc

-- In every reachable state before the epochs run out: an entry that an operation has found in the skip
-- list, and whose guard has not ended, is not freed, however the threads' accesses interleave.
pub Reach-place :
    (s : System) (i x : ℕ)
    → Reach s
    → s.global_epoch < max_epoch
    → s.holds i x ≡ true
    → s.place x ≢ unused
Reach-place s i x reach small h =
    let (one, guards) = (Reach-Invariant s reach small).guarded i x h in
    held s.pc i (record_of (s.pc i)) (s.place x) guards
