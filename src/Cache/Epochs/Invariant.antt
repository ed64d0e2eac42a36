-- ===== src/Cache/Epochs/Invariant.antt =====
-- What holds in every reachable state: an entry that an operation has found is not freed before the
-- operation's guard ends.
use faunus.Cache.Epochs.{
  Pc, idle, loaded, active, scanning, freeing, record_of, Place, linked, erased, noted, retired,
  taken, update, is_in, System, move, put,
}
use faunus.Prelude.{
  ℕ, ◌≤◌, ◌≡◌, refl, sym, ◌∙◌, ap, Bool, true, false, ◌==◌, ◌⊎◌, ℕ_discrete, arith,
}
use mathlib.Core.Path.{subst}

-- What a thread that scans or frees knows of the record of thread `i`, which holds `e`.
abbrev pub Watches : Pc → ℕ → ℕ → Type 0
Watches idle i e = 0 ≤ e
Watches (loaded e') i e = 0 ≤ e
Watches (active e') i e = 0 ≤ e
Watches (scanning e' records min_epoch) i e = (is_in i records ≡ true) ⊎ (min_epoch ≤ e)
Watches (freeing e' min_epoch) i e = min_epoch ≤ e

-- What holds of the place of an entry that thread `i` has found under the epoch `e`.
pub data Guards (pc : ℕ → Pc) (i e : ℕ) : Place → Type 0 where
  of_linked : Guards pc i e linked
  of_erased : Guards pc i e erased
  of_noted : {r : ℕ} → e ≤ r → Guards pc i e (noted r)
  of_retired : {r : ℕ} → e ≤ r → Guards pc i e (retired r)
  of_taken : {j r : ℕ} → e ≤ r → Watches (pc j) i e → Guards pc i e (taken j r)

-- The epoch of a guard is one that the cache has had.
abbrev pub IsBelow : ℕ → Pc → Type 0
IsBelow global idle = 1 ≤ global
IsBelow global (loaded e) = (1 ≤ e) × (e ≤ global)
IsBelow global (active e) = (1 ≤ e) × (e ≤ global)
IsBelow global (scanning e records min_epoch) = (1 ≤ e) × (e ≤ global)
IsBelow global (freeing e min_epoch) = (1 ≤ e) × (e ≤ global)

abbrev pub is_idle : Pc → Bool
is_idle idle = true
is_idle (loaded e) = false
is_idle (active e) = false
is_idle (scanning e records min_epoch) = false
is_idle (freeing e min_epoch) = false

pub record Invariant (s : System) : Type 0 where
  pub positive : 1 ≤ s.global_epoch
  pub below : (i : ℕ) → IsBelow s.global_epoch (s.pc i)
  pub listed : (i : ℕ) → is_idle (s.pc i) ≡ false → is_in i s.registry ≡ true
  pub guarded :
      (i x : ℕ)
      → s.holds i x ≡ true
      → (1 ≤ record_of (s.pc i)) × Guards s.pc i (record_of (s.pc i)) (s.place x)

record_of-le : (global : ℕ) (pc : Pc) → IsBelow global pc → record_of pc ≤ global
record_of-le global idle h = omega arith
record_of-le global (loaded e) h = omega arith
record_of-le global (active e) (one, h) = h
record_of-le global (scanning e records min_epoch) (one, h) = h
record_of-le global (freeing e min_epoch) (one, h) = h

not_idle : (pc : Pc) → 1 ≤ record_of pc → is_idle pc ≡ false
not_idle idle h = absurd (omega arith)
not_idle (loaded e) h = refl
not_idle (active e) h = refl
not_idle (scanning e records min_epoch) h = refl
not_idle (freeing e min_epoch) h = refl

-- An entry moves: what held of its old place must hold of the new one.
pub put-Invariant :
    (s : System) (x : ℕ) (p : Place)
    → Invariant s
    → ((i : ℕ)
        → s.holds i x ≡ true
        → 1 ≤ record_of (s.pc i)
        → record_of (s.pc i) ≤ s.global_epoch
        → Guards s.pc i (record_of (s.pc i)) (s.place x)
        → Guards s.pc i (record_of (s.pc i)) p)
    → Invariant (put s x p)
put-Invariant s x p inv moves = record {
  positive = inv.positive;
  below = inv.below;
  listed = inv.listed;
  guarded = λ i y h.
      let (one, guards) = inv.guarded i y h in
      (
        one,
        elim (ℕ_discrete x y) [
          | yes e ↦
              let same : (x == y) ≡ true = ground arith in
              let there : y ≡ x = sym e in
              rw same (
                moves i (subst (λ (y : ℕ). s.holds i y ≡ true) there h) one
                  (record_of-le s.global_epoch (s.pc i) (inv.below i))
                  (subst (λ (y : ℕ). Guards s.pc i (record_of (s.pc i)) (s.place y)) there guards))
          | no ne ↦ let other : (x == y) ≡ false = ground arith in rw other guards
        ],
      );
}

update_same : {A : Type 0} (f : ℕ → A) (i : ℕ) (a : A) → update f i a i ≡ a
update_same f i a = let same : (i == i) ≡ true = ground arith in rw same refl

Guards-update :
    (pc : ℕ → Pc) (i0 i e : ℕ) (p : Pc) (place : Place)
    → (Watches (pc i0) i e → Watches p i e)
    → Guards pc i e place
    → Guards (update pc i0 p) i e place
Guards-update pc i0 i e p place keep of_linked = of_linked
Guards-update pc i0 i e p place keep of_erased = of_erased
Guards-update pc i0 i e p place keep (of_noted h) = of_noted h
Guards-update pc i0 i e p place keep (of_retired h) = of_retired h
Guards-update pc i0 i e p place keep (of_taken {j = j} h w) = of_taken h (elim (ℕ_discrete i0 j) [
  | yes q ↦
      let same : (i0 == j) ≡ true = ground arith in
      rw same (keep (subst (λ (j : ℕ). Watches (pc j) i e) (sym q) w))
  | no nq ↦ let other : (i0 == j) ≡ false = ground arith in rw other w
])

-- A thread moves on: its record is as it was if it has found an entry, and it knows of the other
-- records what it must.
pub move-Invariant :
    (s : System) (i0 : ℕ) (p : Pc)
    → Invariant s
    → IsBelow s.global_epoch p
    → (is_idle p ≡ false → is_in i0 s.registry ≡ true)
    → ((x : ℕ) → s.holds i0 x ≡ true → 1 ≤ record_of (s.pc i0) → record_of p ≡ record_of (s.pc i0))
    → ((i : ℕ)
        → 1 ≤ record_of (s.pc i)
        → record_of (s.pc i) ≤ s.global_epoch
        → is_in i s.registry ≡ true
        → Watches (s.pc i0) i (record_of (s.pc i))
        → Watches p i (record_of (s.pc i)))
    → Invariant (move s i0 p)
move-Invariant s i0 p inv low known same_record watch = record {
  positive = inv.positive;
  below = λ i. elim (ℕ_discrete i0 i) [
    | yes q ↦ let same : (i0 == i) ≡ true = ground arith in rw same low
    | no nq ↦ let other : (i0 == i) ≡ false = ground arith in rw other (inv.below i)
  ];
  listed = λ i h. elim (ℕ_discrete i0 i) [
    | yes q ↦
        let same : (i0 == i) ≡ true = ground arith in
        subst (λ (i : ℕ). is_in i s.registry ≡ true) q (known (rw same at h))
    | no nq ↦ let other : (i0 == i) ≡ false = ground arith in inv.listed i (rw other at h)
  ];
  guarded = λ i x h.
      let (one, guards) = inv.guarded i x h in
      let new =
        Guards-update s.pc i0 i (record_of (s.pc i)) p (s.place x)
          (watch i one (record_of-le s.global_epoch (s.pc i) (inv.below i))
            (inv.listed i (not_idle (s.pc i) one)))
          guards in
      let kept : record_of (update s.pc i0 p i) ≡ record_of (s.pc i) = elim (ℕ_discrete i0 i) [
        | yes q ↦
            let same : (i0 == i) ≡ true = ground arith in
            rw same (
              same_record x (subst (λ (i : ℕ). s.holds i x ≡ true) (sym q) h)
                (subst (λ (i : ℕ). 1 ≤ record_of (s.pc i)) (sym q) one)
              ∙ ap (λ (i : ℕ). record_of (s.pc i)) q)
        | no nq ↦ let other : (i0 == i) ≡ false = ground arith in rw other refl
      ] in
      rw kept (one, new);
}
