-- ===== src/Util/LocalLock/Invariant.antt =====
-- Who holds which ticket, and how each step changes that.
use faunus.Prelude.{
  ℕ, ◌+◌, ◌^◌, ◌≤◌, ◌<◌, ◌≡◌, ◌≢◌, refl, sym, ap, ◌∙◌, true, false, Option, none, some, length-set,
  ==_iff, ℕ_discrete, ◌⊎◌, inl, inr, arith,
}
use faunus.Util.LocalLock.Handover.{IsNode, serving-eq, next-eq, release-IsNode}
use faunus.Util.LocalLock.Threads.{Pc, idle, spin, inside, ticket_of, update, System}
use faunus.Util.LocalLock.{take_ticket, is_served, enter, release, current_serving, next_ticket}

-- The tickets from `served` on and below `next` are out, one thread for each, and only the thread
-- with the one served can be inside.
pub record Inv (s : System) (served next : ℕ) : Type 0 where
  pub node : IsNode s.node served next
  pub counted : s.taken ≡ next
  pub range : (i t : ℕ) → ticket_of (s.pc i) ≡ some t → (served ≤ t) × (t < next)
  pub entered : (i t : ℕ) → s.pc i ≡ inside t → t ≡ served
  pub unique : (i j t : ℕ) → ticket_of (s.pc i) ≡ some t → ticket_of (s.pc j) ≡ some t → i ≡ j
  pub covered : (t : ℕ) → served ≤ t → t < next → (i : ℕ) × (ticket_of (s.pc i) ≡ some t)

update_self : (pc : ℕ → Pc) (i j : ℕ) (p : Pc) → i ≡ j → update pc i p j ≡ p
update_self pc i j p e = ground arith

update_other : (pc : ℕ → Pc) (i j : ℕ) (p : Pc) → i ≢ j → update pc i p j ≡ pc j
update_other pc i j p ne = ground arith

pub some-injective : {a b : ℕ} → ◌≡◌ {A = Option ℕ} (some a) (some b) → a ≡ b
some-injective e = cc

-- Whose ticket it is after a thread has moved.
lookup :
    (pc : ℕ → Pc) (i j t : ℕ) (p : Pc)
    → ticket_of (update pc i p j) ≡ some t
    → ((i ≡ j) × (ticket_of p ≡ some t)) ⊎ ((i ≢ j) × (ticket_of (pc j) ≡ some t))
lookup pc i j t p h = elim (ℕ_discrete i j) [
  | yes e ↦ inl (e, rw (update_self pc i j p e) at h)
  | no ne ↦ inr (ne, rw (update_other pc i j p ne) at h)
]

lookup-inside :
    (pc : ℕ → Pc) (i j t : ℕ) (p : Pc)
    → update pc i p j ≡ inside t
    → ((i ≡ j) × (p ≡ inside t)) ⊎ ((i ≢ j) × (pc j ≡ inside t))
lookup-inside pc i j t p h = elim (ℕ_discrete i j) [
  | yes e ↦ inl (e, rw (update_self pc i j p e) at h)
  | no ne ↦ inr (ne, rw (update_other pc i j p ne) at h)
]

inside-injective : {a b : ℕ} → inside a ≡ inside b → a ≡ b
inside-injective e = cc

pub take-Inv :
    (s : System) (i served next : ℕ)
    → Inv s served next
    → s.pc i ≡ idle
    → next + 1 < 2 ^ 32
    → Inv
        (record {
          node = (take_ticket s.node).1;
          pc = update s.pc i (spin (take_ticket s.node).0);
          taken = s.taken + 1;
        })
        served
        (next + 1)
unfolding take_ticket
take-Inv s i served next v free small =
    let n = v.node in
    let mine = next-eq s.node served next n in
    let word = n.word in
    let order = n.order in
    let moved = spin (next_ticket s.node) in
    record {
      node = record {
        word = omega arith;
        order = omega arith;
        small = small;
        count = n.count;
        flags = n.flags;
      };
      counted = ap (λ x. x + 1) v.counted;
      range = λ j t h. elim (lookup s.pc i j t moved h) [
        | inl (e, own) ↦ let e' = some-injective own in (omega arith, omega arith)
        | inr (ne, old) ↦ let (low, high) = v.range j t old in (low, omega arith)
      ];
      entered = λ j t h. elim (lookup-inside s.pc i j t moved h) [
        | inl (e, own) ↦ absurd cc
        | inr (ne, old) ↦ v.entered j t old
      ];
      unique = λ j k t h h'. elim (lookup s.pc i j t moved h) [
        | inl (e, own) ↦ elim (lookup s.pc i k t moved h') [
          | inl (e', own') ↦ sym e ∙ e'
          | inr (ne, old) ↦
              let x = some-injective own in absurd (omega (arith, (v.range k t old).1))
        ]
        | inr (ne, old) ↦ elim (lookup s.pc i k t moved h') [
          | inl (e, own) ↦ let x = some-injective own in absurd (omega (arith, (v.range j t old).1))
          | inr (ne', old') ↦ v.unique j k t old old'
        ]
      ];
      covered = λ t low high. elim (ℕ_discrete t next) [
        | yes e ↦ (i, rw (update_self s.pc i i moved refl) (ap some (mine ∙ sym e)))
        | no ne ↦
            let (j, h) = v.covered t low (omega arith) in
            let other : i ≢ j =
              λ e. clash (sym (ap ticket_of free) ∙ ap (λ x. ticket_of (s.pc x)) e ∙ h) in
            (j, rw (update_other s.pc i j moved other) h)
      ];
    }
  where
    clash : {t : ℕ} → ◌≡◌ {A = Option ℕ} none (some t) → {A : Type 0} → A
    clash e = absurd cc

pub enter-Inv :
    (s : System) (i t served next : ℕ)
    → Inv s served next
    → s.pc i ≡ spin t
    → is_served s.node t ≡ true
    → Inv
        (record { node = (enter s.node t).1; pc = update s.pc i (inside t); taken = s.taken })
        served
        next
unfolding enter is_served
enter-Inv s i t served next v at_i turn =
    let n = v.node in
    let mine : t ≡ served =
      (==_iff t (current_serving s.node)).0 turn ∙ serving-eq s.node served next n in
    let same : (j : ℕ) → ticket_of (update s.pc i (inside t) j) ≡ ticket_of (s.pc j) = λ j.
      elim (ℕ_discrete i j) [
        | yes e ↦
            ap ticket_of (update_self s.pc i j (inside t) e)
            ∙ sym (ap ticket_of at_i)
            ∙ ap (λ x. ticket_of (s.pc x)) e
        | no ne ↦ ap ticket_of (update_other s.pc i j (inside t) ne)
      ] in
    record {
      node = record {
        word = n.word;
        order = n.order;
        small = n.small;
        count = n.count;
        flags = length-set s.node.handover_flags _ false ∙ n.flags;
      };
      counted = v.counted;
      range = λ j x h. v.range j x (sym (same j) ∙ h);
      entered = λ j x h. elim (lookup-inside s.pc i j x (inside t) h) [
        | inl (e, own) ↦ sym (inside-injective own) ∙ mine
        | inr (ne, old) ↦ v.entered j x old
      ];
      unique = λ j k x h h'. v.unique j k x (sym (same j) ∙ h) (sym (same k) ∙ h');
      covered = λ x low high. let (j, h) = v.covered x low high in (j, same j ∙ h);
    }

pub leave-Inv :
    (s : System) (i t served next : ℕ)
    → Inv s served next
    → s.pc i ≡ inside t
    → Inv
        (record { node = (release s.node).1; pc = update s.pc i idle; taken = s.taken })
        (served + 1)
        next
leave-Inv s i t served next v at_i =
    let n = v.node in
    let mine = v.entered i t at_i in
    let own : ticket_of (s.pc i) ≡ some served = ap ticket_of at_i ∙ ap some mine in
    let later_one : (j x : ℕ) → i ≢ j → ticket_of (s.pc j) ≡ some x → x ≢ served =
      λ j x ne h e. ne (v.unique i j served own (h ∙ ap some e)) in
    record {
      node = release-IsNode s.node served next n (v.range i served own).1;
      counted = v.counted;
      range = λ j x h. elim (lookup s.pc i j x idle h) [
        | inl (e, none_own) ↦ absurd cc
        | inr (ne, old) ↦
            let (low, high) = v.range j x old in
            let not_served = later_one j x ne old in (omega arith, high)
      ];
      entered = λ j x h. elim (lookup-inside s.pc i j x idle h) [
        | inl (e, none_own) ↦ absurd cc
        | inr (ne, old) ↦ absurd (later_one j x ne (ap ticket_of old) (v.entered j x old))
      ];
      unique = λ j k x h h'. elim (lookup s.pc i j x idle h) [
        | inl (e, none_own) ↦ absurd cc
        | inr (ne, old) ↦ elim (lookup s.pc i k x idle h') [
          | inl (e, none_own) ↦ absurd cc
          | inr (ne', old') ↦ v.unique j k x old old'
        ]
      ];
      covered = λ x low high.
          let (j, h) = v.covered x (omega arith) high in
          let other : i ≢ j = λ e.
            let same = some-injective (sym own ∙ ap (λ y. ticket_of (s.pc y)) e ∙ h) in
            omega arith in
          (j, rw (update_other s.pc i j idle other) h);
    }
