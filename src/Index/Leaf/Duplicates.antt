-- ===== src/Index/Leaf/Duplicates.antt =====
-- Which of the candidates with the key are read, updated and deleted.
use faunus.Index.Internal.{Key}
use faunus.Index.Leaf.{Value, Scan, scan_candidates}
use faunus.Prelude.{
  ℕ, ◌≡◌, refl, Bool, true, false, none, some, List, [], ◌∷◌, ◌==◌, if◌then◌else◌, Bool-cases, inl,
  inr,
}

-- The candidates with the key, in order: their slots and values.
unfoldable pub matching : Key → List (ℕ × Key × Value) → List (ℕ × Value)
matching key [] = []
matching key ((index, k, v) ∷ candidates) =
    if k == key then (index, v) ∷ matching key candidates else matching key candidates

pub slots : List (ℕ × Value) → List ℕ
slots [] = []
slots ((index, v) ∷ ms) = index ∷ slots ms

-- What is to happen: the first is read, or updated, and unless it is updated the others go.
unfoldable pub intended : Bool → Value → List (ℕ × Value) → Scan
intended from_update value [] = record {
  found = false;
  value_out = value;
  deleted = [];
  updating = none;
}
intended from_update value ((index, v) ∷ ms) = record {
  found = true;
  value_out = v;
  deleted = if from_update then [] else slots ms;
  updating = if from_update then some index else none;
}

after_first :
    (key : Key) (from_update : Bool) (candidates : List (ℕ × Key × Value)) (value : Value)
    → scan_candidates key from_update candidates true value ≡ record {
      found = true;
      value_out = value;
      deleted = slots (matching key candidates);
      updating = none;
    }
unfolding scan_candidates matching slots
after_first key from_update [] value = refl
after_first key from_update ((index, k, v) ∷ candidates) value = elim (Bool-cases (k == key)) [
  | inl e ↦ rw (e, after_first key from_update candidates value)
  | inr e ↦ rw (e, after_first key from_update candidates value)
]

-- A scan that has not found the key yet reads the first candidate with it and hands exactly the
-- later ones to deletion; for an update it hands over the first and deletes none.
pub scan-intended :
    (key : Key) (from_update : Bool) (candidates : List (ℕ × Key × Value)) (value : Value)
    → scan_candidates key from_update candidates false value
      ≡ intended from_update value (matching key candidates)
unfolding scan_candidates matching slots intended
scan-intended key from_update [] value = refl
scan-intended key from_update ((index, k, v) ∷ candidates) value = elim (Bool-cases (k == key)) [
  | inl e ↦ elim (Bool-cases from_update) [
    | inl u ↦ rw (e, u)
    | inr u ↦ rw (e, u, after_first key from_update candidates v)
  ]
  | inr e ↦ rw (e, scan-intended key from_update candidates value)
]
