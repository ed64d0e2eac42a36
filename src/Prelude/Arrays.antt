-- ===== src/Prelude/Arrays.antt =====
-- Arrays of a fixed length: reads with a value for what lies outside, writes, and arrays filled by
-- their index.
use Prim.Native.Nat.{ℕ, zero, suc, ◌+◌, ◌<◌}
use mathlib.Core.List.{List, [], ◌∷◌}
use mathlib.Core.Path.{◌≡◌, refl, ap}
use native.Mathlib.Omega.{arith}
use faunus.Prelude.Lists.{length, get_or, set}
use faunus.Prelude.Tests.{◌==◌, if◌then◌else◌}

module _ {ℓ} {A : Type ℓ} where
  pub get_or-set :
      (xs : List A) (i j : ℕ) (v d : A)
      → i < length xs
      → get_or (set xs i v) j d ≡ (if i == j then v else get_or xs j d)
  get_or-set [] i j v d h = absurd (omega arith)
  get_or-set (x ∷ xs) zero zero v d h = refl
  get_or-set (x ∷ xs) zero (suc j) v d h = ground arith
  get_or-set (x ∷ xs) (suc i) zero v d h = ground arith
  get_or-set (x ∷ xs) (suc i) (suc j) v d h = ground (arith, get_or-set xs i j v d)

  -- `f i, f (i + 1), …`, `n` of them.
  unfoldable pub fill : ℕ → ℕ → (ℕ → A) → List A
  fill zero i f = []
  fill (suc n) i f = f i ∷ fill n (i + 1) f

  pub length-fill : (n i : ℕ) (f : ℕ → A) → length (fill n i f) ≡ n
  unfolding fill
  length-fill zero i f = refl
  length-fill (suc n) i f = ap suc (length-fill n (i + 1) f)

  pub get_or-fill : (n i j : ℕ) (f : ℕ → A) (d : A) → j < n → get_or (fill n i f) j d ≡ f (i + j)
  unfolding fill
  get_or-fill zero i j f d h = absurd (omega arith)
  get_or-fill (suc n) i zero f d h = ap f (omega arith)
  get_or-fill (suc n) i (suc j) f d h =
      let e : i + 1 + j ≡ i + suc j = omega arith in
      rw (get_or-fill n (i + 1) j f d (omega arith), e)
