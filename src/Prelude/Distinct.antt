-- ===== src/Prelude/Distinct.antt =====
-- Lists in which no element is the same as a later one.
use mathlib.Core.Path.{◌≡◌, refl}
use mathlib.Core.Logic.{inl, inr}
use mathlib.Core.Bool.{Bool, false}
use mathlib.Core.List.{List, [], ◌∷◌}
use native.Mathlib.Omega.{arith}
use xlistman.Prelude.Tests.{Bool-cases}
use xlistman.Prelude.Lists.{any, keep}

module _ {ℓ} {A : Type ℓ} where
  pub any-keep : (q p : A → Bool) (xs : List A) → any q xs ≡ false → any q (keep p xs) ≡ false
  unfolding any keep
  any-keep q p [] h = refl
  any-keep q p (x ∷ xs) h = ground (arith, any-keep q p xs)

  abbrev pub DistinctBy : (A → A → Bool) → List A → Type ℓ
  DistinctBy same [] = Unit
  DistinctBy same (x ∷ xs) = (any (same x) xs ≡ false) × DistinctBy same xs

  pub DistinctBy-keep :
      (same : A → A → Bool) (p : A → Bool) (xs : List A)
      → DistinctBy same xs
      → DistinctBy same (keep p xs)
  unfolding keep
  DistinctBy-keep same p [] h = tt
  DistinctBy-keep same p (x ∷ xs) (h, k) = elim (Bool-cases (p x)) [
    | inl e ↦ rw e (any-keep _ p xs h, DistinctBy-keep same p xs k)
    | inr e ↦ rw e (DistinctBy-keep same p xs k)
  ]
