-- ===== src/Effects/Yields.antt =====
-- Actions that end without an error, whatever the world, and what holds of what they return.
use xlistman.Prelude.{◌≡◌, refl, sym, ◌∙◌, subst, Bool, true, false, if◌then◌else◌, arith}
use xlistman.Result.{Result, ok, err}
use xlistman.Effects.{World, M, ◌>>=◌, pure, attempt, continue}

abbrev pub Answered : {A : Type 0} → (A → Type 0) → Result A → Type 0
Answered {A} P r = (a : A) × (r ≡ ok a) × P a

pub record Yields {A : Type 0} (P : A → Type 0) (m : M A) : Type 0 where
  pub at : (w : World) → Answered P (m w).0

module _ {A : Type 0} (P : A → Type 0) where
  pub Yields-pure : (a : A) → P a → Yields P (pure a)
  unfolding pure
  Yields-pure a h = record { at = λ w. (a, refl, h) }

  pub Yields-if : (b : Bool) (m n : M A) → Yields P m → Yields P n → Yields P (if b then m else n)
  Yields-if true m n hm hn = hm
  Yields-if false m n hm hn = hn

  ok_injective : (a b : A) → ok a ≡ ok b → a ≡ b
  ok_injective a b e = ground (arith, e)

  -- What is returned is what the action yields.
  pub Yields-returned : (m : M A) (w : World) (a : A) → Yields P m → (m w).0 ≡ ok a → P a
  Yields-returned m w a y e = let (b, f, h) = y.at w in subst P (ok_injective b a (sym f ∙ e)) h

module _ {A : Type 0} where
  pub Yields-attempt : (m : M A) → Yields (λ _. Unit) (attempt m)
  unfolding attempt
  Yields-attempt m = record { at = λ w. ((m w).0, refl, tt) }

module _ {A B : Type 0} (P : A → Type 0) (Q : B → Type 0) where
  Answered-continue :
      (r : Result A) (f : A → M B) (w : World)
      → Answered P r
      → ((a : A) → P a → Yields Q (f a))
      → Answered Q (continue r f w).0
  Answered-continue (ok a) f w (b, e, h) k = (k a (subst P (ok_injective P b a (sym e)) h)).at w
  Answered-continue (err x) f w (b, e, h) k = ground (arith, e)

  pub Yields-bind :
      (m : M A) (f : A → M B) → Yields P m → ((a : A) → P a → Yields Q (f a)) → Yields Q (m >>= f)
  unfolding ◌>>=◌
  Yields-bind m f y k = record {
    at = λ w. let (r, w') = m w in Answered-continue r f w' (y.at w) k;
  }
