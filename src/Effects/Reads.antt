-- ===== src/Effects/Reads.antt =====
-- Actions that read: what is done with the value uses where it comes from.
use xlistman.Prelude.{◌≡◌, refl, sym, subst, Bool, true, false, List, [], ◌∷◌, ◌∙◌, arith}
use xlistman.Strings.{Text}
use xlistman.Result.{Result, ok, err, Error, fault}
use xlistman.Effects.Tables.{Db}
use xlistman.Effects.{World, M, continue, ◌>>=◌, wrap, wrapped_result, attempt, statement}
use xlistman.Effects.Keeps.{Relation, IsPreorder, Keeps}

-- The action changes nothing, and what it returns is `g` of the database.
pub record Reads {A : Type 0} (g : Db → Result A) (m : M A) : Type 0 where
  pub same : (w : World) → (m w).1.db ≡ w.db
  pub value : (w : World) (a : A) → (m w).0 ≡ ok a → g w.db ≡ ok a

module _ {A : Type 0} (g : Db → Result A) where
  same_at :
      (faults : List Bool) (w : World)
      → w.faults ≡ faults
      → (statement (λ d. (g d, d)) w).1.db ≡ w.db
  unfolding statement
  same_at [] w e = rw (e, statement) refl
  same_at (true ∷ rest) w e = rw (e, statement) refl
  same_at (false ∷ rest) w e = rw (e, statement) refl

  abbrev answer : List Bool → Db → Result A
  answer [] d = g d
  answer (true ∷ rest) d = err fault
  answer (false ∷ rest) d = g d

  answered :
      (faults : List Bool) (w : World)
      → w.faults ≡ faults
      → (statement (λ d. (g d, d)) w).0 ≡ answer faults w.db
  unfolding statement
  answered [] w e = rw (e, statement) refl
  answered (true ∷ rest) w e = rw (e, statement) refl
  answered (false ∷ rest) w e = rw (e, statement) refl

  value_at : (faults : List Bool) (d : Db) (a : A) → answer faults d ≡ ok a → g d ≡ ok a
  value_at [] d a h = h
  value_at (true ∷ rest) d a h = ground (arith, h)
  value_at (false ∷ rest) d a h = h

  pub Reads-statement : Reads g (statement (λ d. (g d, d)))
  Reads-statement = record {
    same = λ w. same_at w.faults w refl;
    value = λ w a h. value_at w.faults w.db a (sym (answered w.faults w refl) ∙ h);
  }

  unwrapped : (note : Text) (r : Result A) (a : A) → wrapped_result note r ≡ ok a → r ≡ ok a
  unwrapped note (ok b) a h = h
  unwrapped note (err e) a h = ground (arith, h)

  pub Reads-wrap : (note : Text) (m : M A) → Reads g m → Reads g (wrap note m)
  unfolding wrap
  Reads-wrap note m r = record {
    same = λ w. r.same w;
    value = λ w a h. r.value w a (unwrapped note (m w).0 a h);
  }

module _ {A B : Type 0} (R : Relation) (o : IsPreorder R) (g : Db → Result A) where
  continue_keeps :
      (r : Result A) (f : A → M B) (w : World) (d : Db)
      → w.db ≡ d
      → ((a : A) → r ≡ ok a → g d ≡ ok a)
      → ((w : World) (a : A) → g w.db ≡ ok a → R w.db (f a w).1.db)
      → R d (continue r f w).1.db
  continue_keeps (ok a) f w d p v k =
      subst (λ x. R x (f a w).1.db) p (k w a (subst (λ x. g x ≡ ok a) (sym p) (v a refl)))
  continue_keeps (err e) f w d p v k = subst (λ x. R x w.db) p (o.stay w.db)

  attempted_keeps :
      (r : Result A) (f : Result A → M B) (w : World) (d : Db)
      → w.db ≡ d
      → ((a : A) → r ≡ ok a → g d ≡ ok a)
      → ((w : World) (a : A) → g w.db ≡ ok a → R w.db (f (ok a) w).1.db)
      → ((e : Error) → Keeps R (f (err e)))
      → R d (f r w).1.db
  attempted_keeps (ok a) f w d p v k n =
      subst (λ x. R x (f (ok a) w).1.db) p (k w a (subst (λ x. g x ≡ ok a) (sym p) (v a refl)))
  attempted_keeps (err e) f w d p v k n = subst (λ x. R x (f (err e) w).1.db) p ((n e).at w)

module _ {A B : Type 0} {R : Relation} ⦃o : IsPreorder R⦄ (g : Db → Result A) where
  pub Keeps-Reads :
      (m : M A) (f : A → M B)
      → Reads g m
      → ((w : World) (a : A) → g w.db ≡ ok a → R w.db (f a w).1.db)
      → Keeps R (m >>= f)
  unfolding ◌>>=◌
  Keeps-Reads m f r k = record {
    at = λ w. continue_keeps R o g (m w).0 f (m w).1 w.db (r.same w) (r.value w) k;
  }

  pub Keeps-attempt-Reads :
      (m : M A) (f : Result A → M B)
      → Reads g m
      → ((w : World) (a : A) → g w.db ≡ ok a → R w.db (f (ok a) w).1.db)
      → ((e : Error) → Keeps R (f (err e)))
      → Keeps R (attempt m >>= f)
  unfolding ◌>>=◌ attempt
  Keeps-attempt-Reads m f r k n = record {
    at = λ w. attempted_keeps R o g (m w).0 f (m w).1 w.db (r.same w) (r.value w) k n;
  }
