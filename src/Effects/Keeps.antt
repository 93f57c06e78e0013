-- ===== src/Effects/Keeps.antt =====
-- Relations between the database before and after an action, one rule for each way to build an action.
use xlistman.Prelude.{
  ◌≡◌, refl, Bool, true, false, List, [], ◌∷◌, if◌then◌else◌, Option, none, some,
}
use xlistman.Strings.{Text}
use xlistman.Result.{Result, ok, err, Error}
use xlistman.Effects.Tables.{Db}
use xlistman.Effects.{
  World, M, continue, ◌>>=◌, pure, raise, wrap, attempt, statement, now, generate_token, for_each,
}

abbrev pub Relation : Type 1
Relation = Db → Db → Type 0

pub record IsPreorder (R : Relation) : Type 0 where
  pub stay : (d : Db) → R d d
  pub step : (d e f : Db) → R d e → R e f → R d f

-- Whatever the action returns, and whatever statements are refused, `R` relates the databases.
pub record Keeps {A : Type 0} (R : Relation) (m : M A) : Type 0 where
  pub at : (w : World) → R w.db (m w).1.db

pub statement_keeps :
    {A : Type 0} (R : Relation) (o : IsPreorder R) (f : Db → Result A × Db) (faults : List Bool)
    (w : World)
    → w.faults ≡ faults
    → R w.db (f w.db).1
    → R w.db (statement f w).1.db
unfolding statement
statement_keeps R o f [] w e k = rw (e, statement) k
statement_keeps R o f (true ∷ rest) w e k = rw (e, statement) (o.stay w.db)
statement_keeps R o f (false ∷ rest) w e k = rw (e, statement) k

-- An action under a test may use what the test says.
pub test_keeps :
    {A : Type 0} (R : Relation) (b : Bool) (m n : M A) (w : World)
    → (b ≡ true → R w.db (m w).1.db)
    → (b ≡ false → R w.db (n w).1.db)
    → R w.db ((if b then m else n) w).1.db
test_keeps R true m n w h k = h refl
test_keeps R false m n w h k = k refl

reading_keeps :
    {A B : Type 0} (R : Relation) (o : IsPreorder R) (g : Db → A) (f : A → M B) (faults : List Bool)
    (w : World)
    → w.faults ≡ faults
    → ((w' : World) → R w'.db (f (g w'.db) w').1.db)
    → R w.db ((statement (λ d. (ok (g d), d)) >>= f) w).1.db
unfolding statement ◌>>=◌
reading_keeps R o g f [] w e k = rw (e, statement, ◌>>=◌) (k w)
reading_keeps R o g f (true ∷ rest) w e k = rw (e, statement, ◌>>=◌) (o.stay w.db)
reading_keeps R o g f (false ∷ rest) w e k =
    rw (e, statement, ◌>>=◌) (k (record w { faults = rest }))

module _ {A : Type 0} {R : Relation} ⦃o : IsPreorder R⦄ where
  pub Keeps-pure : (a : A) → Keeps R (pure a)
  unfolding pure
  Keeps-pure a = record { at = λ w. o.stay w.db }

  pub Keeps-raise : (e : Error) → Keeps R (raise {A = A} e)
  unfolding raise
  Keeps-raise e = record { at = λ w. o.stay w.db }

  pub Keeps-wrap : (note : Text) (m : M A) → Keeps R m → Keeps R (wrap note m)
  unfolding wrap
  Keeps-wrap note m k = record { at = λ w. k.at w }

  pub Keeps-attempt : (m : M A) → Keeps R m → Keeps R (attempt m)
  unfolding attempt
  Keeps-attempt m k = record { at = λ w. k.at w }

  pub Keeps-if : (b : Bool) (m n : M A) → Keeps R m → Keeps R n → Keeps R (if b then m else n)
  Keeps-if true m n km kn = km
  Keeps-if false m n km kn = kn

  pub Keeps-statement : (f : Db → Result A × Db) → ((d : Db) → R d (f d).1) → Keeps R (statement f)
  Keeps-statement f k = record { at = λ w. statement_keeps R o f w.faults w refl (k w.db) }

module _ {R : Relation} ⦃o : IsPreorder R⦄ where
  pub Keeps-now : Keeps R now
  unfolding now
  Keeps-now = record { at = λ w. o.stay w.db }

  pub Keeps-generate_token : Keeps R generate_token
  unfolding generate_token
  Keeps-generate_token = record { at = λ w. o.stay w.db }

module _ {A B : Type 0} {R : Relation} ⦃o : IsPreorder R⦄ where
  Keeps-continue :
      (r : Result A) (f : A → M B) (d : Db) (w : World)
      → R d w.db
      → ((a : A) → Keeps R (f a))
      → R d (continue r f w).1.db
  Keeps-continue (ok a) f d w h k = o.step d w.db _ h ((k a).at w)
  Keeps-continue (err e) f d w h k = h

  pub Keeps-bind :
      (m : M A) (f : A → M B) → Keeps R m → ((a : A) → Keeps R (f a)) → Keeps R (m >>= f)
  unfolding ◌>>=◌
  Keeps-bind m f km kf = record {
    at = λ w. let (r, w') = m w in Keeps-continue r f w.db w' (km.at w) kf;
  }

  -- What is done with the rows that a SELECT found, at the database in which it found them.
  pub Keeps-reading :
      (g : Db → A) (f : A → M B)
      → ((w : World) → R w.db (f (g w.db) w).1.db)
      → Keeps R (statement (λ d. (ok (g d), d)) >>= f)
  Keeps-reading g f k = record { at = λ w. reading_keeps R o g f w.faults w refl k }

  pub Keeps-option :
      (x : Option A) (f : A → M B) (n : M B)
      → ((a : A) → Keeps R (f a))
      → Keeps R n
      → Keeps R (elim x [ some a ↦ f a | none ↦ n ])
  Keeps-option (some a) f n kf kn = kf a
  Keeps-option none f n kf kn = kn

  pub Keeps-result :
      (x : Result A) (f : A → M B) (n : Error → M B)
      → ((a : A) → Keeps R (f a))
      → ((e : Error) → Keeps R (n e))
      → Keeps R (elim x [ ok a ↦ f a | err e ↦ n e ])
  Keeps-result (ok a) f n kf kn = kf a
  Keeps-result (err e) f n kf kn = kn e

module _ {A : Type 0} {R : Relation} ⦃o : IsPreorder R⦄ where
  pub Keeps-for_each :
      (xs : List A) (body : A → M Unit) → ((x : A) → Keeps R (body x)) → Keeps R (for_each xs body)
  unfolding for_each
  Keeps-for_each [] body k = Keeps-pure tt
  Keeps-for_each (x ∷ xs) body k = Keeps-bind (body x) _ (k x) (λ _. Keeps-for_each xs body k)

pub ruleset keeps_rules = (
  Keeps-pure, Keeps-raise, Keeps-wrap, Keeps-attempt, Keeps-if, Keeps-now, Keeps-generate_token,
  Keeps-bind, Keeps-for_each, Keeps-option, Keeps-result,
)
