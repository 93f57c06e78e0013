-- ===== src/Effects.antt =====
-- Handlers are actions on the world: the database, the clock, the random tokens, and the statements
-- that the database will refuse. What was written before an error stays written, so the world comes
-- back beside the error too.
pub mod Tables
pub mod Keeps
pub mod Reads
pub mod Yields
use xlistman.Prelude.{ℕ, suc, Bool, true, false, List, [], ◌∷◌}
use xlistman.Strings.{Text}
use xlistman.Result.{Result, ok, err, Error, fault, wrapped}
use xlistman.Effects.Tables.{Db}
use xlistman.Model.{Time}

-- `faults` says of each coming statement whether the database refuses it (a full disk, a lock that
-- is not given up); from the end of the list on it refuses none.
pub record World : Type 0 where
  pub db : Db
  pub clock : Time
  pub faults : List Bool
  pub token_of : ℕ → Text
  pub tokens_used : ℕ

-- A world whose database refuses nothing.
abbrev pub healthy : Db → Time → (ℕ → Text) → ℕ → World
healthy db clock token_of n = record {
  db = db;
  clock = clock;
  faults = [];
  token_of = token_of;
  tokens_used = n;
}

abbrev pub M : Type 0 → Type 0
M A = World → Result A × World

abbrev pub continue : {A B : Type 0} → Result A → (A → M B) → M B
continue (ok a) f w = f a w
continue (err e) f w = (err e, w)

infixl 10 ◌>>=◌ ◌>>◌
unfoldable pub ◌>>=◌ : {A B : Type 0} → M A → (A → M B) → M B
◌>>=◌ m f w = let (r, w') = m w in continue r f w'

abbrev pub ◌>>◌ : {A B : Type 0} → M A → M B → M B
m >> n = m >>= λ _. n

module _ {A : Type 0} where
  abbrev pub wrapped_result : Text → Result A → Result A
  wrapped_result note (ok a) = ok a
  wrapped_result note (err e) = err (wrapped note e)

  unfoldable pub pure : A → M A
  pure a w = (ok a, w)

  unfoldable pub raise : Error → M A
  raise e w = (err e, w)

  -- fmt.Errorf("…: %w", err)
  unfoldable pub wrap : Text → M A → M A
  wrap note m w = let (r, w') = m w in (wrapped_result note r, w')

  -- A call whose error the caller looks at.
  unfoldable pub attempt : M A → M (Result A)
  attempt m w = let (r, w') = m w in (ok r, w')

  -- One statement of the database.
  unfoldable pub statement : (Db → Result A × Db) → M A
  statement f w = elim w.faults [
    | [] ↦ let (r, db) = f w.db in (r, record w { db = db })
    | true ∷ rest ↦ (err fault, record w { faults = rest })
    | false ∷ rest ↦ let (r, db) = f w.db in (r, record w { db = db; faults = rest })
  ]

-- time.Now(): a handler runs at one instant.
unfoldable pub now : M Time
now w = (ok w.clock, w)

-- generateToken: the next token of the random source
unfoldable pub generate_token : M Text
generate_token w = (ok (w.token_of w.tokens_used), record w { tokens_used = suc w.tokens_used })

-- A loop over a slice whose body may end the function by an error.
unfoldable pub for_each : {A : Type 0} → List A → (A → M Unit) → M Unit
for_each [] body = pure tt
for_each (x ∷ xs) body = body x >> for_each xs body
