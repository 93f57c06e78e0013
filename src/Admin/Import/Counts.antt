-- ===== src/Admin/Import/Counts.antt =====
-- An import accounts for each row.
use xlistman.Prelude.{
  ℕ, suc, ◌+◌, ◌≡◌, refl, Bool, true, false, List, [], ◌∷◌, length, if◌then◌else◌, arith,
}
use xlistman.Strings.{Text, is_empty}
use xlistman.Result.{Result, ok, err}
use xlistman.Model.{Subscription, Subscriber}
use xlistman.Env.{Env}
use xlistman.Effects.{World, M, ◌>>=◌, attempt, pure}
use xlistman.Admin.Import.{
  ImportResult, skipped, RowOutcome, row_added, row_already, row_disabled, row_invalid, count_row,
  activate_created, add_unless_subscribed, add_subscriber, import_row, import_rows,
}

-- The action returns no error, in whatever world.
abbrev Returns : {A : Type 0} → M A → Type 0
Returns {A} m = (w : World) → (a : A) × ((m w).0 ≡ ok a)

Returns-attempt :
    {A B : Type 0} (m : M A) (f : Result A → M B)
    → ((r : Result A) → Returns (f r))
    → Returns (attempt m >>= f)
unfolding attempt ◌>>=◌
Returns-attempt m f h w = h (m w).0 (m w).1

Returns-pure : {A : Type 0} (a : A) → Returns (pure a)
unfolding pure
Returns-pure a w = (a, refl)

activate-Returns : (r : Result Subscription) → Returns (activate_created r)
activate-Returns (ok s) = Returns-attempt _ _ (λ r. Returns-pure _)
activate-Returns (err e) = Returns-pure _

unless-Returns : (l id : ℕ) (r : Result Subscription) → Returns (add_unless_subscribed l id r)
unless-Returns l id (ok s) = Returns-pure _
unless-Returns l id (err e) = Returns-attempt _ _ activate-Returns

add-Returns : (l : ℕ) (r : Result Subscriber) → Returns (add_subscriber l r)
add-Returns l (ok s) = Returns-attempt _ _ (unless-Returns l s.id)
add-Returns l (err e) = Returns-pure _

if-Returns :
    {A : Type 0} (b : Bool) (m n : M A) → Returns m → Returns n → Returns (if b then m else n)
if-Returns true m n h k = h
if-Returns false m n h k = k

import_row-Returns : (env : Env) (l : ℕ) (raw : Text) → Returns (import_row env l raw)
unfolding import_row
import_row-Returns env l raw =
    if-Returns (is_empty (env.trim_space (env.to_lower raw))) _ _ (Returns-pure row_invalid)
      (Returns-attempt _ _ (add-Returns l))

total : ImportResult → ℕ
total r = r.added + skipped r

total-count_row : (o : RowOutcome) (r : ImportResult) → total (count_row o r) ≡ suc (total r)
unfolding total count_row skipped
total-count_row row_added r = omega arith
total-count_row row_already r = omega arith
total-count_row row_disabled r = omega arith
total-count_row row_invalid r = omega arith

-- The loop of the import returns, whatever the rows hold and whatever statements the database
-- refuses, and each row is in exactly one of the counts: what was added and what was skipped grow
-- together by the number of rows.
pub import_rows-total :
    (env : Env) (list_id : ℕ) (emails : List Text) (res : ImportResult) (w : World)
    → (res' : ImportResult) × ((import_rows env list_id emails res w).0 ≡ ok res')
      × (res'.added + skipped res' ≡ length emails + (res.added + skipped res))
unfolding import_rows pure ◌>>=◌ total
import_rows-total env l [] res w = (res, refl, omega arith)
import_rows-total env l (email ∷ emails) res w =
    let (o, e) = import_row-Returns env l email w in
    let (res', p, q) =
      import_rows-total env l emails (count_row o res) (import_row env l email w).1 in
    (res', rw e p, omega (arith, q, total-count_row o res))
