-- ===== src/Queue/Worker/Work.antt =====
-- What the worker still has to do, as a number.
use xlistman.Prelude.{
  ℕ, zero, suc, ◌+◌, ◌*◌, ◌≡◌, ◌≤◌, ◌<◌, Bool, true, ◌&&◌, some, List, [], ◌∷◌, ◌++◌, ◌==◌, keep,
  update_where, length, if◌then◌else◌, arith,
}
use xlistman.Strings.{is_empty}
use xlistman.Model.{Time, QueuedMessage}
use xlistman.Store.Queue.{is_due, is_unclaimed, earliest, claim, requeue_row}
use xlistman.Queue.Worker.{backoff_duration}

-- How many notices to its sender a message may cause; a message counts with its notices.
abbrev pub notices : QueuedMessage → ℕ
notices q = if is_empty q.original_sender then 0 else 1

abbrev pub share : QueuedMessage → ℕ
share q = suc (notices q)

-- What the worker still has to do at time `t`.
unfoldable pub due_work : Time → List QueuedMessage → ℕ
due_work t [] = 0
due_work t (q ∷ qs) = (if is_due t q then share q else 0) + due_work t qs

pub due_work-length : (t : Time) (rows : List QueuedMessage) → due_work t rows ≤ 2 * length rows
unfolding due_work
due_work-length t [] = omega arith
due_work-length t (x ∷ xs) = ground (arith, due_work-length t xs)

pub due_work-append :
    (t : Time) (rows : List QueuedMessage) (q : QueuedMessage)
    → is_empty q.original_sender ≡ true
    → due_work t (rows ++ q ∷ []) ≤ due_work t rows + 1
unfolding due_work
due_work-append t [] q e = ground (arith, e)
due_work-append t (x ∷ xs) q e = ground (arith, due_work-append t xs q e)

pub due_work-keep :
    (t : Time) (p : QueuedMessage → Bool) (rows : List QueuedMessage)
    → due_work t (keep p rows) ≤ due_work t rows
unfolding due_work keep
due_work-keep t p [] = omega arith
due_work-keep t p (x ∷ xs) = ground (arith, due_work-keep t p xs)

pub due_work-claim :
    (t : Time) (p : QueuedMessage → Bool) (rows : List QueuedMessage)
    → due_work t (update_where p (claim t) rows) ≤ due_work t rows
unfolding due_work update_where claim
due_work-claim t p [] = omega arith
due_work-claim t p (x ∷ xs) = ground (arith, due_work-claim t p xs)

pub due_work-claimed :
    (t : Time) (rows : List QueuedMessage) (q : QueuedMessage)
    → earliest (keep (is_due t) rows) ≡ some q
    → due_work t (update_where (λ r. r.id == q.id && is_unclaimed r) (claim t) rows) + share q
      ≤ due_work t rows
unfolding due_work earliest keep update_where claim
due_work-claimed t [] q e = ground (arith, e)
due_work-claimed t (x ∷ xs) q e =
    ground
      (arith, e, due_work-claimed t xs q, due_work-claim t (λ r. r.id == q.id && is_unclaimed r) xs)

pub due_work-requeue :
    (t : Time) (id : ℕ) (next : Time) (rows : List QueuedMessage)
    → t < next
    → due_work t (update_where (λ q. q.id == id) (requeue_row next) rows) ≤ due_work t rows
unfolding due_work update_where requeue_row
due_work-requeue t id next [] h = omega arith
due_work-requeue t id next (x ∷ xs) h = ground (arith, h, due_work-requeue t id next xs h)

pub backoff_duration-positive : (n : ℕ) → 0 < backoff_duration n
unfolding backoff_duration
backoff_duration-positive zero = omega arith
backoff_duration-positive (suc zero) = omega arith
backoff_duration-positive (suc (suc zero)) = omega arith
backoff_duration-positive (suc (suc (suc zero))) = omega arith
backoff_duration-positive (suc (suc (suc (suc n)))) = omega arith
