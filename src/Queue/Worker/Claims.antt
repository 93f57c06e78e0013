-- ===== src/Queue/Worker/Claims.antt =====
-- No two claims return the same message.
use xlistman.Prelude.{ℕ, ◌≡◌, false, ◌&&◌, some, List, [], ◌∷◌, ◌==◌, keep, update_where, arith}
use xlistman.Strings.{Text}
use xlistman.Result.{ok}
use xlistman.Model.{Time, QueuedMessage}
use xlistman.Effects.Tables.{Db, update}
use xlistman.Effects.{healthy, statement}
use xlistman.Store.Queue.{is_due, is_unclaimed, earliest, claim, claim_next_queued}

claimed-earliest :
    (k : ℕ) (s t : Time) (rows : List QueuedMessage) (q : QueuedMessage)
    → earliest (keep (is_due t) (update_where (λ r. r.id == k && is_unclaimed r) (claim s) rows))
      ≡ some q
    → (q.id == k) ≡ false
unfolding earliest keep update_where claim
claimed-earliest k s t [] q e = ground (arith, e)
claimed-earliest k s t (x ∷ xs) q e = ground (arith, e, claimed-earliest k s t xs q)

-- Once a message has been claimed, no later claim returns a message with its identifier, at
-- whatever time it is made, until the queue changes.
pub claim_next_queued-once :
    (d : Db) (clock : Time) (token_of : ℕ → Text) (n : ℕ) (s t : Time) (q r : QueuedMessage)
    → (claim_next_queued s (healthy d clock token_of n)).0 ≡ ok (some q)
    → (claim_next_queued t (claim_next_queued s (healthy d clock token_of n)).1).0 ≡ ok (some r)
    → (r.id == q.id) ≡ false
unfolding claim_next_queued statement update
claim_next_queued-once d clock token_of n s t q r e f =
    ground (arith, e, f, claimed-earliest q.id s t d.queue.rows r)
