-- ===== src/Store/Queue.antt =====
-- The outbound queue.
use xlistman.Prelude.{
  ℕ, suc, Bool, true, false, ◌&&◌, Option, none, some, List, [], ◌∷◌, ◌==◌, ltb, leb, length, keep,
  if◌then◌else◌,
}
use xlistman.Strings.{Text}
use xlistman.Result.{ok}
use xlistman.Model.{Time, QueuedMessage}
use xlistman.Effects.Tables.{Db, update, order_by}
use xlistman.Effects.{M, ◌>>=◌, ◌>>◌, pure, now, statement}
use xlistman.Store.Access.{queue, create, find_all, update_rows, delete_rows}

abbrev pub is_unclaimed : QueuedMessage → Bool
is_unclaimed q = elim q.claimed_at [ none ↦ true | some _ ↦ false ]

-- claimed_at IS NULL AND next_attempt <= now
abbrev pub is_due : Time → QueuedMessage → Bool
is_due t q = is_unclaimed q && leb q.next_attempt t

-- The table has no unique index but its key.
unfoldable pub enqueue : ℕ → Text → Text → Text → Text → Text → M Unit
enqueue list_id from_addr to_addr body envelope_sender original_sender = do
  t ← now
  create queue (λ _. false)
      (λ id. record {
        id = id;
        list_id = list_id;
        from_addr = from_addr;
        to_addr = to_addr;
        body = body;
        envelope_sender = envelope_sender;
        original_sender = original_sender;
        retries = 0;
        next_attempt = t;
        claimed_at = none;
        created_at = t;
      })
  pure tt

-- ORDER BY next_attempt, and by the key among equals, LIMIT 1
unfoldable pub earliest : List QueuedMessage → Option QueuedMessage
earliest [] = none
earliest (q ∷ qs) = elim (earliest qs) [
  | none ↦ some q
  | some best ↦ if ltb best.next_attempt q.next_attempt then some best else some q
]

unfoldable pub claim : Time → QueuedMessage → QueuedMessage
claim t q = record q { claimed_at = some t }

abbrev pub claim_row : Time → Db → Option QueuedMessage → Db
claim_row t d none = d
claim_row t d (some q) = record d {
  queue = update (λ r. r.id == q.id && is_unclaimed r) (claim t) d.queue;
}

-- One transaction; the row is returned as it was read.
unfoldable pub claim_next_queued : Time → M (Option QueuedMessage)
claim_next_queued t =
    statement
      λ d. let next = earliest (keep (is_due t) d.queue.rows) in (ok next, claim_row t d next)

unfoldable pub mark_queued_sent : ℕ → M Unit
mark_queued_sent id = delete_rows queue (λ q. q.id == id)

unfoldable pub requeue_row : Time → QueuedMessage → QueuedMessage
requeue_row next_attempt q = record q {
  claimed_at = none;
  retries = suc q.retries;
  next_attempt = next_attempt;
}

unfoldable pub requeue_with_backoff : ℕ → Time → M Unit
requeue_with_backoff id next_attempt =
    update_rows queue (λ q. q.id == id) (requeue_row next_attempt)

unfoldable pub list_queued : M (List QueuedMessage)
list_queued = do
  found ← find_all queue (λ _. true)
  pure (order_by (λ (a b : QueuedMessage). ltb a.next_attempt b.next_attempt) found)

unfoldable pub discard_queued : ℕ → M Unit
discard_queued id = delete_rows queue (λ q. q.id == id)

unfoldable pub queue_depth : M ℕ
queue_depth = statement λ d. (ok (length (keep is_unclaimed d.queue.rows)), d)
