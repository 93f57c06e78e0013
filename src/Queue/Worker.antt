-- ===== src/Queue/Worker.antt =====
-- internal/queue/worker.go: sending what is queued, with retries.
mod Work
pub mod Termination
pub mod Claims
use xlistman.Prelude.{
  ℕ, zero, suc, ◌+◌, ◌*◌, Bool, Option, none, some, List, [], ◌∷◌, ltb, leb, if◌then◌else◌,
}
use xlistman.Strings.{Text, codes, is_empty}
use xlistman.Result.{Result, ok, err}
use xlistman.Model.{Time, QueuedMessage, minute, hour}
use xlistman.Env.{concat, newline, crlf}
use xlistman.Effects.{M, ◌>>=◌, ◌>>◌, pure, attempt, now}
use xlistman.Store.Queue.{claim_next_queued, mark_queued_sent, requeue_with_backoff, enqueue}

-- backoffDuration
unfoldable pub backoff_duration : ℕ → Time
backoff_duration zero = 1 * minute
backoff_duration (suc zero) = 5 * minute
backoff_duration (suc (suc zero)) = 15 * minute
backoff_duration (suc (suc (suc zero))) = 1 * hour
backoff_duration (suc (suc (suc (suc _)))) = 24 * hour

abbrev pub default_max_retries : ℕ
default_max_retries = 8

-- Worker.maxRetries
unfoldable pub max_retries : ℕ → ℕ
max_retries configured = if ltb 0 configured then configured else default_max_retries

-- The MTA: whether a message is taken, or the error; and how its text and a date are written.
pub record Mta : Type 0 where
  pub send : QueuedMessage → Option Text
  pub rfc1123z : Time → Text

module _ (mta : Mta) where
  -- buildBounceBody
  unfoldable pub build_bounce_body : Time → QueuedMessage → Text → Text
  build_bounce_body t q send_err = concat (
      codes "From: "
      ∷ q.from_addr
      ∷ crlf
      ∷ codes "To: "
      ∷ q.original_sender
      ∷ crlf
      ∷ codes "Subject: Delivery failed: "
      ∷ q.from_addr
      ∷ crlf
      ∷ codes "Date: "
      ∷ mta.rfc1123z t
      ∷ crlf
      ∷ crlf
      ∷ codes "Your message to "
      ∷ q.from_addr
      ∷ codes " could not be delivered to "
      ∷ q.to_addr
      ∷ codes ":"
      ∷ newline
      ∷ newline
      ∷ send_err
      ∷ newline
      ∷ [])

  -- The errors of the two statements are logged only.
  unfoldable pub give_up : QueuedMessage → Text → M Unit
  give_up q send_err = do
    if is_empty q.original_sender then pure tt else do
      t ← now
      attempt (
          enqueue q.list_id q.from_addr q.original_sender (build_bounce_body t q send_err)
            q.from_addr [])
      pure tt
    attempt (mark_queued_sent q.id)
    pure tt

  -- The body of the loop, for the message that was claimed at `t`.
  unfoldable pub process_claimed : ℕ → Time → QueuedMessage → M Unit
  process_claimed configured t q = elim (mta.send q) [
    | some send_err ↦
        if leb (max_retries configured) (q.retries + 1)
        then give_up q send_err
        else do attempt (requeue_with_backoff q.id (t + backoff_duration q.retries)); pure tt
    | none ↦ do attempt (mark_queued_sent q.id); pure tt
  ]

  abbrev pub go_on :
      M (Option Unit) → (QueuedMessage → M Unit) → Result (Option QueuedMessage) → M (Option Unit)
  go_on again body (ok (some q)) = body q >> again
  go_on again body (ok none) = pure (some tt)
  go_on again body (err _) = pure (some tt)

  -- processBatch: until nothing is due, or a claim fails. `none` means that the fuel ran out.
  unfoldable pub process_batch : ℕ → ℕ → Time → M (Option Unit)
  process_batch zero configured t = pure none
  process_batch (suc fuel) configured t = do
    claimed ← attempt (claim_next_queued t)
    go_on (process_batch fuel configured t) (process_claimed configured t) claimed
