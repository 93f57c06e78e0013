-- ===== src/Queue/Worker/Termination.antt =====
-- The loop of the worker ends.
use xlistman.Prelude.{
  ℕ, zero, suc, ◌+◌, ◌*◌, ◌≡◌, ◌≤◌, ◌<◌, refl, Bool, true, false, not, Option, none, some, List, [],
  ◌∷◌, ◌==◌, leb, keep, any-never, length, if◌then◌else◌, arith,
}
use xlistman.Strings.{Text, is_empty}
use xlistman.Result.{Result, ok, err}
use xlistman.Model.{Time, QueuedMessage}
use xlistman.Effects.Tables.{Db, insert, update, delete}
use xlistman.Effects.{World, M, ◌>>=◌, ◌>>◌, continue, statement, attempt, pure, now}
use xlistman.Store.Access.{create, delete_rows, update_rows}
use xlistman.Store.Queue.{
  is_due, earliest, claim_row, claim_next_queued, enqueue, mark_queued_sent, requeue_with_backoff,
}
use xlistman.Queue.Worker.Work.{
  notices, due_work, due_work-keep, due_work-append, due_work-claimed, due_work-requeue,
  due_work-length, backoff_duration-positive,
}
use xlistman.Queue.Worker.{
  Mta, go_on, give_up, max_retries, build_bounce_body, backoff_duration, process_claimed,
  process_batch,
}

-- The action adds at most `k` to what is to do.
record Within {A : Type 0} (t : Time) (k : ℕ) (m : M A) : Type 0 where
  bound : (w : World) → due_work t (m w).1.db.queue.rows ≤ due_work t w.db.queue.rows + k

Within-statement_at :
    {A : Type 0} (t : Time) (k : ℕ) (f : Db → Result A × Db) (faults : List Bool) (w : World)
    → w.faults ≡ faults
    → ((d : Db) → due_work t (f d).1.queue.rows ≤ due_work t d.queue.rows + k)
    → due_work t (statement f w).1.db.queue.rows ≤ due_work t w.db.queue.rows + k
unfolding statement
Within-statement_at t k f [] w e h = rw (e, statement) (h w.db)
Within-statement_at t k f (true ∷ rest) w e h = rw (e, statement) (omega arith)
Within-statement_at t k f (false ∷ rest) w e h = rw (e, statement) (h w.db)

module _ {A : Type 0} (t : Time) where
  Within-statement :
      (k : ℕ) (f : Db → Result A × Db)
      → ((d : Db) → due_work t (f d).1.queue.rows ≤ due_work t d.queue.rows + k)
      → Within t k (statement f)
  Within-statement k f h = record { bound = λ w. Within-statement_at t k f w.faults w refl h }

  Within-weaken : (j k : ℕ) (m : M A) → j ≤ k → Within t j m → Within t k m
  Within-weaken j k m h g = record { bound = λ w. omega (arith, h, g.bound w) }

  Within-pure : (k : ℕ) (a : A) → Within t k (pure a)
  unfolding pure
  Within-pure k a = record { bound = λ w. omega arith }

  Within-attempt : (k : ℕ) (m : M A) → Within t k m → Within t k (attempt m)
  unfolding attempt
  Within-attempt k m h = record { bound = λ w. h.bound w }

Within-now : (t : Time) → Within t 0 now
unfolding now
Within-now t = record { bound = λ w. omega arith }

module _ {A B : Type 0} (t : Time) where
  Within-continue :
      (j k : ℕ) (r : Result A) (f : A → M B) (n : ℕ) (w : World)
      → due_work t w.db.queue.rows ≤ n + j
      → ((a : A) → Within t k (f a))
      → due_work t (continue r f w).1.db.queue.rows ≤ n + (j + k)
  Within-continue j k (ok a) f n w h g = omega (arith, h, (g a).bound w)
  Within-continue j k (err e) f n w h g = omega (arith, h)

  Within-bind :
      (j k : ℕ) (m : M A) (f : A → M B)
      → Within t j m
      → ((a : A) → Within t k (f a))
      → Within t (j + k) (m >>= f)
  unfolding ◌>>=◌
  Within-bind j k m f h g = record {
    bound = λ w.
        let (r, w') = m w in Within-continue j k r f (due_work t w.db.queue.rows) w' (h.bound w) g;
  }

module _ (mta : Mta) where
  enqueue-Within :
      (t : Time) (l : ℕ) (from to body envelope : Text)
      → Within t 1 (enqueue l from to body envelope [])
  unfolding enqueue create insert due_work is_empty
  enqueue-Within t l from to body envelope = Within-bind t 0 1 _ _ (Within-now t) λ now.
      Within-bind t 1 0 _ _
        (Within-statement t 1 _
          λ d. rw (any-never d.queue.rows) (due_work-append t d.queue.rows _ refl))
        (λ _. Within-pure t 0 tt)

  sent-Within : (t : Time) (id : ℕ) → Within t 0 (attempt (mark_queued_sent id))
  unfolding mark_queued_sent delete_rows delete
  sent-Within t id = Within-attempt t 0 _ (
      Within-statement t 0 _
        (λ d. omega (arith, due_work-keep t (λ q. not (q.id == id)) d.queue.rows)))

  notice-Within :
      (t : Time) (q : QueuedMessage) (e : Text) (b : Bool)
      → Within t (if b then 0 else 1) (
          if b then pure tt else do
            t ← now
            attempt (
                enqueue q.list_id q.from_addr q.original_sender
                  (build_bounce_body mta t q e)
                  q.from_addr
                  [])
            pure tt)
  notice-Within t q e true = Within-pure t 0 tt
  notice-Within t q e false = Within-bind t 0 1 _ _ (Within-now t) λ now.
      Within-bind t 1 0 _ _ (Within-attempt t 1 _ (enqueue-Within t _ _ _ _ _))
        (λ _. Within-pure t 0 tt)

  give_up-Within :
      (t : Time) (q : QueuedMessage) (e : Text) → Within t (notices q) (give_up mta q e)
  unfolding give_up
  give_up-Within t q e = Within-weaken t (notices q + (0 + 0)) _ _ (omega arith) (
      Within-bind t (notices q) (0 + 0) _ _ (notice-Within t q e (is_empty q.original_sender))
        λ _. Within-bind t 0 0 _ _ (sent-Within t q.id) (λ _. Within-pure t 0 tt))

  requeue-Within :
      (t : Time) (id : ℕ) (next : Time) → t < next → Within t 0 (requeue_with_backoff id next)
  unfolding requeue_with_backoff update_rows update
  requeue-Within t id next h =
      Within-statement t 0 _ (λ d. omega (arith, due_work-requeue t id next d.queue.rows h))

  retry-Within :
      (configured : ℕ) (t : Time) (q : QueuedMessage) (e : Text) (b : Bool)
      → Within t (notices q) (
          if b
          then give_up mta q e
          else do attempt (requeue_with_backoff q.id (t + backoff_duration q.retries)); pure tt)
  retry-Within configured t q e true = give_up-Within t q e
  retry-Within configured t q e false = Within-weaken t (0 + 0) _ _ (omega arith) (
      Within-bind t 0 0 _ _
        (Within-attempt t 0 _
          (requeue-Within t q.id _ (omega (arith, backoff_duration-positive q.retries))))
        (λ _. Within-pure t 0 tt))

  sending-Within :
      (configured : ℕ) (t : Time) (q : QueuedMessage) (answer : Option Text)
      → Within t (notices q) (elim answer [
        | some send_err ↦
            if leb (max_retries configured) (q.retries + 1)
            then give_up mta q send_err
            else do attempt (requeue_with_backoff q.id (t + backoff_duration q.retries)); pure tt
        | none ↦ do attempt (mark_queued_sent q.id); pure tt
      ])
  sending-Within configured t q (some e) = retry-Within configured t q e _
  sending-Within configured t q none =
      Within-weaken t (0 + 0) _ _ (omega arith)
        (Within-bind t 0 0 _ _ (sent-Within t q.id) (λ _. Within-pure t 0 tt))

  process_claimed-Within :
      (configured : ℕ) (t : Time) (q : QueuedMessage)
      → Within t (notices q) (process_claimed mta configured t q)
  unfolding process_claimed
  process_claimed-Within configured t q = sending-Within configured t q (mta.send q)

  process_claimed_ok :
      (configured : ℕ) (t : Time) (q : QueuedMessage) (w : World)
      → (process_claimed mta configured t q w).0 ≡ ok tt
  unfolding process_claimed give_up pure attempt ◌>>=◌ now
  process_claimed_ok configured t q w = ground arith

  abbrev Ends : M (Option Unit) → ℕ → Time → Type 0
  Ends m fuel t = (w : World) → due_work t w.db.queue.rows < fuel → (m w).0 ≡ ok (some tt)

  go_on-Ends :
      (fuel configured : ℕ) (t : Time) (next : Option QueuedMessage) (w : World)
      → earliest (keep (is_due t) w.db.queue.rows) ≡ next
      → due_work t w.db.queue.rows < suc fuel
      → Ends (process_batch mta fuel configured t) fuel t
      → (faults : List Bool)
      → (go_on mta
          (process_batch mta fuel configured t)
          (process_claimed mta configured t)
          (ok next)
          (record w { db = claim_row t w.db next; faults = faults })).0
        ≡ ok (some tt)
  unfolding pure ◌>>=◌ update
  go_on-Ends fuel configured t none w e h again faults = refl
  go_on-Ends fuel configured t (some q) w e h again faults =
      let w' : World = record w { db = claim_row t w.db (some q); faults = faults } in
      rw (process_claimed_ok configured t q w') (
        again (process_claimed mta configured t q w').1 (
          omega (
            arith,
            h,
            (process_claimed-Within configured t q).bound w',
            due_work-claimed t w.db.queue.rows q e,
          )))

  claim-Ends :
      (fuel configured : ℕ) (t : Time) (faults : List Bool) (w : World)
      → w.faults ≡ faults
      → due_work t w.db.queue.rows < suc fuel
      → Ends (process_batch mta fuel configured t) fuel t
      → (process_batch mta (suc fuel) configured t w).0 ≡ ok (some tt)
  unfolding process_batch claim_next_queued statement attempt ◌>>=◌ pure
  claim-Ends fuel configured t [] w e h again =
      rw (e, statement) (go_on-Ends fuel configured t _ w refl h again w.faults)
  claim-Ends fuel configured t (true ∷ rest) w e h again = rw (e, statement) refl
  claim-Ends fuel configured t (false ∷ rest) w e h again =
      rw (e, statement) (go_on-Ends fuel configured t _ w refl h again rest)

  loop-Ends : (fuel configured : ℕ) (t : Time) → Ends (process_batch mta fuel configured t) fuel t
  loop-Ends zero configured t w h = absurd (omega (arith, h))
  loop-Ends (suc fuel) configured t w h =
      claim-Ends fuel configured t w.faults w refl h (loop-Ends fuel configured t)

-- A run of the worker's loop comes to its end, whatever the mail server answers, whatever statements
-- the database refuses and however the clock stands to the time at which the run began: twice as
-- many rounds as there are messages in the queue, and one, are enough, although the loop queues
-- notices itself.
pub process_batch-ends :
    (mta : Mta) (fuel configured : ℕ) (t : Time) (w : World)
    → 2 * length w.db.queue.rows < fuel
    → (process_batch mta fuel configured t w).0 ≡ ok (some tt)
process_batch-ends mta fuel configured t w h =
    loop-Ends mta fuel configured t w (omega (arith, h, due_work-length t w.db.queue.rows))
