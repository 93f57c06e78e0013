-- ===== src/Pipeline/Notices/Queueing.antt =====
-- Actions that at most queue messages: the notices of internal/mail/pipeline.go.
use xlistman.Prelude.{List, [], ◌∷◌, ℕ, ◌≡◌, refl, Bool, true, false, if◌then◌else◌, any-never}
use xlistman.Strings.{Text}
use xlistman.Result.{Result, ok, err}
use xlistman.Model.{Time, MailingList, QueuedMessage}
use xlistman.Env.{Env}
use xlistman.Effects.Tables.{Db, Table, insert, select, select_all}
use xlistman.Effects.{
  M, healthy, continue, ◌>>=◌, pure, attempt, wrap, wrapped_result, for_each, statement, now,
}
use xlistman.Store.Access.{Place, create, find_first, find_all}
use xlistman.Store.Members.{get_subscriber_by_id, list_subscriptions}
use xlistman.Store.Roles.{list_role, list_owners, list_moderators}
use xlistman.Store.Queue.{enqueue}
use xlistman.Pipeline.Notices.{build_notice, send_notice}

-- In a database that refuses nothing, the action ends with a result, and nothing but the queue is
-- another than before.
pub record OnlyQueues {A : Type 0} (m : M A) : Type 0 where
  pub queued :
      (d : Db) (t : Time) (token_of : ℕ → Text) (n : ℕ)
      → (r : Result A) × (q : Table QueuedMessage) × (m (healthy d t token_of n)
          ≡ (r, healthy (record d { queue = q }) t token_of n))

module _ {A : Type 0} where
  pub pure-OnlyQueues : (a : A) → OnlyQueues (pure a)
  unfolding pure
  pure-OnlyQueues a = record { queued = λ d t token_of n. (ok a, d.queue, refl) }

  pub if-OnlyQueues :
      (b : Bool) (m m' : M A) → OnlyQueues m → OnlyQueues m' → OnlyQueues (if b then m else m')
  if-OnlyQueues true m m' h k = h
  if-OnlyQueues false m m' h k = k

  pub attempt-OnlyQueues : (m : M A) → OnlyQueues m → OnlyQueues (attempt m)
  unfolding attempt
  attempt-OnlyQueues m h = record {
    queued = λ d t token_of n. let (r, q, e) = h.queued d t token_of n in (ok r, q, rw e refl);
  }

  find_first-OnlyQueues : (place : Place A) (p : A → Bool) → OnlyQueues (find_first place p)
  unfolding find_first statement
  find_first-OnlyQueues place p = record {
    queued = λ d t token_of n. (select p (place.get d), d.queue, refl);
  }

  find_all-OnlyQueues : (place : Place A) (p : A → Bool) → OnlyQueues (find_all place p)
  unfolding find_all statement
  find_all-OnlyQueues place p = record {
    queued = λ d t token_of n. (ok (select_all p (place.get d)), d.queue, refl);
  }

module _ {A B : Type 0} where
  continue-OnlyQueues :
      (f : A → M B)
      → ((a : A) → OnlyQueues (f a))
      → (r : Result A) (d : Db) (q : Table QueuedMessage) (t : Time) (token_of : ℕ → Text) (n : ℕ)
      → (r' : Result B) × (q' : Table QueuedMessage) × (continue r f
            (healthy (record d { queue = q }) t token_of n)
          ≡ (r', healthy (record d { queue = q' }) t token_of n))
  continue-OnlyQueues f k (ok a) d q t token_of n =
      (k a).queued (record d { queue = q }) t token_of n
  continue-OnlyQueues f k (err e) d q t token_of n = (err e, q, refl)

  pub bind-OnlyQueues :
      (m : M A) (f : A → M B) → OnlyQueues m → ((a : A) → OnlyQueues (f a)) → OnlyQueues (m >>= f)
  unfolding ◌>>=◌
  bind-OnlyQueues m f h k = record {
    queued = λ d t token_of n.
        let (r, q, e) = h.queued d t token_of n in
        let (r', q', e') = continue-OnlyQueues f k r d q t token_of n in (r', q', rw e e');
  }

pub get_subscriber_by_id-OnlyQueues : (id : ℕ) → OnlyQueues (get_subscriber_by_id id)
unfolding get_subscriber_by_id
get_subscriber_by_id-OnlyQueues id = find_first-OnlyQueues _ _

pub list_owners-OnlyQueues : (id : ℕ) → OnlyQueues (list_owners id)
unfolding list_role
list_owners-OnlyQueues id = find_all-OnlyQueues _ _

-- A notice is sent, whatever it says.
pub send_notice-queued :
    (env : Env) (l : MailingList) (to reply_to subject text : Text) (d : Db) (t : Time)
    (token_of : ℕ → Text) (n : ℕ)
    → (q : Table QueuedMessage) × (send_notice env l to reply_to subject text
          (healthy d t token_of n)
        ≡ (ok tt, healthy (record d { queue = q }) t token_of n))
unfolding send_notice build_notice enqueue create insert statement now pure ◌>>=◌
send_notice-queued env l to reply_to subject text d t token_of n = (
  (send_notice env l to reply_to subject text (healthy d t token_of n)).1.db.queue,
  rw (any-never d.queue.rows) refl,
)

pub send_notice-OnlyQueues :
    (env : Env) (l : MailingList) (to reply_to subject text : Text)
    → OnlyQueues (send_notice env l to reply_to subject text)
send_notice-OnlyQueues env l to reply_to subject text = record {
  queued = λ d t token_of n.
      let (q, e) = send_notice-queued env l to reply_to subject text d t token_of n in
      (ok tt, q, e);
}

pub wrap-OnlyQueues : {A : Type 0} (note : Text) (m : M A) → OnlyQueues m → OnlyQueues (wrap note m)
unfolding wrap
wrap-OnlyQueues note m h = record {
  queued = λ d t token_of n.
      let (r, q, e) = h.queued d t token_of n in (wrapped_result note r, q, rw e refl);
}

pub now-OnlyQueues : OnlyQueues now
unfolding now
now-OnlyQueues = record { queued = λ d t token_of n. (ok t, d.queue, refl) }

pub for_each-OnlyQueues :
    {A : Type 0} (xs : List A) (body : A → M Unit)
    → ((x : A) → OnlyQueues (body x))
    → OnlyQueues (for_each xs body)
unfolding for_each
for_each-OnlyQueues [] body k = pure-OnlyQueues tt
for_each-OnlyQueues (x ∷ xs) body k =
    bind-OnlyQueues (body x) _ (k x) (λ _. for_each-OnlyQueues xs body k)

pub enqueue-OnlyQueues :
    (l : ℕ) (from to body envelope sender : Text)
    → OnlyQueues (enqueue l from to body envelope sender)
unfolding enqueue create insert statement now pure ◌>>=◌
enqueue-OnlyQueues l from to body envelope sender = record {
  queued = λ d t token_of n. (
    ok tt,
    (enqueue l from to body envelope sender (healthy d t token_of n)).1.db.queue,
    rw (any-never d.queue.rows) refl,
  );
}

pub list_moderators-OnlyQueues : (id : ℕ) → OnlyQueues (list_moderators id)
unfolding list_role
list_moderators-OnlyQueues id = find_all-OnlyQueues _ _

pub list_subscriptions-OnlyQueues : (id : ℕ) → OnlyQueues (list_subscriptions id)
unfolding list_subscriptions
list_subscriptions-OnlyQueues id = find_all-OnlyQueues _ _
