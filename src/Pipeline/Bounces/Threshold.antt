-- ===== src/Pipeline/Bounces/Threshold.antt =====
-- A bounce counts, and disables the subscription exactly at the list's threshold.
use xlistman.Prelude.{
  ◌⊎◌, inl, inr, ℕ, suc, ◌≡◌, refl, Bool, true, false, some, List, [], ◌∷◌, ◌==◌, leb, first,
  update_where, if◌then◌else◌, arith, ==-refl,
}
use xlistman.Strings.{Text}
use xlistman.Result.{Result, ok, err}
use xlistman.Model.{
  Time, Subscriber, Subscription, MailingList, QueuedMessage, RoleHolder, disabled,
}
use xlistman.Env.{Env}
use xlistman.Effects.Tables.{Db, Table, update, select}
use xlistman.Effects.{healthy, statement, pure, ◌>>=◌, ◌>>◌}
use xlistman.Store.Access.{find_first, update_rows}
use xlistman.Store.Members.{
  of_member, get_subscription, increment_bounce_count, set_subscription_status,
}
use xlistman.Pipeline.Notices.Queueing.{
  OnlyQueues, pure-OnlyQueues, if-OnlyQueues, attempt-OnlyQueues, bind-OnlyQueues,
  get_subscriber_by_id-OnlyQueues, list_owners-OnlyQueues, send_notice-OnlyQueues,
}
use xlistman.Pipeline.Bounces.{
  send_disabled_notice, notify_found, notify_owners, notify_owners_auto_disabled, record_bounce,
}

-- The first row of which `p` holds, after an update that `p` does not look at.
first-update_where :
    {A : Type 0} (p q : A → Bool) (f : A → A) (xs : List A) (x : A)
    → ((a : A) → p (f a) ≡ p a)
    → first p xs ≡ some x
    → q x ≡ true
    → first p (update_where q f xs) ≡ some (f x)
unfolding first update_where
first-update_where p q f [] x k e h = ground (arith, e)
first-update_where p q f (y ∷ ys) x k e h =
    ground (arith, k y, e, h, first-update_where p q f ys x k)

abbrev counted : Subscription → Table Subscription → Table Subscription
counted s = update (λ r. r.id == s.id) (λ r. record r { bounce_count = suc r.bounce_count })

abbrev disabled_row : Subscription → Table Subscription → Table Subscription
disabled_row s = update (λ r. r.id == s.id) (λ r. record r { status = disabled })

module _ (env : Env) (l : MailingList) where
  notify_found-OnlyQueues :
      (m : Subscriber) (count : ℕ) (found : Result Subscriber)
      → OnlyQueues (notify_found env l m count found)
  unfolding send_disabled_notice
  notify_found-OnlyQueues m count (ok owner) = send_notice-OnlyQueues env l _ _ _ _
  notify_found-OnlyQueues m count (err _) = pure-OnlyQueues tt

  notify_owners-OnlyQueues :
      (m : Subscriber) (count : ℕ) (seen : List ℕ) (owners : List RoleHolder)
      → OnlyQueues (notify_owners env l m count seen owners)
  unfolding notify_owners
  notify_owners-OnlyQueues m count seen [] = pure-OnlyQueues tt
  notify_owners-OnlyQueues m count seen (o ∷ os) =
      if-OnlyQueues _ _ _ (notify_owners-OnlyQueues m count seen os) (
        bind-OnlyQueues _ _
          (bind-OnlyQueues _ _
            (attempt-OnlyQueues _ (get_subscriber_by_id-OnlyQueues o.subscriber_id))
            (notify_found-OnlyQueues m count))
          (λ _. notify_owners-OnlyQueues m count (o.subscriber_id ∷ seen) os))

  auto_disabled-OnlyQueues : (s : Subscription) → OnlyQueues (notify_owners_auto_disabled env l s)
  unfolding notify_owners_auto_disabled
  auto_disabled-OnlyQueues s =
      bind-OnlyQueues _ _ (get_subscriber_by_id-OnlyQueues s.subscriber_id) (λ m.
        bind-OnlyQueues _ _ (list_owners-OnlyQueues l.id)
          (notify_owners-OnlyQueues m s.bounce_count []))

-- The subscriptions after a bounce of `s`.
abbrev pub after_bounce : MailingList → Subscription → Table Subscription → Table Subscription
after_bounce l s subscriptions =
    if leb l.settings.bounce_threshold (suc s.bounce_count)
    then disabled_row s (counted s subscriptions)
    else counted s subscriptions

module _ (env : Env) (l : MailingList) (s : Subscription) (d : Db) (t : Time) (token_of : ℕ → Text)
    (n : ℕ) where
  -- The notices, if they are to be sent.
  told :
      (d' : Db) (s' : Subscription) (b : Bool)
      → l.settings.owner_auto_disable_notice ≡ b
      → (r : Result Unit) × (q : Table QueuedMessage) × ((if b
              then notify_owners_auto_disabled env l s'
              else pure tt)
            (healthy d' t token_of n)
          ≡ (r, healthy (record d' { queue = q }) t token_of n))
        × ((r ≡ ok tt) ⊎ (l.settings.owner_auto_disable_notice ≡ true))
  unfolding pure
  told d' s' true e =
      let (r, q, sent) = (auto_disabled-OnlyQueues env l s').queued d' t token_of n in
      (r, q, sent, inr e)
  told d' s' false e = (ok tt, d'.queue, refl, inl refl)

  -- What follows the second look at the subscription; `b` is whether the threshold is reached.
  at_threshold :
      (b : Bool)
      → (r : Result Unit) × (q : Table QueuedMessage) × ((if b
              then (do
                set_subscription_status s.id disabled
                if l.settings.owner_auto_disable_notice
                    then notify_owners_auto_disabled env l
                        (record s { bounce_count = suc s.bounce_count })
                    else pure tt)
              else pure tt)
            (healthy (record d { subscriptions = counted s d.subscriptions }) t token_of n)
          ≡ (
            r,
            healthy
                (record d {
                  subscriptions =
                      if b
                      then disabled_row s (counted s d.subscriptions)
                      else counted s d.subscriptions;
                  queue = q;
                })
                t
                token_of
                n,
          ))
        × ((r ≡ ok tt) ⊎ (l.settings.owner_auto_disable_notice ≡ true))
  unfolding set_subscription_status update_rows statement pure ◌>>=◌
  at_threshold true =
      told (record d { subscriptions = disabled_row s (counted s d.subscriptions) })
        (record s { bounce_count = suc s.bounce_count }) _ refl
  at_threshold false = (ok tt, d.queue, refl, inl refl)

  -- RecordBounce on a subscription that the store has, in a database that refuses nothing: the count
  -- of the subscription grows by one, and it becomes disabled if the new count has reached the list's
  -- threshold, and else keeps its status, whether or not the list's owners are to be told. Nothing
  -- else changes but the queue, which may have the notices to the owners, and where these are not to be
  -- told there is no error.
  pub record_bounce-threshold :
      first (of_member l.id s.subscriber_id) d.subscriptions.rows ≡ some s
      → (r : Result Unit) × (q : Table QueuedMessage) × (record_bounce env l s
            (healthy d t token_of n)
          ≡ (
            r,
            healthy
                (record d { subscriptions = after_bounce l s d.subscriptions; queue = q })
                t
                token_of
                n,
          ))
        × ((r ≡ ok tt) ⊎ (l.settings.owner_auto_disable_notice ≡ true))
  unfolding record_bounce ◌>>=◌ pure statement find_first update_rows select update get_subscription
      increment_bounce_count first update_where
  record_bounce-threshold e =
      rw
        (first-update_where (of_member l.id s.subscriber_id) (λ r. r.id == s.id)
          (λ r. record r { bounce_count = suc r.bounce_count }) d.subscriptions.rows s (λ a. refl) e
          (==-refl s.id))
        (at_threshold _)
