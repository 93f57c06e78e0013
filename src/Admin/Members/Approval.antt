-- ===== src/Admin/Members/Approval.antt =====
-- Only a subscription that is held is approved or rejected.
use xlistman.Prelude.{ℕ, ◌≡◌, ◌≢◌, refl, some, first, ◌==◌}
use xlistman.Strings.{codes}
use xlistman.Result.{err, said}
use xlistman.Model.{
  Time, MailingList, Subscriber, Subscription, SubscriptionStatus, pending, active, held, disabled,
  AuditActor,
}
use xlistman.Strings.{Text}
use xlistman.Env.{Env}
use xlistman.Effects.Tables.{Db, select}
use xlistman.Effects.{M, World, healthy, statement, attempt, pure, raise, ◌>>=◌}
use xlistman.Store.Access.{find_first}
use xlistman.Store.Lists.{get_list_by_id, joined, joined_lists}
use xlistman.Store.Members.{of_member, get_subscription, get_subscriber_by_id}
use xlistman.Admin.Members.{
  subscription_context, when_held, approve_subscription, reject_subscription,
}

not_held :
    (status : SubscriptionStatus) (m : M Unit) (w : World)
    → status ≢ held
    → when_held status m w ≡ (err (said (codes "subscription is not awaiting approval")), w)
unfolding raise
not_held pending m w h = refl
not_held active m w h = refl
not_held held m w h = absurd (h refl)
not_held disabled m w h = refl

module _ (env : Env) (list_id subscriber_id : ℕ) (actor : AuditActor) (sub : Subscription)
    (l : MailingList) (s : Subscriber) (d : Db) (t : Time) (token_of : ℕ → Text) (n : ℕ) where
  -- ApproveSubscription and RejectSubscription refuse a subscription that is there but not held,
  -- and neither changes anything: no status, no queued notice, no audit event. The database
  -- refuses nothing.
  pub approval-refused :
      first (of_member list_id subscriber_id) d.subscriptions.rows ≡ some sub
      → first (λ l. l.id == list_id) (joined_lists d) ≡ some l
      → first (λ s. s.id == subscriber_id) d.subscribers.rows ≡ some s
      → sub.status ≢ held
      → (approve_subscription env list_id subscriber_id actor (healthy d t token_of n)
          ≡ (err (said (codes "subscription is not awaiting approval")), healthy d t token_of n))
        × (reject_subscription env list_id subscriber_id actor (healthy d t token_of n)
            ≡ (err (said (codes "subscription is not awaiting approval")), healthy d t token_of n))
  unfolding approve_subscription reject_subscription subscription_context attempt pure ◌>>=◌
      statement find_first select get_subscription get_list_by_id get_subscriber_by_id first joined
  approval-refused e f g h = (
    rw (e, f, g) (not_held sub.status _ (healthy d t token_of n) h),
    rw (e, f, g) (not_held sub.status _ (healthy d t token_of n) h),
  )
