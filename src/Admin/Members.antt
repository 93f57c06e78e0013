-- ===== src/Admin/Members.antt =====
-- Adding and removing members, and the approval of held subscriptions.
pub mod Approval
use xlistman.Prelude.{ℕ, [], if◌then◌else◌}
use xlistman.Strings.{Text, codes}
use xlistman.Result.{Result, ok, err, said}
use xlistman.Model.{
  MailingList, Subscriber, Subscription, SubscriptionStatus, active, held, AuditActor, member_add,
  member_remove, subscription_approve, subscription_reject,
}
use xlistman.Env.{Env}
use xlistman.Effects.{M, ◌>>=◌, ◌>>◌, pure, raise, attempt}
use xlistman.Store.Lists.{get_list, get_list_by_id}
use xlistman.Store.Members.{
  get_or_create_subscriber, get_subscriber_by_id, get_subscription, create_subscription,
  set_subscription_status, delete_subscription,
}
use xlistman.Pipeline.Notices.{enqueue_welcome, enqueue_goodbye, enqueue_subscription_rejected}
use xlistman.Pipeline.Moderation.{record_audit}

-- if _, err := …; err == nil { return … }
abbrev pub refuse_found : {A B : Type 0} → Text → Result A → M B → M B
refuse_found message (ok _) m = raise (said message)
refuse_found message (err _) m = m

-- if _, err := …; err != nil { return … }
abbrev pub require_found : {A B : Type 0} → Text → Result A → (A → M B) → M B
require_found message (ok a) f = f a
require_found message (err _) f = raise (said message)

-- subscriptionContext
unfoldable pub subscription_context : ℕ → ℕ → M (Subscription × MailingList × Subscriber)
subscription_context list_id subscriber_id = do
  found ← attempt (get_subscription list_id subscriber_id)
  require_found (codes "subscription not found") found λ sub. do
    l ← get_list_by_id list_id
    subscriber ← get_subscriber_by_id subscriber_id
    pure (sub, l, subscriber)

abbrev pub when_held : SubscriptionStatus → M Unit → M Unit
when_held held m = m
when_held _ m = raise (said (codes "subscription is not awaiting approval"))

module _ (env : Env) where
  unfoldable pub add_member : Text → Text → Text → AuditActor → M Subscription
  add_member list_name domain email actor = do
    sub ← get_or_create_subscriber email
    l ← get_list list_name domain
    found ← attempt (get_subscription l.id sub.id)
    refuse_found (codes "already subscribed") found (do
      subscription ← create_subscription l.id sub.id
      set_subscription_status subscription.id active
      if l.settings.welcome_email then enqueue_welcome env l sub else pure tt
      record_audit l member_add actor sub.email []
      pure subscription)

  unfoldable pub remove_member : ℕ → ℕ → AuditActor → M Unit
  remove_member list_id subscriber_id actor = do
    found ← attempt (get_subscription list_id subscriber_id)
    require_found (codes "not subscribed") found λ _. do
      sub ← get_subscriber_by_id subscriber_id
      l ← get_list_by_id list_id
      delete_subscription list_id subscriber_id
      if l.settings.goodbye_email then enqueue_goodbye env l sub else pure tt
      record_audit l member_remove actor sub.email []

  unfoldable pub approve_subscription : ℕ → ℕ → AuditActor → M Unit
  approve_subscription list_id subscriber_id actor = do
    (sub, l, subscriber) ← subscription_context list_id subscriber_id
    when_held sub.status (do
      set_subscription_status sub.id active
      if l.settings.welcome_email then enqueue_welcome env l subscriber else pure tt
      record_audit l subscription_approve actor subscriber.email [])

  unfoldable pub reject_subscription : ℕ → ℕ → AuditActor → M Unit
  reject_subscription list_id subscriber_id actor = do
    (sub, l, subscriber) ← subscription_context list_id subscriber_id
    when_held sub.status (do
      delete_subscription list_id subscriber_id
      enqueue_subscription_rejected env l subscriber
      record_audit l subscription_reject actor subscriber.email [])
