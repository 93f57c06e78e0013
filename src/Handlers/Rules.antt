-- ===== src/Handlers/Rules.antt =====
-- The store's methods that write, and what the handlers that are built from them keep.
use xlistman.Prelude.{ℕ, Bool}
use xlistman.Strings.{Text}
use xlistman.Result.{Result, ok, err, Error}
use xlistman.Model.{Time, Subscriber, SubscriptionStatus, DeliveryMode, RoleHolder, AuditEvent}
use xlistman.Effects.Keeps.{
  Relation, IsPreorder, Keeps, Keeps-statement, Keeps-attempt, Keeps-bind, Keeps-pure, Keeps-raise,
  keeps_rules,
}
use xlistman.Store.Access.{Place, find_first, find_all}
use xlistman.Store.Lists.{get_list, get_list_by_id}
use xlistman.Store.Members.{
  get_subscriber, get_subscriber_by_id, create_subscriber, get_or_create_subscriber,
  found_or_created, create_subscription, get_subscription, list_subscriptions,
  list_subscriptions_by_subscriber, update_subscription_delivery, set_subscription_status,
  reenable_subscription, confirm_subscription, increment_bounce_count, delete_subscription,
}
use xlistman.Store.Roles.{list_role, has_role}
use xlistman.Store.Held.{
  create_held_message, get_held_message_by_token, get_held_message_by_id, delete_held_message,
}
use xlistman.Store.Queue.{enqueue}
use xlistman.Store.Archive.{archive_message}
use xlistman.Store.Auth.{
  create_confirmation_token, get_confirmation_token, delete_confirmation_token,
}
use xlistman.Store.Audit.{create_audit_event}

pub record StoreKeeps (R : Relation) : Type 0 where
  pub create_subscriber_keeps : (email : Text) → Keeps R (create_subscriber email)
  pub create_subscription_keeps : (l s : ℕ) → Keeps R (create_subscription l s)
  pub update_delivery_keeps :
      (id : ℕ) (mode : DeliveryMode) → Keeps R (update_subscription_delivery id mode)
  pub set_status_keeps :
      (id : ℕ) (status : SubscriptionStatus) → Keeps R (set_subscription_status id status)
  pub reenable_keeps : (id : ℕ) → Keeps R (reenable_subscription id)
  pub confirm_keeps :
      (id : ℕ) (status : SubscriptionStatus) → Keeps R (confirm_subscription id status)
  pub increment_keeps : (id : ℕ) → Keeps R (increment_bounce_count id)
  pub delete_subscription_keeps : (l s : ℕ) → Keeps R (delete_subscription l s)
  pub create_held_keeps :
      (l : ℕ) (sender subject body : Text) (t : Time)
      → Keeps R (create_held_message l sender subject body t)
  pub delete_held_keeps : (id : ℕ) → Keeps R (delete_held_message id)
  pub enqueue_keeps :
      (l : ℕ) (from to body envelope sender : Text)
      → Keeps R (enqueue l from to body envelope sender)
  pub archive_keeps :
      (l : ℕ) (id subject from body thread text : Text)
      → Keeps R (archive_message l id subject from body thread text)
  pub create_token_keeps :
      (l s : ℕ) (email : Text) (t : Time) → Keeps R (create_confirmation_token l s email t)
  pub delete_token_keeps : (token : Text) → Keeps R (delete_confirmation_token token)
  pub audit_keeps : (event : ℕ → AuditEvent) → Keeps R (create_audit_event event)

-- The methods that only read.
module _ {R : Relation} ⦃o : IsPreorder R⦄ where
  pub find_first-Keeps :
      {A : Type 0} (place : Place A) (p : A → Bool) → Keeps R (find_first place p)
  unfolding find_first
  find_first-Keeps place p = Keeps-statement _ o.stay

  pub find_all-Keeps : {A : Type 0} (place : Place A) (p : A → Bool) → Keeps R (find_all place p)
  unfolding find_all
  find_all-Keeps place p = Keeps-statement _ o.stay

  pub get_list-Keeps : (name domain : Text) → Keeps R (get_list name domain)
  unfolding get_list
  get_list-Keeps name domain = Keeps-statement _ o.stay

  pub get_list_by_id-Keeps : (id : ℕ) → Keeps R (get_list_by_id id)
  unfolding get_list_by_id
  get_list_by_id-Keeps id = Keeps-statement _ o.stay

  pub has_role-Keeps : (place : Place RoleHolder) (l s : ℕ) → Keeps R (has_role place l s)
  unfolding has_role
  has_role-Keeps place l s = Keeps-statement _ o.stay

  pub list_role-Keeps : (place : Place RoleHolder) (l : ℕ) → Keeps R (list_role place l)
  unfolding list_role
  list_role-Keeps place l = find_all-Keeps _ _

  pub get_subscriber-Keeps : (email : Text) → Keeps R (get_subscriber email)
  unfolding get_subscriber
  get_subscriber-Keeps email = find_first-Keeps _ _

  pub get_subscriber_by_id-Keeps : (id : ℕ) → Keeps R (get_subscriber_by_id id)
  unfolding get_subscriber_by_id
  get_subscriber_by_id-Keeps id = find_first-Keeps _ _

  pub get_subscription-Keeps : (l s : ℕ) → Keeps R (get_subscription l s)
  unfolding get_subscription
  get_subscription-Keeps l s = find_first-Keeps _ _

  pub list_subscriptions-Keeps : (l : ℕ) → Keeps R (list_subscriptions l)
  unfolding list_subscriptions
  list_subscriptions-Keeps l = find_all-Keeps _ _

  pub list_subscriptions_by_subscriber-Keeps :
      (s : ℕ) → Keeps R (list_subscriptions_by_subscriber s)
  unfolding list_subscriptions_by_subscriber
  list_subscriptions_by_subscriber-Keeps s = find_all-Keeps _ _

  pub get_held_by_token-Keeps : (token : Text) → Keeps R (get_held_message_by_token token)
  unfolding get_held_message_by_token
  get_held_by_token-Keeps token = find_first-Keeps _ _

  pub get_held_by_id-Keeps : (id : ℕ) → Keeps R (get_held_message_by_id id)
  unfolding get_held_message_by_id
  get_held_by_id-Keeps id = find_first-Keeps _ _

  pub get_token-Keeps : (token : Text) → Keeps R (get_confirmation_token token)
  unfolding get_confirmation_token
  get_token-Keeps token = find_first-Keeps _ _

module _ {R : Relation} ⦃o : IsPreorder R⦄ (k : StoreKeeps R) where
  found_or_created-Keeps :
      (email : Text) (r : Result Subscriber) → Keeps R (found_or_created email r)
  found_or_created-Keeps email (ok s) = Keeps-pure s
  found_or_created-Keeps email (err Error.not_found) = k.create_subscriber_keeps email
  found_or_created-Keeps email (err e) = Keeps-raise e

  pub get_or_create-Keeps : (email : Text) → Keeps R (get_or_create_subscriber email)
  unfolding get_or_create_subscriber
  get_or_create-Keeps email =
      Keeps-bind _ _ (Keeps-attempt _ (get_subscriber-Keeps email)) (found_or_created-Keeps email)

pub ruleset reads = (
  get_list-Keeps, get_list_by_id-Keeps, has_role-Keeps, list_role-Keeps, get_subscriber-Keeps,
  get_subscriber_by_id-Keeps, get_subscription-Keeps, list_subscriptions-Keeps,
  list_subscriptions_by_subscriber-Keeps, get_held_by_token-Keeps, get_held_by_id-Keeps,
  get_token-Keeps, keeps_rules,
)
