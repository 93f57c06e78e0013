-- ===== src/Store/Members.antt =====
-- Subscribers and subscriptions.
use xlistman.Prelude.{ℕ, suc, Bool, ◌&&◌, none, some, List, [], ◌==◌}
use xlistman.Strings.{Text, text_eq}
use xlistman.Result.{Result, ok, err, not_found}
use xlistman.Model.{
  Subscriber, Subscription, SubscriptionStatus, pending, active, DeliveryMode, regular,
}
use xlistman.Effects.{M, ◌>>=◌, pure, raise, attempt, now}
use xlistman.Store.Access.{
  subscribers, subscriptions, create, find_first, find_all, update_rows, delete_rows,
}

unfoldable pub get_subscriber : Text → M Subscriber
get_subscriber email = find_first subscribers (λ s. text_eq s.email email)

unfoldable pub get_subscriber_by_id : ℕ → M Subscriber
get_subscriber_by_id id = find_first subscribers (λ s. s.id == id)

unfoldable pub create_subscriber : Text → M Subscriber
create_subscriber email = do
  t ← now
  create subscribers (λ s. text_eq s.email email)
      (λ id. record { id = id; email = email; name = []; created_at = t })

abbrev pub found_or_created : Text → Result Subscriber → M Subscriber
found_or_created email (ok s) = pure s
found_or_created email (err not_found) = create_subscriber email
found_or_created email (err e) = raise e

unfoldable pub get_or_create_subscriber : Text → M Subscriber
get_or_create_subscriber email = do
  found ← attempt (get_subscriber email)
  found_or_created email found

abbrev pub of_member : ℕ → ℕ → Subscription → Bool
of_member list_id subscriber_id s = s.list_id == list_id && s.subscriber_id == subscriber_id

unfoldable pub create_subscription : ℕ → ℕ → M Subscription
create_subscription list_id subscriber_id = do
  t ← now
  create subscriptions (of_member list_id subscriber_id) (λ id. record {
    id = id;
    list_id = list_id;
    subscriber_id = subscriber_id;
    delivery_mode = regular;
    status = pending;
    bounce_count = 0;
    confirmed_at = none;
    created_at = t;
  })

unfoldable pub get_subscription : ℕ → ℕ → M Subscription
get_subscription list_id subscriber_id = find_first subscriptions (of_member list_id subscriber_id)

unfoldable pub get_subscription_by_id : ℕ → M Subscription
get_subscription_by_id id = find_first subscriptions (λ s. s.id == id)

unfoldable pub list_subscriptions : ℕ → M (List Subscription)
list_subscriptions list_id = find_all subscriptions (λ s. s.list_id == list_id)

unfoldable pub list_subscriptions_by_subscriber : ℕ → M (List Subscription)
list_subscriptions_by_subscriber subscriber_id =
    find_all subscriptions (λ s. s.subscriber_id == subscriber_id)

unfoldable pub update_subscription_delivery : ℕ → DeliveryMode → M Unit
update_subscription_delivery id mode =
    update_rows subscriptions (λ s. s.id == id) (λ s. record s { delivery_mode = mode })

unfoldable pub set_subscription_status : ℕ → SubscriptionStatus → M Unit
set_subscription_status id status =
    update_rows subscriptions (λ s. s.id == id) (λ s. record s { status = status })

unfoldable pub reenable_subscription : ℕ → M Unit
reenable_subscription id =
    update_rows subscriptions (λ s. s.id == id)
      (λ s. record s { status = active; bounce_count = 0 })

unfoldable pub reset_bounce_count : ℕ → M Unit
reset_bounce_count id =
    update_rows subscriptions (λ s. s.id == id) (λ s. record s { bounce_count = 0 })

unfoldable pub confirm_subscription : ℕ → SubscriptionStatus → M Unit
confirm_subscription id status = do
  t ← now
  update_rows subscriptions (λ s. s.id == id)
      (λ s. record s { status = status; confirmed_at = some t })

unfoldable pub increment_bounce_count : ℕ → M Unit
increment_bounce_count id =
    update_rows subscriptions (λ s. s.id == id)
      (λ s. record s { bounce_count = suc s.bounce_count })

unfoldable pub delete_subscription : ℕ → ℕ → M Unit
delete_subscription list_id subscriber_id =
    delete_rows subscriptions (of_member list_id subscriber_id)
