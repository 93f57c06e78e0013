-- ===== src/Pipeline/Subscribing.antt =====
-- Subscribe: the request of a double opt-in.
use xlistman.Prelude.{◌+◌, ◌*◌}
use xlistman.Strings.{Text, codes}
use xlistman.Result.{Result, ok, err, said}
use xlistman.Model.{
  MailingList, Subscriber, Subscription, SubscriptionPolicy, closed, SubscriptionStatus, pending,
  active, held, disabled, hour,
}
use xlistman.Env.{Env}
use xlistman.Effects.{M, ◌>>=◌, ◌>>◌, raise, attempt, now}
use xlistman.Store.Lists.{get_list}
use xlistman.Store.Members.{get_or_create_subscriber, get_subscription, create_subscription}
use xlistman.Store.Auth.{create_confirmation_token}
use xlistman.Pipeline.Notices.{enqueue_confirmation}

module _ (env : Env) where
  -- A token for 48 hours, and the message that carries it.
  unfoldable pub send_confirmation : MailingList → Subscriber → Text → M Unit
  send_confirmation l sub email = do
    t ← now
    token ← create_confirmation_token l.id sub.id email (t + 48 * hour)
    enqueue_confirmation env l sub token

  abbrev pub existing_subscription : MailingList → Subscriber → Text → SubscriptionStatus → M Unit
  existing_subscription l sub email pending = send_confirmation l sub email
  existing_subscription l sub email active = raise (said (codes "already subscribed"))
  existing_subscription l sub email held = raise (said (codes "already subscribed"))
  existing_subscription l sub email disabled =
      raise (
        said (codes "already subscribed but disabled; re-enable it via the -request email command"))

  abbrev pub subscription_found : MailingList → Subscriber → Text → Result Subscription → M Unit
  subscription_found l sub email (ok s) = existing_subscription l sub email s.status
  subscription_found l sub email (err _) = do
    create_subscription l.id sub.id
    send_confirmation l sub email

  abbrev pub unless_closed : SubscriptionPolicy → M Unit → M Unit
  unless_closed closed m = raise (said (codes "list is closed for subscriptions"))
  unless_closed _ m = m

  unfoldable pub subscribe : Text → Text → Text → M Unit
  subscribe list_name domain email = do
    sub ← get_or_create_subscriber email
    l ← get_list list_name domain
    unless_closed l.settings.subscription_policy
        (do found ← attempt (get_subscription l.id sub.id); subscription_found l sub email found)
