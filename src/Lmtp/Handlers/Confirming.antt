-- ===== src/Lmtp/Handlers/Confirming.antt =====
-- What a confirmation does.
use xlistman.Prelude.{ℕ, ◌≡◌, refl, some, ◌==◌, first}
use xlistman.Strings.{Text, text_eq}
use xlistman.Result.{Result, ok, err}
use xlistman.Model.{
  Time, ConfirmationToken, Subscriber, Subscription, SubscriptionPolicy, SubscriptionStatus,
  MailingList, QueuedMessage, open_policy, moderated, closed, active, held, pending, disabled,
}
use xlistman.Address.{ParsedAddress}
use xlistman.Env.{Env}
use xlistman.Effects.Tables.{Db, Table, update, delete, select}
use xlistman.Effects.{healthy, statement, attempt, pure, now, ◌>>=◌}
use xlistman.Store.Access.{find_first, update_rows, delete_rows}
use xlistman.Store.Lists.{get_list_by_id, joined, joined_lists}
use xlistman.Store.Members.{of_member, get_subscriber_by_id, get_subscription, confirm_subscription}
use xlistman.Store.Auth.{get_confirmation_token, delete_confirmation_token}
use xlistman.Pipeline.Notices.{notify_subscription_pending}
use xlistman.Pipeline.Notices.Queueing.{send_notice-queued}
use xlistman.Lmtp.Handlers.{on_ok, confirmed_status, tell_if_held, handle_confirm}

-- What a list of the policy makes of a confirmed subscription: the owners of a moderated list decide.
abbrev pub status_under : SubscriptionPolicy → SubscriptionStatus
status_under open_policy = active
status_under closed = active
status_under moderated = held

status-under : (policy : SubscriptionPolicy) → confirmed_status policy ≡ status_under policy
unfolding confirmed_status
status-under open_policy = refl
status-under closed = refl
status-under moderated = refl

module _ (env : Env) (l : MailingList) (d : Db) (t : Time) (token_of : ℕ → Text) (n : ℕ) where
  found-told :
      (found : Result Subscriber)
      → (q : Table QueuedMessage) × (on_ok found
            (notify_subscription_pending env l)
            (healthy d t token_of n)
          ≡ (ok tt, healthy (record d { queue = q }) t token_of n))
  unfolding notify_subscription_pending pure
  found-told (ok s) = send_notice-queued env l _ _ _ _ d t token_of n
  found-told (err e) = (d.queue, refl)

  told :
      (id : ℕ) (status : SubscriptionStatus)
      → (q : Table QueuedMessage) × (tell_if_held env l id status (healthy d t token_of n)
          ≡ (ok tt, healthy (record d { queue = q }) t token_of n))
  unfolding get_subscriber_by_id find_first statement attempt pure ◌>>=◌
  told id held = found-told (select (λ s. s.id == id) d.subscribers)
  told id active = (d.queue, refl)
  told id pending = (d.queue, refl)
  told id disabled = (d.queue, refl)

-- A confirmation of a token that is there, on a list that is there and in a database that refuses
-- nothing: the token's subscription becomes active, or held where the list's policy is moderated,
-- whatever the token's expiry says and whatever the status of the subscription was. The token is
-- removed, and nothing else changes but the queue, which may have a notice.
pub handle_confirm-confirmed :
    (env : Env) (p : ParsedAddress) (d : Db) (t : Time) (token_of : ℕ → Text) (n : ℕ)
    (ct : ConfirmationToken) (sub : Subscription) (l : MailingList)
    → first (λ c. text_eq c.token p.encoded_part) d.confirmation_tokens.rows ≡ some ct
    → first (of_member ct.list_id ct.subscriber_id) d.subscriptions.rows ≡ some sub
    → first (λ l. l.id == ct.list_id) (joined_lists d) ≡ some l
    → (q : Table QueuedMessage) × (handle_confirm env p (healthy d t token_of n) ≡ (
      ok tt,
      healthy
          (record d {
            subscriptions =
                update
                  (λ s. s.id == sub.id)
                  (λ s. record s {
                    status = status_under l.settings.subscription_policy;
                    confirmed_at = some t;
                  })
                  d.subscriptions;
            confirmation_tokens =
                delete (λ c. text_eq c.token p.encoded_part) d.confirmation_tokens;
            queue = q;
          })
          t
          token_of
          n,
    ))
unfolding handle_confirm attempt ◌>>=◌ pure now statement find_first update_rows delete_rows select
    get_confirmation_token get_subscription get_list_by_id confirm_subscription
    delete_confirmation_token first update delete joined
handle_confirm-confirmed env p d t token_of n ct sub l e f g =
    let (q, sent) =
      told env l
        (record d {
          subscriptions =
              update (λ s. s.id == sub.id)
                (λ s. record s {
                  status = status_under l.settings.subscription_policy;
                  confirmed_at = some t;
                })
                d.subscriptions;
        })
        t token_of n sub.subscriber_id (status_under l.settings.subscription_policy) in
    (q, rw (e, f, g, status-under l.settings.subscription_policy, sent) refl)
