-- ===== src/Pipeline/Bounces.antt =====
-- RecordBounce: counting delivery failures, and disabling at the list's threshold.
pub mod Threshold
use xlistman.Prelude.{ℕ, List, [], ◌∷◌, ◌++◌, ◌==◌, leb, any, if◌then◌else◌}
use xlistman.Strings.{Text, codes}
use xlistman.Result.{Result, ok, err}
use xlistman.Model.{MailingList, Subscriber, Subscription, RoleHolder, disabled, list_address}
use xlistman.Env.{Env, concat, newline}
use xlistman.Effects.{M, ◌>>=◌, ◌>>◌, pure, attempt}
use xlistman.Store.Members.{
  get_subscriber_by_id, get_subscription, increment_bounce_count, set_subscription_status,
}
use xlistman.Store.Roles.{list_owners}
use xlistman.Pipeline.Notices.{send_notice, notice_reply_to}

module _ (env : Env) where
  unfoldable pub send_disabled_notice : MailingList → Subscriber → ℕ → Subscriber → M Unit
  send_disabled_notice l member count owner =
      send_notice env l owner.email (notice_reply_to l)
        (codes "Subscription disabled by bounces: " ++ member.email)
        (concat (
          codes "The subscription of "
          ∷ member.email
          ∷ codes " to "
          ∷ list_address l
          ∷ codes " was automatically disabled after "
          ∷ env.decimal count
          ∷ codes " bounce(s)."
          ∷ newline
          ∷ codes
              "Re-enable it from the list's Bounces tab, or have the member re-enable it themselves."
          ∷ newline
          ∷ []))

  abbrev pub notify_found : MailingList → Subscriber → ℕ → Result Subscriber → M Unit
  notify_found l member count (ok owner) = send_disabled_notice l member count owner
  notify_found l member count (err _) = pure tt

  -- The loop over the owners, each notified once; `seen` is the map as a list.
  unfoldable pub notify_owners : MailingList → Subscriber → ℕ → List ℕ → List RoleHolder → M Unit
  notify_owners l member count seen [] = pure tt
  notify_owners l member count seen (o ∷ os) =
      let again = notify_owners l member count seen os in
      let first_time =
        (do
          found ← attempt (get_subscriber_by_id o.subscriber_id)
          notify_found l member count found)
        >> notify_owners l member count (o.subscriber_id ∷ seen) os in
      if any (λ s. s == o.subscriber_id) seen then again else first_time

  unfoldable pub notify_owners_auto_disabled : MailingList → Subscription → M Unit
  notify_owners_auto_disabled l subscr = do
    member ← get_subscriber_by_id subscr.subscriber_id
    owners ← list_owners l.id
    notify_owners l member subscr.bounce_count [] owners

  unfoldable pub record_bounce : MailingList → Subscription → M Unit
  record_bounce l subscr = do
    increment_bounce_count subscr.id
    updated ← get_subscription l.id subscr.subscriber_id
    if leb l.settings.bounce_threshold updated.bounce_count
        then (do
          set_subscription_status subscr.id disabled
          if l.settings.owner_auto_disable_notice
              then notify_owners_auto_disabled l updated
              else pure tt)
        else pure tt
