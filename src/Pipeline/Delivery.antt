-- ===== src/Pipeline/Delivery.antt =====
-- deliverToList: the post goes to the archive and to each regular subscriber.
pub mod Recipients
use xlistman.Prelude.{Bool, true, false, [], ◌∷◌, Option, none, some, if◌then◌else◌}
use xlistman.Strings.{Text, codes}
use xlistman.Result.{Result, ok, err}
use xlistman.Model.{
  MailingList, Subscriber, Subscription, SubscriptionStatus, active, DeliveryMode, regular, digest,
  list_address,
}
use xlistman.Headers.{extract_subject, extract_header, extract_thread_id}
use xlistman.Verp.{encode_verp}
use xlistman.Env.{Env, concat}
use xlistman.Effects.{M, ◌>>=◌, ◌>>◌, pure, wrap, attempt, for_each}
use xlistman.Store.Members.{list_subscriptions, get_subscriber_by_id}
use xlistman.Store.Queue.{enqueue}
use xlistman.Store.Archive.{archive_message}

abbrev pub is_active : SubscriptionStatus → Bool
is_active active = true
is_active _ = false

abbrev pub is_regular : DeliveryMode → Bool
is_regular regular = true
is_regular _ = false

abbrev pub is_digest : DeliveryMode → Bool
is_digest digest = true
is_digest _ = false

module _ (env : Env) where
  unfoldable pub unsubscribe_url : MailingList → Text → Text
  unsubscribe_url l email = concat (
      env.web_base_url ∷ codes "/unsubscribe?list=" ∷ list_address l ∷ codes "&email=" ∷ email ∷ [])

  abbrev pub deliver_modified : MailingList → Text → Text → Text → Option Text → M Unit
  deliver_modified l sender email verp_addr none = pure tt
  deliver_modified l sender email verp_addr (some modified) = do
    attempt (enqueue l.id (list_address l) email modified verp_addr sender)
    pure tt

  abbrev pub deliver_encoded : MailingList → Text → Text → Text → Result Text → M Unit
  deliver_encoded l sender raw email (err _) = pure tt
  deliver_encoded l sender raw email (ok verp_addr) =
      deliver_modified l sender email verp_addr (env.modify_message l (unsubscribe_url l email) raw)

  -- The end of the loop's body, behind the lookup of the subscriber. Every error is a `continue`.
  unfoldable pub deliver_to : MailingList → Text → Text → Subscriber → M Unit
  deliver_to l sender raw subscriber =
      if env.equal_fold subscriber.email sender
      then pure tt
      else deliver_encoded l sender raw subscriber.email
          (encode_verp (list_address l) subscriber.email)

  abbrev pub deliver_found : MailingList → Text → Text → Result Subscriber → M Unit
  deliver_found l sender raw (ok subscriber) = deliver_to l sender raw subscriber
  deliver_found l sender raw (err _) = pure tt

  unfoldable pub deliver_one : MailingList → Text → Text → Subscription → M Unit
  deliver_one l sender raw sub =
      if is_active sub.status
      then (if is_regular sub.delivery_mode
          then (do
            found ← attempt (get_subscriber_by_id sub.subscriber_id)
            deliver_found l sender raw found)
          else pure tt)
      else pure tt

  unfoldable pub deliver_to_list : MailingList → Text → Text → M Unit
  deliver_to_list l sender raw = do
    wrap (codes "archive message") (
        archive_message l.id (extract_header raw (codes "Message-ID")) (extract_subject raw) sender
          raw (extract_thread_id raw) (env.extract_text raw))
    subs ← wrap (codes "list subscriptions") (list_subscriptions l.id)
    for_each subs (deliver_one l sender raw)
