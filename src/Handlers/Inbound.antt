-- ===== src/Handlers/Inbound.antt =====
-- What the delivery of a message to any address keeps.
use xlistman.Prelude.{ℕ, List, [], ◌∷◌}
use xlistman.Strings.{Text}
use xlistman.Result.{Result, ok, err}
use xlistman.Model.{
  MailingList, Subscriber, Subscription, HeldMessage, SubscriptionStatus, pending, held,
  SubscriptionPolicy, closed, RoleHolder, AuditActor,
}
use xlistman.Address.{
  AddressType, post, request, owner, subscribe, unsubscribe, bounce, confirm, moderate, unknown,
  ParsedAddress,
}
use xlistman.Env.{Env}
use xlistman.Effects.{M}
use xlistman.Effects.Keeps.{
  Relation, IsPreorder, Keeps, Keeps-attempt, Keeps-bind, Keeps-pure, Keeps-raise, Keeps-if,
  keeps_rules,
}
use xlistman.Handlers.Rules.{StoreKeeps, reads, get_or_create-Keeps, get_subscriber_by_id-Keeps}
use xlistman.Handlers.Posts.{
  send_notice-Keeps, confirmation-Keeps, process_post-Keeps, approve_held-Keeps, reject_held-Keeps,
  discard_held-Keeps, flag-Keeps,
}
use xlistman.Handlers.Requests.{request-Keeps, owner_forward-Keeps}
use xlistman.Pipeline.Notices.{notify_subscription_pending}
use xlistman.Pipeline.Subscribing
use xlistman.Pipeline.Bounces.{
  send_disabled_notice, notify_found, notify_owners, notify_owners_auto_disabled, record_bounce,
}
use xlistman.Admin.Members.{require_found}
use xlistman.Lmtp.Handlers.{
  on_ok, handle_unsubscribe, bounced, handle_bounce, tell_if_held, handle_confirm, moderate_by,
  actor_found, handle_moderate, handle, routed, process_recipient,
}

module _ {R : Relation} ⦃o : IsPreorder R⦄ (k : StoreKeeps R) (env : Env) where
  send_confirmation-Keeps :
      (l : MailingList) (s : Subscriber) (email : Text)
      → Keeps R (Subscribing.send_confirmation env l s email)
  unfolding Subscribing.send_confirmation
  send_confirmation-Keeps l s email =
      search (keeps_rules, k.create_token_keeps, confirmation-Keeps) depth 9

  existing-Keeps :
      (l : MailingList) (s : Subscriber) (email : Text) (status : SubscriptionStatus)
      → Keeps R (Subscribing.existing_subscription env l s email status)
  existing-Keeps l s email pending = send_confirmation-Keeps l s email
  existing-Keeps l s email _ = Keeps-raise _

  found-Keeps :
      (l : MailingList) (s : Subscriber) (email : Text) (r : Result Subscription)
      → Keeps R (Subscribing.subscription_found env l s email r)
  found-Keeps l s email (ok sub) = existing-Keeps l s email sub.status
  found-Keeps l s email (err _) =
      Keeps-bind _ _ (k.create_subscription_keeps _ _) (λ _. send_confirmation-Keeps l s email)

  unless_closed-Keeps :
      (p : SubscriptionPolicy) (m : M Unit)
      → Keeps R m
      → Keeps R (Subscribing.unless_closed env p m)
  unless_closed-Keeps closed m h = Keeps-raise _
  unless_closed-Keeps _ m h = h

  pub subscribe-Keeps :
      (name domain email : Text) → Keeps R (Subscribing.subscribe env name domain email)
  unfolding Subscribing.subscribe
  subscribe-Keeps name domain email =
      search (reads, get_or_create-Keeps, unless_closed-Keeps, found-Keeps) depth 12

  on_ok-Keeps :
      {A : Type 0} (r : Result A) (f : A → M Unit) → ((a : A) → Keeps R (f a)) → Keeps R (on_ok r f)
  on_ok-Keeps (ok a) f h = h a
  on_ok-Keeps (err _) f h = Keeps-pure tt

  require_found-Keeps :
      {A B : Type 0} (message : Text) (r : Result A) (f : A → M B)
      → ((a : A) → Keeps R (f a))
      → Keeps R (require_found message r f)
  require_found-Keeps message (ok a) f h = h a
  require_found-Keeps message (err _) f h = Keeps-raise _

  unsubscribe-Keeps : (p : ParsedAddress) (raw : Text) → Keeps R (handle_unsubscribe env p raw)
  unfolding handle_unsubscribe
  unsubscribe-Keeps p raw = search (reads, on_ok-Keeps, k.delete_subscription_keeps) depth 12

  notify_found-Keeps :
      (l : MailingList) (m : Subscriber) (n : ℕ) (r : Result Subscriber)
      → Keeps R (notify_found env l m n r)
  unfolding send_disabled_notice
  notify_found-Keeps l m n (ok owner') = send_notice-Keeps k env _ _ _ _ _
  notify_found-Keeps l m n (err _) = Keeps-pure tt

  notify_owners-Keeps :
      (l : MailingList) (m : Subscriber) (n : ℕ) (seen : List ℕ) (os : List RoleHolder)
      → Keeps R (notify_owners env l m n seen os)
  unfolding notify_owners
  notify_owners-Keeps l m n seen [] = Keeps-pure tt
  notify_owners-Keeps l m n seen (o' ∷ os) = Keeps-if _ _ _ (notify_owners-Keeps l m n seen os) (
      Keeps-bind _ _
        (Keeps-bind _ _ (Keeps-attempt _ (get_subscriber_by_id-Keeps o'.subscriber_id))
          (notify_found-Keeps l m n))
        (λ _. notify_owners-Keeps l m n (o'.subscriber_id ∷ seen) os))

  auto_disabled-Keeps :
      (l : MailingList) (s : Subscription) → Keeps R (notify_owners_auto_disabled env l s)
  unfolding notify_owners_auto_disabled
  auto_disabled-Keeps l s = search (reads, notify_owners-Keeps) depth 9

  pub record_bounce-Keeps : (l : MailingList) (s : Subscription) → Keeps R (record_bounce env l s)
  unfolding record_bounce
  record_bounce-Keeps l s =
      search (reads, k.increment_keeps, k.set_status_keeps, auto_disabled-Keeps) depth 12

  bounced-Keeps : (p : ParsedAddress) (r : Result (Text × Text)) → Keeps R (bounced env p r)
  bounced-Keeps p (err e) = Keeps-raise e
  bounced-Keeps p (ok (_, recipient)) = search (reads, on_ok-Keeps, record_bounce-Keeps) depth 14

  bounce-Keeps : (p : ParsedAddress) → Keeps R (handle_bounce env p)
  unfolding handle_bounce
  bounce-Keeps p = bounced-Keeps p _

  tell_if_held-Keeps :
      (l : MailingList) (id : ℕ) (s : SubscriptionStatus) → Keeps R (tell_if_held env l id s)
  unfolding notify_subscription_pending
  tell_if_held-Keeps l id held =
      Keeps-bind _ _ (Keeps-attempt _ (get_subscriber_by_id-Keeps id))
        (λ found. on_ok-Keeps found _ (λ s. send_notice-Keeps k env _ _ _ _ _))
  tell_if_held-Keeps l id _ = Keeps-pure tt

  pub confirm-Keeps : (p : ParsedAddress) → Keeps R (handle_confirm env p)
  unfolding handle_confirm
  confirm-Keeps p =
      search (reads, require_found-Keeps, k.confirm_keeps, tell_if_held-Keeps, k.delete_token_keeps)
        depth 14

  moderate_by-Keeps :
      (action : Text) (id : ℕ) (actor : AuditActor) → Keeps R (moderate_by env action id actor)
  unfolding moderate_by
  moderate_by-Keeps action id actor = Keeps-if _ _ _ (approve_held-Keeps k env id actor) (
      Keeps-if _ _ _ (reject_held-Keeps k env id actor)
        (Keeps-if _ _ _ (discard_held-Keeps k env id actor) (Keeps-raise _)))

  actor_found-Keeps :
      (l : MailingList) (m : HeldMessage) (raw : Text) (r : Result Subscriber)
      → Keeps R (actor_found env l m raw r)
  actor_found-Keeps l m raw (err _) = Keeps-raise _
  actor_found-Keeps l m raw (ok s) = search (reads, flag-Keeps, moderate_by-Keeps) depth 12

  moderate-Keeps : (p : ParsedAddress) (raw : Text) → Keeps R (handle_moderate env p raw)
  unfolding handle_moderate
  moderate-Keeps p raw = search (reads, require_found-Keeps, actor_found-Keeps) depth 14

  handle-Keeps : (t : AddressType) (p : ParsedAddress) (raw : Text) → Keeps R (handle env t p raw)
  unfolding handle
  handle-Keeps post p raw = process_post-Keeps k env _ _ _ raw
  handle-Keeps subscribe p raw = subscribe-Keeps _ _ _
  handle-Keeps unsubscribe p raw = unsubscribe-Keeps p raw
  handle-Keeps bounce p raw = bounce-Keeps p
  handle-Keeps request p raw = request-Keeps k env p raw
  handle-Keeps owner p raw = owner_forward-Keeps k env p raw
  handle-Keeps confirm p raw = confirm-Keeps p
  handle-Keeps moderate p raw = moderate-Keeps p raw
  handle-Keeps unknown p raw = Keeps-raise _

  routed-Keeps : (r : Result ParsedAddress) (raw : Text) → Keeps R (routed env r raw)
  routed-Keeps (err e) raw = Keeps-raise e
  routed-Keeps (ok p) raw = handle-Keeps p.type p raw

  pub process_recipient-Keeps : (rcpt raw : Text) → Keeps R (process_recipient env rcpt raw)
  unfolding process_recipient
  process_recipient-Keeps rcpt raw = routed-Keeps _ raw
