-- ===== src/Handlers/Posts.antt =====
-- What posts and held messages keep.
use xlistman.Prelude.{ℕ, Bool, true, false, List, [], ◌∷◌, Option, none, some}
use xlistman.Strings.{Text}
use xlistman.Result.{Result, ok, err}
use xlistman.Model.{
  MailingList, Subscriber, Subscription, HeldMessage, RoleHolder, AuditActor, Action,
}
use xlistman.Policy.{PostAction, accept, hold, reject}
use xlistman.Env.{Env}
use xlistman.Effects.{M}
use xlistman.Effects.Keeps.{
  Relation, IsPreorder, Keeps, Keeps-attempt, Keeps-bind, Keeps-pure, Keeps-if, Keeps-wrap,
  Keeps-now, keeps_rules,
}
use xlistman.Handlers.Rules.{StoreKeeps, reads}
use xlistman.Pipeline.Notices.{
  build_notice, send_notice, enqueue_confirmation, send_template, notify_sender_held,
  reject_message,
}
use xlistman.Pipeline.Delivery.{
  deliver_modified, deliver_encoded, deliver_to, deliver_found, deliver_one, deliver_to_list,
}
use xlistman.Pipeline.Moderation.{
  record_audit, add_recipient, add_recipients, add_found, build_moderation_notice, notify_moderator,
  notify_moderators, hold_message, held_context, approve_held, reject_held, discard_held,
  Recipients,
}
use xlistman.Pipeline.Posting.{
  flag, roles_of, non_subscriber_found, non_subscriber, subscriber_on, standing_of, sender_standing,
  perform, process_post,
}

module _ {R : Relation} ⦃o : IsPreorder R⦄ (k : StoreKeeps R) (env : Env) where
  pub build_notice-Keeps : (a b c d e : Text) → Keeps R (build_notice env a b c d e)
  unfolding build_notice
  build_notice-Keeps a b c d e = search keeps_rules

  pub send_notice-Keeps : (l : MailingList) (a b c d : Text) → Keeps R (send_notice env l a b c d)
  unfolding send_notice
  send_notice-Keeps l a b c d =
      Keeps-bind _ _ (build_notice-Keeps _ _ _ _ _) (λ body. k.enqueue_keeps _ _ _ _ _ _)

  pub confirmation-Keeps :
      (l : MailingList) (s : Subscriber) (t : Text) → Keeps R (enqueue_confirmation env l s t)
  unfolding enqueue_confirmation
  confirmation-Keeps l s t = Keeps-bind _ _ Keeps-now (λ t. k.enqueue_keeps _ _ _ _ _ _)

  pub send_template-Keeps :
      (l : MailingList) (a b c d : Text) → Keeps R (send_template env l a b c d)
  unfolding send_template
  send_template-Keeps l a b c d = send_notice-Keeps _ _ _ _ _

  pub reject_message-Keeps :
      (l : MailingList) (sender reason : Text) → Keeps R (reject_message env l sender reason)
  unfolding reject_message
  reject_message-Keeps l sender reason = k.enqueue_keeps _ _ _ _ _ _

  deliver_modified-Keeps :
      (l : MailingList) (sender email verp_addr : Text) (m : Option Text)
      → Keeps R (deliver_modified env l sender email verp_addr m)
  deliver_modified-Keeps l sender email verp_addr none = Keeps-pure tt
  deliver_modified-Keeps l sender email verp_addr (some body) =
      Keeps-bind _ _ (Keeps-attempt _ (k.enqueue_keeps _ _ _ _ _ _)) (λ _. Keeps-pure tt)

  deliver_encoded-Keeps :
      (l : MailingList) (sender raw email : Text) (r : Result Text)
      → Keeps R (deliver_encoded env l sender raw email r)
  deliver_encoded-Keeps l sender raw email (err _) = Keeps-pure tt
  deliver_encoded-Keeps l sender raw email (ok v) = deliver_modified-Keeps l sender email v _

  deliver_to-Keeps :
      (l : MailingList) (sender raw : Text) (s : Subscriber)
      → Keeps R (deliver_to env l sender raw s)
  unfolding deliver_to
  deliver_to-Keeps l sender raw s =
      Keeps-if _ _ _ (Keeps-pure tt) (deliver_encoded-Keeps l sender raw s.email _)

  deliver_found-Keeps :
      (l : MailingList) (sender raw : Text) (r : Result Subscriber)
      → Keeps R (deliver_found env l sender raw r)
  deliver_found-Keeps l sender raw (ok s) = deliver_to-Keeps l sender raw s
  deliver_found-Keeps l sender raw (err _) = Keeps-pure tt

  deliver_one-Keeps :
      (l : MailingList) (sender raw : Text) (s : Subscription)
      → Keeps R (deliver_one env l sender raw s)
  unfolding deliver_one
  deliver_one-Keeps l sender raw s = search (reads, deliver_found-Keeps)

  pub deliver_to_list-Keeps :
      (l : MailingList) (sender raw : Text) → Keeps R (deliver_to_list env l sender raw)
  unfolding deliver_to_list
  deliver_to_list-Keeps l sender raw = search (reads, k.archive_keeps, deliver_one-Keeps)

  pub record_audit-Keeps :
      (l : MailingList) (action : Action) (actor : AuditActor) (target detail : Text)
      → Keeps R (record_audit l action actor target detail)
  unfolding record_audit
  record_audit-Keeps l action actor target detail =
      Keeps-bind _ _ Keeps-now (λ t. Keeps-wrap _ _ (k.audit_keeps _))

  add_recipient-Keeps : (to : Recipients) (id : ℕ) → Keeps R (add_recipient to id)
  unfolding add_recipient
  add_recipient-Keeps (seen, emails) id = search reads

  add_recipients-Keeps : (to : Recipients) (rs : List RoleHolder) → Keeps R (add_recipients to rs)
  unfolding add_recipients
  add_recipients-Keeps to [] = Keeps-pure to
  add_recipients-Keeps to (r ∷ rs) =
      Keeps-bind _ _ (add_recipient-Keeps to r.subscriber_id) (λ to'. add_recipients-Keeps to' rs)

  add_found-Keeps : (to : Recipients) (r : Result (List RoleHolder)) → Keeps R (add_found to r)
  add_found-Keeps to (ok rs) = add_recipients-Keeps to rs
  add_found-Keeps to (err _) = Keeps-pure to

  moderation_notice-Keeps : (a b c d e f : Text) → Keeps R (build_moderation_notice env a b c d e f)
  unfolding build_moderation_notice
  moderation_notice-Keeps a b c d e f = search keeps_rules

  notify_moderator-Keeps :
      (l : MailingList) (m : HeldMessage) (to : Text) → Keeps R (notify_moderator env l m to)
  unfolding notify_moderator
  notify_moderator-Keeps l m to =
      Keeps-bind _ _ (moderation_notice-Keeps _ _ _ _ _ _) (λ body. k.enqueue_keeps _ _ _ _ _ _)

  notify_moderators-Keeps :
      (l : MailingList) (m : HeldMessage) → Keeps R (notify_moderators env l m)
  unfolding notify_moderators
  notify_moderators-Keeps l m = search (reads, add_found-Keeps, notify_moderator-Keeps) depth 9

  notify_sender-Keeps :
      (l : MailingList) (sender subject : Text) → Keeps R (notify_sender_held env l sender subject)
  unfolding notify_sender_held
  notify_sender-Keeps l sender subject = send_template-Keeps _ _ _ _ _

  pub hold_message-Keeps :
      (l : MailingList) (sender raw : Text) → Keeps R (hold_message env l sender raw)
  unfolding hold_message
  hold_message-Keeps l sender raw =
      search (reads, k.create_held_keeps, notify_moderators-Keeps, notify_sender-Keeps) depth 9

  held_context-Keeps : (id : ℕ) → Keeps R (held_context env id)
  unfolding held_context
  held_context-Keeps id = search reads depth 9

  pub approve_held-Keeps : (id : ℕ) (actor : AuditActor) → Keeps R (approve_held env id actor)
  unfolding approve_held
  approve_held-Keeps id actor =
      search
        (reads, k.delete_held_keeps, held_context-Keeps, deliver_to_list-Keeps, record_audit-Keeps)
        depth 9

  pub reject_held-Keeps : (id : ℕ) (actor : AuditActor) → Keeps R (reject_held env id actor)
  unfolding reject_held
  reject_held-Keeps id actor =
      search
        (reads, k.delete_held_keeps, held_context-Keeps, reject_message-Keeps, record_audit-Keeps)
        depth 9

  pub discard_held-Keeps : (id : ℕ) (actor : AuditActor) → Keeps R (discard_held env id actor)
  unfolding discard_held
  discard_held-Keeps id actor =
      search (reads, k.delete_held_keeps, held_context-Keeps, record_audit-Keeps) depth 9

  pub flag-Keeps : (m : M Bool) → Keeps R m → Keeps R (flag m)
  unfolding flag
  flag-Keeps m h = Keeps-bind _ _ (Keeps-attempt m h) (λ r. Keeps-pure _)

  roles_of-Keeps : (l : MailingList) (id : ℕ) (b : Bool) → Keeps R (roles_of l id b)
  unfolding roles_of
  roles_of-Keeps l id b = search (reads, flag-Keeps) depth 7

  non_subscriber_found-Keeps :
      (l : MailingList) (r : Result Subscriber) → Keeps R (non_subscriber_found l r)
  non_subscriber_found-Keeps l (ok s) = roles_of-Keeps l s.id false
  non_subscriber_found-Keeps l (err _) = Keeps-pure _

  non_subscriber-Keeps : (l : MailingList) (sender : Text) → Keeps R (non_subscriber l sender)
  unfolding non_subscriber
  non_subscriber-Keeps l sender = search (reads, non_subscriber_found-Keeps)

  subscriber_on-Keeps :
      (l : MailingList) (sender : Text) (id : ℕ) (r : Result Subscription)
      → Keeps R (subscriber_on l sender id r)
  subscriber_on-Keeps l sender id (ok _) = roles_of-Keeps l id true
  subscriber_on-Keeps l sender id (err _) = non_subscriber-Keeps l sender

  standing_of-Keeps :
      (l : MailingList) (sender : Text) (r : Result Subscriber) → Keeps R (standing_of l sender r)
  standing_of-Keeps l sender (ok s) = search (reads, subscriber_on-Keeps)
  standing_of-Keeps l sender (err _) = non_subscriber-Keeps l sender

  pub sender_standing-Keeps : (l : MailingList) (sender : Text) → Keeps R (sender_standing l sender)
  unfolding sender_standing
  sender_standing-Keeps l sender = search (reads, standing_of-Keeps)

  perform-Keeps :
      (a : PostAction) (l : MailingList) (sender raw : Text) → Keeps R (perform env a l sender raw)
  unfolding perform
  perform-Keeps accept l sender raw = deliver_to_list-Keeps l sender raw
  perform-Keeps hold l sender raw = hold_message-Keeps l sender raw
  perform-Keeps reject l sender raw = reject_message-Keeps l sender []

  pub process_post-Keeps :
      (name domain sender raw : Text) → Keeps R (process_post env name domain sender raw)
  unfolding process_post
  process_post-Keeps name domain sender raw =
      search (reads, sender_standing-Keeps, perform-Keeps, reject_message-Keeps) depth 9
