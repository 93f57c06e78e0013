-- ===== src/Lmtp/Handlers.antt =====
-- processRecipient and the handlers of the other addresses.
pub mod Confirming
pub mod Attribution
pub mod Moderating
use xlistman.Prelude.{ℕ, Bool, ◌||◌, Option, none, some, List, [], ◌∷◌, ◌==◌, ltb, if◌then◌else◌}
use xlistman.Strings.{Text, codes, text_eq}
use xlistman.Result.{Result, ok, err, said, said_of}
use xlistman.Model.{
  MailingList, Subscriber, Subscription, HeldMessage, SubscriptionStatus, pending, active, held,
  disabled, SubscriptionPolicy, open_policy, moderated, closed, AuditActor, AuditActorKind,
  list_address,
}
use xlistman.Address.{
  AddressType, post, request, owner, subscribe, unsubscribe, bounce, confirm, moderate, unknown,
  ParsedAddress, parse_address,
}
use xlistman.Verp.{decode_verp, marker}
use xlistman.Headers.{trim_start, trim_end}
use xlistman.Env.{Env, Message, concat}
use xlistman.Effects.{M, ◌>>=◌, ◌>>◌, pure, raise, attempt, now}
use xlistman.Store.Lists.{get_list, get_list_by_id}
use xlistman.Store.Members.{
  get_subscriber, get_subscriber_by_id, get_subscription, delete_subscription, confirm_subscription,
}
use xlistman.Store.Roles.{is_owner, is_moderator}
use xlistman.Store.Held.{get_held_message_by_token}
use xlistman.Store.Auth.{get_confirmation_token, delete_confirmation_token}
use xlistman.Pipeline.Notices.{notify_subscription_pending}
use xlistman.Pipeline.Moderation.{approve_held, reject_held, discard_held}
use xlistman.Pipeline.Posting.{flag, process_post}
use xlistman.Pipeline.Subscribing
use xlistman.Pipeline.Bounces.{record_bounce}
use xlistman.Admin.Members.{require_found}
use xlistman.Lmtp.Request.{
  split_from, unquoted_lines, sender_of, handle_request, handle_owner_forward,
}

abbrev pub on_ok : {A : Type 0} → Result A → (A → M Unit) → M Unit
on_ok (ok a) f = f a
on_ok (err _) f = pure tt

-- strings.Trim(w, ",;")
unfoldable pub trim_marks : Text → Text
trim_marks w = trim_end (λ c. c == b',' || c == b';') (trim_start (λ c. c == b',' || c == b';') w)

-- The status that a confirmation gives.
unfoldable pub confirmed_status : SubscriptionPolicy → SubscriptionStatus
confirmed_status moderated = held
confirmed_status _ = active

module _ (env : Env) where
  unfoldable pub handle_unsubscribe : ParsedAddress → Text → M Unit
  handle_unsubscribe p raw = do
    found ← attempt (get_subscriber (sender_of env raw))
    on_ok found λ sub. do l ← get_list p.list_name p.domain; delete_subscription l.id sub.id

  abbrev pub bounced : ParsedAddress → Result (Text × Text) → M Unit
  bounced p (err e) = raise e
  bounced p (ok (_, recipient_addr)) = do
    found ← attempt (get_subscriber recipient_addr)
    on_ok found λ sub. do
      l ← get_list p.list_name p.domain
      subscr ← attempt (get_subscription l.id sub.id)
      on_ok subscr (record_bounce env l)

  unfoldable pub handle_bounce : ParsedAddress → M Unit
  handle_bounce p =
      bounced p
        (decode_verp (concat (p.list_name ∷ marker ∷ p.encoded_part ∷ codes "@" ∷ p.domain ∷ [])))

  abbrev pub tell_if_held : MailingList → ℕ → SubscriptionStatus → M Unit
  tell_if_held l id held = do
    found ← attempt (get_subscriber_by_id id)
    on_ok found (notify_subscription_pending env l)
  tell_if_held l id _ = pure tt

  unfoldable pub handle_confirm : ParsedAddress → M Unit
  handle_confirm p = do
    found ← attempt (get_confirmation_token p.encoded_part)
    require_found (codes "invalid or expired token") found λ ct. do
      sub ← get_subscription ct.list_id ct.subscriber_id
      l ← get_list_by_id ct.list_id
      confirm_subscription sub.id (confirmed_status l.settings.subscription_policy)
      tell_if_held l sub.subscriber_id (confirmed_status l.settings.subscription_policy)
      delete_confirmation_token p.encoded_part

  abbrev pub first_word : List Text → Option Text
  first_word [] = none
  first_word (w ∷ ws) = some w

  unfoldable pub moderation_word : List Text → Text
  moderation_word [] = []
  moderation_word (line ∷ lines) = elim (first_word (env.fields line)) [
    | some w ↦ env.to_lower (trim_marks w)
    | none ↦ moderation_word lines
  ]

  unfoldable pub moderation_action : Text → Text
  moderation_action raw = elim (env.read_message raw) [
    | none ↦ []
    | some msg ↦ moderation_word (unquoted_lines env (split_from [] msg.body))
  ]

  unfoldable pub moderate_by : Text → ℕ → AuditActor → M Unit
  moderate_by action held_id actor =
      if text_eq action (codes "approve")
      then approve_held env held_id actor
      else if text_eq action (codes "reject")
      then reject_held env held_id actor
      else if text_eq action (codes "discard")
      then discard_held env held_id actor
      else raise (said (codes "unknown moderation action (use approve, reject, or discard)"))

  abbrev pub not_a_moderator : {A : Type 0} → MailingList → M A
  not_a_moderator l = raise (said_of (codes "not an owner or moderator") (list_address l))

  abbrev pub actor_found : MailingList → HeldMessage → Text → Result Subscriber → M Unit
  actor_found l m raw (err _) = not_a_moderator l
  actor_found l m raw (ok sub) = do
    owns ← flag (is_owner l.id sub.id)
    moderates ← flag (is_moderator l.id sub.id)
    if owns || moderates
        then moderate_by (moderation_action raw) m.id (record {
          kind = AuditActorKind.subscriber;
          id = sub.id;
          email = sub.email;
          detail = [];
        })
        else not_a_moderator l

  unfoldable pub handle_moderate : ParsedAddress → Text → M Unit
  handle_moderate p raw = do
    found ← attempt (get_held_message_by_token p.encoded_part)
    require_found (codes "invalid moderation token") found λ m. do
      t ← now
      if ltb m.expires_at t then raise (said (codes "held message has expired")) else do
        l ← get_list_by_id m.list_id
        sub ← attempt (get_subscriber (sender_of env raw))
        actor_found l m raw sub

  unfoldable pub handle : AddressType → ParsedAddress → Text → M Unit
  handle post p raw = process_post env p.list_name p.domain (sender_of env raw) raw
  handle subscribe p raw = Subscribing.subscribe env p.list_name p.domain (sender_of env raw)
  handle unsubscribe p raw = handle_unsubscribe p raw
  handle bounce p raw = handle_bounce p
  handle request p raw = handle_request env p raw
  handle owner p raw = handle_owner_forward env p raw
  handle confirm p raw = handle_confirm p
  handle moderate p raw = handle_moderate p raw
  handle unknown p raw = raise (said (codes "unknown address type"))

  abbrev pub routed : Result ParsedAddress → Text → M Unit
  routed (err e) raw = raise e
  routed (ok p) raw = handle p.type p raw

  unfoldable pub process_recipient : Text → Text → M Unit
  process_recipient rcpt raw = routed (parse_address rcpt) raw
