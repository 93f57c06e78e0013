-- ===== src/Server/Self.antt =====
-- What a signed-in subscriber sees and does: handleMe, handleMyHeldPosts and handleMySubscription of
-- internal/server/server.go.
pub mod Ownership
use xlistman.Prelude.{
  ℕ, Bool, true, false, not, ◌&&◌, ◌||◌, Option, none, some, List, [], ◌∷◌, ◌==◌, if◌then◌else◌,
}
use xlistman.Strings.{Text, codes, text_eq}
use xlistman.Result.{Result, ok, err}
use xlistman.Effects.{M, ◌>>=◌, pure, attempt}
use xlistman.Model.{
  Subscriber, Subscription, SubscriptionStatus, disabled, active, held, pending, DeliveryMode,
  MailingList, HeldMessage, RoleHolder, list_address,
}
use xlistman.Store.Lists.{get_list_by_id, is_administrator}
use xlistman.Store.Members.{
  list_subscriptions_by_subscriber, get_subscription_by_id, update_subscription_delivery,
  reenable_subscription, delete_subscription,
}
use xlistman.Store.Roles.{list_owner_lists, list_moderator_lists}
use xlistman.Store.Held.{list_held_messages_by_sender}
use xlistman.Lmtp.Commands.{status_text, mode_text, mode_of}
use xlistman.Lmtp.Request.{type_text}
use xlistman.Pipeline.Posting.{flag}
use xlistman.Server.Http.{
  ℤ, Request, Response, Content, Value, Row, Web, respond, json_error, json_status, not_found_page,
  method_not_allowed, is_method, path_parts, row_key,
}

-- A loop that leaves out the rows whose lookup failed.
abbrev pub and_row : {A : Type 0} → (A → Row) → Result A → List Row → List Row
and_row f (ok a) rows = f a ∷ rows
and_row f (err _) rows = rows

abbrev pub changed : Result Unit → Text → Text → Response
changed (ok _) done failure = json_status 200 done
changed (err _) done failure = json_error 500 failure

abbrev pub subscription_row : Subscription → MailingList → Row
subscription_row s l =
    (codes "id", Value.number s.id)
    ∷ (codes "address", Value.text (list_address l))
    ∷ (codes "list_name", Value.text l.list_name)
    ∷ (codes "domain", Value.text l.domain)
    ∷ (codes "list_type", Value.text (type_text l.list_type))
    ∷ (codes "status", Value.text (status_text s.status))
    ∷ (codes "delivery_mode", Value.text (mode_text s.delivery_mode))
    ∷ (codes "bounce_count", Value.number s.bounce_count)
    ∷ []

unfoldable pub subscription_rows : List Subscription → M (List Row)
subscription_rows [] = pure []
subscription_rows (s ∷ subs) = do
  l ← attempt (get_list_by_id s.list_id)
  rows ← subscription_rows subs
  pure (and_row (subscription_row s) l rows)

abbrev pub holds_any : Result (List RoleHolder) → Bool
holds_any (ok []) = false
holds_any (ok (_ ∷ _)) = true
holds_any (err _) = false

abbrev pub my_subscriptions : Subscriber → Result (List Subscription) → M Response
my_subscriptions s (err _) = pure (json_error 500 (codes "failed to load subscriptions"))
my_subscriptions s (ok subs) = do
  infos ← subscription_rows subs
  is_admin ← flag (is_administrator s.id)
  owned ← attempt (list_owner_lists s.id)
  moderated ← attempt (list_moderator_lists s.id)
  pure (
      respond 200 (
        Content.object_with
          ((codes "email", Value.text s.email)
            ∷ (codes "is_administrator", Value.flag is_admin)
            ∷ (codes "has_list_role", Value.flag (holds_any owned || holds_any moderated))
            ∷ [])
          ((codes "subscriptions", infos) ∷ [])))

unfoldable pub handle_me : Request → Subscriber → M Response
handle_me r s =
    if not (is_method (codes "GET") r)
    then pure method_not_allowed
    else do subs ← attempt (list_subscriptions_by_subscriber s.id); my_subscriptions s subs

abbrev pub held_post_row : HeldMessage → MailingList → Row
held_post_row m l =
    (codes "id", Value.number m.id)
    ∷ (codes "list_addr", Value.text (list_address l))
    ∷ (codes "subject", Value.text m.subject)
    ∷ (codes "received_at", Value.number m.received_at)
    ∷ (codes "expires_at", Value.number m.expires_at)
    ∷ []

unfoldable pub held_post_rows : List HeldMessage → M (List Row)
held_post_rows [] = pure []
held_post_rows (m ∷ messages) = do
  l ← attempt (get_list_by_id m.list_id)
  rows ← held_post_rows messages
  pure (and_row (held_post_row m) l rows)

abbrev pub my_posts : Result (List HeldMessage) → M Response
my_posts (err _) = pure (json_error 500 (codes "failed to load held posts"))
my_posts (ok messages) = do rows ← held_post_rows messages; pure (respond 200 (Content.rows rows))

unfoldable pub handle_my_held_posts : Request → Subscriber → M Response
handle_my_held_posts r s =
    if not (is_method (codes "GET") r)
    then pure method_not_allowed
    else do messages ← attempt (list_held_messages_by_sender s.email); my_posts messages

abbrev pub is_disabled : SubscriptionStatus → Bool
is_disabled disabled = true
is_disabled active = false
is_disabled held = false
is_disabled pending = false

module _ (web : Web) where
  abbrev pub set_delivery_to : Subscription → Option DeliveryMode → M Response
  set_delivery_to subscr none =
      pure (json_error 400 (codes "mode must be regular, digest, or nomail"))
  set_delivery_to subscr (some mode) = do
    done ← attempt (update_subscription_delivery subscr.id mode)
    pure (changed done (codes "delivery updated") (codes "failed to update delivery"))

  abbrev pub mode_given : Subscription → Option Text → M Response
  mode_given subscr none = pure (json_error 400 (codes "invalid request body"))
  mode_given subscr (some mode) = set_delivery_to subscr (mode_of mode)

  unfoldable pub handle_set_delivery : Request → Subscription → M Response
  handle_set_delivery r subscr =
      if not (is_method (codes "POST") r)
      then pure method_not_allowed
      else mode_given subscr (web.decode_text (codes "mode") r.body)

  unfoldable pub handle_re_enable : Request → Subscription → M Response
  handle_re_enable r subscr =
      if not (is_method (codes "POST") r)
      then pure method_not_allowed
      else if not (is_disabled subscr.status)
      then pure (json_error 409 (codes "subscription is not disabled"))
      else do
        done ← attempt (reenable_subscription subscr.id)
        pure (
            changed done (codes "subscription re-enabled")
              (codes "failed to re-enable subscription"))

  unfoldable pub handle_unsubscribe_me : Request → Subscription → M Response
  handle_unsubscribe_me r subscr =
      if not (is_method (codes "POST") r) then pure method_not_allowed else do
        done ← attempt (delete_subscription subscr.list_id subscr.subscriber_id)
        pure (changed done (codes "unsubscribed") (codes "failed to unsubscribe"))

  -- The switch on the action.
  unfoldable pub my_action : Text → Request → Subscription → M Response
  my_action action r subscr =
      if text_eq action (codes "delivery")
      then handle_set_delivery r subscr
      else if text_eq action (codes "re-enable")
      then handle_re_enable r subscr
      else if text_eq action (codes "unsubscribe")
      then handle_unsubscribe_me r subscr
      else pure not_found_page

  abbrev pub own_subscription : Subscriber → Text → Request → Result Subscription → M Response
  own_subscription s action r (err _) = pure (json_error 404 (codes "subscription not found"))
  own_subscription s action r (ok subscr) =
      if not (subscr.subscriber_id == s.id)
      then pure (json_error 404 (codes "subscription not found"))
      else my_action action r subscr

  abbrev pub my_subscription_at : Subscriber → Text → Request → Option ℤ → M Response
  my_subscription_at s action r none = pure not_found_page
  my_subscription_at s action r (some id) = do
    subscr ← attempt (get_subscription_by_id (row_key id))
    own_subscription s action r subscr

  abbrev pub my_subscription_path : List Text → Request → Subscriber → M Response
  my_subscription_path (id ∷ action ∷ []) r s = my_subscription_at s action r (web.parse_int id)
  my_subscription_path _ r s = pure not_found_page

  unfoldable pub handle_my_subscription : Request → Subscriber → M Response
  handle_my_subscription r s =
      my_subscription_path (path_parts (codes "/api/me/subscriptions/") r.path) r s
