-- ===== src/Lmtp/Commands.antt =====
-- The -request commands, and mail to the owners.
pub mod Roster
use xlistman.Prelude.{
  ℕ, Bool, true, false, not, ◌&&◌, ◌||◌, Option, none, some, List, [], ◌∷◌, ◌++◌, ◌==◌, any,
  if◌then◌else◌,
}
use xlistman.Strings.{Text, codes, text_eq, is_empty, has_prefix}
use xlistman.Result.{Result, ok, err}
use xlistman.Model.{
  MailingList, Subscriber, Subscription, RoleHolder, SubscriptionStatus, pending, active, held,
  disabled, SubscriptionPolicy, open_policy, moderated, closed, DeliveryMode, regular, digest,
  nomail, ListType, discussion, newsletter, list_address,
}
use xlistman.Verp.{encode_verp}
use xlistman.Env.{Env, Message, concat, join, newline}
use xlistman.Effects.Tables.{order_by}
use xlistman.Effects.{M, ◌>>=◌, ◌>>◌, pure, attempt, for_each}
use xlistman.Store.Lists.{get_list_by_id, text_before}
use xlistman.Store.Members.{
  get_subscriber, get_subscriber_by_id, get_subscription, list_subscriptions,
  list_subscriptions_by_subscriber, update_subscription_delivery, reenable_subscription,
  delete_subscription,
}
use xlistman.Store.Roles.{list_owners, is_owner, is_moderator}
use xlistman.Store.Queue.{enqueue}
use xlistman.Pipeline.Notices.{role_of_list, build_notice, send_notice}
use xlistman.Pipeline.Posting.{flag}

abbrev pub status_text : SubscriptionStatus → Text
status_text pending = codes "pending"
status_text active = codes "active"
status_text held = codes "held"
status_text disabled = codes "disabled"

abbrev pub mode_text : DeliveryMode → Text
mode_text regular = codes "regular"
mode_text digest = codes "digest"
mode_text nomail = codes "nomail"

-- model.DeliveryMode(…) and the switch that validates it
unfoldable pub mode_of : Text → Option DeliveryMode
mode_of t =
    if text_eq t (codes "regular")
    then some regular
    else if text_eq t (codes "digest")
    then some digest
    else if text_eq t (codes "nomail")
    then some nomail
    else none

abbrev pub answer : {A : Type 0} → Result A → Text → (A → M Text) → M Text
answer (ok a) failure f = f a
answer (err _) failure f = pure failure

unfoldable pub not_subscribed : MailingList → Text
not_subscribed l = concat (codes "You are not subscribed to " ∷ list_address l ∷ codes "." ∷ [])

unfoldable pub set_usage : Text
set_usage = codes "Usage: set regular|digest|nomail"

unfoldable pub delivery_set : MailingList → DeliveryMode → Text
delivery_set l mode = concat (
    codes "Your delivery preference for "
    ∷ list_address l
    ∷ codes " is now "
    ∷ mode_text mode
    ∷ codes "."
    ∷ [])

abbrev pub of_done : Result Unit → Text → Text → Text
of_done (ok _) done failed = done
of_done (err _) done failed = failed

unfoldable pub set_mode : MailingList → Text → DeliveryMode → M Text
set_mode l sender mode = do
  sub ← attempt (get_subscriber sender)
  answer sub (not_subscribed l) λ sub. do
    subscr ← attempt (get_subscription l.id sub.id)
    answer subscr (not_subscribed l) λ subscr. do
      done ← attempt (update_subscription_delivery subscr.id mode)
      pure (of_done done (delivery_set l mode) (codes "Could not update your delivery preference."))

unfoldable pub re_enabled : MailingList → Text
re_enabled l =
    concat (codes "Your subscription to " ∷ list_address l ∷ codes " has been re-enabled." ∷ [])

unfoldable pub not_disabled : MailingList → SubscriptionStatus → Text
not_disabled l status = concat (
    codes "Your subscription to "
    ∷ list_address l
    ∷ codes " is not disabled (status: "
    ∷ status_text status
    ∷ codes ")."
    ∷ [])

abbrev pub re_enable_status : MailingList → ℕ → SubscriptionStatus → M Text
re_enable_status l id disabled = do
  done ← attempt (reenable_subscription id)
  pure (of_done done (re_enabled l) (codes "Could not re-enable your subscription."))
re_enable_status l id status = pure (not_disabled l status)

unfoldable pub cmd_re_enable : MailingList → Text → M Text
cmd_re_enable l sender = do
  sub ← attempt (get_subscriber sender)
  answer sub (not_subscribed l) λ sub. do
    subscr ← attempt (get_subscription l.id sub.id)
    answer subscr (not_subscribed l) λ subscr. re_enable_status l subscr.id subscr.status

unfoldable pub unsubscribed : MailingList → Text
unsubscribed l = concat (codes "You have been unsubscribed from " ∷ list_address l ∷ codes "." ∷ [])

unfoldable pub cmd_unsubscribe : MailingList → Text → M Text
cmd_unsubscribe l sender = do
  sub ← attempt (get_subscriber sender)
  answer sub (not_subscribed l) λ sub. do
    subscr ← attempt (get_subscription l.id sub.id)
    answer subscr (not_subscribed l) λ _. do
      done ← attempt (delete_subscription l.id sub.id)
      pure (of_done done (unsubscribed l) (codes "Could not remove your subscription."))

-- The loop over a subscriber's lists; a list that is not found is left out.
unfoldable pub which_lines : List Subscription → M (List Text)
which_lines [] = pure []
which_lines (s ∷ ss) = do
  l ← attempt (get_list_by_id s.list_id)
  rest ← which_lines ss
  pure (elim l [
    | ok l ↦
        concat (codes "  " ∷ list_address l ∷ codes " [" ∷ status_text s.status ∷ codes "]" ∷ [])
        ∷ rest
    | err _ ↦ rest
  ])

unfoldable pub no_lists : Text
no_lists = codes "You are not subscribed to any lists."

abbrev pub which_found : List Subscription → M Text
which_found [] = pure no_lists
which_found (s ∷ ss) = do
  lines ← which_lines (s ∷ ss)
  pure (concat (codes "You are subscribed to:" ∷ newline ∷ join newline lines ∷ []))

unfoldable pub cmd_which : Text → M Text
cmd_which sender = do
  sub ← attempt (get_subscriber sender)
  answer sub no_lists λ sub. do
    subs ← attempt (list_subscriptions_by_subscriber sub.id)
    answer subs (codes "Could not look up your subscriptions.") which_found

abbrev pub with_address : List Text → Result Subscriber → List Text
with_address seen (ok sub) = if any (text_eq sub.email) seen then seen else seen ++ sub.email ∷ []
with_address seen (err _) = seen

-- The loop over the roster: each address once.
unfoldable pub roster : List Text → List Subscription → M (List Text)
roster seen [] = pure seen
roster seen (s ∷ ss) = do
  found ← attempt (get_subscriber_by_id s.subscriber_id)
  roster (with_address seen found) ss

unfoldable pub who_refused : Text
who_refused = codes "Only the list owners may view the subscriber list."

abbrev pub who_text : MailingList → List Text → Text
who_text l [] = codes "This list has no subscribers."
who_text l (e ∷ es) =
    concat
      (codes "Subscribers of " ∷ list_address l ∷ codes ":" ∷ newline ∷ join newline (e ∷ es) ∷ [])

unfoldable pub cmd_who : MailingList → Text → M Text
cmd_who l sender = do
  sub ← attempt (get_subscriber sender)
  answer sub who_refused λ sub. do
    owner ← flag (is_owner l.id sub.id)
    moderator ← flag (is_moderator l.id sub.id)
    if owner || moderator
        then (do
          subs ← attempt (list_subscriptions l.id)
          answer subs (codes "Could not load the subscriber list.")
              λ subs. do emails ← roster [] subs; pure (who_text l (order_by text_before emails)))
        else pure who_refused
