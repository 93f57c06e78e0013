-- ===== src/Pipeline/Posting.antt =====
-- ProcessPost: the policy, and what is done with the post.
pub mod StandingOf
pub mod Decided
pub mod Tables
pub mod Outcomes
use xlistman.Prelude.{ℕ, Bool, true, false, [], if◌then◌else◌}
use xlistman.Strings.{Text, codes, is_empty}
use xlistman.Result.{Result, ok, err}
use xlistman.Model.{MailingList, Subscriber, Subscription}
use xlistman.Policy.{PostAction, accept, hold, reject, Standing, decide_post_action}
use xlistman.Env.{Env}
use xlistman.Effects.{M, ◌>>=◌, pure, wrap, attempt}
use xlistman.Store.Lists.{get_list}
use xlistman.Store.Members.{get_subscriber, get_subscription}
use xlistman.Store.Roles.{is_owner, is_designated_sender}
use xlistman.Pipeline.Notices.{reject_message}
use xlistman.Pipeline.Delivery.{deliver_to_list}
use xlistman.Pipeline.Moderation.{hold_message}

abbrev pub or_false : Result Bool → Bool
or_false (ok b) = b
or_false (err _) = false

-- b, _ := …
unfoldable pub flag : M Bool → M Bool
flag m = do r ← attempt m; pure (or_false r)

unfoldable pub roles_of : MailingList → ℕ → Bool → M Standing
roles_of l id is_subscriber = do
  owner ← flag (is_owner l.id id)
  designated ← flag (is_designated_sender l.id id)
  pure (record {
    is_subscriber = is_subscriber;
    is_owner = owner;
    is_designated_sender = designated;
  })

abbrev pub no_standing : Standing
no_standing = record { is_subscriber = false; is_owner = false; is_designated_sender = false }

abbrev pub non_subscriber_found : MailingList → Result Subscriber → M Standing
non_subscriber_found l (ok s) = roles_of l s.id false
non_subscriber_found l (err _) = pure no_standing

-- Owners may not be subscribed: a second lookup by the address.
unfoldable pub non_subscriber : MailingList → Text → M Standing
non_subscriber l sender = do found ← attempt (get_subscriber sender); non_subscriber_found l found

abbrev pub subscriber_on : MailingList → Text → ℕ → Result Subscription → M Standing
subscriber_on l sender id (ok _) = roles_of l id true
subscriber_on l sender id (err _) = non_subscriber l sender

abbrev pub standing_of : MailingList → Text → Result Subscriber → M Standing
standing_of l sender (ok sub) = do
  subscription ← attempt (get_subscription l.id sub.id)
  subscriber_on l sender sub.id subscription
standing_of l sender (err _) = non_subscriber l sender

unfoldable pub sender_standing : MailingList → Text → M Standing
sender_standing l sender = do found ← attempt (get_subscriber sender); standing_of l sender found

module _ (env : Env) where
  unfoldable pub perform : PostAction → MailingList → Text → Text → M Unit
  perform accept l sender raw = deliver_to_list env l sender raw
  perform hold l sender raw = hold_message env l sender raw
  perform reject l sender raw = reject_message env l sender []

  unfoldable pub process_post : Text → Text → Text → Text → M Unit
  process_post list_name domain sender raw = do
    l ← wrap (codes "get list") (get_list list_name domain)
    let reason = env.validate_post_policy l raw
    if is_empty reason
        then (do
          standing ← sender_standing l sender
          perform (decide_post_action l standing) l sender raw)
        else reject_message env l sender reason
