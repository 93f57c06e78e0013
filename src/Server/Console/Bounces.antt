-- ===== src/Server/Console/Bounces.antt =====
-- internal/server/bounces.go: members with bounces, and what an owner does about them.
use xlistman.Prelude.{
  ℕ, Bool, not, ◌&&◌, Option, none, some, List, [], ◌∷◌, ◌==◌, ltb, map, if◌then◌else◌,
}
use xlistman.Strings.{Text, codes, text_eq}
use xlistman.Result.{Result, ok, err}
use xlistman.Effects.{M, ◌>>=◌, ◌>>◌, pure, attempt}
use xlistman.Effects.Tables.{order_by}
use xlistman.Model.{
  MailingList, Subscriber, Subscription, Action, member_reenable, member_reset_bounces,
}
use xlistman.Store.Lists.{text_before}
use xlistman.Store.Members.{
  list_subscriptions, get_subscriber_by_id, get_subscription, reenable_subscription,
  reset_bounce_count,
}
use xlistman.Lmtp.Commands.{status_text, mode_text}
use xlistman.Server.Http.{
  ℤ, Request, Response, Content, Value, Row, Web, respond, json_error, json_status, not_found_page,
  method_not_allowed, is_method, row_key,
}
use xlistman.Server.Self.{is_disabled}
use xlistman.Server.Audit.{subscriber_actor, audit}

-- A subscription with the subscriber's address.
abbrev pub Bouncing : Type 0
Bouncing = Subscription × Text

abbrev pub and_found : Subscription → Result Subscriber → List Bouncing → List Bouncing
and_found s (ok m) rest = (s, m.email) ∷ rest
and_found s (err _) rest = rest

unfoldable pub bouncing : List Subscription → M (List Bouncing)
bouncing [] = pure []
bouncing (s ∷ subs) =
    if s.bounce_count == 0 && not (is_disabled s.status) then bouncing subs else do
      m ← attempt (get_subscriber_by_id s.subscriber_id)
      rest ← bouncing subs
      pure (and_found s m rest)

-- The order of sort.Slice: the most bounces first, then by address.
abbrev pub worse : Bouncing → Bouncing → Bool
worse (s, a) (t, b) =
    if s.bounce_count == t.bounce_count then text_before a b else ltb t.bounce_count s.bounce_count

abbrev pub bounce_row : MailingList → Bouncing → Row
bounce_row l (s, email) =
    (codes "subscriber_id", Value.number s.subscriber_id)
    ∷ (codes "email", Value.text email)
    ∷ (codes "status", Value.text (status_text s.status))
    ∷ (codes "delivery_mode", Value.text (mode_text s.delivery_mode))
    ∷ (codes "bounce_count", Value.number s.bounce_count)
    ∷ (codes "bounce_threshold", Value.number l.settings.bounce_threshold)
    ∷ []

abbrev pub bounces_listed : MailingList → Result (List Subscription) → M Response
bounces_listed l (err _) = pure (json_error 500 (codes "failed to load members"))
bounces_listed l (ok subs) = do
  found ← bouncing subs
  pure (respond 200 (Content.rows (map (bounce_row l) (order_by worse found))))

unfoldable pub handle_console_bounces : Request → MailingList → M Response
handle_console_bounces r l =
    if not (is_method (codes "GET") r)
    then pure method_not_allowed
    else do subs ← attempt (list_subscriptions l.id); bounces_listed l subs

-- What the handler comes to: a response, or the dereference of a nil subscriber.
pub data Outcome : Type 0 where
  answered : Response → Outcome
  nil_dereference : Outcome

abbrev pub answer : Response → M Outcome
answer r = pure (answered r)

-- The audit event takes the member's address; the error of the lookup is dropped.
abbrev pub audited : Subscriber → MailingList → Action → Text → Result Subscriber → M Outcome
audited actor l action done (err _) = pure nil_dereference
audited actor l action done (ok m) = do
  audit (some l) action (subscriber_actor actor) m.email []
  answer (json_status 200 done)

module _ (actor : Subscriber) (l : MailingList) (sub_id : ℕ) where
  abbrev pub written : Text → Action → Text → Result Unit → M Outcome
  written failure action done (err _) = answer (json_error 500 failure)
  written failure action done (ok _) = do
    m ← attempt (get_subscriber_by_id sub_id)
    audited actor l action done m

  unfoldable pub re_enable_member : Subscription → M Outcome
  re_enable_member subscr =
      if not (is_disabled subscr.status)
      then answer (json_error 409 (codes "subscription is not disabled"))
      else do
        done ← attempt (reenable_subscription subscr.id)
        written (codes "failed to re-enable") member_reenable (codes "subscription re-enabled") done

  unfoldable pub reset_member : Subscription → M Outcome
  reset_member subscr = do
    done ← attempt (reset_bounce_count subscr.id)
    written (codes "failed to reset bounce count") member_reset_bounces (codes "bounce count reset")
        done

  -- The switch on the action.
  abbrev pub bounce_action : Text → Result Subscription → M Outcome
  bounce_action action (err _) = answer (json_error 404 (codes "member not found"))
  bounce_action action (ok subscr) =
      if text_eq action (codes "re-enable")
      then re_enable_member subscr
      else if text_eq action (codes "reset")
      then reset_member subscr
      else answer not_found_page

  unfoldable pub bounce_action_on : Text → M Outcome
  bounce_action_on action = do
    subscr ← attempt (get_subscription l.id sub_id)
    bounce_action action subscr

abbrev pub bounce_action_at : Subscriber → Text → MailingList → Option ℤ → M Outcome
bounce_action_at actor action l none = answer not_found_page
bounce_action_at actor action l (some id) = bounce_action_on actor l (row_key id) action

unfoldable pub handle_console_bounce_action :
    Web → Request → Subscriber → Text → Text → MailingList → M Outcome
handle_console_bounce_action web r actor id action l =
    if not (is_method (codes "POST") r)
    then answer method_not_allowed
    else bounce_action_at actor action l (web.parse_int id)
