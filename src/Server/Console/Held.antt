-- ===== src/Server/Console/Held.antt =====
-- Held messages in the console (internal/server/console.go).
use xlistman.Prelude.{not, Option, none, some, List, [], ◌∷◌, ◌++◌, ◌==◌, map, if◌then◌else◌}
use xlistman.Strings.{Text, codes, text_eq}
use xlistman.Result.{Result, ok, err, Error}
use xlistman.Effects.{M, ◌>>=◌, pure, attempt}
use xlistman.Model.{MailingList, Subscriber, HeldMessage, AuditActor}
use xlistman.Store.Held.{list_held_messages, get_held_message_by_id}
use xlistman.Pipeline.Moderation.{approve_held, reject_held, discard_held}
use xlistman.Server.Http.{
  ℤ, Request, Response, Content, Value, Row, Web, respond, json_error, json_status, not_found_page,
  method_not_allowed, is_method, row_key,
}
use xlistman.Server.Audit.{subscriber_actor}

abbrev pub held_row : HeldMessage → Row
held_row m =
    (codes "id", Value.number m.id)
    ∷ (codes "subject", Value.text m.subject)
    ∷ (codes "sender", Value.text m.sender)
    ∷ (codes "received_at", Value.number m.received_at)
    ∷ (codes "expires_at", Value.number m.expires_at)
    ∷ []

abbrev pub held_listed : Result (List HeldMessage) → Response
held_listed (err _) = json_error 500 (codes "failed to load held messages")
held_listed (ok messages) = respond 200 (Content.rows (map held_row messages))

unfoldable pub handle_console_held_list : Request → MailingList → M Response
handle_console_held_list r l =
    if not (is_method (codes "GET") r)
    then pure method_not_allowed
    else do messages ← attempt (list_held_messages l.id); pure (held_listed messages)

module _ (web : Web) where
  abbrev pub of_list : MailingList → (HeldMessage → M Response) → Result HeldMessage → M Response
  of_list l next (err _) = pure (json_error 404 (codes "held message not found"))
  of_list l next (ok m) =
      if not (m.list_id == l.id)
      then pure (json_error 404 (codes "held message not found"))
      else next m

  abbrev pub held_at : MailingList → (HeldMessage → M Response) → Option ℤ → M Response
  held_at l next none = pure not_found_page
  held_at l next (some id) = do m ← attempt (get_held_message_by_id (row_key id)); of_list l next m

  -- heldMessageForList, and what its caller does behind it
  unfoldable pub held_message_for_list :
      MailingList → Text → (HeldMessage → M Response) → M Response
  held_message_for_list l id next = held_at l next (web.parse_int id)

  -- heldActionError
  unfoldable pub held_action_error : Error → Response
  held_action_error e =
      if web.error_contains e (codes "expired")
      then json_error 409 (codes "held message has expired")
      else json_error 500 (codes "moderation action failed")

  abbrev pub acted : Text → Result Unit → Response
  acted action (ok _) = json_status 200 (action ++ codes "d")
  acted action (err e) = held_action_error e

  abbrev pub act : Text → M Unit → M Response
  act action m = do done ← attempt m; pure (acted action done)

  -- The switch on the action.
  unfoldable pub held_action : Text → AuditActor → HeldMessage → M Response
  held_action action actor m =
      if text_eq action (codes "approve")
      then act action (approve_held web.env m.id actor)
      else if text_eq action (codes "reject")
      then act action (reject_held web.env m.id actor)
      else if text_eq action (codes "discard")
      then act action (discard_held web.env m.id actor)
      else pure not_found_page

  unfoldable pub handle_console_held_action :
      Request → Subscriber → Text → Text → MailingList → M Response
  handle_console_held_action r s id action l =
      if not (is_method (codes "POST") r)
      then pure method_not_allowed
      else held_message_for_list l id (held_action action (subscriber_actor s))
