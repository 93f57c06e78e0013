-- ===== src/Server/Console/Senders.antt =====
-- The designated senders of a newsletter (internal/server/console.go).
use xlistman.Prelude.{Bool, true, false, not, some, List, [], ◌∷◌, if◌then◌else◌}
use xlistman.Strings.{Text, codes}
use xlistman.Result.{Result, ok, err}
use xlistman.Effects.{M, ◌>>=◌, ◌>>◌, pure, attempt}
use xlistman.Env.{concat}
use xlistman.Model.{
  MailingList, Subscriber, RoleHolder, ListType, newsletter, discussion, sender_add, sender_remove,
}
use xlistman.Store.Members.{get_subscriber, get_subscriber_by_id}
use xlistman.Store.Roles.{add_designated_sender, remove_designated_sender, list_designated_senders}
use xlistman.Server.Http.{
  Request, Response, Content, Value, Row, Web, respond, json_error, json_status, method_not_allowed,
  is_method,
}
use xlistman.Server.Self.{and_row}
use xlistman.Server.Audit.{subscriber_actor, audit}
use xlistman.Server.Console.Members.{with_key, body_email}

abbrev pub is_newsletter : ListType → Bool
is_newsletter newsletter = true
is_newsletter discussion = false
is_newsletter (ListType.other t) = false

abbrev pub not_newsletter : Response
not_newsletter = json_error 400 (codes "only newsletter lists have designated senders")

abbrev pub sender_row : Subscriber → Row
sender_row s = (codes "id", Value.number s.id) ∷ (codes "email", Value.text s.email) ∷ []

unfoldable pub sender_rows : List RoleHolder → M (List Row)
sender_rows [] = pure []
sender_rows (d ∷ senders) = do
  s ← attempt (get_subscriber_by_id d.subscriber_id)
  rows ← sender_rows senders
  pure (and_row sender_row s rows)

abbrev pub senders_listed : Result (List RoleHolder) → M Response
senders_listed (err _) = pure (json_error 500 (codes "failed to load senders"))
senders_listed (ok senders) = do rows ← sender_rows senders; pure (respond 200 (Content.rows rows))

module _ (web : Web) where
  -- The answer, and the audit event where the store made the change.
  abbrev pub sender_added : Subscriber → Subscriber → MailingList → Result Unit → M Response
  sender_added actor s l (err _) = pure (json_error 500 (codes "failed to add sender"))
  sender_added actor s l (ok _) = do
    audit (some l) sender_add (subscriber_actor actor) s.email []
    pure (json_status 201 (codes "sender added"))

  abbrev pub known_sender : Subscriber → Text → MailingList → Result Subscriber → M Response
  known_sender actor email l (err _) = pure (
      json_error 404 (
        concat (
          codes "unknown subscriber: "
          ∷ email
          ∷ codes
              ". Add them first with `xmailman subscriber add`, or have them subscribe to a list."
          ∷ [])))
  known_sender actor email l (ok s) = do
    added ← attempt (add_designated_sender l.id s.id)
    sender_added actor s l added

  unfoldable pub add_sender : Request → Subscriber → MailingList → M Response
  add_sender r actor l =
      if not (is_newsletter l.list_type)
      then pure not_newsletter
      else body_email web (web.decode_text (codes "email") r.body)
          λ email. do found ← attempt (get_subscriber email); known_sender actor email l found

  unfoldable pub handle_console_senders : Request → Subscriber → MailingList → M Response
  handle_console_senders r actor l =
      if is_method (codes "POST") r
      then add_sender r actor l
      else if not (is_method (codes "GET") r)
      then pure method_not_allowed
      else do senders ← attempt (list_designated_senders l.id); senders_listed senders

  abbrev pub sender_removed : Subscriber → MailingList → Result Unit → M Response
  sender_removed actor l (err _) = pure (json_error 500 (codes "failed to remove sender"))
  sender_removed actor l (ok _) = do
    audit (some l) sender_remove (subscriber_actor actor) [] []
    pure (json_status 200 (codes "sender removed"))

  unfoldable pub handle_console_senders_remove :
      Request → Subscriber → Text → MailingList → M Response
  handle_console_senders_remove r actor id l =
      if not (is_method (codes "DELETE") r)
      then pure method_not_allowed
      else if not (is_newsletter l.list_type)
      then pure not_newsletter
      else with_key web (web.parse_int id) λ sub_id. do
        removed ← attempt (remove_designated_sender l.id sub_id)
        sender_removed actor l removed
