-- ===== src/Server/Console/Overview.antt =====
-- handleConsoleLists and handleConsoleListInfo of internal/server/console.go.
use xlistman.Prelude.{
  ℕ, Bool, true, false, not, Option, none, some, List, [], ◌∷◌, ◌++◌, length, if◌then◌else◌,
}
use xlistman.Strings.{Text, codes}
use xlistman.Result.{Result, ok, err}
use xlistman.Effects.{M, ◌>>=◌, pure, attempt}
use xlistman.Model.{MailingList, Subscriber, RoleHolder, HeldMessage, list_address}
use xlistman.Store.Lists.{get_list_by_id}
use xlistman.Store.Directory.{add_role_at}
use xlistman.Store.Roles.{list_owner_lists, list_moderator_lists, is_owner, is_moderator}
use xlistman.Store.Held.{list_held_messages}
use xlistman.Lmtp.Request.{type_text}
use xlistman.Pipeline.Posting.{flag}
use xlistman.Server.Http.{
  Request, Response, Content, Value, Row, respond, json_error, method_not_allowed, is_method,
}

abbrev role_if : Bool → Text → List Text
role_if true role = role ∷ []
role_if false role = []

unfoldable pub handle_console_list_info : Request → Subscriber → MailingList → M Response
handle_console_list_info r s l =
    if not (is_method (codes "GET") r) then pure method_not_allowed else do
      owner ← flag (is_owner l.id s.id)
      moderator ← flag (is_moderator l.id s.id)
      pure (
          respond 200 (
            Content.object (
              (codes "address", Value.text (list_address l))
              ∷ (codes "list_name", Value.text l.list_name)
              ∷ (codes "domain", Value.text l.domain)
              ∷ (codes "list_type", Value.text (type_text l.list_type))
              ∷ (codes "description", Value.text l.description)
              ∷ (codes "instructions", Value.text l.instructions)
              ∷ (
                codes "roles",
                Value.texts
                    (role_if owner (codes "owner") ++ role_if moderator (codes "moderator")),
              )
              ∷ [])))

-- roleMap: the roles by list
unfoldable pub add_roles : Text → List RoleHolder → List (ℕ × List Text) → List (ℕ × List Text)
add_roles role [] m = m
add_roles role (h ∷ holders) m = add_roles role holders (add_role_at h.list_id role m)

abbrev pub console_row : MailingList → List Text → List HeldMessage → Row
console_row l roles messages =
    (codes "address", Value.text (list_address l))
    ∷ (codes "list_name", Value.text l.list_name)
    ∷ (codes "domain", Value.text l.domain)
    ∷ (codes "list_type", Value.text (type_text l.list_type))
    ∷ (codes "roles", Value.texts roles)
    ∷ (codes "held_count", Value.number (length messages))
    ∷ []

-- none where the held messages of a list cannot be read
abbrev pub with_row : Row → Option (List Row) → Option (List Row)
with_row row none = none
with_row row (some rows) = some (row ∷ rows)

abbrev pub counted :
    MailingList
    → List Text
    → M (Option (List Row))
    → Result (List HeldMessage)
    → M (Option (List Row))
counted l roles rest (err _) = pure none
counted l roles rest (ok messages) = do
  rows ← rest
  pure (with_row (console_row l roles messages) rows)

abbrev pub role_list :
    List Text → M (Option (List Row)) → Result MailingList → M (Option (List Row))
role_list roles rest (err _) = rest
role_list roles rest (ok l) = do
  messages ← attempt (list_held_messages l.id)
  counted l roles rest messages

unfoldable pub console_rows : List (ℕ × List Text) → M (Option (List Row))
console_rows [] = pure (some [])
console_rows ((id, roles) ∷ rest) = do
  l ← attempt (get_list_by_id id)
  role_list roles (console_rows rest) l

abbrev pub lists_shown : Option (List Row) → Response
lists_shown none = json_error 500 (codes "failed to load held messages")
lists_shown (some rows) = respond 200 (Content.rows rows)

abbrev pub with_moderated : List RoleHolder → Result (List RoleHolder) → M Response
with_moderated owned (err _) = pure (json_error 500 (codes "failed to load roles"))
with_moderated owned (ok moderated) = do
  rows ← console_rows (add_roles (codes "moderator") moderated (add_roles (codes "owner") owned []))
  pure (lists_shown rows)

abbrev pub with_owned : Subscriber → Result (List RoleHolder) → M Response
with_owned s (err _) = pure (json_error 500 (codes "failed to load roles"))
with_owned s (ok owned) = do
  moderated ← attempt (list_moderator_lists s.id)
  with_moderated owned moderated

unfoldable pub handle_console_lists : Request → Subscriber → M Response
handle_console_lists r s =
    if not (is_method (codes "GET") r)
    then pure method_not_allowed
    else do owned ← attempt (list_owner_lists s.id); with_owned s owned
