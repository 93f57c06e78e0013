-- ===== src/Server/Admin.antt =====
-- internal/server/admin.go: the gate of the administrators, and who they are.
pub mod Names
pub mod Domains
pub mod Lists
pub mod Gate
use xlistman.Prelude.{ℕ, Bool, true, false, not, Option, none, some, List, [], ◌∷◌, if◌then◌else◌}
use xlistman.Strings.{Text, codes, strip_prefix}
use xlistman.Result.{Result, ok, err}
use xlistman.Effects.{M, ◌>>=◌, ◌>>◌, pure, attempt}
use xlistman.Env.{concat}
use xlistman.Model.{Subscriber, Administrator, admin_designate, admin_revoke}
use xlistman.Store.Lists.{
  add_administrator, remove_administrator, list_administrators, is_administrator,
}
use xlistman.Store.Members.{get_subscriber, get_subscriber_by_id}
use xlistman.Pipeline.Posting.{flag}
use xlistman.Server.Http.{
  ℤ, Request, Response, Content, Value, Row, Web, respond, json_error, json_status, not_found_page,
  method_not_allowed, is_method, row_key,
}
use xlistman.Server.Access.{require_auth, require_management}
use xlistman.Server.Self.{and_row}
use xlistman.Server.Audit.{subscriber_actor, audit}
use xlistman.Server.Console.Members.{body_email}
use xlistman.Server.Console.Senders.{sender_row}

unfoldable pub handle_admin_info : Request → Subscriber → M Response
handle_admin_info r s = if not (is_method (codes "GET") r) then pure method_not_allowed else do
  is_admin ← flag (is_administrator s.id)
  pure (respond 200 (Content.object ((codes "is_administrator", Value.flag is_admin) ∷ [])))

abbrev pub confirmed : Result Bool → Bool
confirmed (ok b) = b
confirmed (err e) = false

-- requireAdmin
unfoldable pub require_admin : (Subscriber → M Response) → Subscriber → M Response
require_admin next s = do
  found ← attempt (is_administrator s.id)
  if not (confirmed found) then pure (json_error 403 (codes "administrator required")) else next s

-- A route as registerAdminRoutes registers it.
unfoldable pub admin_endpoint : (Request → Subscriber → M Response) → Request → M Response
admin_endpoint handler r = require_auth (λ s. require_management (require_admin (handler r) s)) r

unfoldable pub admin_rows : List Administrator → M (List Row)
admin_rows [] = pure []
admin_rows (a ∷ admins) = do
  s ← attempt (get_subscriber_by_id a.subscriber_id)
  rows ← admin_rows admins
  pure (and_row sender_row s rows)

abbrev pub admins_listed : Result (List Administrator) → M Response
admins_listed (err _) = pure (json_error 500 (codes "failed to load administrators"))
admins_listed (ok admins) = do rows ← admin_rows admins; pure (respond 200 (Content.rows rows))

abbrev pub admin_added : Subscriber → Text → Result Unit → M Response
admin_added actor email (err _) = pure (json_error 500 (codes "failed to add administrator"))
admin_added actor email (ok _) = do
  audit none admin_designate (subscriber_actor actor) email []
  pure (json_status 201 (codes "administrator added"))

-- Designation is Subscriber-first.
abbrev pub known_admin : Subscriber → Text → Result Subscriber → M Response
known_admin actor email (err _) = pure (
    json_error 404 (
      concat (
        codes "unknown subscriber: "
        ∷ email
        ∷ codes
            ". They must be a known Subscriber first (subscribe to a list or be added by an owner)."
        ∷ [])))
known_admin actor email (ok s) = do
  added ← attempt (add_administrator s.id)
  admin_added actor email added

abbrev pub email_or_none : Result Subscriber → Text
email_or_none (ok s) = s.email
email_or_none (err _) = []

abbrev pub admin_removed : Subscriber → Text → Result Unit → M Response
admin_removed actor email (err _) = pure (json_error 500 (codes "failed to remove administrator"))
admin_removed actor email (ok _) = do
  audit none admin_revoke (subscriber_actor actor) email []
  pure (json_status 200 (codes "administrator removed"))

abbrev pub behind_prefix : Option Text → Text → Text
behind_prefix (some rest) path = rest
behind_prefix none path = path

module _ (web : Web) where
  unfoldable pub handle_admin_administrators : Request → Subscriber → M Response
  handle_admin_administrators r actor =
      if is_method (codes "POST") r
      then body_email web (web.decode_text (codes "email") r.body)
          (λ email. do found ← attempt (get_subscriber email); known_admin actor email found)
      else if not (is_method (codes "GET") r)
      then pure method_not_allowed
      else do admins ← attempt list_administrators; admins_listed admins

  abbrev pub remove_admin : Subscriber → Option ℤ → M Response
  remove_admin actor none = pure not_found_page
  remove_admin actor (some id) = do
    s ← attempt (get_subscriber_by_id (row_key id))
    removed ← attempt (remove_administrator (row_key id))
    admin_removed actor (email_or_none s) removed

  unfoldable pub handle_admin_administrator_remove : Request → Subscriber → M Response
  handle_admin_administrator_remove r actor =
      if not (is_method (codes "DELETE") r)
      then pure method_not_allowed
      else remove_admin actor (
          web.parse_int (
            behind_prefix (strip_prefix (codes "/api/console/admin/administrators/") r.path)
              r.path))
