-- ===== src/Server/Console.antt =====
-- internal/server/console.go: the gates of the console, and its routes.
pub mod Held
pub mod Members
pub mod Senders
pub mod Bounces
pub mod Overview
pub mod Directory
pub mod Gates
use xlistman.Prelude.{
  ℕ, Bool, true, false, not, ◌&&◌, Option, none, some, List, [], ◌∷◌, if◌then◌else◌,
}
use xlistman.Strings.{Text, codes, text_eq}
use xlistman.Result.{Result, ok, err}
use xlistman.Effects.{M, ◌>>=◌, pure, attempt}
use xlistman.Model.{MailingList, Subscriber}
use xlistman.Store.Lists.{get_list}
use xlistman.Store.Roles.{is_owner, is_moderator}
use xlistman.Pipeline.Posting.{flag}
use xlistman.Server.Http.{Request, Response, json_error, not_found_page, path_parts}
use xlistman.Server.Access.{require_auth, require_management}

-- The handlers that the switch of handleConsoleList chooses from, with what each takes of the path.
pub data ConsoleRoute : Type 0 where
  list_info held_list : ConsoleRoute
  held_detail : Text → ConsoleRoute
  held_attachment decide_held : Text → Text → ConsoleRoute
  senders : ConsoleRoute
  sender_remove : Text → ConsoleRoute
  settings members members_export members_import : ConsoleRoute
  member_remove : Text → ConsoleRoute
  decide_member list_role : Text → Text → ConsoleRoute
  bounces : ConsoleRoute
  act_on_bounces : Text → Text → ConsoleRoute
  audit_trail : ConsoleRoute

abbrev held_route : List Text → Option ConsoleRoute
held_route [] = some ConsoleRoute.held_list
held_route (id ∷ []) = some (ConsoleRoute.held_detail id)
held_route (id ∷ action ∷ []) = some (ConsoleRoute.decide_held id action)
held_route (id ∷ word ∷ ordinal ∷ []) =
    if text_eq word (codes "attachments")
    then some (ConsoleRoute.held_attachment id ordinal)
    else none
held_route (_ ∷ _ ∷ _ ∷ _ ∷ _) = none

abbrev senders_route : List Text → Option ConsoleRoute
senders_route [] = some ConsoleRoute.senders
senders_route (id ∷ []) = some (ConsoleRoute.sender_remove id)
senders_route (_ ∷ _ ∷ _) = none

abbrev members_route : List Text → Option ConsoleRoute
members_route [] = some ConsoleRoute.members
members_route (word ∷ []) =
    if text_eq word (codes "export")
    then some ConsoleRoute.members_export
    else if text_eq word (codes "import")
    then some ConsoleRoute.members_import
    else some (ConsoleRoute.member_remove word)
members_route (id ∷ action ∷ []) = some (ConsoleRoute.decide_member id action)
members_route (_ ∷ _ ∷ _ ∷ _) = none

abbrev role_route : List Text → Option ConsoleRoute
role_route (id ∷ role ∷ []) = some (ConsoleRoute.list_role id role)
role_route _ = none

abbrev bounces_route : List Text → Option ConsoleRoute
bounces_route [] = some ConsoleRoute.bounces
bounces_route (id ∷ action ∷ []) = some (ConsoleRoute.act_on_bounces id action)
bounces_route _ = none

abbrev alone : ConsoleRoute → List Text → Option ConsoleRoute
alone route [] = some route
alone route (_ ∷ _) = none

-- The parts behind the domain and the name of the list.
unfoldable pub console_route : List Text → Option ConsoleRoute
console_route [] = some ConsoleRoute.list_info
console_route (section ∷ rest) =
    if text_eq section (codes "held")
    then held_route rest
    else if text_eq section (codes "senders")
    then senders_route rest
    else if text_eq section (codes "settings")
    then alone ConsoleRoute.settings rest
    else if text_eq section (codes "members")
    then members_route rest
    else if text_eq section (codes "roles")
    then role_route rest
    else if text_eq section (codes "bounces")
    then bounces_route rest
    else if text_eq section (codes "audit")
    then alone ConsoleRoute.audit_trail rest
    else none

-- len(parts) == 2 || (len(parts) >= 3 && parts[2] == "held")
unfoldable pub is_open_to_moderators : List Text → Bool
is_open_to_moderators [] = true
is_open_to_moderators (section ∷ rest) = text_eq section (codes "held")

-- requireRole
unfoldable pub require_role : Subscriber → MailingList → M Response → M Response
require_role s l next = do
  owner ← flag (is_owner l.id s.id)
  moderator ← flag (is_moderator l.id s.id)
  if not owner && not moderator
      then pure (json_error 403 (codes "owner or moderator required"))
      else next

-- requireOwner
unfoldable pub require_owner : Subscriber → MailingList → M Response → M Response
require_owner s l next = do
  owner ← flag (is_owner l.id s.id)
  if not owner then pure (json_error 403 (codes "owner required")) else next

-- The handlers behind the switch, which runs one behind its gate.
module _ (handler : ConsoleRoute → Request → Subscriber → MailingList → M Response) where
  abbrev pub gated :
      List Text → Option ConsoleRoute → Request → Subscriber → MailingList → M Response
  gated rest none r s l = pure not_found_page
  gated rest (some route) r s l =
      if is_open_to_moderators rest
      then require_role s l (handler route r s l)
      else require_owner s l (handler route r s l)

  abbrev pub list_given : List Text → Request → Subscriber → Result MailingList → M Response
  list_given rest r s (err _) = pure (json_error 404 (codes "list not found"))
  list_given rest r s (ok l) = gated rest (console_route rest) r s l

  abbrev pub console_path : List Text → Request → Subscriber → M Response
  console_path (domain ∷ name ∷ rest) r s = do
    l ← attempt (get_list name domain)
    list_given rest r s l
  console_path _ r s = pure not_found_page

  -- handleConsoleList
  unfoldable pub handle_console_list : Request → Subscriber → M Response
  handle_console_list r s = console_path (path_parts (codes "/api/console/lists/") r.path) r s

-- The route as registerConsoleRoutes registers it.
unfoldable pub console_list_endpoint :
    (ConsoleRoute → Request → Subscriber → MailingList → M Response) → Request → M Response
console_list_endpoint handler r =
    require_auth (λ s. require_management (handle_console_list handler r s)) r
