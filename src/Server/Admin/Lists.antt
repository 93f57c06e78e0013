-- ===== src/Server/Admin/Lists.antt =====
-- The lists in internal/server/admin.go: creating, deleting, and changing the type.
use xlistman.Prelude.{
  ℕ, Bool, true, false, not, ◌&&◌, Option, none, some, List, [], ◌∷◌, length, if◌then◌else◌,
}
use xlistman.Strings.{Text, codes, text_eq, is_empty}
use xlistman.Result.{Result, ok, err}
use xlistman.Env.{concat}
use xlistman.Effects.{M, ◌>>=◌, ◌>>◌, pure, attempt}
use xlistman.Model.{
  Subscriber, Subscription, Domain, MailingList, ListType, discussion, newsletter, list_address,
  list_create, list_delete, Action,
}
use xlistman.Store.Lists.{
  get_domain, create_list, update_list_settings, get_list, delete_list, update_list_type,
  list_lists,
}
use xlistman.Store.Members.{get_or_create_subscriber, list_subscriptions}
use xlistman.Store.Roles.{add_owner}
use xlistman.Lmtp.Request.{type_text}
use xlistman.Server.Http.{
  Request, Response, Content, Value, Row, Web, respond, json_error, json_status, not_found_page,
  method_not_allowed, is_method, path_parts,
}
use xlistman.Server.Audit.{subscriber_actor, audit}
use xlistman.Server.Admin.Names.{valid_list_name}

-- The body of the request for a new list.
pub record NewList : Type 0 where
  pub list_name : Text
  pub domain : Text
  pub list_type : Text
  pub description : Text
  pub first_owner_email : Text
  pub moderation : Bool

-- model.ListType(…) and the test that validates it
unfoldable pub known_type : Text → Option ListType
known_type t =
    if text_eq t (codes "discussion")
    then some discussion
    else if text_eq t (codes "newsletter")
    then some newsletter
    else none

abbrev pub is_discussion : ListType → Bool
is_discussion discussion = true
is_discussion newsletter = false
is_discussion (ListType.other t) = false

abbrev pub bad_type : Response
bad_type = json_error 400 (codes "list type must be discussion or newsletter")

abbrev pub list_row_of : MailingList → ℕ → Row
list_row_of l count =
    (codes "address", Value.text (list_address l))
    ∷ (codes "list_name", Value.text l.list_name)
    ∷ (codes "domain", Value.text l.domain)
    ∷ (codes "list_type", Value.text (type_text l.list_type))
    ∷ (codes "description", Value.text l.description)
    ∷ (codes "member_count", Value.number count)
    ∷ []

abbrev pub count_of : Result (List Subscription) → ℕ
count_of (ok subs) = length subs
count_of (err _) = 0

unfoldable pub list_rows : List MailingList → M (List Row)
list_rows [] = pure []
list_rows (l ∷ lists) = do
  subs ← attempt (list_subscriptions l.id)
  rows ← list_rows lists
  pure (list_row_of l (count_of subs) ∷ rows)

abbrev pub lists_listed : Result (List MailingList) → M Response
lists_listed (err _) = pure (json_error 500 (codes "failed to load lists"))
lists_listed (ok lists) = do rows ← list_rows lists; pure (respond 200 (Content.rows rows))

abbrev pub owner_found : MailingList → Result Subscriber → M Unit
owner_found l (err _) = pure tt
owner_found l (ok owner) = do attempt (add_owner l.id owner.id); pure tt

-- The first owner: the creating Administrator, or who the body names.
unfoldable pub add_first_owner : MailingList → Text → M Unit
add_first_owner l email =
    if is_empty email
    then pure tt
    else do owner ← attempt (get_or_create_subscriber email); owner_found l owner

unfoldable pub set_moderation : MailingList → Bool → M Unit
set_moderation l moderation = if not moderation then pure tt else do
  attempt (update_list_settings l.id (record l.settings { moderation_enabled = true }))
  pure tt

module _ (web : Web) where
  abbrev pub list_created : Subscriber → ListType → NewList → Result MailingList → M Response
  list_created actor list_type body (err e) = pure (
      if web.error_contains e (codes "UNIQUE")
      then json_error 409 (codes "a list with this address already exists")
      else json_error 500 (codes "failed to create list"))
  list_created actor list_type body (ok l) = do
    set_moderation l (is_discussion list_type && body.moderation)
    let given = web.env.trim_space body.first_owner_email
    add_first_owner l (if is_empty given then actor.email else given)
    audit (some l) list_create (subscriber_actor actor) (list_address l) (type_text l.list_type)
    pure (
        respond 201 (
          Content.object (
            (codes "status", Value.text (codes "list created"))
            ∷ (codes "address", Value.text (list_address l))
            ∷ [])))

  abbrev pub domain_found :
      Subscriber → Text → Text → ListType → NewList → Result Domain → M Response
  domain_found actor name domain list_type body (err _) = pure (
      json_error 400
        (concat (codes "domain not found: " ∷ domain ∷ codes ". Create it first in Domains." ∷ [])))
  domain_found actor name domain list_type body (ok d) = do
    created ← attempt (create_list name d.id d.name (web.env.trim_space body.description) list_type)
    list_created actor list_type body created

  abbrev pub type_given : Subscriber → Text → NewList → Option ListType → M Response
  type_given actor name body none = pure bad_type
  type_given actor name body (some list_type) = do
    let domain = web.env.to_lower (web.env.trim_space body.domain)
    d ← attempt (get_domain domain)
    domain_found actor name domain list_type body d

  abbrev pub list_body : Subscriber → Option NewList → M Response
  list_body actor none = pure (json_error 400 (codes "invalid request body"))
  list_body actor (some body) =
      let name = web.env.to_lower (web.env.trim_space body.list_name) in
      if not (valid_list_name name)
      then pure (
          json_error 400
            (codes "invalid list name (use letters, digits, dots, dashes, underscores)"))
      else type_given actor name body (known_type body.list_type)

  -- json.Decode of the body is a parameter.
  unfoldable pub handle_admin_lists : (Text → Option NewList) → Request → Subscriber → M Response
  handle_admin_lists decode r actor =
      if is_method (codes "POST") r
      then list_body actor (decode r.body)
      else if not (is_method (codes "GET") r)
      then pure method_not_allowed
      else do lists ← attempt (list_lists []); lists_listed lists

  abbrev pub list_deleted : Subscriber → MailingList → Result Unit → M Response
  list_deleted actor l (err _) = pure (json_error 500 (codes "failed to delete list"))
  list_deleted actor l (ok _) = do
    audit (some l) list_delete (subscriber_actor actor) (list_address l) []
    pure (json_status 200 (codes "list deleted"))

  abbrev pub with_list : Result MailingList → (MailingList → M Response) → M Response
  with_list (err _) next = pure (json_error 404 (codes "list not found"))
  with_list (ok l) next = next l

  unfoldable pub handle_admin_list_delete : Text → Text → Subscriber → M Response
  handle_admin_list_delete name domain actor = do
    found ← attempt (get_list name domain)
    with_list found
        λ l. do deleted ← attempt (delete_list name domain); list_deleted actor l deleted

  abbrev pub type_changed : Subscriber → MailingList → ListType → Result Unit → M Response
  type_changed actor l list_type (err _) =
      pure (json_error 500 (codes "failed to change list type"))
  type_changed actor l list_type (ok _) = do
    audit (some l) Action.list_type (subscriber_actor actor) (list_address l) (type_text list_type)
    pure (json_status 200 (codes "list type updated"))

  abbrev pub new_type : Text → Text → Subscriber → Option ListType → M Response
  new_type name domain actor none = pure bad_type
  new_type name domain actor (some list_type) = do
    found ← attempt (get_list name domain)
    with_list found λ l. do
      changed ← attempt (update_list_type l.id list_type)
      type_changed actor l list_type changed

  abbrev pub type_body : Text → Text → Subscriber → Option Text → M Response
  type_body name domain actor none = pure (json_error 400 (codes "invalid request body"))
  type_body name domain actor (some t) = new_type name domain actor (known_type t)

  unfoldable pub handle_admin_list_type : Request → Text → Text → Subscriber → M Response
  handle_admin_list_type r name domain actor =
      type_body name domain actor (web.decode_text (codes "list_type") r.body)

  -- The switch on the number of parts and the method.
  unfoldable pub list_action : List Text → Request → Text → Text → Subscriber → M Response
  list_action [] r name domain actor =
      if is_method (codes "DELETE") r
      then handle_admin_list_delete name domain actor
      else pure not_found_page
  list_action (word ∷ []) r name domain actor =
      if text_eq word (codes "type") && is_method (codes "POST") r
      then handle_admin_list_type r name domain actor
      else pure not_found_page
  list_action (_ ∷ _ ∷ _) r name domain actor = pure not_found_page

  abbrev pub admin_list_path : List Text → Request → Subscriber → M Response
  admin_list_path (domain ∷ name ∷ rest) r actor = do
    found ← attempt (get_list name domain)
    with_list found λ _. list_action rest r name domain actor
  admin_list_path _ r actor = pure not_found_page

  unfoldable pub handle_admin_list_action : Request → Subscriber → M Response
  handle_admin_list_action r actor =
      admin_list_path (path_parts (codes "/api/console/admin/lists/") r.path) r actor
