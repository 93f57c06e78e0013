-- ===== src/Server/Console/Members.antt =====
-- Members and roles in the console (internal/server/console.go).
use xlistman.Prelude.{ℕ, not, Option, none, some, ◌++◌, if◌then◌else◌}
use xlistman.Strings.{Text, codes, text_eq}
use xlistman.Result.{Result, ok, err}
use xlistman.Effects.{M, ◌>>=◌, pure, attempt}
use xlistman.Model.{MailingList, Subscriber, AuditActor}
use xlistman.Admin.Members.{add_member, remove_member, approve_subscription, reject_subscription}
use xlistman.Admin.Roles.{ListRole, role_owner, role_moderator, grant_role, revoke_role}
use xlistman.Server.Http.{
  ℤ, Request, Response, Web, json_error, json_status, json_failure, not_found_page,
  method_not_allowed, is_method, row_key, normalize_email,
}
use xlistman.Server.Audit.{subscriber_actor}

-- 200 with a status, or 400 with the error
abbrev pub done_or_refused : {A : Type 0} → ℕ → Text → Result A → Response
done_or_refused status t (ok _) = json_status status t
done_or_refused status t (err e) = json_failure 400 e

module _ (web : Web) where
  abbrev pub with_key : Option ℤ → (ℕ → M Response) → M Response
  with_key none next = pure not_found_page
  with_key (some id) next = next (row_key id)

  abbrev pub email_given : Option Text → (Text → M Response) → M Response
  email_given none next = pure (json_error 400 (codes "a valid email is required"))
  email_given (some email) next = next email

  abbrev pub body_email : Option Text → (Text → M Response) → M Response
  body_email none next = pure (json_error 400 (codes "invalid request body"))
  body_email (some raw) next = email_given (normalize_email web raw) next

  -- handleConsoleMembers where the method is POST
  unfoldable pub console_member_add : Request → Subscriber → MailingList → M Response
  console_member_add r s l = body_email (web.decode_text (codes "email") r.body) λ email. do
    added ← attempt (add_member web.env l.list_name l.domain email (subscriber_actor s))
    pure (done_or_refused 201 (codes "member added") added)

  unfoldable pub handle_console_member_remove :
      Request → Subscriber → Text → MailingList → M Response
  handle_console_member_remove r s id l =
      if not (is_method (codes "DELETE") r)
      then pure method_not_allowed
      else with_key (web.parse_int id) λ sub_id. do
        done ← attempt (remove_member web.env l.id sub_id (subscriber_actor s))
        pure (done_or_refused 200 (codes "member removed") done)

  abbrev pub decided : Text → M Unit → M Response
  decided action m = do
    done ← attempt m
    pure (done_or_refused 200 (codes "subscription " ++ (action ++ codes "d")) done)

  -- The switch on the action.
  unfoldable pub member_action : Text → AuditActor → MailingList → ℕ → M Response
  member_action action actor l sub_id =
      if text_eq action (codes "approve")
      then decided action (approve_subscription web.env l.id sub_id actor)
      else if text_eq action (codes "reject")
      then decided action (reject_subscription web.env l.id sub_id actor)
      else pure not_found_page

  unfoldable pub handle_console_member_action :
      Request → Subscriber → Text → Text → MailingList → M Response
  handle_console_member_action r s id action l =
      if not (is_method (codes "POST") r)
      then pure method_not_allowed
      else with_key (web.parse_int id) (member_action action (subscriber_actor s) l)

  -- RoleOwner or RoleModerator
  abbrev pub role_of_text : Text → Option ListRole
  role_of_text t =
      if text_eq t (codes "owner")
      then some role_owner
      else if text_eq t (codes "moderator")
      then some role_moderator
      else none

  unfoldable pub role_changed : Result Unit → Response
  role_changed r = elim r [
    | ok _ ↦ json_status 200 (codes "role updated")
    | err e ↦ json_failure (if web.error_contains e (codes "last owner") then 409 else 400) e
  ]

  -- The switch on the method.
  unfoldable pub change_role : Request → AuditActor → ListRole → MailingList → ℕ → M Response
  change_role r actor role l sub_id =
      if is_method (codes "POST") r
      then (do done ← attempt (grant_role l.id sub_id role actor); pure (role_changed done))
      else if is_method (codes "DELETE") r
      then (do done ← attempt (revoke_role l.id sub_id role actor); pure (role_changed done))
      else pure method_not_allowed

  abbrev pub known_role : Option ListRole → Request → Subscriber → Text → MailingList → M Response
  known_role none r s id l = pure not_found_page
  known_role (some role) r s id l =
      with_key (web.parse_int id) (change_role r (subscriber_actor s) role l)

  unfoldable pub handle_console_role : Request → Subscriber → Text → Text → MailingList → M Response
  handle_console_role r s id role l = known_role (role_of_text role) r s id l
