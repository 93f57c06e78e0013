-- ===== src/Admin/Roles.antt =====
-- Granting and revoking the two list roles.
pub mod LastOwner
use xlistman.Prelude.{ℕ, Bool, true, false, List, [], ◌∷◌, ◌==◌, if◌then◌else◌}
use xlistman.Strings.{Text, codes}
use xlistman.Result.{said, said_of}
use xlistman.Model.{MailingList, Subscriber, RoleHolder, AuditActor, role_grant, role_revoke}
use xlistman.Effects.{M, ◌>>=◌, ◌>>◌, pure, raise}
use xlistman.Store.Lists.{get_list_by_id}
use xlistman.Store.Members.{get_subscriber_by_id}
use xlistman.Store.Roles.{add_owner, remove_owner, list_owners, add_moderator, remove_moderator}
use xlistman.Pipeline.Moderation.{record_audit}

-- The string `role`: RoleOwner, RoleModerator, or any other.
pub data ListRole : Type 0 where
  role_owner role_moderator : ListRole
  other : Text → ListRole

abbrev pub role_text : ListRole → Text
role_text role_owner = codes "owner"
role_text role_moderator = codes "moderator"
role_text (ListRole.other t) = t

abbrev pub unknown_role : {A : Type 0} → Text → M A
unknown_role t = raise (said_of (codes "unknown role") t)

abbrev pub grant : ListRole → ℕ → ℕ → M Unit
grant role_owner list_id id = add_owner list_id id
grant role_moderator list_id id = add_moderator list_id id
grant (ListRole.other t) list_id id = unknown_role t

unfoldable pub grant_role : ℕ → ℕ → ListRole → AuditActor → M Unit
grant_role list_id subscriber_id role actor = do
  l ← get_list_by_id list_id
  sub ← get_subscriber_by_id subscriber_id
  grant role list_id subscriber_id
  record_audit l role_grant actor sub.email (role_text role)

-- len(owners) == 1 && owners[0].SubscriberID == subscriberID
unfoldable pub is_last_owner : List RoleHolder → ℕ → Bool
is_last_owner [] id = false
is_last_owner (o ∷ []) id = o.subscriber_id == id
is_last_owner (o ∷ p ∷ os) id = false

unfoldable pub revoke : ListRole → ℕ → ℕ → M Unit
revoke role_owner list_id id = do
  owners ← list_owners list_id
  if is_last_owner owners id
      then raise (said (codes "cannot remove the last owner"))
      else remove_owner list_id id
revoke role_moderator list_id id = remove_moderator list_id id
revoke (ListRole.other t) list_id id = unknown_role t

unfoldable pub revoke_role : ℕ → ℕ → ListRole → AuditActor → M Unit
revoke_role list_id subscriber_id role actor = do
  l ← get_list_by_id list_id
  sub ← get_subscriber_by_id subscriber_id
  revoke role list_id subscriber_id
  record_audit l role_revoke actor sub.email (role_text role)
