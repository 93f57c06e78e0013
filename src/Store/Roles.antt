-- ===== src/Store/Roles.antt =====
-- Owners, moderators and designated senders: the same five methods for each of three tables.
use xlistman.Prelude.{ℕ, Bool, ◌&&◌, List, ◌==◌, any}
use xlistman.Result.{ok}
use xlistman.Model.{RoleHolder}
use xlistman.Effects.{M, ◌>>=◌, now, statement}
use xlistman.Store.Access.{
  Place, owners, moderators, designated_senders, create_or_ignore, find_all, delete_rows,
}

abbrev pub holds : ℕ → ℕ → RoleHolder → Bool
holds list_id subscriber_id r = r.list_id == list_id && r.subscriber_id == subscriber_id

module _ (place : Place RoleHolder) where
  unfoldable pub add_role : ℕ → ℕ → M Unit
  add_role list_id subscriber_id = do
    t ← now
    create_or_ignore place (holds list_id subscriber_id)
        (λ id. record { id = id; list_id = list_id; subscriber_id = subscriber_id; created_at = t })

  unfoldable pub remove_role : ℕ → ℕ → M Unit
  remove_role list_id subscriber_id = delete_rows place (holds list_id subscriber_id)

  unfoldable pub list_role : ℕ → M (List RoleHolder)
  list_role list_id = find_all place (λ r. r.list_id == list_id)

  unfoldable pub lists_of_role : ℕ → M (List RoleHolder)
  lists_of_role subscriber_id = find_all place (λ r. r.subscriber_id == subscriber_id)

  unfoldable pub has_role : ℕ → ℕ → M Bool
  has_role list_id subscriber_id =
      statement λ d. (ok (any (holds list_id subscriber_id) (place.get d).rows), d)

abbrev pub add_owner : ℕ → ℕ → M Unit
add_owner = add_role owners

abbrev pub remove_owner : ℕ → ℕ → M Unit
remove_owner = remove_role owners

abbrev pub list_owners : ℕ → M (List RoleHolder)
list_owners = list_role owners

abbrev pub list_owner_lists : ℕ → M (List RoleHolder)
list_owner_lists = lists_of_role owners

abbrev pub is_owner : ℕ → ℕ → M Bool
is_owner = has_role owners

abbrev pub add_moderator : ℕ → ℕ → M Unit
add_moderator = add_role moderators

abbrev pub remove_moderator : ℕ → ℕ → M Unit
remove_moderator = remove_role moderators

abbrev pub list_moderators : ℕ → M (List RoleHolder)
list_moderators = list_role moderators

abbrev pub list_moderator_lists : ℕ → M (List RoleHolder)
list_moderator_lists = lists_of_role moderators

abbrev pub is_moderator : ℕ → ℕ → M Bool
is_moderator = has_role moderators

abbrev pub add_designated_sender : ℕ → ℕ → M Unit
add_designated_sender = add_role designated_senders

abbrev pub remove_designated_sender : ℕ → ℕ → M Unit
remove_designated_sender = remove_role designated_senders

abbrev pub list_designated_senders : ℕ → M (List RoleHolder)
list_designated_senders = list_role designated_senders

abbrev pub is_designated_sender : ℕ → ℕ → M Bool
is_designated_sender = has_role designated_senders
