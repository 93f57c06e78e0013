-- ===== src/Store/Directory.antt =====
-- ListMembers of internal/store/sqlite/sqlite.go.
use xlistman.Prelude.{
  ℕ, Bool, true, Option, none, some, List, [], ◌∷◌, ◌++◌, ◌==◌, first, any, if◌then◌else◌,
}
use xlistman.Strings.{Text, codes}
use xlistman.Effects.Tables.{order_by}
use xlistman.Effects.{M, ◌>>=◌, pure, wrap}
use xlistman.Model.{Subscriber, Subscription, RoleHolder}
use xlistman.Store.Access.{subscribers, find_all}
use xlistman.Store.Lists.{text_before}
use xlistman.Store.Members.{list_subscriptions}
use xlistman.Store.Roles.{list_owners, list_moderators, list_designated_senders}

-- model.MemberView; `subscription` is none where the subscriber holds a role and is not subscribed.
pub record MemberView : Type 0 where
  pub subscriber_id : ℕ
  pub email : Text
  pub subscription : Option Subscription
  pub roles : List Text

-- A map from keys to roles; its keys in the order in which they come first. (The order in which Go
-- ranges over a map is not fixed; the rows are sorted at the end.)
abbrev pub RoleMap : Type 0
RoleMap = List (ℕ × List Text)

unfoldable pub add_role_at : ℕ → Text → RoleMap → RoleMap
add_role_at id role [] = (id, role ∷ []) ∷ []
add_role_at id role ((key, roles) ∷ rest) =
    if key == id then (key, roles ++ role ∷ []) ∷ rest else (key, roles) ∷ add_role_at id role rest

unfoldable pub roles_at : ℕ → RoleMap → List Text
roles_at id [] = []
roles_at id ((key, roles) ∷ rest) = if key == id then roles else roles_at id rest

unfoldable pub add_holders : Text → List RoleHolder → RoleMap → RoleMap
add_holders role [] m = m
add_holders role (h ∷ holders) m = add_holders role holders (add_role_at h.subscriber_id role m)

abbrev is_subscribed : ℕ → List Subscription → Bool
is_subscribed id subs = any (λ s. s.subscriber_id == id) subs

abbrev pub view_of :
    Subscription → List Text → Option Subscriber → List MemberView → List MemberView
view_of s roles none views = views
view_of s roles (some m) views =
    record {
      subscriber_id = s.subscriber_id;
      email = m.email;
      subscription = some s;
      roles = roles;
    }
    ∷ views

abbrev pub role_view_of : ℕ → List Text → Option Subscriber → List MemberView → List MemberView
role_view_of id roles none views = views
role_view_of id roles (some m) views =
    record { subscriber_id = id; email = m.email; subscription = none; roles = roles } ∷ views

module _ (found : List Subscriber) (roles : RoleMap) where
  unfoldable pub subscribed_views : List Subscription → List MemberView
  subscribed_views [] = []
  subscribed_views (s ∷ subs) =
      view_of s (roles_at s.subscriber_id roles) (first (λ m. m.id == s.subscriber_id) found)
        (subscribed_views subs)

  -- The role holders who are not subscribed.
  unfoldable pub role_views : List Subscription → RoleMap → List MemberView
  role_views subs [] = []
  role_views subs ((id, held_roles) ∷ rest) =
      let views = role_views subs rest in
      if is_subscribed id subs
      then views
      else role_view_of id held_roles (first (λ m. m.id == id) found) views

-- Every referenced subscriber, in one query, if there is one.
unfoldable pub load_subscribers : List Subscription → RoleMap → M (List Subscriber)
load_subscribers [] [] = pure []
load_subscribers subs roles = wrap (codes "list members") (
    find_all subscribers
      (λ m. if is_subscribed m.id subs then true else any (λ p. p.0 == m.id) roles))

unfoldable pub list_members : ℕ → M (List MemberView)
list_members list_id = do
  subs ← list_subscriptions list_id
  owners ← list_owners list_id
  moderators ← list_moderators list_id
  senders ← list_designated_senders list_id
  let roles =
      add_holders (codes "designated_sender") senders
        (add_holders (codes "moderator") moderators (add_holders (codes "owner") owners []))
  found ← load_subscribers subs roles
  let views = subscribed_views found roles subs ++ role_views found roles subs roles
  pure (order_by (λ (a b : MemberView). text_before a.email b.email) views)
