-- ===== src/Server/Public/Gate.antt =====
-- Who reads the archive of a list on the web.
use xlistman.Prelude.{
  ℕ, ◌≡◌, ◌⊎◌, inl, inr, refl, Bool, true, false, not, ◌&&◌, Option, none, some, List, ◌∷◌, first,
  if◌then◌else◌, [],
}
use xlistman.Strings.{Text, codes, text_eq}
use xlistman.Result.{ok}
use xlistman.Effects.Tables.{Db, select}
use xlistman.Effects.{World, healthy, M, ◌>>=◌, pure, attempt, statement}
use xlistman.Model.{Time, MailingList, Subscriber, Subscription}
use xlistman.Store.Access.{find_first}
use xlistman.Store.Lists.{get_list, joined}
use xlistman.Store.Members.{get_subscription, of_member}
use xlistman.Server.Http.{
  Request, Response, Web, json_error, method_not_allowed, path_parts, is_method,
}
use xlistman.Server.Access.{members_only, require_member, is_member_status, unauthorized}
use xlistman.Server.Access.Callers.{caller_of, authenticate-caller_of}
use xlistman.Server.Limiter.{RateLimiter}
use xlistman.Server.Login.{Limits}
use xlistman.Server.Archives.{
  Reader, handle_archives, handle_archive_entry, handle_archive_attachment,
}
use xlistman.Server.Public.{
  ListRoute, archive_route, list_route, list_page, list_looked_up, handle_list_detail,
}

abbrev pub is_member : Option Subscription → Bool
is_member none = false
is_member (some s) = is_member_status s.status

abbrev pub member_of : Db → MailingList → Option Subscriber → Bool
member_of d l none = false
member_of d l (some s) = is_member (first (of_member l.id s.id) d.subscriptions.rows)

-- Whether the tables have the request's caller as a member, active or held, of the list.
abbrev pub may_read : Db → Time → Request → MailingList → Bool
may_read d clock r l = member_of d l (caller_of d clock r)

-- What a request that is not let in gets: 401 or 403 if its method is GET, and else 405.
abbrev pub Denied : Bool → Response → Type 0
Denied true answer = (answer.status ≡ 401) ⊎ (answer.status ≡ 403)
Denied false answer = answer.status ≡ 405

-- The action denies the request and leaves the world alone.
abbrev pub ForMembers : Bool → M Response → World → Type 0
ForMembers is_get m w = (answer : Response) × (m w ≡ (ok answer, w)) × Denied is_get answer

module _ (l : MailingList) (next : M Response) (d : Db) (clock : Time) (token_of : ℕ → Text)
    (n : ℕ) where
  member-refused :
      (s : Subscriber) (found : Option Subscription)
      → first (of_member l.id s.id) d.subscriptions.rows ≡ found
      → is_member found ≡ false
      → ForMembers true (members_only l next (some s)) (healthy d clock token_of n)
  unfolding get_subscription find_first select statement attempt pure ◌>>=◌ first
  member-refused s none e h = (json_error 403 (codes "members only"), rw e refl, inr refl)
  member-refused s (some x) e h = (json_error 403 (codes "members only"), rw (e, h) refl, inr refl)

  caller-refused :
      (caller : Option Subscriber)
      → member_of d l caller ≡ false
      → ForMembers true (members_only l next caller) (healthy d clock token_of n)
  unfolding pure
  caller-refused none h = (unauthorized, refl, inl refl)
  caller-refused (some s) h = member-refused s _ refl h

  require_member-refused :
      (r : Request)
      → may_read d clock r l ≡ false
      → ForMembers true (require_member l next r) (healthy d clock token_of n)
  unfolding require_member ◌>>=◌
  require_member-refused r h =
      rw (authenticate-caller_of r d clock token_of n) (caller-refused (caller_of d clock r) h)

module _ (web : Web) (reader : Reader) (r : Request) (l : MailingList) (d : Db) (clock : Time)
    (token_of : ℕ → Text) (n : ℕ) (h : may_read d clock r l ≡ false) where
  gated :
      (next : M Response) (is_get : Bool)
      → ForMembers true next (healthy d clock token_of n)
      → ForMembers is_get
          (if not is_get then pure method_not_allowed else next)
          (healthy d clock token_of n)
  unfolding pure
  gated next true k = k
  gated next false k = (method_not_allowed, refl, refl)

  archives-refused :
      ForMembers
        (is_method (codes "GET") r)
        (handle_archives web reader r l)
        (healthy d clock token_of n)
  unfolding handle_archives
  archives-refused = gated _ _ (require_member-refused l _ d clock token_of n r h)

  entry-refused :
      (id : Text)
      → ForMembers
          (is_method (codes "GET") r)
          (handle_archive_entry web reader r l id)
          (healthy d clock token_of n)
  unfolding handle_archive_entry
  entry-refused id = gated _ _ (require_member-refused l _ d clock token_of n r h)

  attachment-refused :
      (id ordinal : Text)
      → ForMembers
          (is_method (codes "GET") r)
          (handle_archive_attachment web reader r l id ordinal)
          (healthy d clock token_of n)
  unfolding handle_archive_attachment
  attachment-refused id ordinal = gated _ _ (require_member-refused l _ d clock token_of n r h)

  part-refused :
      (id ordinal : Text) (b : Bool)
      → ForMembers
          (is_method (codes "GET") r)
          (list_page web reader r l
            (if b then ListRoute.attachment_route id ordinal else ListRoute.entry_route id))
          (healthy d clock token_of n)
  part-refused id ordinal true = attachment-refused id ordinal
  part-refused id ordinal false = entry-refused id

  route-refused :
      (more : List Text)
      → ForMembers
          (is_method (codes "GET") r)
          (list_page web reader r l (archive_route more))
          (healthy d clock token_of n)
  route-refused [] = archives-refused
  route-refused (id ∷ []) = entry-refused id
  route-refused (id ∷ part ∷ []) = entry-refused id
  route-refused (id ∷ part ∷ ordinal ∷ more) = part-refused id ordinal _

  looked_up-refused :
      (domain name : Text) (more : List Text)
      → first
          (λ x. text_eq x.list_name name && text_eq x.domain domain)
          (joined d.domains.rows d.lists.rows)
        ≡ some l
      → ForMembers
          (is_method (codes "GET") r)
          (list_looked_up web reader r domain name (codes "archives" ∷ more))
          (healthy d clock token_of n)
  unfolding list_looked_up list_route get_list statement attempt ◌>>=◌ first text_eq
  looked_up-refused domain name more found = rw found (route-refused more)

-- Under the archive of a list that is there, whatever else the path says, a request that does not come
-- from an active or held member of the list is answered 401 or 403, or 405 if its method is not GET,
-- changes nothing, and counts against no limit. The database refuses nothing.
pub handle_list_detail-members :
    {B : Type 0} (web : Web) (reader : Reader) (rate : RateLimiter B) (domain name : Text)
    (more : List Text) (r : Request) (limits : Limits B) (l : MailingList) (d : Db) (clock : Time)
    (token_of : ℕ → Text) (n : ℕ)
    → path_parts (codes "/api/lists/") r.path ≡ domain ∷ name ∷ codes "archives" ∷ more
    → first
        (λ x. text_eq x.list_name name && text_eq x.domain domain)
        (joined d.domains.rows d.lists.rows)
      ≡ some l
    → may_read d clock r l ≡ false
    → (answer : Response) × (handle_list_detail web reader rate r limits
          (healthy d clock token_of n)
        ≡ (ok (answer, limits), healthy d clock token_of n))
      × Denied (is_method (codes "GET") r) answer
unfolding handle_list_detail text_eq ◌>>=◌ pure
handle_list_detail-members web reader rate domain name more r limits l d clock token_of n path found
      h =
    let refused = looked_up-refused web reader r l d clock token_of n h domain name more found in
    (refused.0, rw (path, refused.1) refl, refused.2)
