-- ===== src/Tests/Archives.antt =====
-- The archive on the web, and subscribing there.
use xlistman.Prelude.{ℕ, ◌≡◌, refl, false, ◌&&◌, none, some, [], ◌∷◌, first}
use xlistman.Strings.{codes, text_eq, is_empty, strip_prefix}
use xlistman.Result.{ok}
use xlistman.Effects.{healthy}
use xlistman.Store.Lists.{joined, join_domain}
use xlistman.Server.Http.{Request, Response, path_parts, split_at_from, is_method}
use xlistman.Server.Login.{Limits}
use xlistman.Server.Archives.{Reader}
use xlistman.Server.Public.{handle_list_detail, list_route, ListRoute}
use xlistman.Server.Public.Gate.{may_read, Denied, handle_list_detail-members}
use xlistman.Tests.Samples.{dev, token_at}
use xlistman.Tests.Connections.{tokens, empty_limiter}
use xlistman.Tests.Web.{sample_web, web_db, request}

abbrev reader : Reader
reader = record {
  parse_mime = λ t. none;
  attachment_of = λ t n. none;
  match_rows = λ q. none;
  format_media_type = λ disposition name. name;
}

abbrev limits : Limits ℕ
limits = record {
  magic_link_ip = empty_limiter;
  magic_link_email = empty_limiter;
  subscribe = empty_limiter;
}

abbrev first_entry : Request
first_entry = request (codes "GET") (codes "/api/lists/x.y/dev/archives/1")

entry-path :
    path_parts (codes "/api/lists/") first_entry.path
    ≡ codes "x.y" ∷ codes "dev" ∷ codes "archives" ∷ codes "1" ∷ []
unfolding path_parts split_at_from strip_prefix
entry-path = refl

attachment_path :
    list_route first_entry (codes "archives" ∷ codes "1" ∷ codes "attachments" ∷ codes "0" ∷ [])
    ≡ ListRoute.attachment_route (codes "1") (codes "0")
unfolding list_route text_eq
attachment_path = refl

entry-unread : may_read web_db 100 first_entry dev ≡ false
unfolding first text_eq is_empty
entry-unread = refl

entry-listed :
    first
      (λ x. text_eq x.list_name (codes "dev") && text_eq x.domain (codes "x.y"))
      (joined web_db.domains.rows web_db.lists.rows)
    ≡ some dev
unfolding first joined join_domain text_eq
entry-listed = refl

handle_list_detail-members_example :
    (answer : Response) × (handle_list_detail sample_web reader tokens first_entry limits
        (healthy web_db 100 token_at 0)
      ≡ (ok (answer, limits), healthy web_db 100 token_at 0))
    × Denied (is_method (codes "GET") first_entry) answer
handle_list_detail-members_example =
    handle_list_detail-members sample_web reader tokens (codes "x.y") (codes "dev") (codes "1" ∷ [])
      first_entry limits dev web_db 100 token_at 0 entry-path entry-listed entry-unread
