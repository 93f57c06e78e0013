-- ===== src/Server/Archives.antt =====
-- The archive of a list on the web: handleArchives, handleArchiveEntry and handleArchiveAttachment of
-- internal/server/server.go.
use xlistman.Prelude.{
  ℕ, Bool, not, Option, none, some, List, [], ◌∷◌, ◌==◌, map, ltb, if◌then◌else◌,
}
use xlistman.Strings.{Text, codes, is_empty}
use xlistman.Result.{Result, ok, err}
use xlistman.Effects.Tables.{Indexed}
use xlistman.Effects.{M, ◌>>=◌, pure, attempt}
use xlistman.Model.{MailingList, ArchiveEntry}
use xlistman.Store.Archive.{list_archive, search_archive, get_archive_entry}
use xlistman.Server.Http.{
  ℤ, Request, Response, Content, Value, Row, Web, respond, json_error, not_found_page,
  method_not_allowed, is_method, row_key, query_int_default,
}
use xlistman.Server.Access.{require_member}

-- mailparse.Attachment, as far as it is served
pub record Attachment : Type 0 where
  pub content_type : Text
  pub name : Text
  pub is_inline : Bool
  pub bytes : Text

-- What the archive is shown with: the JSON of a message that mailparse could parse (none where it could
-- not), the attachment with an ordinal, the rows that a full-text query matches, and
-- mime.FormatMediaType with a file's name.
pub record Reader : Type 0 where
  pub parse_mime : Text → Option Row
  pub attachment_of : Text → ℕ → Option Attachment
  pub match_rows : Text → Option (Indexed → Bool)
  pub format_media_type : Text → Text → Text

-- limit > 200; a negative limit is passed on, and limits nothing
unfoldable pub archive_limit : ℤ → Option ℕ
archive_limit (ℤ.pos n) = some (if ltb 200 n then 200 else n)
archive_limit (ℤ.negsuc n) = none

-- A negative offset skips nothing.
abbrev pub archive_offset : ℤ → ℕ
archive_offset (ℤ.pos n) = n
archive_offset (ℤ.negsuc n) = 0

unfoldable pub entry_row : ArchiveEntry → Row
entry_row e =
    (codes "id", Value.number e.id)
    ∷ (codes "subject", Value.text e.subject)
    ∷ (codes "from", Value.text e.from_addr)
    ∷ (codes "message_id", Value.text e.message_id)
    ∷ (codes "thread_id", Value.text e.thread_id)
    ∷ (codes "received_at", Value.number e.received_at)
    ∷ []

abbrev pub entries_shown : Result (List ArchiveEntry) → Response
entries_shown (err _) = json_error 500 (codes "failed to load archive")
entries_shown (ok entries) = respond 200 (Content.rows (map entry_row entries))

abbrev pub message_not_found : Response
message_not_found = json_error 404 (codes "message not found")

-- GetArchiveEntry with the test that the entry is of the list, and what the handler does behind it
abbrev pub entry_of_list : MailingList → (ArchiveEntry → Response) → Result ArchiveEntry → Response
entry_of_list l show (err _) = message_not_found
entry_of_list l show (ok e) = if not (e.list_id == l.id) then message_not_found else show e

module _ (web : Web) (reader : Reader) where
  unfoldable pub archive_page : Request → MailingList → M Response
  archive_page r l =
      let limit = archive_limit (query_int_default web r (codes "limit") 50) in
      let offset = archive_offset (query_int_default web r (codes "offset") 0) in
      let q = web.env.trim_space (r.query (codes "q")) in
      do
        entries ← attempt (
            if is_empty q
            then list_archive l.id limit offset
            else search_archive reader.match_rows l.id q limit)
        pure (entries_shown entries)

  unfoldable pub handle_archives : Request → MailingList → M Response
  handle_archives r l =
      if not (is_method (codes "GET") r)
      then pure method_not_allowed
      else require_member l (archive_page r l) r

  abbrev pub body_of : Option Row → Row
  body_of none = []
  body_of (some view) = view

  unfoldable pub entry_shown : ArchiveEntry → Response
  entry_shown e =
      respond 200 (Content.nested (entry_row e) (codes "body") (body_of (reader.parse_mime e.body)))

  abbrev pub entry_at : MailingList → (ArchiveEntry → Response) → Option ℤ → M Response
  entry_at l show none = pure not_found_page
  entry_at l show (some id) = do
    e ← attempt (get_archive_entry (row_key id))
    pure (entry_of_list l show e)

  unfoldable pub handle_archive_entry : Request → MailingList → Text → M Response
  handle_archive_entry r l id =
      if not (is_method (codes "GET") r)
      then pure method_not_allowed
      else require_member l (entry_at l entry_shown (web.parse_int id)) r

  -- serveAttachment
  unfoldable pub serve_attachment : Attachment → Response
  serve_attachment a =
      let ct =
        if is_empty a.content_type then codes "application/octet-stream" else a.content_type in
      let disposition = if a.is_inline then codes "inline" else codes "attachment" in
      respond 200 (Content.file ct (reader.format_media_type disposition a.name) a.bytes)

  abbrev pub served : Option Attachment → Response
  served none = not_found_page
  served (some a) = serve_attachment a

  abbrev pub attachment_shown : ℕ → ArchiveEntry → Response
  attachment_shown ordinal e = served (reader.attachment_of e.body ordinal)

  abbrev pub attachment_at : MailingList → Option ℤ → Option ℤ → M Response
  attachment_at l none ordinal = pure not_found_page
  attachment_at l (some id) none = pure not_found_page
  attachment_at l (some id) (some (ℤ.negsuc n)) = pure not_found_page
  attachment_at l (some id) (some (ℤ.pos n)) = entry_at l (attachment_shown n) (some id)

  unfoldable pub handle_archive_attachment : Request → MailingList → Text → Text → M Response
  handle_archive_attachment r l id ordinal =
      if not (is_method (codes "GET") r)
      then pure method_not_allowed
      else require_member l (attachment_at l (web.parse_int id) (web.parse_int ordinal)) r
