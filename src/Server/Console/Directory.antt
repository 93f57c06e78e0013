-- ===== src/Server/Console/Directory.antt =====
-- The member directory in the console: its pages, its export and its import
-- (internal/server/console.go).
pub mod Paging
use xlistman.Prelude.{
  ℕ, zero, suc, ◌+◌, ◌-◌, Bool, true, false, not, Option, none, some, List, [], ◌∷◌, ◌++◌, length,
  map, keep, ltb, if◌then◌else◌,
}
use xlistman.Strings.{Text, codes, is_empty, cut}
use xlistman.Result.{Result, ok, err}
use xlistman.Effects.{M, ◌>>=◌, pure, attempt}
use xlistman.Model.{
  MailingList, Subscriber, Subscription, SubscriptionStatus, held, pending, active, disabled,
}
use xlistman.Store.Archive.{take, drop}
use xlistman.Store.Directory.{MemberView, list_members}
use xlistman.Lmtp.Commands.{status_text, mode_text}
use xlistman.Admin.Import.{ImportSource, ImportResult, skipped, import_members}
use xlistman.Admin.Csv.{Csv, MemberRow, Parsed, export_csv, parse_import}
use xlistman.Server.Http.{
  ℤ, Request, Response, Content, Value, Row, Web, respond, json_error, method_not_allowed,
  is_method, query_int_default,
}
use xlistman.Server.Audit.{subscriber_actor}
use xlistman.Server.Console.Members.{console_member_add}

abbrev pub is_held : SubscriptionStatus → Bool
is_held held = true
is_held pending = false
is_held active = false
is_held disabled = false

-- m.SubscriptionID != nil && m.Status == "held"
abbrev pub awaits : Option Subscription → Bool
awaits none = false
awaits (some s) = is_held s.status

abbrev pub is_found : Option (Text × Text) → Bool
is_found none = false
is_found (some _) = true

-- strings.Contains
unfoldable pub contains : Text → Text → Bool
contains t part = is_found (cut part t)

-- limit <= 0 || limit > 200
unfoldable pub page_limit : ℤ → ℕ
page_limit (ℤ.pos zero) = 100
page_limit (ℤ.pos (suc n)) = if ltb 200 (suc n) then 100 else suc n
page_limit (ℤ.negsuc n) = 100

unfoldable pub page_offset : ℤ → ℕ
page_offset (ℤ.pos n) = n
page_offset (ℤ.negsuc n) = 0

abbrev pub at_most : ℕ → ℕ → ℕ
at_most total n = if ltb total n then total else n

-- filtered[lo:hi], with lo
unfoldable pub member_page : {A : Type 0} → ℕ → ℕ → List A → ℕ × List A
member_page limit offset filtered =
    let total = length filtered in
    let lo = at_most total offset in
    let hi = at_most total (lo + limit) in (lo, take (hi - lo) (drop lo filtered))

abbrev pub subscription_fields : Option Subscription → Row
subscription_fields none = (codes "bounce_count", Value.number 0) ∷ []
subscription_fields (some s) =
    (codes "subscription_id", Value.number s.id)
    ∷ (codes "status", Value.text (status_text s.status))
    ∷ (codes "delivery_mode", Value.text (mode_text s.delivery_mode))
    ∷ (codes "bounce_count", Value.number s.bounce_count)
    ∷ []

-- toInfo
unfoldable pub member_info : MemberView → Row
member_info m =
    (codes "subscriber_id", Value.number m.subscriber_id)
    ∷ (codes "email", Value.text m.email)
    ∷ (codes "roles", Value.texts m.roles)
    ∷ subscription_fields m.subscription

abbrev pub row_of : MemberView → MemberRow
row_of m = record {
  email = m.email;
  status = elim m.subscription [ none ↦ [] | some s ↦ status_text s.status ];
  delivery_mode = elim m.subscription [ none ↦ [] | some s ↦ mode_text s.delivery_mode ];
  roles = m.roles;
}

abbrev pub exported : Csv → Result (List MemberView) → Response
exported csv (err _) = json_error 500 (codes "failed to export members")
exported csv (ok views) = respond 200 (Content.plain (export_csv csv (map row_of views)))

unfoldable pub handle_console_members_export : Csv → Request → MailingList → M Response
handle_console_members_export csv r l =
    if not (is_method (codes "GET") r)
    then pure method_not_allowed
    else do views ← attempt (list_members l.id); pure (exported csv views)

module _ (web : Web) where
  -- The roster without the held, searched, and one page of it.
  unfoldable pub members_shown : Request → List MemberView → Response
  members_shown r members =
      let waiting = keep (λ m. awaits m.subscription) members in
      let roster = keep (λ m. not (awaits m.subscription)) members in
      let q = web.env.to_lower (web.env.trim_space (r.query (codes "q"))) in
      let filtered =
        if is_empty q then roster else keep (λ m. contains (web.env.to_lower m.email) q) roster in
      let limit = page_limit (query_int_default web r (codes "limit") 100) in
      let offset = page_offset (query_int_default web r (codes "offset") 0) in
      let (lo, page) = member_page limit offset filtered in
      respond 200 (
        Content.object_with
          ((codes "total", Value.number (length filtered))
            ∷ (codes "limit", Value.number limit)
            ∷ (codes "offset", Value.number lo)
            ∷ [])
          ((codes "members", map member_info page) ∷ (codes "held", map member_info waiting) ∷ []))

  abbrev pub members_loaded : Request → Result (List MemberView) → Response
  members_loaded r (err _) = json_error 500 (codes "failed to load members")
  members_loaded r (ok members) = members_shown r members

  unfoldable pub handle_console_members : Request → Subscriber → MailingList → M Response
  handle_console_members r s l =
      if is_method (codes "POST") r
      then console_member_add web r s l
      else if not (is_method (codes "GET") r)
      then pure method_not_allowed
      else do members ← attempt (list_members l.id); pure (members_loaded r members)

  abbrev pub import_done : Result ImportResult → Response
  import_done (err _) = json_error 500 (codes "failed to import members")
  import_done (ok res) = respond 200 (
      Content.object (
        (codes "status", Value.text (codes "import complete"))
        ∷ (codes "added", Value.number res.added)
        ∷ (codes "skipped", Value.number (skipped res))
        ∷ (codes "already", Value.number res.already)
        ∷ (codes "disabled", Value.number res.disabled_members)
        ∷ (codes "invalid", Value.number res.invalid)
        ∷ []))

  abbrev pub file_parsed : Subscriber → MailingList → Parsed → M Response
  file_parsed s l (Parsed.refused _) = pure (json_error 400 (codes "the file is refused"))
  file_parsed s l (Parsed.source src) = do
    res ← attempt (import_members web.env l.list_name l.domain src (subscriber_actor s))
    pure (import_done res)

  -- r.ParseMultipartForm and r.FormFile: whether the form is one, and the file in it
  abbrev pub form_read : Csv → Subscriber → MailingList → Option (Option Text) → M Response
  form_read csv s l none = pure (json_error 400 (codes "invalid multipart form"))
  form_read csv s l (some none) =
      pure (json_error 400 (codes "a CSV file is required (form field 'file')"))
  form_read csv s l (some (some file)) = file_parsed s l (parse_import web.env csv file)

  unfoldable pub handle_console_members_import :
      Csv → (Text → Option (Option Text)) → Request → Subscriber → MailingList → M Response
  handle_console_members_import csv form r s l =
      if not (is_method (codes "POST") r)
      then pure method_not_allowed
      else form_read csv s l (form r.body)
