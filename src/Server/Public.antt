-- ===== src/Server/Public.antt =====
-- The public pages about lists, and their addresses: handleLists, handleListDetail, handleListInfo and
-- handleSubscribe of internal/server/server.go. The header Cache-Control is left out.
pub mod Gate
use xlistman.Prelude.{
  ℕ, Bool, true, false, not, Option, none, some, List, [], ◌∷◌, map, if◌then◌else◌,
}
use xlistman.Strings.{Text, codes, text_eq}
use xlistman.Result.{Result, ok, err, Error}
use xlistman.Effects.{M, ◌>>=◌, pure, attempt, now}
use xlistman.Model.{MailingList, DigestFrequency, daily, weekly, WebSettings, list_address}
use xlistman.Store.Lists.{get_list, list_lists}
use xlistman.Store.Auth.{get_web_settings}
use xlistman.Store.Queue.{queue_depth}
use xlistman.Pipeline.Subscribing.{subscribe}
use xlistman.Lmtp.Request.{type_text, policy_text}
use xlistman.Server.Http.{
  Request, Response, Content, Value, Row, Web, respond, json_error, json_status, json_failure,
  not_found_page, method_not_allowed, rate_limited, is_method, path_parts, client_ip,
  normalize_email,
}
use xlistman.Server.Limiter.{RateLimiter, allow, retry_after}
use xlistman.Server.Login.{Limits}
use xlistman.Server.Archives.{
  Reader, handle_archives, handle_archive_entry, handle_archive_attachment,
}

unfoldable pub public_row : MailingList → Row
public_row l =
    (codes "address", Value.text (list_address l))
    ∷ (codes "list_name", Value.text l.list_name)
    ∷ (codes "domain", Value.text l.domain)
    ∷ (codes "description", Value.text l.description)
    ∷ (codes "list_type", Value.text (type_text l.list_type))
    ∷ []

abbrev pub public_lists : Result (List MailingList) → Response
public_lists (err _) = json_error 500 (codes "failed to list lists")
public_lists (ok lists) = respond 200 (Content.rows (map public_row lists))

unfoldable pub handle_lists : Request → M Response
handle_lists r =
    if not (is_method (codes "GET") r)
    then pure method_not_allowed
    else do lists ← attempt (list_lists (r.query (codes "domain"))); pure (public_lists lists)

abbrev pub frequency_text : DigestFrequency → Text
frequency_text daily = codes "daily"
frequency_text weekly = codes "weekly"
frequency_text (DigestFrequency.other t) = t

unfoldable pub handle_list_info : MailingList → Response
handle_list_info l = respond 200 (
    Content.object (
      (codes "address", Value.text (list_address l))
      ∷ (codes "list_name", Value.text l.list_name)
      ∷ (codes "domain", Value.text l.domain)
      ∷ (codes "description", Value.text l.description)
      ∷ (codes "instructions", Value.text l.instructions)
      ∷ (codes "list_type", Value.text (type_text l.list_type))
      ∷ (codes "subscription_policy", Value.text (policy_text l.settings.subscription_policy))
      ∷ (codes "moderation_enabled", Value.flag l.settings.moderation_enabled)
      ∷ (codes "digest_frequency", Value.text (frequency_text l.settings.digest_frequency))
      ∷ []))

-- The page that a path and a method are of, behind the lookup of the list.
pub data ListRoute : Type 0 where
  subscribe_route archives_route info_route wrong_method : ListRoute
  entry_route : Text → ListRoute
  attachment_route : Text → Text → ListRoute

abbrev pub info_or : Request → ListRoute
info_or r = if not (is_method (codes "GET") r) then ListRoute.wrong_method else ListRoute.info_route

-- The segments behind "archives".
abbrev pub archive_route : List Text → ListRoute
archive_route [] = ListRoute.archives_route
archive_route (id ∷ []) = ListRoute.entry_route id
archive_route (id ∷ part ∷ []) = ListRoute.entry_route id
archive_route (id ∷ part ∷ ordinal ∷ more) =
    if text_eq part (codes "attachments")
    then ListRoute.attachment_route id ordinal
    else ListRoute.entry_route id

-- The switch of handleListDetail, on the segments behind the list's name.
unfoldable pub list_route : Request → List Text → ListRoute
list_route r [] = info_or r
list_route r (section ∷ more) =
    if text_eq section (codes "subscribe")
    then ListRoute.subscribe_route
    else if text_eq section (codes "archives")
    then archive_route more
    else info_or r

-- GET /health: the depth of the queue, or 0 where it cannot be read.
abbrev pub depth_shown : Result ℕ → ℕ
depth_shown (err _) = 0
depth_shown (ok n) = n

unfoldable pub handle_health : M Response
handle_health = do
  depth ← attempt queue_depth
  pure (
      respond 200 (
        Content.object (
          (codes "status", Value.text (codes "ok"))
          ∷ (codes "queue_depth", Value.number (depth_shown depth))
          ∷ [])))

abbrev pub switches_shown : Result WebSettings → Response
switches_shown (err _) = json_error 500 (codes "failed to load web status")
switches_shown (ok ws) = respond 200 (
    Content.object (
      (codes "login_enabled", Value.flag ws.login_enabled)
      ∷ (codes "management_enabled", Value.flag ws.management_enabled)
      ∷ []))

unfoldable pub handle_web_status : Request → M Response
handle_web_status r =
    if not (is_method (codes "GET") r)
    then pure method_not_allowed
    else do settings ← attempt get_web_settings; pure (switches_shown settings)

abbrev pub wants_subscribe : List Text → Bool
wants_subscribe [] = false
wants_subscribe (section ∷ more) = text_eq section (codes "subscribe")

module _ (web : Web) (reader : Reader) where
  unfoldable pub subscribe_error : Error → Response
  subscribe_error e =
      if web.error_contains e (codes "closed for subscriptions")
      then json_failure 403 e
      else if web.error_contains e (codes "already subscribed")
      then json_failure 409 e
      else json_error 500 (codes "failed to subscribe")

  abbrev pub subscription_asked : Result Unit → Response
  subscription_asked (ok _) = json_status 202 (codes "confirmation email sent")
  subscription_asked (err e) = subscribe_error e

  abbrev pub subscribe_address : MailingList → Option Text → M Response
  subscribe_address l none = pure (json_error 400 (codes "a valid email is required"))
  subscribe_address l (some email) = do
    asked ← attempt (subscribe web.env l.list_name l.domain email)
    pure (subscription_asked asked)

  abbrev pub subscribe_body : MailingList → Option Text → M Response
  subscribe_body l none = pure (json_error 400 (codes "invalid request body"))
  subscribe_body l (some email) = subscribe_address l (normalize_email web email)

  unfoldable pub handle_subscribe : Request → MailingList → M Response
  handle_subscribe r l = subscribe_body l (web.decode_text (codes "email") r.body)

  abbrev pub list_page : Request → MailingList → ListRoute → M Response
  list_page r l ListRoute.subscribe_route = handle_subscribe r l
  list_page r l ListRoute.archives_route = handle_archives web reader r l
  list_page r l (ListRoute.entry_route id) = handle_archive_entry web reader r l id
  list_page r l (ListRoute.attachment_route id ordinal) =
      handle_archive_attachment web reader r l id ordinal
  list_page r l ListRoute.info_route = pure (handle_list_info l)
  list_page r l ListRoute.wrong_method = pure method_not_allowed

  abbrev pub list_served : Request → List Text → Result MailingList → M Response
  list_served r rest (err _) = pure (json_error 404 (codes "list not found"))
  list_served r rest (ok l) = list_page r l (list_route r rest)

  unfoldable pub list_looked_up : Request → Text → Text → List Text → M Response
  list_looked_up r domain name rest = do l ← attempt (get_list name domain); list_served r rest l

  module _ {B : Type 0} (rate : RateLimiter B) where
    -- The gate of a request to subscribe, before the list is looked up.
    unfoldable pub subscribe_gate :
        Request → Text → Text → List Text → Limits B → M (Response × Limits B)
    subscribe_gate r domain name rest limits =
        if not (is_method (codes "POST") r) then pure (method_not_allowed, limits) else do
          t ← now
          let (allowed, kept) = allow rate (client_ip web r) t limits.subscribe
          let (delay, refused) = retry_after rate (client_ip web r) t kept
          if not allowed
              then pure (rate_limited delay, record limits { subscribe = refused })
              else do
                response ← list_looked_up r domain name rest
                pure (response, record limits { subscribe = kept })

    abbrev pub list_at : Request → List Text → Limits B → M (Response × Limits B)
    list_at r [] limits = pure (not_found_page, limits)
    list_at r (domain ∷ []) limits = pure (not_found_page, limits)
    list_at r (domain ∷ name ∷ rest) limits =
        if wants_subscribe rest
        then subscribe_gate r domain name rest limits
        else do response ← list_looked_up r domain name rest; pure (response, limits)

    unfoldable pub handle_list_detail : Request → Limits B → M (Response × Limits B)
    handle_list_detail r limits = list_at r (path_parts (codes "/api/lists/") r.path) limits
