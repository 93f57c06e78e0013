-- ===== src/Server/Access.antt =====
-- Who a request comes from, and the gates before the handlers (internal/server/server.go).
pub mod Callers
use xlistman.Prelude.{ℕ, Bool, true, false, ◌&&◌, ◌||◌, Option, none, some, [], ◌∷◌, if◌then◌else◌}
use xlistman.Strings.{Text, codes, is_empty}
use xlistman.Result.{Result, ok, err}
use xlistman.Effects.{M, ◌>>=◌, pure, attempt}
use xlistman.Model.{
  Subscriber, Subscription, SubscriptionStatus, active, held, pending, disabled, MailingList,
  WebSettings, Credential,
}
use xlistman.Store.Auth.{get_web_settings, get_session}
use xlistman.Store.Members.{get_subscriber_by_id, get_subscription}
use xlistman.Server.Http.{Request, Response, json_error}

-- err == nil && ws.LoginEnabled
abbrev pub login_of : Result WebSettings → Bool
login_of (ok ws) = ws.login_enabled
login_of (err e) = false

abbrev pub management_of : Result WebSettings → Bool
management_of (ok ws) = ws.management_enabled
management_of (err e) = false

unfoldable pub web_login_enabled : M Bool
web_login_enabled = do settings ← attempt get_web_settings; pure (login_of settings)

unfoldable pub web_management_enabled : M Bool
web_management_enabled = do settings ← attempt get_web_settings; pure (management_of settings)

abbrev pub or_none : {A : Type 0} → Result A → Option A
or_none (ok a) = some a
or_none (err e) = none

abbrev pub session_found : Result Credential → M (Option Subscriber)
session_found (err e) = pure none
session_found (ok session) = do
  found ← attempt (get_subscriber_by_id session.subscriber_id)
  pure (or_none found)

-- authenticate
unfoldable pub authenticate : Request → M (Option Subscriber)
authenticate r =
    if is_empty r.cookie
    then pure none
    else do session ← attempt (get_session r.cookie); session_found session

abbrev pub unauthorized : Response
unauthorized = json_error 401 (codes "unauthorized")

-- The handler with what subscriberFrom gives it.
abbrev pub for_caller : (Subscriber → M Response) → Option Subscriber → M Response
for_caller next none = pure unauthorized
for_caller next (some s) = next s

-- requireAuth
unfoldable pub require_auth : (Subscriber → M Response) → Request → M Response
require_auth next r = do caller ← authenticate r; for_caller next caller

-- requireManagement
unfoldable pub require_management : M Response → M Response
require_management next = do
  enabled ← web_management_enabled
  if enabled then next else pure (json_error 403 (codes "web management is disabled"))

abbrev pub is_member_status : SubscriptionStatus → Bool
is_member_status active = true
is_member_status held = true
is_member_status pending = false
is_member_status disabled = false

abbrev pub subscribed : Result Subscription → Bool
subscribed (ok s) = is_member_status s.status
subscribed (err e) = false

abbrev pub members_only : MailingList → M Response → Option Subscriber → M Response
members_only l next none = pure unauthorized
members_only l next (some s) = do
  found ← attempt (get_subscription l.id s.id)
  if subscribed found then next else pure (json_error 403 (codes "members only"))

-- requireMember, and what its caller does behind it
unfoldable pub require_member : MailingList → M Response → Request → M Response
require_member l next r = do caller ← authenticate r; members_only l next caller
