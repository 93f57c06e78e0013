-- ===== src/Server/Login.antt =====
-- Magic links and sessions: handleMagicLink, handleVerify and handleLogout of internal/server/server.go.
pub mod Tokens
pub mod Links
pub mod Sessions
use xlistman.Prelude.{
  ℕ, ◌+◌, ◌*◌, Bool, true, false, not, Option, none, some, List, [], ◌∷◌, ltb, if◌then◌else◌,
}
use xlistman.Strings.{Text, codes, is_empty}
use xlistman.Result.{Result, ok, err}
use xlistman.Env.{concat}
use xlistman.Effects.{M, ◌>>=◌, ◌>>◌, pure, attempt, now}
use xlistman.Model.{Time, minute, day, Subscriber, Credential}
use xlistman.Store.Auth.{
  create_magic_link, get_magic_link, delete_magic_link, create_session, delete_session,
}
use xlistman.Store.Members.{get_subscriber}
use xlistman.Store.Queue.{enqueue}
use xlistman.Server.Http.{
  Request, Response, Content, CookieChange, Web, respond, json_error, json_status,
  method_not_allowed, redirect, rate_limited, is_method, build_text_email, client_ip,
  normalize_email,
}
use xlistman.Server.Limiter.{RateLimiter, KeyedRateLimiter, store, allow, reserve, retry_after}
use xlistman.Server.Access.{web_login_enabled}

abbrev pub magic_link_ttl : Time
magic_link_ttl = 30 * minute

abbrev pub session_ttl : Time
session_ttl = 30 * day

-- The limiters that the server keeps beside the database.
pub record Limits (B : Type 0) : Type 0 where
  pub magic_link_ip : KeyedRateLimiter B
  pub magic_link_email : KeyedRateLimiter B
  pub subscribe : KeyedRateLimiter B

abbrev pub link_sent : Response
link_sent = json_status 202 (codes "magic link sent")

abbrev pub link_failed : Response
link_failed = json_error 500 (codes "failed to send magic link")

module _ (web : Web) where
  unfoldable pub login_text : Text → Text
  login_text token = concat (
      codes "Use this link to sign in to your subscriptions. It expires in 30 minutes."
      ∷ (10 ∷ 10 ∷ [])
      ∷ web.base_url
      ∷ codes "/api/auth/verify?token="
      ∷ token
      ∷ (10 ∷ 10 ∷ [])
      ∷ codes "If you did not request this, you can ignore this message."
      ∷ [])

  abbrev pub enqueued : Result Unit → Response
  enqueued (ok _) = link_sent
  enqueued (err _) = link_failed

  -- The token's mail; the answer says whether the reservation stands.
  abbrev pub token_created : Text → Result Text → M (Response × Bool)
  token_created email (err _) = pure (link_failed, false)
  token_created email (ok token) = do
    mail ←
        build_text_email web.env (codes "xMailman") email (codes "Your xMailman login link")
          (login_text token)
    sent ← attempt (enqueue 0 [] email mail [] [])
    pure (enqueued sent, true)

  abbrev pub recipient_found : Text → Result Subscriber → M (Response × Bool)
  recipient_found email (err _) = pure (link_sent, false)
  recipient_found email (ok s) = do
    t ← now
    token ← attempt (create_magic_link s.id email (t + magic_link_ttl))
    token_created email token

  -- From the lookup on, when the address may have a link.
  unfoldable pub send_link : Text → M (Response × Bool)
  send_link email = do found ← attempt (get_subscriber email); recipient_found email found

  module _ {B : Type 0} (rate : RateLimiter B) where
    -- The reservation of the address, and its Cancel unless a link is sent.
    unfoldable pub link_for : Text → Limits B → M (Response × Limits B)
    link_for email limits = do
      t ← now
      let (delay, (lim, reserved)) = reserve rate email t limits.magic_link_email
      let kept = record limits { magic_link_email = reserved }
      let released = record limits {
        magic_link_email = store email (rate.cancel_at t lim) reserved;
      }
      if ltb 0 delay then pure (link_sent, released) else do
        (response, stands) ← send_link email
        pure (response, if stands then kept else released)

    abbrev pub address_given : Option Text → Limits B → M (Response × Limits B)
    address_given none limits = pure (json_error 400 (codes "a valid email is required"), limits)
    address_given (some email) limits = link_for email limits

    abbrev pub body_given : Option Text → Limits B → M (Response × Limits B)
    body_given none limits = pure (json_error 400 (codes "invalid request body"), limits)
    body_given (some email) limits = address_given (normalize_email web email) limits

    -- Behind the gate of the client's address.
    unfoldable pub magic_link_allowed : Request → Limits B → M (Response × Limits B)
    magic_link_allowed r limits = do
      enabled ← web_login_enabled
      if not enabled
          then pure (json_error 403 (codes "login is disabled"), limits)
          else body_given (web.decode_text (codes "email") r.body) limits

    unfoldable pub handle_magic_link : Request → Limits B → M (Response × Limits B)
    handle_magic_link r limits =
        if not (is_method (codes "POST") r) then pure (method_not_allowed, limits) else do
          t ← now
          let (allowed, ip) = allow rate (client_ip web r) t limits.magic_link_ip
          let (delay, ip') = retry_after rate (client_ip web r) t ip
          if not allowed
              then pure (rate_limited delay, record limits { magic_link_ip = ip' })
              else magic_link_allowed r (record limits { magic_link_ip = ip })

  -- http.Redirect into the page for signing in
  abbrev pub refused_link : Text → Response
  refused_link reason = redirect (concat (web.base_url ∷ codes "/auth?error=" ∷ reason ∷ []))

  abbrev pub session_started : Result Text → Response
  session_started (err _) = json_error 500 (codes "failed to start session")
  session_started (ok id) = record (redirect (concat (web.base_url ∷ codes "/" ∷ []))) {
    cookie = CookieChange.set_to id session_ttl web.cookie_secure;
  }

  abbrev pub drop_expired : Text → M Response
  drop_expired token = do attempt (delete_magic_link token); pure (refused_link (codes "invalid"))

  -- One-time use: consume the token, then issue a session.
  unfoldable pub use_link : Text → Credential → Time → M Response
  use_link token link t = do
    attempt (delete_magic_link token)
    session ← attempt (create_session link.subscriber_id link.email (t + session_ttl))
    pure (session_started session)

  abbrev pub link_found : Text → Result Credential → M Response
  link_found token (err _) = pure (refused_link (codes "invalid"))
  link_found token (ok link) = do
    t ← now
    if ltb link.expires_at t then drop_expired token else use_link token link t

  unfoldable pub verify_token : Text → M Response
  verify_token token =
      if is_empty token
      then pure (refused_link (codes "invalid"))
      else do link ← attempt (get_magic_link token); link_found token link

  unfoldable pub handle_verify : Request → M Response
  handle_verify r = if not (is_method (codes "GET") r) then pure method_not_allowed else do
    enabled ← web_login_enabled
    if not enabled
        then pure (refused_link (codes "disabled"))
        else verify_token (r.query (codes "token"))

unfoldable pub handle_logout : Request → M Response
handle_logout r = if not (is_method (codes "POST") r) then pure method_not_allowed else do
  if is_empty r.cookie then pure tt else do attempt (delete_session r.cookie); pure tt
  pure (record (json_status 200 (codes "logged out")) { cookie = CookieChange.cleared })
