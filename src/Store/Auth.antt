-- ===== src/Store/Auth.antt =====
-- Confirmation tokens, magic links, sessions and the web switches.
use xlistman.Prelude.{ℕ, Bool, true, ◌&&◌, ltb}
use xlistman.Strings.{Text, text_eq}
use xlistman.Result.{ok}
use xlistman.Model.{Time, ConfirmationToken, Credential, WebSettings}
use xlistman.Effects.{M, ◌>>=◌, ◌>>◌, pure, now, generate_token, statement}
use xlistman.Store.Access.{
  Place, confirmation_tokens, magic_links, sessions, create, find_first, delete_rows,
}
use xlistman.Store.Held.{sweep}

unfoldable pub create_confirmation_token : ℕ → ℕ → Text → Time → M Text
create_confirmation_token list_id subscriber_id email expires_at = do
  token ← generate_token
  t ← now
  create confirmation_tokens (λ c. text_eq c.token token)
      (λ _. record {
        token = token;
        list_id = list_id;
        subscriber_id = subscriber_id;
        email = email;
        expires_at = expires_at;
        created_at = t;
      })
  pure token

-- The expiry is not looked at.
unfoldable pub get_confirmation_token : Text → M ConfirmationToken
get_confirmation_token token = find_first confirmation_tokens (λ c. text_eq c.token token)

unfoldable pub delete_confirmation_token : Text → M Unit
delete_confirmation_token token = delete_rows confirmation_tokens (λ c. text_eq c.token token)

module _ (place : Place Credential) where
  unfoldable pub create_credential : ℕ → Text → Time → M Text
  create_credential subscriber_id email expires_at = do
    token ← generate_token
    t ← now
    create place (λ c. text_eq c.token token)
        (λ _. record {
          token = token;
          subscriber_id = subscriber_id;
          email = email;
          expires_at = expires_at;
          created_at = t;
        })
    pure token

  unfoldable pub delete_credential : Text → M Unit
  delete_credential token = delete_rows place (λ c. text_eq c.token token)

abbrev pub create_magic_link : ℕ → Text → Time → M Text
create_magic_link = create_credential magic_links

unfoldable pub get_magic_link : Text → M Credential
get_magic_link token = find_first magic_links (λ c. text_eq c.token token)

abbrev pub delete_magic_link : Text → M Unit
delete_magic_link = delete_credential magic_links

abbrev pub create_session : ℕ → Text → Time → M Text
create_session = create_credential sessions

-- id = ? AND expires_at > now
unfoldable pub get_session : Text → M Credential
get_session id = do t ← now; find_first sessions (λ c. text_eq c.token id && ltb t c.expires_at)

abbrev pub delete_session : Text → M Unit
delete_session = delete_credential sessions

unfoldable pub delete_expired_magic_links : Time → M ℕ
delete_expired_magic_links t = sweep magic_links (λ c. ltb c.expires_at t)

unfoldable pub delete_expired_sessions : Time → M ℕ
delete_expired_sessions t = sweep sessions (λ c. ltb c.expires_at t)

unfoldable pub delete_all_sessions : M ℕ
delete_all_sessions = sweep sessions (λ _. true)

unfoldable pub get_web_settings : M WebSettings
get_web_settings = statement λ d. (ok d.web_settings, d)

unfoldable pub set_web_login_enabled : Bool → M Unit
set_web_login_enabled enabled =
    statement
      λ d. (ok tt, record d { web_settings = record d.web_settings { login_enabled = enabled } })

unfoldable pub set_web_management_enabled : Bool → M Unit
set_web_management_enabled enabled =
    statement λ d.
      (ok tt, record d { web_settings = record d.web_settings { management_enabled = enabled } })
