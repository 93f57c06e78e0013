-- ===== src/Server/Login/Sessions.antt =====
-- From the magic link to the session, and how long the session lasts.
use xlistman.Prelude.{
  ℕ, suc, ◌+◌, ◌≡◌, refl, Bool, true, false, ◌&&◌, none, some, List, [], ◌∷◌, ◌++◌, ◌==◌, ltb,
  first, any, if◌then◌else◌, arith,
}
use xlistman.Strings.{Text, text_eq, is_empty, text_eq_refl}
use xlistman.Result.{ok}
use xlistman.Effects.Tables.{Db, select, delete}
use xlistman.Effects.{World, healthy, ◌>>=◌, pure, attempt, statement, now}
use xlistman.Model.{Time, Credential, Subscriber}
use xlistman.Store.Access.{sessions, find_first, delete_rows}
use xlistman.Store.Auth.{get_magic_link, delete_credential}
use xlistman.Store.Lists.{or_not_found}
use xlistman.Store.Members.{get_subscriber_by_id}
use xlistman.Server.Http.{Request, Web}
use xlistman.Server.Access.{authenticate, session_found}
use xlistman.Server.Access.Callers.{get_session-healthy}
use xlistman.Server.Login.{session_ttl, session_started, use_link, verify_token}
use xlistman.Server.Login.Tokens.{credential, create_credential-fresh, first-appended}

abbrev is_token : Text → Credential → Bool
is_token token c = text_eq c.token token

first-never :
    {A : Type 0} (p q : A → Bool) (xs : List A)
    → any p xs ≡ false
    → first (λ a. p a && q a) xs ≡ none
unfolding any first
first-never p q [] h = refl
first-never p q (x ∷ xs) h = ground (arith, h, first-never p q xs)

-- The database behind a link that was used: the link is gone, and a session is there.
abbrev pub signed_in : Text → Text → Credential → Time → Db → Db
signed_in token id link clock d = record d {
  magic_links = delete (is_token token) d.magic_links;
  sessions = record {
    rows =
        d.sessions.rows
        ++ credential id link.subscriber_id link.email (clock + session_ttl) clock ∷ [];
    next_id = suc d.sessions.next_id;
  };
}

use_link-signed_in :
    (web : Web) (token : Text) (link : Credential) (d : Db) (clock : Time) (token_of : ℕ → Text)
    (n : ℕ)
    → any (is_token (token_of n)) d.sessions.rows ≡ false
    → use_link web token link clock (healthy d clock token_of n) ≡ (
      ok (session_started web (ok (token_of n))),
      healthy (signed_in token (token_of n) link clock d) clock token_of (suc n),
    )
unfolding use_link delete_credential delete_rows statement attempt pure ◌>>=◌
use_link-signed_in web token link d clock token_of n fresh =
    rw
      (create_credential-fresh sessions link.subscriber_id link.email (clock + session_ttl)
        (record d { magic_links = delete (is_token token) d.magic_links }) clock token_of n fresh)
      refl

session_of_cookie :
    (id token : Text) (link : Credential) (start clock : Time) (d : Db)
    → any (is_token id) d.sessions.rows ≡ false
    → first
        (λ c. text_eq c.token id && ltb clock c.expires_at)
        (signed_in token id link start d).sessions.rows
      ≡ (if ltb clock (start + session_ttl)
          then some (credential id link.subscriber_id link.email (start + session_ttl) start)
          else none)
unfolding first
session_of_cookie id token link start clock d fresh =
    rw
      (
        first-appended (λ c. text_eq c.token id && ltb clock c.expires_at)
            (credential id link.subscriber_id link.email (start + session_ttl) start)
            d.sessions.rows
            (first-never (is_token id) (λ c. ltb clock c.expires_at) d.sessions.rows fresh),
        text_eq_refl id,
      )
      refl

session_found_if :
    (b : Bool) (c : Credential) (s : Subscriber) (w : World)
    → w.faults ≡ []
    → first (λ x. x.id == c.subscriber_id) w.db.subscribers.rows ≡ some s
    → (session_found (or_not_found (if b then some c else none)) w).0
      ≡ ok (if b then some s else none)
unfolding get_subscriber_by_id find_first select statement attempt pure ◌>>=◌ first
session_found_if true c s w e known = rw (e, known) refl
session_found_if false c s w e known = refl

authenticate-signed_in :
    (r : Request) (id token : Text) (link : Credential) (start clock : Time) (d : Db)
    (token_of : ℕ → Text) (n : ℕ) (s : Subscriber)
    → any (is_token id) d.sessions.rows ≡ false
    → is_empty id ≡ false
    → first (λ x. x.id == link.subscriber_id) d.subscribers.rows ≡ some s
    → (authenticate
        (record r { cookie = id })
        (healthy (signed_in token id link start d) clock token_of n)).0
      ≡ ok (if ltb clock (start + session_ttl) then some s else none)
unfolding authenticate attempt pure ◌>>=◌
authenticate-signed_in r id token link start clock d token_of n s fresh filled known =
    rw
      (
        filled,
        get_session-healthy id (signed_in token id link start d) clock token_of n _
            (session_of_cookie id token link start clock d fresh),
      )
      (session_found_if _ (credential id link.subscriber_id link.email (start + session_ttl) start)
        s _ refl known)

-- A link that has not expired starts a session for its subscriber: if the database refuses no
-- statement and the next random token is fresh, the answer sets the session cookie to that token, and
-- from then on a request with this cookie is the subscriber's for 30 days, and nobody's
-- afterwards. The subscriber is known and the tokens are not empty.
pub verify_token-authenticates :
    (web : Web) (token : Text) (link : Credential) (s : Subscriber) (r : Request) (d : Db)
    (clock clock' : Time) (token_of : ℕ → Text) (n n' : ℕ)
    → is_empty token ≡ false
    → is_empty (token_of n) ≡ false
    → first (λ c. text_eq c.token token) d.magic_links.rows ≡ some link
    → ltb link.expires_at clock ≡ false
    → first (λ x. x.id == link.subscriber_id) d.subscribers.rows ≡ some s
    → any (λ c. text_eq c.token (token_of n)) d.sessions.rows ≡ false
    → ((verify_token web token (healthy d clock token_of n)).0
        ≡ ok (session_started web (ok (token_of n))))
      × ((authenticate
            (record r { cookie = token_of n })
            (healthy
              (verify_token web token (healthy d clock token_of n)).1.db
              clock'
              token_of
              n')).0
          ≡ ok (if ltb clock' (clock + session_ttl) then some s else none))
unfolding verify_token get_magic_link find_first select statement attempt now pure ◌>>=◌ first
verify_token-authenticates web token link s r d clock clock' token_of n n' filled new found live
      known fresh =
    (
      rw (filled, found, live, use_link-signed_in web token link d clock token_of n fresh) refl,
      rw (filled, found, live, use_link-signed_in web token link d clock token_of n fresh)
          (authenticate-signed_in r (token_of n) token link clock clock' d token_of n' s fresh new
            known),
    )
