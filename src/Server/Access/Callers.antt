-- ===== src/Server/Access/Callers.antt =====
-- Who a request comes from: what reading it leaves alone, and who gets nothing.
use xlistman.Prelude.{
  ℕ, ◌≡◌, refl, Bool, true, false, ◌&&◌, Option, none, some, ◌==◌, first, ltb, if◌then◌else◌,
}
use xlistman.Strings.{Text, text_eq, is_empty}
use xlistman.Result.{ok}
use xlistman.Effects.Tables.{Db, select}
use xlistman.Effects.{healthy, M, ◌>>=◌, pure, attempt, statement, now}
use xlistman.Model.{Time, Credential, Subscriber}
use xlistman.Store.Access.{find_first}
use xlistman.Store.Lists.{or_not_found}
use xlistman.Store.Auth.{get_session}
use xlistman.Store.Members.{get_subscriber_by_id}
use xlistman.Server.Http.{Request, Response}
use xlistman.Server.Access.{authenticate, session_found, or_none, require_auth, unauthorized}

abbrev pub is_live_session : Text → Time → Credential → Bool
is_live_session id clock c = text_eq c.token id && ltb clock c.expires_at

pub get_session-healthy :
    (id : Text) (d : Db) (clock : Time) (token_of : ℕ → Text) (n : ℕ) (found : Option Credential)
    → first (is_live_session id clock) d.sessions.rows ≡ found
    → get_session id (healthy d clock token_of n) ≡ (or_not_found found, healthy d clock token_of n)
unfolding get_session find_first select statement now pure ◌>>=◌ first
get_session-healthy id d clock token_of n none h = rw h refl
get_session-healthy id d clock token_of n (some c) h = rw h refl

abbrev pub subscriber_of : Db → Credential → Option Subscriber
subscriber_of d c = first (λ x. x.id == c.subscriber_id) d.subscribers.rows

abbrev pub session_caller : Db → Option Credential → Option Subscriber
session_caller d none = none
session_caller d (some c) = subscriber_of d c

or_none-or_not_found : {A : Type 0} (o : Option A) → or_none (or_not_found o) ≡ o
or_none-or_not_found none = refl
or_none-or_not_found (some a) = refl

module _ (d : Db) (clock : Time) (token_of : ℕ → Text) (n : ℕ) where
  subscriber-read :
      (id : ℕ) (found : Option Subscriber)
      → first (λ x. x.id == id) d.subscribers.rows ≡ found
      → get_subscriber_by_id id (healthy d clock token_of n)
        ≡ (or_not_found found, healthy d clock token_of n)
  unfolding get_subscriber_by_id find_first select statement first
  subscriber-read id none h = rw h refl
  subscriber-read id (some s) h = rw h refl

  session-read :
      (found : Option Credential)
      → session_found (or_not_found found) (healthy d clock token_of n)
        ≡ (ok (session_caller d found), healthy d clock token_of n)
  unfolding attempt pure ◌>>=◌
  session-read none = refl
  session-read (some c) =
      rw (subscriber-read c.subscriber_id _ refl)
        (rw (or_none-or_not_found (subscriber_of d c)) refl)

  caller-read :
      (r : Request) (b : Bool)
      → is_empty r.cookie ≡ b
      → authenticate r (healthy d clock token_of n) ≡ (
        ok (
            if b
            then none
            else session_caller d (first (is_live_session r.cookie clock) d.sessions.rows)),
        healthy d clock token_of n,
      )
  unfolding authenticate attempt pure ◌>>=◌
  caller-read r true e = rw e refl
  caller-read r false e =
      rw (e, get_session-healthy r.cookie d clock token_of n _ refl) (session-read _)

-- Who the tables say the request comes from.
abbrev pub caller_of : Db → Time → Request → Option Subscriber
caller_of d clock r =
    if is_empty r.cookie
    then none
    else session_caller d (first (is_live_session r.cookie clock) d.sessions.rows)

pub authenticate-caller_of :
    (r : Request) (d : Db) (clock : Time) (token_of : ℕ → Text) (n : ℕ)
    → authenticate r (healthy d clock token_of n)
      ≡ (ok (caller_of d clock r), healthy d clock token_of n)
authenticate-caller_of r d clock token_of n = caller-read d clock token_of n r _ refl

sessionless :
    (r : Request) (d : Db) (clock : Time) (b : Bool)
    → is_empty r.cookie ≡ b
    → first (is_live_session r.cookie clock) d.sessions.rows ≡ none
    → caller_of d clock r ≡ none
sessionless r d clock true e h = rw e refl
sessionless r d clock false e h = rw (e, h) refl

-- A request whose cookie is not the token of a session that is still valid gets 401, and nothing
-- changes, whatever the handler behind the gate does with a subscriber.
require_auth-sessionless :
    (next : Subscriber → M Response) (r : Request) (d : Db) (clock : Time) (token_of : ℕ → Text)
    (n : ℕ)
    → first (λ c. text_eq c.token r.cookie && ltb clock c.expires_at) d.sessions.rows ≡ none
    → require_auth next r (healthy d clock token_of n)
      ≡ (ok unauthorized, healthy d clock token_of n)
unfolding require_auth ◌>>=◌ pure
require_auth-sessionless next r d clock token_of n h =
    rw (authenticate-caller_of r d clock token_of n, sessionless r d clock _ refl h) refl
