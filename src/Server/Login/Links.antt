-- ===== src/Server/Login/Links.antt =====
-- What a magic link is good for: one session, and no knowledge of who is subscribed.
use xlistman.Prelude.{
  ℕ, suc, ◌+◌, ◌≡◌, refl, Bool, true, false, not, Option, none, some, List, [], ◌∷◌, ltb, keep,
  first, any, Bool-cases, inl, inr, if◌then◌else◌, arith,
}
use xlistman.Strings.{Text, codes, text_eq, is_empty}
use xlistman.Result.{ok}
use xlistman.Env.{concat}
use xlistman.Effects.Tables.{Db, insert, select, delete}
use xlistman.Effects.{healthy, ◌>>=◌, pure, attempt, statement, now, generate_token}
use xlistman.Model.{Time, Credential, Subscriber}
use xlistman.Server.Login.Tokens.{create_credential-fresh, enqueue-succeeds}
use xlistman.Store.Access.{magic_links, create, find_first, delete_rows}
use xlistman.Store.Auth.{get_magic_link, create_credential, delete_credential}
use xlistman.Store.Members.{get_subscriber}
use xlistman.Server.Http.{Web, build_text_email}
use xlistman.Server.Limiter.{RateLimiter, store, reserve}
use xlistman.Server.Login.{
  magic_link_ttl, Limits, link_sent, refused_link, drop_expired, use_link, verify_token, send_link,
  link_for,
}

first-deleted :
    {A : Type 0} (p : A → Bool) (xs : List A) → first p (keep (λ a. not (p a)) xs) ≡ none
unfolding first keep
first-deleted p [] = refl
first-deleted p (x ∷ xs) = ground (arith, first-deleted p xs)

abbrev is_token : Text → Credential → Bool
is_token token c = text_eq c.token token

module _ (web : Web) (token : Text) where
  -- Where no link has the token, it is refused and nothing changes.
  unknown-refused :
      (d : Db) (clock : Time) (token_of : ℕ → Text) (n : ℕ)
      → is_empty token ≡ false
      → first (is_token token) d.magic_links.rows ≡ none
      → verify_token web token (healthy d clock token_of n)
        ≡ (ok (refused_link web (codes "invalid")), healthy d clock token_of n)
  unfolding verify_token get_magic_link find_first select statement attempt pure ◌>>=◌ first concat
  unknown-refused d clock token_of n filled h = rw (filled, h) refl

  session_for :
      (link : Credential) (t : Time) (d : Db) (clock : Time) (token_of : ℕ → Text) (n : ℕ)
      → (use_link web token link t (healthy d clock token_of n)).1.db.magic_links
        ≡ delete (is_token token) d.magic_links
  unfolding use_link create_credential delete_credential delete_rows create insert statement attempt
      now generate_token pure ◌>>=◌
  session_for link t d clock token_of n = ground arith

  expired_or_used :
      (link : Credential) (t : Time) (d : Db) (clock : Time) (token_of : ℕ → Text) (n : ℕ)
      (b : Bool)
      → first
          (is_token token)
          ((if b then drop_expired web token else use_link web token link t)
            (healthy d clock token_of n)).1.db.magic_links.rows
        ≡ none
  unfolding delete_credential delete_rows delete statement attempt pure ◌>>=◌
  expired_or_used link t d clock token_of n true = first-deleted (is_token token) d.magic_links.rows
  expired_or_used link t d clock token_of n false =
      rw (session_for link t d clock token_of n) (first-deleted (is_token token) d.magic_links.rows)

  verified-gone :
      (d : Db) (clock : Time) (token_of : ℕ → Text) (n : ℕ) (found : Option Credential)
      → is_empty token ≡ false
      → first (is_token token) d.magic_links.rows ≡ found
      → first
          (is_token token)
          (verify_token web token (healthy d clock token_of n)).1.db.magic_links.rows
        ≡ none
  unfolding verify_token get_magic_link find_first select statement attempt pure now ◌>>=◌ first
  verified-gone d clock token_of n none filled h =
      rw (unknown-refused d clock token_of n filled h) h
  verified-gone d clock token_of n (some link) filled h =
      rw (filled, h) (expired_or_used link clock d clock token_of n _)

-- A magic link is good for one use: once a request has given its token, whether it started a session
-- or the link had expired, every later request with this token is sent back as invalid, gets
-- no cookie and changes nothing, whatever the clock is and if the database refuses no statement.
pub verify_token-once :
    (web : Web) (token : Text) (d : Db) (clock clock' : Time) (token_of token_of' : ℕ → Text)
    (n n' : ℕ)
    → is_empty token ≡ false
    → verify_token web token
        (healthy (verify_token web token (healthy d clock token_of n)).1.db clock' token_of' n')
      ≡ (
        ok (refused_link web (codes "invalid")),
        healthy (verify_token web token (healthy d clock token_of n)).1.db clock' token_of' n',
      )
verify_token-once web token d clock clock' token_of token_of' n n' filled =
    unknown-refused web token _ clock' token_of' n' filled
      (verified-gone web token d clock token_of n _ filled refl)

module _ (web : Web) where
  send_link-found :
      (email : Text) (d : Db) (clock : Time) (token_of : ℕ → Text) (n : ℕ)
      (found : Option Subscriber)
      → first (λ s. text_eq s.email email) d.subscribers.rows ≡ found
      → any (is_token (token_of n)) d.magic_links.rows ≡ false
      → (stands : Bool) × ((send_link web email (healthy d clock token_of n)).0
          ≡ ok (link_sent, stands))
  unfolding send_link get_subscriber find_first select statement attempt now pure build_text_email
      ◌>>=◌ first
  send_link-found email d clock token_of n none e fresh = (false, rw e refl)
  send_link-found email d clock token_of n (some s) e fresh = (
    true,
    rw
        (
          e,
          create_credential-fresh magic_links s.id email (clock + magic_link_ttl) d clock token_of n
              fresh,
        )
        (rw (enqueue-succeeds 0 [] email _ [] [] _ clock token_of (suc n)) refl),
  )

-- Whether or not an address is known, and whether or not it has used up its links for this hour:
-- if the database refuses no statement and the next random token is fresh, the answer is the same, 202
-- and "magic link sent".
pub link_for-uniform :
    {B : Type 0} (web : Web) (rate : RateLimiter B) (email : Text) (limits : Limits B) (d : Db)
    (clock : Time) (token_of : ℕ → Text) (n : ℕ)
    → any (λ c. text_eq c.token (token_of n)) d.magic_links.rows ≡ false
    → (limits' : Limits B) × ((link_for web rate email limits (healthy d clock token_of n)).0
        ≡ ok (link_sent, limits'))
unfolding link_for pure now ◌>>=◌
link_for-uniform web rate email limits d clock token_of n fresh =
    let (delay, (lim, held)) = reserve rate email clock limits.magic_link_email in
    let kept : Limits _ = record limits { magic_link_email = held } in
    let released : Limits _ = record limits {
      magic_link_email = store email (rate.cancel_at clock lim) held;
    } in
    elim (Bool-cases (ltb 0 delay)) [
      | inl e ↦ (released, rw e refl)
      | inr e ↦
          let (stands, f) = send_link-found web email d clock token_of n _ refl fresh in
          ((if stands then kept else released), rw (e, f) refl)
    ]
