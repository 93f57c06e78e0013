-- ===== src/Tests/Web.antt =====
-- The web interface at work on the sample.
use xlistman.Prelude.{ℕ, ◌≡◌, refl, true, false, none, some, [], ◌∷◌, ◌==◌, first, any}
use xlistman.Strings.{Text, codes, text_eq, is_empty}
use xlistman.Result.{ok}
use xlistman.Effects.Tables.{Db, select, insert}
use xlistman.Effects.{M, World, healthy, ◌>>=◌, pure, attempt, statement, now, generate_token}
use xlistman.Store.Access.{create, find_first, delete_rows}
use xlistman.Store.Auth.{get_magic_link, create_credential, delete_credential}
use xlistman.Model.{Credential, MailingList, Subscriber}
use xlistman.Server.Http.{ℤ, Request, Response, Web}
use xlistman.Server.Access.{authenticate}
use xlistman.Server.Login.{
  Limits, link_sent, refused_link, session_started, verify_token, use_link, link_for,
}
use xlistman.Server.Login.Links.{verify_token-once, link_for-uniform}
use xlistman.Server.Login.Sessions.{verify_token-authenticates}
use xlistman.Server.Self.{handle_my_subscription}
use xlistman.Server.Self.Ownership.{DistinctIds, of_others, handle_my_subscription-OthersStay}
use xlistman.Server.Console.{ConsoleRoute}
use xlistman.Server.Console.Held.{handle_console_held_list}
use xlistman.Server.Console.Gates.{may_use, Refuses}
use xlistman.Server.Admin.{admin_endpoint, handle_admin_administrators}
use xlistman.Server.Admin.Names.{valid_list_name, matches_name, matches_rest}
use xlistman.Server.Admin.Gate.{may_administer, admin_endpoint-refused}
use xlistman.Tests.Samples.{sample_env, sample_db, sample_world, dev, alice, token_at, table}
use xlistman.Tests.Connections.{tokens, empty_limiter}

abbrev pub sample_web : Web
sample_web = record {
  env = sample_env;
  base_url = codes "https://x.y";
  cookie_secure = true;
  decode_text = λ field body. some body;
  parse_int = λ t. some (ℤ.pos 1);
  host_of = λ t. none;
  error_contains = λ e t. false;
}

abbrev link_of_alice : Credential
link_of_alice = record {
  token = codes "m";
  subscriber_id = 1;
  email = codes "a@x.y";
  expires_at = 300;
  created_at = 10;
}

abbrev pub web_db : Db
web_db = record sample_db { magic_links = table (link_of_alice ∷ []) 2 }

abbrev pub request : Text → Text → Request
request method path = record {
  method = method;
  path = path;
  query = λ name. [];
  cookie = codes "x";
  body = codes "digest";
  remote_addr = [];
}

verify_token-once_example :
    verify_token sample_web (codes "m") (
      healthy
        (verify_token sample_web (codes "m") (healthy web_db 100 token_at 0)).1.db
        200
        token_at
        7)
    ≡ (
      ok (refused_link sample_web (codes "invalid")),
      healthy
          (verify_token sample_web (codes "m") (healthy web_db 100 token_at 0)).1.db
          200
          token_at
          7,
    )
unfolding is_empty
verify_token-once_example =
    verify_token-once sample_web (codes "m") web_db 100 200 token_at token_at 0 7 refl

abbrev no_limits : Limits ℕ
no_limits = record {
  magic_link_ip = empty_limiter;
  magic_link_email = empty_limiter;
  subscribe = empty_limiter;
}

web_db-fresh : any (λ c. text_eq c.token (token_at 0)) web_db.magic_links.rows ≡ false
unfolding any text_eq
web_db-fresh = refl

link_for-uniform_example :
    (limits' : Limits ℕ) × ((link_for sample_web tokens
        (codes "a@x.y")
        no_limits
        (healthy web_db 100 token_at 0)).0
      ≡ ok (link_sent, limits'))
link_for-uniform_example =
    link_for-uniform sample_web tokens (codes "a@x.y") no_limits web_db 100 token_at 0 web_db-fresh

link_found : first (λ c. text_eq c.token (codes "m")) web_db.magic_links.rows ≡ some link_of_alice
unfolding first text_eq
link_found = refl

alice_found : first (λ x. x.id == 1) web_db.subscribers.rows ≡ some alice
unfolding first
alice_found = refl

verify_token-authenticates_example :
    ((verify_token sample_web (codes "m") (healthy web_db 100 token_at 0)).0
      ≡ ok (session_started sample_web (ok (token_at 0))))
    × ((authenticate
          (record (request (codes "GET") []) { cookie = token_at 0 })
          (healthy
            (verify_token sample_web (codes "m") (healthy web_db 100 token_at 0)).1.db
            200
            token_at
            7)).0
        ≡ ok (some alice))
unfolding is_empty any
verify_token-authenticates_example =
    verify_token-authenticates sample_web (codes "m") link_of_alice alice (request (codes "GET") [])
      web_db 100 200 token_at 0 7 refl refl link_found refl alice_found refl

-- Every route has the handler of the held messages.
abbrev every_route : ConsoleRoute → Request → Subscriber → MailingList → M Response
every_route route r s l = handle_console_held_list r l

abbrev members_of_dev : Request
members_of_dev = request (codes "GET") (codes "/api/console/lists/x.y/dev/members")

-- Alice is signed in.
abbrev signed_in_db : Db
signed_in_db = record web_db {
  sessions = table (record link_of_alice { token = codes "x"; expires_at = 500 } ∷ []) 2;
}

alice_outside : may_use signed_in_db 100 members_of_dev dev (codes "members" ∷ []) ≡ false
unfolding any first text_eq is_empty
alice_outside = refl

-- Bob, who owns the list, is signed in.
abbrev owner_db : Db
owner_db = record web_db {
  sessions =
      table (record link_of_alice { token = codes "x"; subscriber_id = 2; expires_at = 500 } ∷ [])
        2;
}

bob_inside : may_use owner_db 100 members_of_dev dev (codes "members" ∷ []) ≡ true
unfolding any first text_eq is_empty
bob_inside = refl

alice_no_admin : may_administer signed_in_db 100 members_of_dev ≡ false
unfolding any first text_eq is_empty
alice_no_admin = refl

admin_endpoint-refused_example :
    Refuses
      (admin_endpoint (handle_admin_administrators sample_web) members_of_dev)
      (healthy signed_in_db 100 token_at 0)
admin_endpoint-refused_example =
    admin_endpoint-refused (handle_admin_administrators sample_web) members_of_dev signed_in_db 100
      token_at 0 alice_no_admin

-- A list may be called like an address of another list.
valid_list_name-role : valid_list_name (codes "dev-owner") ≡ true
unfolding valid_list_name matches_name matches_rest is_empty
valid_list_name-role = refl

abbrev to_digest : Request
to_digest = request (codes "POST") (codes "/api/me/subscriptions/1/delivery")

sample-DistinctIds : DistinctIds sample_world.db.subscriptions.rows
unfolding any
sample-DistinctIds = (refl, (refl, tt))

handle_my_subscription-OthersStay_example :
    DistinctIds
      (handle_my_subscription sample_web to_digest alice sample_world).1.db.subscriptions.rows
    × (of_others 1
          (handle_my_subscription sample_web to_digest alice sample_world).1.db.subscriptions.rows
        ≡ of_others 1 sample_world.db.subscriptions.rows)
handle_my_subscription-OthersStay_example =
    handle_my_subscription-OthersStay sample_web to_digest alice sample_world sample-DistinctIds

-- Where the database refuses to delete the link, it starts a session, and another one after that.
abbrev refusing : Db → World
refusing d = record (healthy d 100 token_at 0) { faults = false ∷ true ∷ [] }

link_kept :
    first
      (λ c. text_eq c.token (codes "m"))
      (verify_token sample_web (codes "m") (refusing web_db)).1.db.magic_links.rows
    ≡ some link_of_alice
unfolding verify_token get_magic_link find_first select use_link create_credential delete_credential
    delete_rows create insert now generate_token statement attempt pure ◌>>=◌ first text_eq is_empty
    any
link_kept = refl
