-- ===== src/Tests/Connections.antt =====
-- LMTP connections, and the rate limiter, at work.
use xlistman.Prelude.{
  ℕ, zero, suc, ◌-◌, ◌+◌, ◌≡◌, ◌≤◌, refl, true, false, none, some, List, [], ◌∷◌, ◌++◌, length, All,
  map, first, ltb, if◌then◌else◌, arith,
}
use xlistman.Strings.{Text, codes, text_eq, is_empty, strip_prefix, has_prefix}
use xlistman.Result.{ok}
use xlistman.Env.{crlf, concat}
use xlistman.Model.{Time}
use xlistman.Headers.{trim_end}
use xlistman.Handlers.AuditTrail.{LogsGrow}
use xlistman.Handlers.Authority.{SameAuthority}
use xlistman.Lmtp.Connection.{
  ReplyText, LmtpConn, send, trim_line, unstuffed, read_message, handle_data, run_line, serve,
  accepted,
}
use xlistman.Lmtp.Connection.Data.{
  line_sent, lone_dot, line_received, deliveries, say_go_on, read_message-stuffed,
  handle_data-replies,
}
use xlistman.Lmtp.Connection.Session.{opened}
use xlistman.Lmtp.Connection.Keeping.{serve-LogsGrow-SameAuthority, run_line-unaddressed}
use xlistman.Lmtp.Connection.Endings.{serve-ends}
use xlistman.Server.Limiter.{
  RateLimiter, LimiterEntry, KeyedRateLimiter, max_buckets, has_key, allow,
}
use xlistman.Server.Limiter.Bounds.{Call, after_calls, after_calls-max_buckets}
use xlistman.Server.Limiter.Independence.{is_live, allow-crowded}
use xlistman.Tests.Samples.{sample_env, sample_world}

abbrev line : Text → Text
line t = t ++ crlf

abbrev dotted : List Text
dotted = codes "a" ∷ codes "." ∷ codes ".b" ∷ []

read_message-stuffed_example :
    read_message (map line_sent dotted ++ lone_dot ∷ line (codes "QUIT") ∷ [])
    ≡ some (concat (map line_received dotted), line (codes "QUIT") ∷ [])
unfolding trim_line trim_end is_empty
read_message-stuffed_example =
    read_message-stuffed dotted (line (codes "QUIT") ∷ []) (refl, (refl, (refl, tt)))

-- A post to the list, and an address that is none.
abbrev two_recipients : List Text
two_recipients = codes "dev@x.y" ∷ codes "nobody" ∷ []

abbrev addressed : LmtpConn
addressed = record {
  lines = line (codes "a@x.y") ∷ lone_dot ∷ [];
  replies = [];
  mail_from = codes "a@x.y";
  mail_set = true;
  rcpt_tos = two_recipients;
}

addressed-read : read_message addressed.lines ≡ some (line (codes "a@x.y"), [])
unfolding read_message trim_line trim_end is_empty text_eq unstuffed has_prefix strip_prefix
addressed-read = refl

handle_data-replies_example :
    (handle_data sample_env addressed sample_world ≡ (
      ok (record {
        lines = [];
        replies =
            ([] ++ say_go_on ∷ [])
            ++ (deliveries sample_env (line (codes "a@x.y")) two_recipients sample_world).0;
        mail_from = [];
        mail_set = false;
        rcpt_tos = [];
      }),
      (deliveries sample_env (line (codes "a@x.y")) two_recipients sample_world).1,
    ))
    × (length (deliveries sample_env (line (codes "a@x.y")) two_recipients sample_world).0 ≡ 2)
handle_data-replies_example =
    handle_data-replies sample_env addressed (codes "dev@x.y") (codes "nobody" ∷ [])
      (line (codes "a@x.y")) [] sample_world refl addressed-read

abbrev session : List Text
session =
    line (codes "LHLO x")
    ∷ line (codes "MAIL FROM:<a@x.y>")
    ∷ line (codes "RCPT TO:<dev@x.y>")
    ∷ line (codes "DATA")
    ∷ line (codes "a@x.y")
    ∷ lone_dot
    ∷ line (codes "QUIT")
    ∷ []

serve-LogsGrow-SameAuthority_example :
    LogsGrow sample_world.db (serve sample_env 8 (accepted session) sample_world).1.db
    × SameAuthority sample_world.db (serve sample_env 8 (accepted session) sample_world).1.db
serve-LogsGrow-SameAuthority_example =
    serve-LogsGrow-SameAuthority sample_env 8 session sample_world

serve-ends_example :
    (c : LmtpConn) × ((serve sample_env 8 (accepted session) sample_world).0 ≡ ok (some c))
serve-ends_example = serve-ends sample_env 8 session sample_world (omega arith)

abbrev greeted : LmtpConn
greeted = send 220 (ReplyText.plain (codes "xMailman LMTP ready")) (accepted session)

greeted-unset : greeted.mail_set ≡ false
unfolding send
greeted-unset = refl

run_line-unaddressed_example :
    (run_line sample_env (line (codes "DATA")) (record greeted { lines = [] }) sample_world).1
    ≡ sample_world
run_line-unaddressed_example =
    run_line-unaddressed sample_env session greeted sample_world (line (codes "DATA")) [] opened
      greeted-unset

-- A limiter is the number of its tokens; it is not filled up.
abbrev pub tokens : RateLimiter ℕ
tokens = record {
  new_limiter = λ interval burst. burst;
  allow_at = λ now b. (ltb 0 b, b - 1);
  reserve_at = λ now b. if ltb 0 b then (0, b - 1) else (1, b);
  cancel_at = λ now b. b + 1;
}

abbrev pub empty_limiter : KeyedRateLimiter ℕ
empty_limiter = record { interval = 1; burst = 5; prune_after = 10; buckets = [] }

abbrev some_calls : List (Call tokens)
some_calls =
    Call.asks_allow (codes "a") 20
    ∷ Call.asks_reserve (codes "b") 21
    ∷ Call.cancels (codes "b") 21 4
    ∷ Call.asks_retry_after (codes "c") 22
    ∷ []

after_calls-max_buckets_example :
    length (after_calls tokens some_calls empty_limiter).buckets ≤ max_buckets
after_calls-max_buckets_example =
    after_calls-max_buckets tokens some_calls empty_limiter refl
      (omega arith, (omega arith, (omega arith, (omega arith, tt))))

abbrev bucket_of : Text → Time → LimiterEntry ℕ
bucket_of key t = record { key = key; lim = 5; last_seen = t }

abbrev busy : KeyedRateLimiter ℕ
busy = record empty_limiter { buckets = bucket_of (codes "b") 15 ∷ [] }

-- So many buckets under one key, all of them live.
unfoldable many : ℕ → List (LimiterEntry ℕ)
many zero = []
many (suc n) = bucket_of (codes "k") 15 ∷ many n

length-many : (n : ℕ) → length (many n) ≡ n
unfolding many
length-many zero = refl
length-many (suc n) = omega (arith, length-many n)

many-live : (n : ℕ) → All (λ (e : LimiterEntry ℕ). is_live 20 10 e ≡ true) (many n)
unfolding many
many-live zero = tt
many-live (suc n) = (refl, many-live n)

many-other : (n : ℕ) → first (has_key (codes "a")) (many n) ≡ none
unfolding many first text_eq
many-other zero = refl
many-other (suc n) = many-other n

abbrev crowded : KeyedRateLimiter ℕ
crowded = record empty_limiter { buckets = many 4096 }

allow-crowded_example : allow tokens (codes "a") 20 crowded ≡ (true, crowded)
allow-crowded_example =
    allow-crowded tokens (codes "a") 20 crowded (omega arith) (length-many 4096) (many-live 4096)
      (many-other 4096)
