-- ===== src/Tests/Bounces.antt =====
-- Bounces on the sample.
use xlistman.Prelude.{◌⊎◌, false, ◌≡◌, refl, true, suc, ◌++◌, ◌==◌, none, some, [], first, arith}
use xlistman.Strings.{Text, codes, is_empty, cut_last, cut, strip_prefix, text_eq}
use xlistman.Result.{Result, ok}
use xlistman.Model.{QueuedMessage, MailingList, disabled}
use xlistman.Effects.Tables.{Table, update}
use xlistman.Effects.{healthy}
use xlistman.Verp.{marker, equals, encode_verp}
use xlistman.Verp.Roundtrip.{IsAddress, address}
use xlistman.Pipeline.Bounces.{record_bounce}
use xlistman.Pipeline.Bounces.Threshold.{record_bounce-threshold, after_bounce}
use xlistman.Lmtp.Handlers.{process_recipient}
use xlistman.Lmtp.Handlers.Attribution.{process_recipient-verp}
use xlistman.Tests.Samples.{
  sample_env, sample_db, sample_settings, dev, alice, subscription_of_alice, token_at,
}
use xlistman.Tests.Addresses.{dev-IsAddress}
use xlistman.Tests.Runs.{alice_subscribed, dev_found}

-- The owners are told.
abbrev telling : MailingList
telling = record dev { settings = record sample_settings { owner_auto_disable_notice = true } }

record_bounce-threshold_example :
    (r : Result Unit) × (q : Table QueuedMessage) × (record_bounce sample_env telling
        subscription_of_alice
        (healthy sample_db 100 token_at 0)
      ≡ (
        r,
        healthy
            (record sample_db {
              subscriptions =
                  update
                    (λ r. r.id == 1)
                    (λ r. record r { status = disabled })
                    (update
                      (λ r. r.id == 1)
                      (λ r. record r { bounce_count = suc r.bounce_count })
                      sample_db.subscriptions);
              queue = q;
            })
            100
            token_at
            0,
      ))
    × ((r ≡ ok tt) ⊎ (true ≡ true))
record_bounce-threshold_example =
    record_bounce-threshold sample_env telling subscription_of_alice sample_db 100 token_at 0
      alice_subscribed

alice-IsAddress : IsAddress (codes "a") (codes "x.y")
unfolding is_empty
alice-IsAddress = record {
  local_there = refl;
  domain_there = refl;
  local_plain = omega arith;
  domain_plain = omega arith;
}

alice_no_marker : cut_last marker (codes "a" ++ (equals ++ codes "x.y")) ≡ none
unfolding cut_last cut strip_prefix
alice_no_marker = refl

alice_known :
    first (λ s. text_eq s.email (address (codes "a") (codes "x.y"))) sample_db.subscribers.rows
    ≡ some alice
unfolding first text_eq
alice_known = refl

process_recipient-verp_example :
    (sender : Text) × (encode_verp
        (address (codes "dev") (codes "x.y"))
        (address (codes "a") (codes "x.y"))
      ≡ ok sender)
    × (r : Result Unit) × (q : Table QueuedMessage) × (process_recipient sample_env sender []
          (healthy sample_db 100 token_at 0)
        ≡ (
          r,
          healthy
              (record sample_db {
                subscriptions = after_bounce dev subscription_of_alice sample_db.subscriptions;
                queue = q;
              })
              100
              token_at
              0,
        ))
    × ((r ≡ ok tt) ⊎ (false ≡ true))
process_recipient-verp_example =
    process_recipient-verp (codes "dev") (codes "x.y") (codes "a") (codes "x.y") sample_env [] alice
      dev subscription_of_alice sample_db 100 token_at 0 dev-IsAddress alice-IsAddress (omega arith)
      (omega arith) alice_no_marker alice_known dev_found alice_subscribed
