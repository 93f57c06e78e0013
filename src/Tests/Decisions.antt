-- ===== src/Tests/Decisions.antt =====
-- Decisions on posts, held messages and subscriptions of the sample.
use xlistman.Prelude.{
  List, All, ◌≡◌, refl, true, false, any, ◌&&◌, none, some, [], ◌∷◌, ◌++◌, ◌==◌, first, arith,
}
use xlistman.Strings.{codes, text_eq, is_empty}
use xlistman.Result.{ok, err, said}
use xlistman.Model.{QueuedMessage, AuditActorKind, discussion, moderation_discard}
use xlistman.Effects.Tables.{delete}
use xlistman.Effects.{healthy}
use xlistman.Store.Lists.{joined, join_domain}
use xlistman.Pipeline.Posting.{process_post}
use xlistman.Pipeline.Posting.StandingOf.{standing_in}
use xlistman.Pipeline.Posting.Decided.{by_policy}
use xlistman.Pipeline.Posting.Outcomes.{verdict, Outcome, process_post-outcome}
use xlistman.Policy.{accept}
use xlistman.Pipeline.Moderation.{approve_held, reject_held, discard_held}
use xlistman.Pipeline.Moderation.Decisions.{held-expired, discard_held-audited}
use xlistman.Admin.Members.{approve_subscription, reject_subscription}
use xlistman.Admin.Members.Approval.{approval-refused}
use xlistman.Pipeline.Delivery.{deliver_to_list}
use xlistman.Pipeline.Delivery.Recipients.{is_recipient, deliver_to_list-recipients}
use xlistman.Tests.Samples.{
  sample_world, sample_env, sample_db, dev, alice, subscription_of_alice, held_message, token_at,
  operator,
}

dev_by_name :
    first
      (λ l. text_eq l.list_name (codes "dev") && text_eq l.domain (codes "x.y"))
      (joined sample_db.domains.rows sample_db.lists.rows)
    ≡ some dev
unfolding first joined join_domain text_eq
dev_by_name = refl

nothing_refused : is_empty (sample_env.validate_post_policy dev (codes "a@x.y")) ≡ true
unfolding is_empty
nothing_refused = refl

no_such_token : any (λ m. text_eq m.token (token_at 0)) sample_db.held_messages.rows ≡ false
unfolding any text_eq
no_such_token = refl

process_post-outcome_example :
    (process_post sample_env
        (codes "dev")
        (codes "x.y")
        (codes "a@x.y")
        (codes "a@x.y")
        (healthy sample_db 100 token_at 0)
      ≡ by_policy sample_env dev
          (standing_in sample_db dev
            (first (λ s. text_eq s.email (codes "a@x.y")) sample_db.subscribers.rows))
          (codes "a@x.y")
          (codes "a@x.y")
          (healthy sample_db 100 token_at 0))
    × Outcome sample_env dev
        (codes "a@x.y")
        (codes "a@x.y")
        sample_db
        100
        token_at
        0
        (verdict discussion false (
          standing_in sample_db dev
            (first (λ s. text_eq s.email (codes "a@x.y")) sample_db.subscribers.rows)))
        (process_post sample_env
          (codes "dev")
          (codes "x.y")
          (codes "a@x.y")
          (codes "a@x.y")
          (healthy sample_db 100 token_at 0))
process_post-outcome_example =
    process_post-outcome sample_env (codes "dev") (codes "x.y") (codes "a@x.y") (codes "a@x.y") dev
      sample_db 100 token_at 0 dev_by_name nothing_refused no_such_token

-- Alice's subscription lets her post.
alice_accepted :
    verdict discussion false (
      standing_in sample_db dev
        (first (λ s. text_eq s.email (codes "a@x.y")) sample_db.subscribers.rows))
    ≡ accept
unfolding first any text_eq
alice_accepted = refl

message_by_id : first (λ m. m.id == 1) sample_db.held_messages.rows ≡ some held_message
unfolding first
message_by_id = refl

held-expired_example :
    (approve_held sample_env 1 operator (healthy sample_db 1000 token_at 0)
      ≡ (err (said (codes "held message has expired")), healthy sample_db 1000 token_at 0))
    × (reject_held sample_env 1 operator (healthy sample_db 1000 token_at 0)
        ≡ (err (said (codes "held message has expired")), healthy sample_db 1000 token_at 0))
    × (discard_held sample_env 1 operator (healthy sample_db 1000 token_at 0)
        ≡ (err (said (codes "held message has expired")), healthy sample_db 1000 token_at 0))
held-expired_example =
    held-expired sample_env 1 operator held_message sample_db 1000 token_at 0 message_by_id refl

list_by_id : first (λ l. l.id == 1) (joined sample_db.domains.rows sample_db.lists.rows) ≡ some dev
unfolding first joined join_domain
list_by_id = refl

discard_held-audited_example :
    discard_held sample_env 1 operator (healthy sample_db 100 token_at 0) ≡ (
      ok tt,
      healthy
          (record sample_db {
            held_messages = delete (λ r. r.id == 1) sample_db.held_messages;
            audit = record {
              rows =
                  []
                  ++ record {
                    id = 1;
                    at = 100;
                    list_id = some 1;
                    list_addr = codes "dev@x.y";
                    action = moderation_discard;
                    actor_kind = AuditActorKind.cli;
                    actor_id = none;
                    actor_email = [];
                    actor_detail = codes "root";
                    target = codes "s";
                    detail = [];
                  }
                    ∷ [];
              next_id = 2;
            };
          })
          100
          token_at
          0,
    )
discard_held-audited_example =
    discard_held-audited sample_env 1 operator held_message sample_db 100 token_at 0 dev
      message_by_id refl list_by_id

member_found :
    first (λ s. s.list_id == 1 && s.subscriber_id == 1) sample_db.subscriptions.rows
    ≡ some subscription_of_alice
unfolding first
member_found = refl

alice_by_id : first (λ s. s.id == 1) sample_db.subscribers.rows ≡ some alice
unfolding first
alice_by_id = refl

approval-refused_example :
    (approve_subscription sample_env 1 1 operator (healthy sample_db 100 token_at 0) ≡ (
      err (said (codes "subscription is not awaiting approval")),
      healthy sample_db 100 token_at 0,
    ))
    × (reject_subscription sample_env 1 1 operator (healthy sample_db 100 token_at 0) ≡ (
      err (said (codes "subscription is not awaiting approval")),
      healthy sample_db 100 token_at 0,
    ))
approval-refused_example =
    approval-refused sample_env 1 1 operator subscription_of_alice dev alice sample_db 100 token_at
      0 member_found list_by_id alice_by_id (λ e. ground (arith, e))

deliver_to_list-recipients_example :
    (more : List QueuedMessage) × ((deliver_to_list sample_env dev
        (codes "a@x.y")
        (codes "a@x.y")
        sample_world).1.db.queue.rows
      ≡ sample_world.db.queue.rows ++ more)
    × All
        (λ (q : QueuedMessage).
          is_recipient 1 sample_world.db.subscriptions.rows sample_world.db.subscribers.rows
            q.to_addr
          ≡ true)
        more
deliver_to_list-recipients_example =
    deliver_to_list-recipients sample_env dev (codes "a@x.y") (codes "a@x.y") sample_world
