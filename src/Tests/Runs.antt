-- ===== src/Tests/Runs.antt =====
-- Handlers, commands and the worker at work on the sample.
use xlistman.Prelude.{
  ℕ, ◌≡◌, refl, ◌+◌, ◌&&◌, update_where, true, false, none, some, [], ◌∷◌, ◌==◌, first, any, keep,
  arith,
}
use xlistman.Strings.{Text, codes, text_eq}
use xlistman.Result.{ok, err, said_of}
use xlistman.Model.{QueuedMessage, active, list_address}
use xlistman.Address.{ParsedAddress, AddressType, confirm, moderate}
use xlistman.Effects.Tables.{Table, update, delete}
use xlistman.Effects.{healthy, statement}
use xlistman.Store.Lists.{joined, join_domain, delete_list}
use xlistman.Store.Lists.Deletion.{Deleted, delete_list-Deleted}
use xlistman.Store.Queue.{earliest, claim, claim_next_queued}
use xlistman.Store.Archive.{advance_digest_watermark}
use xlistman.Queue.Worker.{process_batch}
use xlistman.Queue.Worker.Termination.{process_batch-ends}
use xlistman.Queue.Worker.Claims.{claim_next_queued-once}
use xlistman.Queue.Digest.{digest_list}
use xlistman.Queue.Digest.Once.{digest_list-once}
use xlistman.Pipeline.Posting.{sender_standing}
use xlistman.Pipeline.Posting.StandingOf.{standing_in, sender_standing-standing_in}
use xlistman.Admin.Roles.{role_owner, revoke_role}
use xlistman.Admin.Roles.LastOwner.{has_owner, DistinctHolders, revoke_role-OwnersStay}
use xlistman.Admin.Import.{ImportResult, skipped, import_rows}
use xlistman.Admin.Import.Counts.{import_rows-total}
use xlistman.Lmtp.Request.{sender_of}
use xlistman.Lmtp.Commands.{cmd_who, who_refused}
use xlistman.Lmtp.Commands.Roster.{runs_list, cmd_who-private}
use xlistman.Lmtp.Handlers.{handle_confirm, handle_moderate, process_recipient}
use xlistman.Lmtp.Handlers.Confirming.{handle_confirm-confirmed}
use xlistman.Lmtp.Handlers.Moderating.{handle_moderate-refused}
use xlistman.Handlers.AuditTrail.{LogsGrow, process_recipient-LogsGrow}
use xlistman.Handlers.Authority.{SameAuthority, process_recipient-SameAuthority}
use xlistman.Handlers.Uniqueness.{Distinct, process_recipient-Distinct}
use xlistman.Tests.Samples.{
  sample_env, sample_mta, sample_db, sample_world, dev, subscription_of_alice, held_message,
  token_of_alice, queued, token_at, operator,
}

process_recipient-LogsGrow_example :
    LogsGrow sample_world.db
      (process_recipient sample_env (codes "dev@x.y") (codes "a@x.y") sample_world).1.db
process_recipient-LogsGrow_example =
    process_recipient-LogsGrow sample_env (codes "dev@x.y") (codes "a@x.y") sample_world

process_recipient-SameAuthority_example :
    SameAuthority sample_world.db
      (process_recipient sample_env (codes "dev-owner@x.y") (codes "a@x.y") sample_world).1.db
process_recipient-SameAuthority_example =
    process_recipient-SameAuthority sample_env (codes "dev-owner@x.y") (codes "a@x.y") sample_world

sample-Distinct : Distinct sample_world.db.subscriptions.rows
unfolding any
sample-Distinct = (refl, (refl, tt))

process_recipient-Distinct_example :
    Distinct
      (process_recipient sample_env
        (codes "dev-subscribe@x.y")
        (codes "c@x.y")
        sample_world).1.db.subscriptions.rows
process_recipient-Distinct_example =
    process_recipient-Distinct sample_env (codes "dev-subscribe@x.y") (codes "c@x.y") sample_world
      sample-Distinct

process_batch-ends_example : (process_batch sample_mta 5 8 60 sample_world).0 ≡ ok (some tt)
process_batch-ends_example = process_batch-ends sample_mta 5 8 60 sample_world (omega arith)

first_claim :
    (claim_next_queued 60 (healthy sample_db 100 token_at 0)).0
    ≡ ok (some (queued 1 (codes "a@x.y")))
unfolding claim_next_queued statement earliest keep
first_claim = refl

second_claim :
    (claim_next_queued 70 (claim_next_queued 60 (healthy sample_db 100 token_at 0)).1).0
    ≡ ok (some (queued 2 []))
unfolding claim_next_queued statement earliest keep update update_where claim
second_claim = refl

claim_next_queued-once_example : (2 == 1) ≡ false
claim_next_queued-once_example =
    claim_next_queued-once sample_db 100 token_at 0 60 70 (queued 1 (codes "a@x.y")) (queued 2 [])
      first_claim second_claim

digest_list-once_example :
    digest_list sample_env dev 300 (
      healthy
        (advance_digest_watermark 1 none 200 (healthy sample_db 100 token_at 0)).1.db
        400
        token_at
        0)
    ≡ (
      ok tt,
      healthy
          (advance_digest_watermark 1 none 200 (healthy sample_db 100 token_at 0)).1.db
          400
          token_at
          0,
    )
digest_list-once_example =
    digest_list-once sample_env dev 200 300 sample_db
      (advance_digest_watermark 1 none 200 (healthy sample_db 100 token_at 0)).1.db 100 400 token_at
      0 0 tt refl

owners-Distinct : DistinctHolders sample_world.db.owners.rows
unfolding any
owners-Distinct = (refl, tt)

revoke_role-OwnersStay_example :
    DistinctHolders (revoke_role 1 2 role_owner operator sample_world).1.db.owners.rows
    × ((l : ℕ)
        → has_owner l sample_world.db.owners.rows ≡ true
        → has_owner l (revoke_role 1 2 role_owner operator sample_world).1.db.owners.rows ≡ true)
revoke_role-OwnersStay_example =
    revoke_role-OwnersStay 1 2 role_owner operator sample_world owners-Distinct

abbrev no_rows_yet : ImportResult
no_rows_yet = record { added = 0; already = 0; disabled_members = 0; invalid = 0 }

import_rows-total_example :
    (res : ImportResult) × ((import_rows sample_env 1
        (codes "a@x.y" ∷ [] ∷ codes "c@x.y" ∷ [])
        no_rows_yet
        sample_world).0
      ≡ ok res)
    × (res.added + skipped res ≡ 3 + (0 + skipped no_rows_yet))
import_rows-total_example =
    import_rows-total sample_env 1 (codes "a@x.y" ∷ [] ∷ codes "c@x.y" ∷ []) no_rows_yet
      sample_world

sender_standing-standing_in_example :
    sender_standing dev (codes "a@x.y") (healthy sample_db 100 token_at 0) ≡ (
      ok (
          standing_in sample_db dev
            (first (λ s. text_eq s.email (codes "a@x.y")) sample_db.subscribers.rows)),
      healthy sample_db 100 token_at 0,
    )
sender_standing-standing_in_example =
    sender_standing-standing_in sample_db dev (codes "a@x.y") 100 token_at 0

pub alice_subscribed :
    first (λ s. s.list_id == 1 && s.subscriber_id == 1) sample_db.subscriptions.rows
    ≡ some subscription_of_alice
unfolding first
alice_subscribed = refl

pub dev_found :
    first
      (λ l. text_eq l.list_name (codes "dev") && text_eq l.domain (codes "x.y"))
      (joined sample_db.domains.rows sample_db.lists.rows)
    ≡ some dev
unfolding first joined join_domain text_eq
dev_found = refl

delete_list-Deleted_example :
    ((delete_list (codes "dev") (codes "x.y") (healthy sample_db 100 token_at 0)).0 ≡ ok tt)
    × Deleted 1 sample_db
        (delete_list (codes "dev") (codes "x.y") (healthy sample_db 100 token_at 0)).1.db
delete_list-Deleted_example =
    delete_list-Deleted (codes "dev") (codes "x.y") dev sample_db 100 token_at 0 dev_found

abbrev to_role : AddressType → Text → ParsedAddress
to_role type part = record {
  type = type;
  list_name = codes "dev";
  domain = codes "x.y";
  list_addr = codes "dev@x.y";
  encoded_part = part;
}

token_found :
    first (λ c. text_eq c.token (codes "t")) sample_db.confirmation_tokens.rows
    ≡ some token_of_alice
unfolding first text_eq
token_found = refl

dev_by_id : first (λ l. l.id == 1) (joined sample_db.domains.rows sample_db.lists.rows) ≡ some dev
unfolding first joined join_domain
dev_by_id = refl

handle_confirm-confirmed_example :
    (q : Table QueuedMessage) × (handle_confirm sample_env
        (to_role confirm (codes "t"))
        (healthy sample_db 100 token_at 0)
      ≡ (
        ok tt,
        healthy
            (record sample_db {
              subscriptions =
                  update
                    (λ s. s.id == 1)
                    (λ s. record s { status = active; confirmed_at = some 100 })
                    sample_db.subscriptions;
              confirmation_tokens =
                  delete (λ c. text_eq c.token (codes "t")) sample_db.confirmation_tokens;
              queue = q;
            })
            100
            token_at
            0,
      ))
handle_confirm-confirmed_example =
    handle_confirm-confirmed sample_env (to_role confirm (codes "t")) sample_db 100 token_at 0
      token_of_alice subscription_of_alice dev token_found alice_subscribed dev_by_id

held_found :
    first (λ m. text_eq m.token (codes "h")) sample_db.held_messages.rows ≡ some held_message
unfolding first text_eq
held_found = refl

alice_runs_nothing :
    runs_list sample_db dev
      (first (λ s. text_eq s.email (codes "a@x.y")) sample_db.subscribers.rows)
    ≡ false
unfolding first any text_eq
alice_runs_nothing = refl

alice_sends :
    runs_list sample_db dev (
      first
        (λ s. text_eq s.email (sender_of sample_env (codes "a@x.y")))
        sample_db.subscribers.rows)
    ≡ false
unfolding first any text_eq sender_of
alice_sends = refl

handle_moderate-refused_example :
    handle_moderate sample_env
      (to_role moderate (codes "h"))
      (codes "a@x.y")
      (healthy sample_db 100 token_at 0)
    ≡ (
      err (said_of (codes "not an owner or moderator") (list_address dev)),
      healthy sample_db 100 token_at 0,
    )
handle_moderate-refused_example =
    handle_moderate-refused sample_env (to_role moderate (codes "h")) (codes "a@x.y") held_message
      dev sample_db 100 token_at 0 held_found refl dev_by_id alice_sends

cmd_who-private_example :
    cmd_who dev (codes "a@x.y") (healthy sample_db 100 token_at 0)
    ≡ (ok who_refused, healthy sample_db 100 token_at 0)
cmd_who-private_example =
    cmd_who-private dev (codes "a@x.y") sample_db 100 token_at 0 alice_runs_nothing
