-- ===== src/Pipeline/Posting/Tables.antt =====
-- What delivering, holding and rejecting a post leave in the tables.
use xlistman.Prelude.{
  ℕ, suc, ◌+◌, ◌*◌, ◌≡◌, false, Option, none, some, List, [], ◌∷◌, ◌++◌, any, any-never,
  if◌then◌else◌,
}
use xlistman.Strings.{Text, codes, text_eq}
use xlistman.Result.{Result, ok, err}
use xlistman.Model.{
  Time, day, MailingList, Subscriber, Subscription, HeldMessage, ArchiveEntry, QueuedMessage,
  RoleHolder,
}
use xlistman.Env.{Env}
use xlistman.Headers.{extract_header, extract_subject, extract_thread_id}
use xlistman.Effects.Tables.{Db, Table, Indexed, insert}
use xlistman.Effects.{healthy, ◌>>=◌, ◌>>◌, pure, wrap, statement, now, generate_token, for_each}
use xlistman.Store.Access.{create}
use xlistman.Store.Members.{list_subscriptions}
use xlistman.Store.Archive.{archive_message, index_entry}
use xlistman.Store.Held.{create_held_message}
use xlistman.Pipeline.Notices.{notify_sender_held, send_template, reject_message}
use xlistman.Pipeline.Notices.Queueing.{
  OnlyQueues, pure-OnlyQueues, if-OnlyQueues, attempt-OnlyQueues, bind-OnlyQueues, wrap-OnlyQueues,
  now-OnlyQueues, for_each-OnlyQueues, enqueue-OnlyQueues, get_subscriber_by_id-OnlyQueues,
  list_owners-OnlyQueues, list_moderators-OnlyQueues, list_subscriptions-OnlyQueues,
  send_notice-OnlyQueues,
}
use xlistman.Pipeline.Delivery.{
  deliver_modified, deliver_encoded, deliver_to, deliver_found, deliver_one, deliver_to_list,
}
use xlistman.Pipeline.Moderation.{
  Recipients, add_recipient, add_recipients, add_found, build_moderation_notice, notify_moderator,
  notify_moderators, hold_message,
}

ruleset queueing = (
  pure-OnlyQueues, if-OnlyQueues, attempt-OnlyQueues, bind-OnlyQueues, wrap-OnlyQueues,
  now-OnlyQueues, for_each-OnlyQueues, enqueue-OnlyQueues, get_subscriber_by_id-OnlyQueues,
  list_owners-OnlyQueues, list_moderators-OnlyQueues, list_subscriptions-OnlyQueues,
  send_notice-OnlyQueues,
)

module _ (env : Env) (l : MailingList) (sender raw : Text) where
  deliver_modified-OnlyQueues :
      (email verp_addr : Text) (m : Option Text)
      → OnlyQueues (deliver_modified env l sender email verp_addr m)
  deliver_modified-OnlyQueues email verp_addr none = pure-OnlyQueues tt
  deliver_modified-OnlyQueues email verp_addr (some body) = search queueing

  deliver_encoded-OnlyQueues :
      (email : Text) (r : Result Text) → OnlyQueues (deliver_encoded env l sender raw email r)
  deliver_encoded-OnlyQueues email (err _) = pure-OnlyQueues tt
  deliver_encoded-OnlyQueues email (ok v) = deliver_modified-OnlyQueues email v _

  deliver_to-OnlyQueues : (s : Subscriber) → OnlyQueues (deliver_to env l sender raw s)
  unfolding deliver_to
  deliver_to-OnlyQueues s =
      if-OnlyQueues _ _ _ (pure-OnlyQueues tt) (deliver_encoded-OnlyQueues _ _)

  deliver_found-OnlyQueues : (r : Result Subscriber) → OnlyQueues (deliver_found env l sender raw r)
  deliver_found-OnlyQueues (ok s) = deliver_to-OnlyQueues s
  deliver_found-OnlyQueues (err _) = pure-OnlyQueues tt

  deliver_one-OnlyQueues : (s : Subscription) → OnlyQueues (deliver_one env l sender raw s)
  unfolding deliver_one
  deliver_one-OnlyQueues s = search (queueing, deliver_found-OnlyQueues)

  deliveries-OnlyQueues : OnlyQueues (
      wrap (codes "list subscriptions") (list_subscriptions l.id) >>= λ subs.
      for_each subs (deliver_one env l sender raw))
  deliveries-OnlyQueues = search (queueing, deliver_one-OnlyQueues)

  -- The archive with the post at its end.
  abbrev pub archived : Time → Table ArchiveEntry → Table ArchiveEntry
  archived t archive = record {
    rows =
        archive.rows
        ++ record {
          id = archive.next_id;
          list_id = l.id;
          message_id = extract_header raw (codes "Message-ID");
          subject = extract_subject raw;
          from_addr = sender;
          body = raw;
          body_text = env.extract_text raw;
          thread_id = extract_thread_id raw;
          received_at = t;
        }
          ∷ [];
    next_id = suc archive.next_id;
  }

  pub deliver_to_list-archived :
      (d : Db) (t : Time) (token_of : ℕ → Text) (n : ℕ)
      → (r : Result Unit) × (q : Table QueuedMessage) × (i : List Indexed) × (deliver_to_list env l
            sender raw
            (healthy d t token_of n)
          ≡ (
            r,
            healthy
                (record d { archive = archived t d.archive; archive_fts = i; queue = q })
                t
                token_of
                n,
          ))
  unfolding deliver_to_list archive_message index_entry create insert wrap statement now pure ◌>>=◌
  deliver_to_list-archived d t token_of n =
      let i =
        d.archive_fts
        ++ record {
          rowid = d.archive.next_id;
          subject = extract_subject raw;
          body_text = env.extract_text raw;
        }
          ∷ [] in
      let (r, q, e) =
        deliveries-OnlyQueues.queued (record d { archive = archived t d.archive; archive_fts = i })
          t token_of n in
      (r, q, i, rw (any-never d.archive.rows) e)

  add_recipient-OnlyQueues : (to : Recipients) (id : ℕ) → OnlyQueues (add_recipient to id)
  unfolding add_recipient
  add_recipient-OnlyQueues (seen, emails) id = search queueing

  add_recipients-OnlyQueues :
      (to : Recipients) (rs : List RoleHolder) → OnlyQueues (add_recipients to rs)
  unfolding add_recipients
  add_recipients-OnlyQueues to [] = pure-OnlyQueues to
  add_recipients-OnlyQueues to (x ∷ xs) =
      bind-OnlyQueues _ _ (add_recipient-OnlyQueues to x.subscriber_id)
        (λ to'. add_recipients-OnlyQueues to' xs)

  add_found-OnlyQueues :
      (to : Recipients) (r : Result (List RoleHolder)) → OnlyQueues (add_found to r)
  add_found-OnlyQueues to (ok rs) = add_recipients-OnlyQueues to rs
  add_found-OnlyQueues to (err _) = pure-OnlyQueues to

  moderation_notice-OnlyQueues :
      (a b c e f g : Text) → OnlyQueues (build_moderation_notice env a b c e f g)
  unfolding build_moderation_notice
  moderation_notice-OnlyQueues a b c e f g = search queueing

  notify_moderator-OnlyQueues :
      (m : HeldMessage) (to : Text) → OnlyQueues (notify_moderator env l m to)
  unfolding notify_moderator
  notify_moderator-OnlyQueues m to = search (queueing, moderation_notice-OnlyQueues)

  notify_moderators-OnlyQueues : (m : HeldMessage) → OnlyQueues (notify_moderators env l m)
  unfolding notify_moderators
  notify_moderators-OnlyQueues m =
      search (queueing, add_found-OnlyQueues, notify_moderator-OnlyQueues) depth 9

  notify_sender-OnlyQueues : (subject : Text) → OnlyQueues (notify_sender_held env l sender subject)
  unfolding notify_sender_held send_template
  notify_sender-OnlyQueues subject = send_notice-OnlyQueues env l _ _ _ _

  -- The message that is held, and the held messages with it at their end.
  abbrev pub held_row : Text → Time → ℕ → HeldMessage
  held_row token t id = record {
    id = id;
    list_id = l.id;
    token = token;
    sender = sender;
    subject = extract_subject raw;
    body = raw;
    received_at = t;
    expires_at = t + l.settings.held_expiry_days * day;
  }

  abbrev pub held_with : Text → Time → Table HeldMessage → Table HeldMessage
  held_with token t held_messages = record {
    rows = held_messages.rows ++ held_row token t held_messages.next_id ∷ [];
    next_id = suc held_messages.next_id;
  }

  notices-OnlyQueues :
      (m : HeldMessage)
      → OnlyQueues (
          wrap (codes "notify moderators") (notify_moderators env l m)
          >> (if l.settings.sender_held_notice
              then wrap
                  (codes "notify sender")
                  (notify_sender_held env l sender (extract_subject raw))
              else pure tt))
  notices-OnlyQueues m = search (queueing, notify_moderators-OnlyQueues, notify_sender-OnlyQueues)

  pub hold_message-held :
      (d : Db) (t : Time) (token_of : ℕ → Text) (n : ℕ)
      → any (λ m. text_eq m.token (token_of n)) d.held_messages.rows ≡ false
      → (r : Result Unit) × (q : Table QueuedMessage) × (hold_message env l sender raw
            (healthy d t token_of n)
          ≡ (
            r,
            healthy
                (record d { held_messages = held_with (token_of n) t d.held_messages; queue = q })
                t
                token_of
                (suc n),
          ))
  unfolding hold_message create_held_message create insert wrap statement now generate_token pure
      ◌>>=◌
  hold_message-held d t token_of n fresh =
      let (r, q, e) =
        (notices-OnlyQueues (held_row (token_of n) t d.held_messages.next_id)).queued
          (record d { held_messages = held_with (token_of n) t d.held_messages }) t token_of
          (suc n) in
      (r, q, rw fresh e)

  pub reject_message-queued :
      (reason : Text) (d : Db) (t : Time) (token_of : ℕ → Text) (n : ℕ)
      → (r : Result Unit) × (q : Table QueuedMessage) × (reject_message env l sender reason
            (healthy d t token_of n)
          ≡ (r, healthy (record d { queue = q }) t token_of n))
  unfolding reject_message
  reject_message-queued reason = (enqueue-OnlyQueues _ _ _ _ _ _).queued
