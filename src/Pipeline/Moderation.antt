-- ===== src/Pipeline/Moderation.antt =====
-- Held messages: holding a post, and the three moderation actions.
pub mod Decisions
use xlistman.Prelude.{ℕ, ◌+◌, ◌*◌, List, [], ◌∷◌, ◌++◌, some, ◌==◌, ltb, any, if◌then◌else◌}
use xlistman.Strings.{Text, codes}
use xlistman.Result.{Result, ok, err, said}
use xlistman.Model.{
  MailingList, Subscriber, HeldMessage, RoleHolder, AuditActor, Action, moderation_approve,
  moderation_reject, moderation_discard, day, list_address, new_audit_event,
}
use xlistman.Headers.{extract_subject}
use xlistman.Env.{Env, concat, newline, crlf, quote}
use xlistman.Effects.{M, ◌>>=◌, ◌>>◌, pure, raise, wrap, attempt, now, for_each}
use xlistman.Store.Lists.{get_list_by_id}
use xlistman.Store.Members.{get_subscriber_by_id}
use xlistman.Store.Roles.{list_owners, list_moderators}
use xlistman.Store.Held.{create_held_message, get_held_message_by_id, delete_held_message}
use xlistman.Store.Queue.{enqueue}
use xlistman.Store.Audit.{create_audit_event}
use xlistman.Pipeline.Notices.{role_of_list, notify_sender_held, reject_message}
use xlistman.Pipeline.Delivery.{deliver_to_list}

unfoldable pub record_audit : MailingList → Action → AuditActor → Text → Text → M Unit
record_audit l action actor target detail = do
  t ← now
  wrap (codes "record audit") (
      create_audit_event
        (new_audit_event t (some l.id) (list_address l) action actor target detail))

-- The map `seen` as a list, and the addresses collected so far.
abbrev pub Recipients : Type 0
Recipients = List ℕ × List Text

abbrev pub with_found : Recipients → Result Subscriber → Recipients
with_found (seen, emails) (ok sub) = (seen, emails ++ sub.email ∷ [])
with_found (seen, emails) (err _) = (seen, emails)

-- The closure `add`.
unfoldable pub add_recipient : Recipients → ℕ → M Recipients
add_recipient (seen, emails) id =
    if any (λ s. s == id) seen
    then pure (seen, emails)
    else do found ← attempt (get_subscriber_by_id id); pure (with_found (id ∷ seen, emails) found)

unfoldable pub add_recipients : Recipients → List RoleHolder → M Recipients
add_recipients to [] = pure to
add_recipients to (r ∷ rs) = do to' ← add_recipient to r.subscriber_id; add_recipients to' rs

abbrev pub add_found : Recipients → Result (List RoleHolder) → M Recipients
add_found to (ok rows) = add_recipients to rows
add_found to (err _) = pure to

module _ (env : Env) where
  -- buildModerationNotice
  unfoldable pub build_moderation_notice : Text → Text → Text → Text → Text → Text → M Text
  build_moderation_notice from to reply_to subject intro original =
      let (body, boundary) = env.multipart (
        ((codes "Content-Type", codes "text/plain; charset=utf-8") ∷ [], intro)
        ∷ (
          (codes "Content-Type", codes "message/rfc822")
              ∷ (
                codes "Content-Disposition",
                concat (codes "attachment; filename=" ∷ quote ∷ codes "message.eml" ∷ quote ∷ []),
              )
              ∷ (codes "Content-Transfer-Encoding", codes "8bit")
              ∷ [],
          original,
        )
        ∷ []) in
      do
        t ← now
        pure (
            concat (
              codes "From: "
              ∷ from
              ∷ crlf
              ∷ codes "To: "
              ∷ to
              ∷ crlf
              ∷ codes "Reply-To: "
              ∷ reply_to
              ∷ crlf
              ∷ codes "Subject: "
              ∷ subject
              ∷ crlf
              ∷ codes "Date: "
              ∷ env.rfc1123z t
              ∷ crlf
              ∷ codes "MIME-Version: 1.0"
              ∷ crlf
              ∷ codes "Content-Type: multipart/mixed; boundary="
              ∷ env.quoted boundary
              ∷ crlf
              ∷ body
              ∷ []))

  unfoldable pub moderation_intro : MailingList → HeldMessage → Text
  moderation_intro l m = concat (
      codes "A message from "
      ∷ m.sender
      ∷ codes " to "
      ∷ list_address l
      ∷ codes " is awaiting approval."
      ∷ newline
      ∷ newline
      ∷ codes "Subject: "
      ∷ m.subject
      ∷ newline
      ∷ newline
      ∷ codes "To approve, reply to this message with: approve"
      ∷ newline
      ∷ codes "To reject, reply with: reject"
      ∷ newline
      ∷ codes "To discard, reply with: discard"
      ∷ newline
      ∷ newline
      ∷ codes "The original message is attached."
      ∷ [])

  unfoldable pub notify_moderator : MailingList → HeldMessage → Text → M Unit
  notify_moderator l m to = do
    body ←
        build_moderation_notice (list_address l) to (role_of_list l (codes "-moderate+" ++ m.token))
          (codes "Held message for approval: " ++ m.subject) (moderation_intro l m) m.body
    enqueue l.id (list_address l) to body (list_address l) []

  unfoldable pub notify_moderators : MailingList → HeldMessage → M Unit
  notify_moderators l m = do
    owners ← attempt (list_owners l.id)
    to ← add_found ([], []) owners
    mods ← attempt (list_moderators l.id)
    to' ← add_found to mods
    for_each to'.1 (notify_moderator l m)

  unfoldable pub hold_message : MailingList → Text → Text → M Unit
  hold_message l sender raw = do
    t ← now
    m ← wrap (codes "create held message") (
        create_held_message l.id sender (extract_subject raw) raw
          (t + l.settings.held_expiry_days * day))
    wrap (codes "notify moderators") (notify_moderators l m)
    if l.settings.sender_held_notice
        then wrap (codes "notify sender") (notify_sender_held env l sender (extract_subject raw))
        else pure tt

  -- heldContext
  unfoldable pub held_context : ℕ → M (HeldMessage × MailingList)
  held_context held_id = do
    m ← wrap (codes "held message") (get_held_message_by_id held_id)
    t ← now
    if ltb m.expires_at t
        then raise (said (codes "held message has expired"))
        else do l ← get_list_by_id m.list_id; pure (m, l)

  unfoldable pub approve_held : ℕ → AuditActor → M Unit
  approve_held held_id actor = do
    (m, l) ← held_context held_id
    deliver_to_list env l m.sender m.body
    delete_held_message m.id
    record_audit l moderation_approve actor m.subject []

  unfoldable pub reject_held : ℕ → AuditActor → M Unit
  reject_held held_id actor = do
    (m, l) ← held_context held_id
    reject_message env l m.sender []
    delete_held_message m.id
    record_audit l moderation_reject actor m.subject []

  unfoldable pub discard_held : ℕ → AuditActor → M Unit
  discard_held held_id actor = do
    (m, l) ← held_context held_id
    delete_held_message m.id
    record_audit l moderation_discard actor m.subject []
