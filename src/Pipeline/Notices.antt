-- ===== src/Pipeline/Notices.antt =====
-- The texts of the notices, and the actions that enqueue them.
pub mod ReplyTo
pub mod Queueing
use xlistman.Prelude.{ℕ, Bool, List, [], ◌∷◌, ◌++◌, if◌then◌else◌}
use xlistman.Strings.{Text, codes, is_empty}
use xlistman.Model.{MailingList, Subscriber, Subscription, HeldMessage, list_address}
use xlistman.Env.{Env, concat, newline, crlf}
use xlistman.Effects.{M, ◌>>=◌, pure, now}
use xlistman.Store.Queue.{enqueue}

-- listname-role@domain
unfoldable pub role_of_list : MailingList → Text → Text
role_of_list l role = concat (l.list_name ∷ role ∷ codes "@" ∷ l.domain ∷ [])

-- l.Address()+"-owner@"+l.Domain, as the notices write it
unfoldable pub notice_reply_to : MailingList → Text
notice_reply_to l = concat (list_address l ∷ codes "-owner@" ∷ l.domain ∷ [])

module _ (env : Env) where
  -- buildNotice
  unfoldable pub build_notice : Text → Text → Text → Text → Text → M Text
  build_notice from to reply_to subject body_text = do
    t ← now
    let text = concat (
        codes "From: "
        ∷ from
        ∷ crlf
        ∷ codes "To: "
        ∷ to
        ∷ crlf
        ∷ codes "Reply-To: "
        ∷ reply_to
        ∷ crlf
        ∷ codes "Subject: "
        ∷ subject
        ∷ crlf
        ∷ codes "Date: "
        ∷ env.rfc1123z t
        ∷ crlf
        ∷ crlf
        ∷ body_text
        ∷ [])
    pure text

  -- A notice of the list to one address, with the list as the envelope sender.
  unfoldable pub send_notice : MailingList → Text → Text → Text → Text → M Unit
  send_notice l to reply_to subject body_text = do
    body ← build_notice (list_address l) to reply_to subject body_text
    enqueue l.id (list_address l) to body (list_address l) []

  -- enqueueConfirmation
  unfoldable pub enqueue_confirmation : MailingList → Subscriber → Text → M Unit
  enqueue_confirmation l sub token = do
    t ← now
    let confirm_addr = role_of_list l (codes "-confirm+" ++ token)
    let raw = concat (
        codes "From: "
        ∷ list_address l
        ∷ crlf
        ∷ codes "To: "
        ∷ sub.email
        ∷ crlf
        ∷ codes "Reply-To: "
        ∷ confirm_addr
        ∷ crlf
        ∷ codes "Subject: Confirm your subscription to "
        ∷ list_address l
        ∷ crlf
        ∷ codes "Date: "
        ∷ env.rfc1123z t
        ∷ crlf
        ∷ crlf
        ∷ codes "Reply to this message to confirm your subscription to "
        ∷ list_address l
        ∷ codes "."
        ∷ crlf
        ∷ crlf
        ∷ codes "If you did not request this subscription, you can safely ignore this message."
        ∷ crlf
        ∷ [])
    enqueue l.id (list_address l) sub.email raw (list_address l) []

  -- renderNoticeTemplate
  unfoldable pub render_notice_template : Text → Text → Text → Text → Text
  render_notice_template template list_addr email subject =
      env.replace_all
        ((codes "{list}", list_addr)
          ∷ (codes "{email}", email)
          ∷ (codes "{url}", env.web_base_url)
          ∷ (codes "{subject}", subject)
          ∷ [])
        template

  abbrev pub or_default : Text → Text → Text
  or_default text default = if is_empty text then default else text

  -- A customizable notice: the list's own text, or the default, with the placeholders filled in.
  unfoldable pub send_template : MailingList → Text → Text → Text → Text → M Unit
  send_template l to subject_template body_template post_subject =
      send_notice l to (notice_reply_to l)
        (render_notice_template subject_template (list_address l) to post_subject)
        (render_notice_template body_template (list_address l) to post_subject)

  unfoldable pub notify_sender_held : MailingList → Text → Text → M Unit
  notify_sender_held l sender subject =
      send_template l sender
        (or_default l.settings.sender_held_subject
          (concat (codes "Your message to " ∷ list_address l ∷ codes " is being reviewed" ∷ [])))
        (or_default l.settings.sender_held_body (
          concat (
            codes "Your message to "
            ∷ list_address l
            ∷ codes " has been received and is awaiting moderator approval."
            ∷ newline
            ∷ codes "If it is not approved, you will not receive a further notification."
            ∷ newline
            ∷ [])))
        subject

  unfoldable pub enqueue_welcome : MailingList → Subscriber → M Unit
  enqueue_welcome l sub =
      send_template l sub.email
        (or_default l.settings.welcome_subject (codes "Welcome to " ++ list_address l))
        (or_default l.settings.welcome_body (
          concat (
            codes "You are now subscribed to "
            ∷ list_address l
            ∷ codes "."
            ∷ newline
            ∷ newline
            ∷ codes "To change your delivery preferences or unsubscribe, visit "
            ∷ env.web_base_url
            ∷ codes "/me."
            ∷ newline
            ∷ [])))
        []

  unfoldable pub enqueue_goodbye : MailingList → Subscriber → M Unit
  enqueue_goodbye l sub =
      send_template l sub.email
        (or_default l.settings.goodbye_subject
          (codes "You have been unsubscribed from " ++ list_address l))
        (or_default l.settings.goodbye_body (
          concat (
            codes "You have been unsubscribed from "
            ∷ list_address l
            ∷ codes "."
            ∷ newline
            ∷ newline
            ∷ codes "If this was a mistake, you can resubscribe at "
            ∷ env.web_base_url
            ∷ codes "."
            ∷ newline
            ∷ [])))
        []

  unfoldable pub enqueue_subscription_rejected : MailingList → Subscriber → M Unit
  enqueue_subscription_rejected l sub =
      send_notice l sub.email (notice_reply_to l)
        (concat
          (codes "Your subscription request to " ∷ list_address l ∷ codes " was not approved" ∷ []))
        (concat (
          codes "Your subscription request to "
          ∷ list_address l
          ∷ codes " was not approved by the list owners."
          ∷ newline
          ∷ []))

  unfoldable pub notify_subscription_pending : MailingList → Subscriber → M Unit
  notify_subscription_pending l sub =
      send_notice l sub.email (notice_reply_to l)
        (concat
          (codes "Your subscription to " ∷ list_address l ∷ codes " is awaiting approval" ∷ []))
        (concat (
          codes "Your subscription request to "
          ∷ list_address l
          ∷ codes " has been received and is awaiting approval by the list owners."
          ∷ newline
          ∷ []))

  -- rejectMessage: no list and no envelope sender on the queued notice
  unfoldable pub reject_message : MailingList → Text → Text → M Unit
  reject_message l sender reason =
      let from = role_of_list l (codes "-owner") in
      let why =
        if is_empty reason
        then concat (
            codes "If this is a discussion list, only subscribers may post."
            ∷ newline
            ∷ codes "If this is a newsletter list, only designated senders may post."
            ∷ newline
            ∷ [])
        else concat (reason ∷ newline ∷ newline ∷ []) in
      let body = concat (
        codes "From: "
        ∷ from
        ∷ crlf
        ∷ codes "To: "
        ∷ sender
        ∷ crlf
        ∷ codes "Subject: Your post to "
        ∷ list_address l
        ∷ codes " was rejected"
        ∷ crlf
        ∷ crlf
        ∷ codes "Your message to "
        ∷ list_address l
        ∷ codes " was not accepted."
        ∷ newline
        ∷ newline
        ∷ why
        ∷ []) in
      enqueue 0 from sender body [] []
