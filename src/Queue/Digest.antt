-- ===== src/Queue/Digest.antt =====
-- internal/queue/digest.go: compiling and enqueueing the digests that are due.
pub mod Once
use xlistman.Prelude.{
  ℕ, zero, suc, ◌+◌, ◌-◌, ◌*◌, Bool, true, false, ◌&&◌, not, Option, none, some, List, [], ◌∷◌,
  ◌++◌, map, length, leb, if◌then◌else◌,
}
use xlistman.Strings.{Text, codes, is_empty}
use xlistman.Result.{Result, ok, err}
use xlistman.Model.{
  Time, MailingList, Subscriber, Subscription, ArchiveEntry, DigestFrequency, daily, weekly, day,
  hour, list_address,
}
use xlistman.Verp.{encode_verp}
use xlistman.Env.{Env, concat, newline, crlf, quote}
use xlistman.Effects.{M, ◌>>=◌, ◌>>◌, pure, wrap, attempt, now, for_each}
use xlistman.Store.Lists.{list_lists}
use xlistman.Store.Members.{list_subscriptions, get_subscriber_by_id}
use xlistman.Store.Queue.{enqueue}
use xlistman.Store.Archive.{list_archive_since, advance_digest_watermark}
use xlistman.Pipeline.Delivery.{is_active, is_digest}

-- digestPeriod
unfoldable pub digest_period : DigestFrequency → Time
digest_period weekly = 7 * 24 * hour
digest_period _ = 24 * hour

abbrev pub elapsed : Option Time → Time → Time → Bool
elapsed none t period = true
elapsed (some last) t period = leb (last + period) t

-- digestDue; now.Sub(last) >= period is written as last + period <= now
unfoldable pub digest_due : MailingList → Time → Bool
digest_due l t =
    let period = digest_period l.settings.digest_frequency in
    if leb period 0 then false else elapsed l.last_digest_sent_at t period

-- sinceWatermark; time.Time{} lies before every time
unfoldable pub since_watermark : Option Time → Time
since_watermark none = 0
since_watermark (some w) = w

module _ (env : Env) where
  abbrev pub toc_lines : ℕ → List ArchiveEntry → List Text
  toc_lines n [] = []
  toc_lines n (e ∷ es) =
      concat (
        env.decimal_wide n
        ∷ codes ". "
        ∷ e.subject
        ∷ newline
        ∷ codes "     "
        ∷ e.from_addr
        ∷ newline
        ∷ [])
      ∷ toc_lines (suc n) es

  abbrev pub default_prefix : MailingList → Text
  default_prefix l =
      if is_empty l.settings.subject_prefix
      then concat (codes "[" ∷ l.list_name ∷ codes "]" ∷ [])
      else l.settings.subject_prefix

  -- buildDigest: the subject, the Content-Type line and the body
  unfoldable pub build_digest : MailingList → List ArchiveEntry → Text × Text × Text
  build_digest l entries =
      let toc = concat (
        codes "The following "
        ∷ env.decimal (length entries)
        ∷ codes " messages were posted to "
        ∷ list_address l
        ∷ codes " since the last digest:"
        ∷ newline
        ∷ newline
        ∷ toc_lines 1 entries) in
      let (body, boundary) = env.multipart (
        ((codes "Content-Type", codes "text/plain; charset=utf-8") ∷ [], toc)
        ∷ map (λ (e : ArchiveEntry). ((codes "Content-Type", codes "message/rfc822") ∷ [], e.body))
            entries) in
      (
        concat (
            default_prefix l
            ∷ codes " Digest ("
            ∷ env.decimal (length entries)
            ∷ codes " messages)"
            ∷ []),
        concat (codes "Content-Type: multipart/digest; boundary=" ∷ quote ∷ boundary ∷ quote ∷ []),
        body,
      )

  -- buildDigestMessage
  unfoldable pub build_digest_message : Text → Text → Text × Text × Text → Time → Text
  build_digest_message from to (subject, mime_header, mime_body) t = concat (
      codes "From: "
      ∷ from
      ∷ crlf
      ∷ codes "To: "
      ∷ to
      ∷ crlf
      ∷ codes "Subject: "
      ∷ subject
      ∷ crlf
      ∷ codes "Date: "
      ∷ env.rfc1123z t
      ∷ crlf
      ∷ codes "MIME-Version: 1.0"
      ∷ crlf
      ∷ mime_header
      ∷ crlf
      ∷ mime_body
      ∷ [])

  abbrev pub digest_found : MailingList → Text × Text × Text → Result Subscriber → M Unit
  digest_found l compiled (err _) = pure tt
  digest_found l compiled (ok subscriber) = elim (encode_verp (list_address l) subscriber.email) [
    | err _ ↦ pure tt
    | ok verp_addr ↦ do
      t ← now
      attempt (
          enqueue l.id (list_address l) subscriber.email
            (build_digest_message (list_address l) subscriber.email compiled t) verp_addr [])
      pure tt
  ]

  -- The body of the loop over the subscriptions; every error is a `continue`.
  unfoldable pub digest_one : MailingList → Text × Text × Text → Subscription → M Unit
  digest_one l compiled sub =
      if not (is_active sub.status)
      then pure tt
      else (if is_digest sub.delivery_mode
          then (do
            found ← attempt (get_subscriber_by_id sub.subscriber_id)
            digest_found l compiled found)
          else pure tt)

  abbrev pub send_window : MailingList → List ArchiveEntry → Bool → M Unit
  send_window l entries false = pure tt
  send_window l [] true = pure tt
  send_window l (e ∷ es) true = do
    subs ← wrap (codes "list subscriptions") (list_subscriptions l.id)
    for_each subs (digest_one l (build_digest l (e ∷ es)))

  unfoldable pub digest_list : MailingList → Time → M Unit
  digest_list l t = do
    entries ←
        wrap (codes "list archive since watermark")
          (list_archive_since l.id (since_watermark l.last_digest_sent_at))
    claimed ←
        wrap (codes "advance digest watermark")
          (advance_digest_watermark l.id l.last_digest_sent_at t)
    send_window l entries claimed

  -- The body of the loop over the lists: an error is logged only.
  unfoldable pub digest_if_due : Time → MailingList → M Unit
  digest_if_due t l = if digest_due l t then (do attempt (digest_list l t); pure tt) else pure tt

  abbrev pub process_lists : Time → Result (List MailingList) → M Unit
  process_lists t (ok found) = for_each found (digest_if_due t)
  process_lists t (err _) = pure tt

  unfoldable pub process_due : Time → M Unit
  process_due t = do found ← attempt (list_lists []); process_lists t found
