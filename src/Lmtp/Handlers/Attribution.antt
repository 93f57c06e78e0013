-- ===== src/Lmtp/Handlers/Attribution.antt =====
-- A bounce that comes back to an envelope sender of a list is counted for the recipient.
use xlistman.Prelude.{
  ◌⊎◌, true, ℕ, ◌≡◌, ◌∙◌, ap, refl, ◌&&◌, none, some, List, [], ◌∷◌, ◌++◌, first, append-nil,
  append_assoc, arith,
}
use xlistman.Strings.{Text, codes, cut_last, text_eq, Lacks}
use xlistman.Result.{Result, ok}
use xlistman.Model.{Time, Subscriber, MailingList, Subscription, QueuedMessage}
use xlistman.Effects.Tables.{Db, Table, select}
use xlistman.Effects.{healthy, ◌>>=◌, pure, attempt, statement}
use xlistman.Store.Access.{find_first}
use xlistman.Store.Lists.{get_list, joined, joined_lists}
use xlistman.Store.Members.{of_member, get_subscriber, get_subscription}
use xlistman.Pipeline.Bounces.{record_bounce}
use xlistman.Pipeline.Bounces.Threshold.{after_bounce, record_bounce-threshold}
use xlistman.Address.{bounce, ParsedAddress, parse_address}
use xlistman.Address.Routes.{role_address, parse_address-role_address}
use xlistman.Verp.{marker, equals, encode_verp}
use xlistman.Verp.Roundtrip.{IsAddress, address, verp, encode_verp-address, decode_verp-verp}
use xlistman.Env.{Env, concat}
use xlistman.Lmtp.Handlers.{bounced, handle, handle_bounce, process_recipient}

module _ (list_local list_domain recip_local recip_domain : Text) where
  abbrev pub encoded : Text
  encoded = recip_local ++ (equals ++ recip_domain)

  verp-role_address :
      verp list_local list_domain recip_local recip_domain
      ≡ role_address bounce list_local encoded list_domain
  verp-role_address = simp append_assoc

  abbrev pub routed_bounce : ParsedAddress
  routed_bounce = record {
    type = bounce;
    list_name = list_local;
    domain = list_domain;
    list_addr = address list_local list_domain;
    encoded_part = encoded;
  }

  parse_address-verp :
      IsAddress list_local list_domain
      → Lacks b'+' list_local
      → parse_address (verp list_local list_domain recip_local recip_domain) ≡ ok routed_bounce
  parse_address-verp l plain = rw verp-role_address (
      parse_address-role_address bounce list_local encoded list_domain (λ e. ground (arith, e))
        (λ e. absurd (ground (arith, e))) l.local_there plain l.domain_there l.domain_plain)

  -- What handle_bounce puts together again.
  rejoined :
      concat (list_local ∷ marker ∷ encoded ∷ codes "@" ∷ list_domain ∷ [])
      ≡ verp list_local list_domain recip_local recip_domain
  unfolding concat
  rejoined = simp (append_assoc, append-nil)

  -- The server does with the bounce what it does for that list and that recipient.
  handled_as :
      (env : Env) (raw : Text)
      → IsAddress list_local list_domain
      → IsAddress recip_local recip_domain
      → Lacks b'+' list_local
      → Lacks b'=' recip_domain
      → cut_last marker (recip_local ++ (equals ++ recip_domain)) ≡ none
      → (sender : Text) × (encode_verp
            (address list_local list_domain)
            (address recip_local recip_domain)
          ≡ ok sender)
        × (process_recipient env sender raw
            ≡ bounced env routed_bounce
                (ok (address list_local list_domain, address recip_local recip_domain)))
  unfolding process_recipient handle handle_bounce
  handled_as env raw l r plain no_eq no_marker = (
    verp list_local list_domain recip_local recip_domain,
    encode_verp-address list_local list_domain recip_local recip_domain l r,
    rw
        (
          parse_address-verp l plain,
          rejoined,
          decode_verp-verp list_local list_domain recip_local recip_domain l.local_there
              l.domain_there l.domain_plain r no_eq no_marker,
        )
        refl,
  )

-- Where the subscriber, the list and the subscription are found, the bounce is recorded.
bounced-recorded :
    (env : Env) (p : ParsedAddress) (list_addr recipient : Text) (sub : Subscriber)
    (l : MailingList) (s : Subscription) (d : Db) (t : Time) (token_of : ℕ → Text) (n : ℕ)
    → first (λ x. text_eq x.email recipient) d.subscribers.rows ≡ some sub
    → first (λ x. text_eq x.list_name p.list_name && text_eq x.domain p.domain) (joined_lists d)
      ≡ some l
    → first (of_member l.id sub.id) d.subscriptions.rows ≡ some s
    → bounced env p (ok (list_addr, recipient)) (healthy d t token_of n)
      ≡ record_bounce env l s (healthy d t token_of n)
unfolding attempt ◌>>=◌ pure statement find_first select get_subscriber get_list get_subscription
    first joined
bounced-recorded env p list_addr recipient sub l s d t token_of n e f g = rw (e, f, g) refl

member-subscriber :
    (l id : ℕ) (rows : List Subscription) (s : Subscription)
    → first (of_member l id) rows ≡ some s
    → s.subscriber_id ≡ id
unfolding first
member-subscriber l id [] s e = ground (arith, e)
member-subscriber l id (x ∷ rows) s e = ground (arith, e, member-subscriber l id rows s)

-- A bounce that comes to the envelope sender which EncodeVERP made for a recipient of a list is
-- recorded for that recipient on that list, whatever the message holds: the subscription of the
-- recipient to the list counts one bounce more, it becomes disabled if the count has reached the
-- list's threshold, every other subscription stays as it is, and nothing else changes but the queue,
-- which may have notices to the owners; where these are not to be told there is no error. The tables have the recipient, the list and the subscription,
-- and the database refuses nothing. List and recipient are addresses with one "@" each and with a
-- local part and a domain. The list's local part has no "+", the recipient's domain has no "=", and
-- the recipient, its "@" written as "=", has no "-bounces+".
pub process_recipient-verp :
    (list_local list_domain recip_local recip_domain : Text) (env : Env) (raw : Text)
    (sub : Subscriber) (l : MailingList) (s : Subscription) (d : Db) (t : Time)
    (token_of : ℕ → Text) (n : ℕ)
    → IsAddress list_local list_domain
    → IsAddress recip_local recip_domain
    → Lacks b'+' list_local
    → Lacks b'=' recip_domain
    → cut_last marker (recip_local ++ (equals ++ recip_domain)) ≡ none
    → first (λ x. text_eq x.email (address recip_local recip_domain)) d.subscribers.rows ≡ some sub
    → first (λ x. text_eq x.list_name list_local && text_eq x.domain list_domain) (joined_lists d)
      ≡ some l
    → first (of_member l.id sub.id) d.subscriptions.rows ≡ some s
    → (sender : Text) × (encode_verp
          (address list_local list_domain)
          (address recip_local recip_domain)
        ≡ ok sender)
      × (r : Result Unit) × (q : Table QueuedMessage) × (process_recipient env sender raw
            (healthy d t token_of n)
          ≡ (
            r,
            healthy
                (record d { subscriptions = after_bounce l s d.subscriptions; queue = q })
                t
                token_of
                n,
          ))
      × ((r ≡ ok tt) ⊎ (l.settings.owner_auto_disable_notice ≡ true))
process_recipient-verp list_local list_domain recip_local recip_domain env raw sub l s d t token_of
      n la ra plain no_eq no_marker known listed subscribed =
    let (sender, encodes, handled) =
      handled_as list_local list_domain recip_local recip_domain env raw la ra plain no_eq
        no_marker in
    let (r, q, recorded, success) = record_bounce-threshold env l s d t token_of n (
      ap (λ k. first (of_member l.id k) d.subscriptions.rows)
        (member-subscriber l.id sub.id d.subscriptions.rows s subscribed)
      ∙ subscribed) in
    (
      sender,
      encodes,
      r,
      q,
      ap (λ m. m (healthy d t token_of n)) handled
          ∙ bounced-recorded env (routed_bounce list_local list_domain recip_local recip_domain)
              (address list_local list_domain) (address recip_local recip_domain) sub l s d t
              token_of n known listed subscribed
          ∙ recorded,
      success,
    )
