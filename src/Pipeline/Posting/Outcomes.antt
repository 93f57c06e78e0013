-- ===== src/Pipeline/Posting/Outcomes.antt =====
-- What the policy's decision on a post leaves in the tables.
use xlistman.Prelude.{
  sym, subst, ◌&&◌, first, ℕ, suc, ◌≡◌, Bool, true, false, some, List, [], any, if◌then◌else◌,
}
use xlistman.Strings.{Text, text_eq, is_empty}
use xlistman.Result.{Result}
use xlistman.Model.{Time, MailingList, QueuedMessage, ListType, discussion, newsletter, other}
use xlistman.Env.{Env}
use xlistman.Policy.{PostAction, accept, hold, reject, Standing}
use xlistman.Effects.Tables.{Db, Table, Indexed}
use xlistman.Effects.{World, healthy}
use xlistman.Pipeline.Notices.{reject_message}
use xlistman.Pipeline.Delivery.{deliver_to_list}
use xlistman.Store.Lists.{joined_lists}
use xlistman.Pipeline.Posting.{process_post}
use xlistman.Pipeline.Posting.StandingOf.{standing_in}
use xlistman.Pipeline.Posting.Decided.{policy_of, by_policy, process_post-decided}
use xlistman.Pipeline.Posting.Tables.{
  archived, held_with, deliver_to_list-archived, hold_message-held, reject_message-queued,
}

-- What the documented policy decides, for the type of a list and whether it is moderated.
abbrev pub verdict : ListType → Bool → Standing → PostAction
verdict discussion moderation s =
    if moderation then hold else (if s.is_subscriber then accept else reject)
verdict newsletter moderation s =
    if s.is_owner then accept else (if s.is_designated_sender then accept else reject)
verdict (other t) moderation s = reject

module _ (env : Env) (l : MailingList) (sender raw : Text) (d : Db) (t : Time) (token_of : ℕ → Text)
    (n : ℕ) where
  -- What a run leaves. An accepted post is archived, a held one stands among the held messages, and
  -- for a rejected one neither; no other table changes, but the search index with the archive, and
  -- the queue.
  abbrev pub Outcome : PostAction → Result Unit × World → Type 0
  Outcome accept run =
      (r : Result Unit) × (q : Table QueuedMessage) × (i : List Indexed) × (run ≡ (
        r,
        healthy
            (record d {
              archive = archived env l sender raw t d.archive;
              archive_fts = i;
              queue = q;
            })
            t token_of n,
      ))
  Outcome hold run =
      (r : Result Unit) × (q : Table QueuedMessage) × (run ≡ (
        r,
        healthy
            (record d {
              held_messages = held_with env l sender raw (token_of n) t d.held_messages;
              queue = q;
            })
            t token_of (suc n),
      ))
  Outcome reject run =
      (r : Result Unit) × (q : Table QueuedMessage) × (run
        ≡ (r, healthy (record d { queue = q }) t token_of n))

  module _ (fresh : any (λ m. text_eq m.token (token_of n)) d.held_messages.rows ≡ false)
      (s : Standing) where
    posted_by :
        (allowed : Bool)
        → Outcome (if allowed then accept else reject) (
            (if allowed then deliver_to_list env l sender raw else reject_message env l sender [])
              (healthy d t token_of n))
    posted_by true = deliver_to_list-archived env l sender raw d t token_of n
    posted_by false = reject_message-queued env l sender raw [] d t token_of n

    discussed-Outcome :
        (moderation : Bool)
        → Outcome
            (verdict discussion moderation s)
            (policy_of env l s sender raw moderation discussion (healthy d t token_of n))
    discussed-Outcome true = hold_message-held env l sender raw d t token_of n fresh
    discussed-Outcome false = posted_by s.is_subscriber

    announced-Outcome :
        (owner : Bool)
        → Outcome (if owner then accept else (if s.is_designated_sender then accept else reject)) (
            (if owner
                then deliver_to_list env l sender raw
                else if s.is_designated_sender
                then deliver_to_list env l sender raw
                else reject_message env l sender [])
              (healthy d t token_of n))
    announced-Outcome true = posted_by true
    announced-Outcome false = posted_by s.is_designated_sender

    policy_of-Outcome :
        (moderation : Bool) (type : ListType)
        → Outcome
            (verdict type moderation s)
            (policy_of env l s sender raw moderation type (healthy d t token_of n))
    policy_of-Outcome moderation discussion = discussed-Outcome moderation
    policy_of-Outcome moderation newsletter = announced-Outcome s.is_owner
    policy_of-Outcome moderation (other t) = posted_by false

-- ProcessPost, for a list that is there and a post that the attachment policy lets through, in a
-- database that refuses nothing and with a fresh token: the documented policy decides, by the type of
-- the list, its moderation, and what the tables say of the sender, whether the post is delivered, held
-- or rejected. An accepted post comes behind the others in the archive, with its sender and its text; a
-- held one comes behind the others among the held messages of the list; a rejected one is in neither. No
-- other table changes but the queue, and the search index of the archive.
pub process_post-outcome :
    (env : Env) (name domain sender raw : Text) (l : MailingList) (d : Db) (t : Time)
    (token_of : ℕ → Text) (n : ℕ)
    → first (λ l. text_eq l.list_name name && text_eq l.domain domain) (joined_lists d) ≡ some l
    → is_empty (env.validate_post_policy l raw) ≡ true
    → any (λ m. text_eq m.token (token_of n)) d.held_messages.rows ≡ false
    → (process_post env name domain sender raw (healthy d t token_of n)
        ≡ by_policy env l
            (standing_in d l (first (λ s. text_eq s.email sender) d.subscribers.rows))
            sender
            raw
            (healthy d t token_of n))
      × Outcome env l sender raw d t token_of n
          (verdict l.list_type l.settings.moderation_enabled
            (standing_in d l (first (λ s. text_eq s.email sender) d.subscribers.rows)))
          (process_post env name domain sender raw (healthy d t token_of n))
process_post-outcome env name domain sender raw l d t token_of n listed passed fresh =
    let s : Standing = standing_in d l (first (λ s. text_eq s.email sender) d.subscribers.rows) in
    let decided = process_post-decided env name domain sender raw l d t token_of n listed passed in
    (
      decided,
      subst
          (Outcome env l sender raw d t token_of n
            (verdict l.list_type l.settings.moderation_enabled s))
          (sym decided)
          (policy_of-Outcome env l sender raw d t token_of n fresh s l.settings.moderation_enabled
            l.list_type),
    )
