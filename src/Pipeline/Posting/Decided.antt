-- ===== src/Pipeline/Posting/Decided.antt =====
-- A post is dealt with as the posting policy says for what the tables say of its sender.
use xlistman.Prelude.{
  ℕ, ◌≡◌, refl, ap, Bool, true, false, ◌&&◌, ◌||◌, some, [], first, if◌then◌else◌,
}
use xlistman.Strings.{Text, text_eq, is_empty}
use xlistman.Model.{Time, MailingList, ListType, discussion, newsletter, other}
use xlistman.Policy.{accept, hold, reject, Standing, decide, decide_post_action}
use xlistman.Env.{Env}
use xlistman.Effects.Tables.{Db}
use xlistman.Effects.{M, healthy, statement, wrap, ◌>>=◌}
use xlistman.Store.Lists.{get_list, joined_lists}
use xlistman.Pipeline.Notices.{reject_message}
use xlistman.Pipeline.Delivery.{deliver_to_list}
use xlistman.Pipeline.Moderation.{hold_message}
use xlistman.Pipeline.Posting.{perform, process_post}
use xlistman.Pipeline.Posting.StandingOf.{standing_in, sender_standing-standing_in}

-- The posting policy as its documentation has it. On a discussion list with moderation every post is
-- held; without, subscribers post and others are rejected. On a newsletter the owners and the designated
-- senders post and others are rejected. Any other list rejects.
abbrev pub policy_of : Env → MailingList → Standing → Text → Text → Bool → ListType → M Unit
policy_of env l s sender raw moderation discussion =
    if moderation
    then hold_message env l sender raw
    else if s.is_subscriber
    then deliver_to_list env l sender raw
    else reject_message env l sender []
policy_of env l s sender raw moderation newsletter =
    if s.is_owner
    then deliver_to_list env l sender raw
    else if s.is_designated_sender
    then deliver_to_list env l sender raw
    else reject_message env l sender []
policy_of env l s sender raw moderation (other t) = reject_message env l sender []

abbrev pub by_policy : Env → MailingList → Standing → Text → Text → M Unit
by_policy env l s sender raw =
    policy_of env l s sender raw l.settings.moderation_enabled l.list_type

discussed :
    (env : Env) (l : MailingList) (s : Standing) (sender raw : Text) (moderation subscriber : Bool)
    → perform env
        (if moderation then hold else (if subscriber then accept else reject))
        l
        sender
        raw
      ≡ (if moderation
          then hold_message env l sender raw
          else if subscriber
          then deliver_to_list env l sender raw
          else reject_message env l sender [])
unfolding perform
discussed env l s sender raw true subscriber = refl
discussed env l s sender raw false true = refl
discussed env l s sender raw false false = refl

announced :
    (env : Env) (l : MailingList) (sender raw : Text) (owner designated : Bool)
    → perform env (if owner || designated then accept else reject) l sender raw ≡ (
        if owner
        then deliver_to_list env l sender raw
        else if designated
        then deliver_to_list env l sender raw
        else reject_message env l sender [])
unfolding perform
announced env l sender raw true designated = refl
announced env l sender raw false true = refl
announced env l sender raw false false = refl

of_type :
    (env : Env) (l : MailingList) (s : Standing) (sender raw : Text) (moderation : Bool)
    (type : ListType)
    → perform env (decide type moderation s) l sender raw
      ≡ policy_of env l s sender raw moderation type
unfolding perform
of_type env l s sender raw moderation discussion =
    discussed env l s sender raw moderation s.is_subscriber
of_type env l s sender raw moderation newsletter =
    announced env l sender raw s.is_owner s.is_designated_sender
of_type env l s sender raw moderation (other t) = refl

perform-by_policy :
    (env : Env) (l : MailingList) (s : Standing) (sender raw : Text)
    → perform env (decide_post_action l s) l sender raw ≡ by_policy env l s sender raw
unfolding decide_post_action
perform-by_policy env l s sender raw =
    of_type env l s sender raw l.settings.moderation_enabled l.list_type

-- ProcessPost, for a list that is there and a post that the attachment policy lets through, in a
-- database that refuses nothing, holds, delivers or rejects the post as the documented policy says for
-- the type of the list, its moderation, and what the tables say of the sender.
pub process_post-decided :
    (env : Env) (name domain sender raw : Text) (l : MailingList) (d : Db) (t : Time)
    (token_of : ℕ → Text) (n : ℕ)
    → first (λ l. text_eq l.list_name name && text_eq l.domain domain) (joined_lists d) ≡ some l
    → is_empty (env.validate_post_policy l raw) ≡ true
    → process_post env name domain sender raw (healthy d t token_of n)
      ≡ by_policy env l
          (standing_in d l (first (λ s. text_eq s.email sender) d.subscribers.rows))
          sender
          raw
          (healthy d t token_of n)
unfolding process_post get_list statement wrap ◌>>=◌
process_post-decided env name domain sender raw l d t token_of n e f =
    rw (e, f, sender_standing-standing_in d l sender t token_of n)
      (ap (λ m. m (healthy d t token_of n))
        (perform-by_policy env l
          (standing_in d l (first (λ s. text_eq s.email sender) d.subscribers.rows)) sender raw))
