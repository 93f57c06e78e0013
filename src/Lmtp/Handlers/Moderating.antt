-- ===== src/Lmtp/Handlers/Moderating.antt =====
-- Who may moderate by mail.
use xlistman.Prelude.{ℕ, ◌≡◌, refl, false, Option, none, some, ◌==◌, ltb, first}
use xlistman.Strings.{Text, codes, text_eq}
use xlistman.Result.{err, said_of}
use xlistman.Model.{Time, MailingList, Subscriber, HeldMessage, list_address}
use xlistman.Address.{ParsedAddress}
use xlistman.Env.{Env}
use xlistman.Effects.Tables.{Db, select}
use xlistman.Effects.{healthy, statement, attempt, pure, now, raise, ◌>>=◌}
use xlistman.Store.Access.{find_first}
use xlistman.Store.Lists.{get_list_by_id, joined, joined_lists}
use xlistman.Store.Members.{get_subscriber}
use xlistman.Store.Held.{get_held_message_by_token}
use xlistman.Store.Roles.{has_role}
use xlistman.Pipeline.Posting.{flag}
use xlistman.Lmtp.Request.{sender_of}
use xlistman.Lmtp.Handlers.{handle_moderate}
use xlistman.Lmtp.Commands.Roster.{runs_list}

module _ (env : Env) (p : ParsedAddress) (raw : Text) (m : HeldMessage) (l : MailingList) (d : Db)
    (t : Time) (token_of : ℕ → Text) (n : ℕ) where
  moderate_at :
      (o : Option Subscriber)
      → first (λ m. text_eq m.token p.encoded_part) d.held_messages.rows ≡ some m
      → ltb m.expires_at t ≡ false
      → first (λ l. l.id == m.list_id) (joined_lists d) ≡ some l
      → first (λ s. text_eq s.email (sender_of env raw)) d.subscribers.rows ≡ o
      → runs_list d l o ≡ false
      → handle_moderate env p raw (healthy d t token_of n) ≡ (
        err (said_of (codes "not an owner or moderator") (list_address l)),
        healthy d t token_of n,
      )
  unfolding handle_moderate flag attempt ◌>>=◌ pure now raise statement find_first select
      get_subscriber get_held_message_by_token get_list_by_id has_role first joined
  moderate_at none e x f g h = rw (e, x, f, g) refl
  moderate_at (some s) e x f g h = rw (e, x, f, g, h) refl

  -- An answer to a moderation notice from a sender that neither owns nor moderates the list, or
  -- that the store does not know, is refused and changes nothing, although the token of the held
  -- message is right and has not expired. The database refuses nothing.
  pub handle_moderate-refused :
      first (λ m. text_eq m.token p.encoded_part) d.held_messages.rows ≡ some m
      → ltb m.expires_at t ≡ false
      → first (λ l. l.id == m.list_id) (joined_lists d) ≡ some l
      → runs_list d l (first (λ s. text_eq s.email (sender_of env raw)) d.subscribers.rows) ≡ false
      → handle_moderate env p raw (healthy d t token_of n) ≡ (
        err (said_of (codes "not an owner or moderator") (list_address l)),
        healthy d t token_of n,
      )
  handle_moderate-refused e x f h = moderate_at _ e x f refl h
