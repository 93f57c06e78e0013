-- ===== src/Store/Access.antt =====
-- Statements on one table of the database: what gorm's `Create`, `First`, `Find`, `Update` and
-- `Delete` do.
use xlistman.Prelude.{ℕ, Bool, List}
use xlistman.Result.{ok}
use xlistman.Model.{
  Domain, MailingList, Subscriber, Subscription, RoleHolder, Administrator, HeldMessage,
  QueuedMessage, ArchiveEntry, ConfirmationToken, Credential, AuditEvent,
}
use xlistman.Effects.Tables.{
  Table, Db, insert, insert_or_ignore, select, select_all, update, delete,
}
use xlistman.Effects.{M, statement}

-- Where a table stands in the database.
pub record Place (A : Type 0) : Type 0 where
  pub get : Db → Table A
  pub put : Table A → Db → Db

abbrev pub domains : Place Domain
domains = record { get = λ d. d.domains; put = λ t d. record d { domains = t } }

abbrev pub lists : Place MailingList
lists = record { get = λ d. d.lists; put = λ t d. record d { lists = t } }

abbrev pub subscribers : Place Subscriber
subscribers = record { get = λ d. d.subscribers; put = λ t d. record d { subscribers = t } }

abbrev pub subscriptions : Place Subscription
subscriptions = record { get = λ d. d.subscriptions; put = λ t d. record d { subscriptions = t } }

abbrev pub owners : Place RoleHolder
owners = record { get = λ d. d.owners; put = λ t d. record d { owners = t } }

abbrev pub moderators : Place RoleHolder
moderators = record { get = λ d. d.moderators; put = λ t d. record d { moderators = t } }

abbrev pub designated_senders : Place RoleHolder
designated_senders = record {
  get = λ d. d.designated_senders;
  put = λ t d. record d { designated_senders = t };
}

abbrev pub administrators : Place Administrator
administrators = record {
  get = λ d. d.administrators;
  put = λ t d. record d { administrators = t };
}

abbrev pub held_messages : Place HeldMessage
held_messages = record { get = λ d. d.held_messages; put = λ t d. record d { held_messages = t } }

abbrev pub queue : Place QueuedMessage
queue = record { get = λ d. d.queue; put = λ t d. record d { queue = t } }

abbrev pub archive : Place ArchiveEntry
archive = record { get = λ d. d.archive; put = λ t d. record d { archive = t } }

abbrev pub confirmation_tokens : Place ConfirmationToken
confirmation_tokens = record {
  get = λ d. d.confirmation_tokens;
  put = λ t d. record d { confirmation_tokens = t };
}

abbrev pub magic_links : Place Credential
magic_links = record { get = λ d. d.magic_links; put = λ t d. record d { magic_links = t } }

abbrev pub sessions : Place Credential
sessions = record { get = λ d. d.sessions; put = λ t d. record d { sessions = t } }

abbrev pub audit_events : Place AuditEvent
audit_events = record { get = λ d. d.audit; put = λ t d. record d { audit = t } }

module _ {A : Type 0} (place : Place A) where
  unfoldable pub create : (A → Bool) → (ℕ → A) → M A
  create same make =
      statement λ d. let (r, t) = insert same make (place.get d) in (r, place.put t d)

  unfoldable pub create_or_ignore : (A → Bool) → (ℕ → A) → M Unit
  create_or_ignore same make =
      statement λ d. (ok tt, place.put (insert_or_ignore same make (place.get d)) d)

  unfoldable pub find_first : (A → Bool) → M A
  find_first p = statement λ d. (select p (place.get d), d)

  unfoldable pub find_all : (A → Bool) → M (List A)
  find_all p = statement λ d. (ok (select_all p (place.get d)), d)

  unfoldable pub update_rows : (A → Bool) → (A → A) → M Unit
  update_rows p f = statement λ d. (ok tt, place.put (update p f (place.get d)) d)

  unfoldable pub delete_rows : (A → Bool) → M Unit
  delete_rows p = statement λ d. (ok tt, place.put (delete p (place.get d)) d)
