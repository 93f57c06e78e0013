-- ===== src/Server/Audit.antt =====
-- internal/server/audit.go: the audit helper.
pub mod Trail
use xlistman.Prelude.{ℕ, Option, none, some, []}
use xlistman.Strings.{Text}
use xlistman.Effects.{M, ◌>>=◌, ◌>>◌, pure, attempt, now}
use xlistman.Model.{
  MailingList, Subscriber, AuditActor, AuditActorKind, Action, list_address, new_audit_event,
}
use xlistman.Store.Audit.{create_audit_event}

-- subscriberActor of the signed-in subscriber
abbrev pub subscriber_actor : Subscriber → AuditActor
subscriber_actor s = record {
  kind = AuditActorKind.subscriber;
  id = s.id;
  email = s.email;
  detail = [];
}

abbrev id_of : Option MailingList → Option ℕ
id_of none = none
id_of (some l) = some l.id

abbrev address_of : Option MailingList → Text
address_of none = []
address_of (some l) = list_address l

-- audit: a failed write is logged, no more.
unfoldable pub audit : Option MailingList → Action → AuditActor → Text → Text → M Unit
audit l action actor target detail = do
  t ← now
  attempt
      (create_audit_event (new_audit_event t (id_of l) (address_of l) action actor target detail))
  pure tt
