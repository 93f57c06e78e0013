-- ===== src/Model.antt =====
-- internal/model: the entities, field by field. Identifiers are numbers, byte strings and texts are
-- `Text`, a time is a number of nanoseconds, and a nil pointer is `none`.
mod Settings
unfoldable pub use Settings.*
use xlistman.Prelude.{ℕ, Bool, Option, none, some, ◌++◌, ◌*◌, if◌then◌else◌}
use xlistman.Strings.{Text, codes}

abbrev pub Time : Type 0
Time = ℕ

-- time.Minute, time.Hour and a day
abbrev pub minute : Time
minute = 60 * 1000000000

abbrev pub hour : Time
hour = 60 * minute

abbrev pub day : Time
day = 24 * hour

pub record Domain : Type 0 where
  pub id : ℕ
  pub name : Text
  pub description : Text
  pub created_at : Time

-- The domain's name is the one that a query joins; a row of the table keeps "".
pub record MailingList : Type 0 where
  pub id : ℕ
  pub list_name : Text
  pub domain_id : ℕ
  pub description : Text
  pub instructions : Text
  pub list_type : ListType
  pub settings : ListSettings
  pub created_at : Time
  pub last_digest_sent_at : Option Time
  pub domain : Text

pub record Subscriber : Type 0 where
  pub id : ℕ
  pub email : Text
  pub name : Text
  pub created_at : Time

pub record Subscription : Type 0 where
  pub id : ℕ
  pub list_id : ℕ
  pub subscriber_id : ℕ
  pub delivery_mode : DeliveryMode
  pub status : SubscriptionStatus
  pub bounce_count : ℕ
  pub confirmed_at : Option Time
  pub created_at : Time

-- Owner, Moderator and DesignatedSender: three tables of the same shape.
pub record RoleHolder : Type 0 where
  pub id : ℕ
  pub list_id : ℕ
  pub subscriber_id : ℕ
  pub created_at : Time

pub record Administrator : Type 0 where
  pub id : ℕ
  pub subscriber_id : ℕ
  pub created_at : Time

pub record HeldMessage : Type 0 where
  pub id : ℕ
  pub list_id : ℕ
  pub token : Text
  pub sender : Text
  pub subject : Text
  pub body : Text
  pub received_at : Time
  pub expires_at : Time

pub record QueuedMessage : Type 0 where
  pub id : ℕ
  pub list_id : ℕ
  pub from_addr : Text
  pub to_addr : Text
  pub body : Text
  pub envelope_sender : Text
  pub original_sender : Text
  pub retries : ℕ
  pub next_attempt : Time
  pub claimed_at : Option Time
  pub created_at : Time

pub record ArchiveEntry : Type 0 where
  pub id : ℕ
  pub list_id : ℕ
  pub message_id : Text
  pub subject : Text
  pub from_addr : Text
  pub body : Text
  pub body_text : Text
  pub thread_id : Text
  pub received_at : Time

pub record ConfirmationToken : Type 0 where
  pub token : Text
  pub list_id : ℕ
  pub subscriber_id : ℕ
  pub email : Text
  pub expires_at : Time
  pub created_at : Time

-- MagicLink and Session: the token of the one is the identifier of the other.
pub record Credential : Type 0 where
  pub token : Text
  pub subscriber_id : ℕ
  pub email : Text
  pub expires_at : Time
  pub created_at : Time

pub record WebSettings : Type 0 where
  pub login_enabled : Bool
  pub management_enabled : Bool

pub data AuditActorKind : Type 0 where
  subscriber cli : AuditActorKind

pub record AuditActor : Type 0 where
  pub kind : AuditActorKind
  pub id : ℕ
  pub email : Text
  pub detail : Text

-- The canonical action names that the modelled operations record.
pub data Action : Type 0 where
  moderation_approve moderation_reject moderation_discard : Action
  subscription_approve subscription_reject : Action
  member_add member_import member_remove : Action
  role_grant role_revoke : Action
  member_reenable member_reset_bounces sender_add sender_remove settings_update : Action
  list_create list_delete list_type domain_create admin_designate admin_revoke : Action

pub record AuditEvent : Type 0 where
  pub id : ℕ
  pub at : Time
  pub list_id : Option ℕ
  pub list_addr : Text
  pub action : Action
  pub actor_kind : AuditActorKind
  pub actor_id : Option ℕ
  pub actor_email : Text
  pub actor_detail : Text
  pub target : Text
  pub detail : Text

-- List.Address
unfoldable pub list_address : MailingList → Text
list_address l = l.list_name ++ (codes "@" ++ l.domain)

abbrev pub actor_id_of : AuditActor → Option ℕ
actor_id_of actor = elim actor.kind [ subscriber ↦ some actor.id | cli ↦ none ]

-- NewAuditEvent; the identifier is given when the row is created.
unfoldable pub new_audit_event :
    Time → Option ℕ → Text → Action → AuditActor → Text → Text → ℕ → AuditEvent
new_audit_event now list_id list_addr action actor target detail id = record {
  id = id;
  at = now;
  list_id = list_id;
  list_addr = list_addr;
  action = action;
  actor_kind = actor.kind;
  actor_id = actor_id_of actor;
  actor_email = actor.email;
  actor_detail = actor.detail;
  target = target;
  detail = detail;
}

abbrev pub cli_operator : Text
cli_operator = codes "CLI operator"

-- AuditEvent.ActorLabel
unfoldable pub actor_label : AuditEvent → Text
actor_label e = elim e.actor_kind [ cli ↦ cli_operator | subscriber ↦ e.actor_email ]
