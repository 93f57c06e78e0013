-- ===== src/Model/Settings.antt =====
-- internal/model/enums.go and list.go: the enumerations and the settings of a list.
-- `other` stands for any string that is not a constant of the source, where the source has a default
-- branch for it.
use Prim.Native.Nat.{ℕ}
use xlistman.Prelude.{Bool, true, false, []}
use xlistman.Strings.{Text}

pub data ListType : Type 0 where
  discussion newsletter : ListType
  other : Text → ListType

pub data SubscriptionPolicy : Type 0 where
  open_policy moderated closed : SubscriptionPolicy

pub data SubscriptionStatus : Type 0 where
  pending active held disabled : SubscriptionStatus

pub data DeliveryMode : Type 0 where
  regular digest nomail : DeliveryMode

pub data ReplyToMode : Type 0 where
  reply_to_list reply_to_sender reply_to_specified : ReplyToMode

pub data DigestFrequency : Type 0 where
  daily weekly : DigestFrequency
  other : Text → DigestFrequency

pub record ListSettings : Type 0 where
  pub moderation_enabled : Bool
  pub subject_prefix : Text
  pub footer_enabled : Bool
  pub max_message_size : ℕ
  pub allow_attachments : Bool
  pub max_attachment_size : ℕ
  pub archive_max_age_days : ℕ
  pub digest_frequency : DigestFrequency
  pub subscription_policy : SubscriptionPolicy
  pub reply_to_mode : ReplyToMode
  pub reply_to_address : Text
  pub welcome_email : Bool
  pub goodbye_email : Bool
  pub sender_held_notice : Bool
  pub owner_auto_disable_notice : Bool
  pub welcome_subject : Text
  pub welcome_body : Text
  pub goodbye_subject : Text
  pub goodbye_body : Text
  pub sender_held_subject : Text
  pub sender_held_body : Text
  pub bounce_threshold : ℕ
  pub held_expiry_days : ℕ

-- The branch on the list's type sets moderation to the value that it has.
unfoldable pub default_list_settings : ListType → ListSettings
default_list_settings list_type = record {
  moderation_enabled = false;
  subject_prefix = [];
  footer_enabled = true;
  max_message_size = 0;
  allow_attachments = true;
  max_attachment_size = 0;
  archive_max_age_days = 0;
  digest_frequency = daily;
  subscription_policy = open_policy;
  reply_to_mode = reply_to_list;
  reply_to_address = [];
  welcome_email = true;
  goodbye_email = true;
  sender_held_notice = true;
  owner_auto_disable_notice = false;
  welcome_subject = [];
  welcome_body = [];
  goodbye_subject = [];
  goodbye_body = [];
  sender_held_subject = [];
  sender_held_body = [];
  bounce_threshold = 5;
  held_expiry_days = 14;
}
