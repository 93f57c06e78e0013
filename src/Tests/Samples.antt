-- ===== src/Tests/Samples.antt =====
-- A small database with one list, two subscribers, a held message and queued messages.
use xlistman.Prelude.{ℕ, true, false, none, some, List, [], ◌∷◌}
use xlistman.Strings.{Text, codes}
use xlistman.Model.{
  MailingList, discussion, ListSettings, Subscriber, Subscription, pending, active, regular,
  RoleHolder, HeldMessage, QueuedMessage, ConfirmationToken, AuditActor, AuditActorKind,
  open_policy, reply_to_list, daily,
}
use xlistman.Effects.Tables.{Db, Table, no_rows}
use xlistman.Effects.{World}
use xlistman.Env.{Env}
use xlistman.Queue.Worker.{Mta}

abbrev pub sample_env : Env
sample_env = record {
  web_base_url = codes "https://x.y";
  read_message = λ raw. some (record { header = λ _. raw; body = raw });
  parse_mail_address = λ t. some t;
  equal_fold = λ s t. false;
  to_lower = λ t. t;
  to_upper = λ t. t;
  trim_space = λ t. t;
  fields = λ t. t ∷ [];
  replace_all = λ pairs t. t;
  rfc1123z = λ t. [];
  decimal = λ n. n ∷ [];
  decimal_wide = λ n. n ∷ [];
  quoted = λ t. t;
  multipart = λ parts. ([], []);
  validate_post_policy = λ l raw. [];
  extract_text = λ raw. raw;
  modify_message = λ l url raw. some raw;
}

abbrev pub sample_mta : Mta
sample_mta = record { send = λ q. some (codes "down"); rfc1123z = λ t. [] }

abbrev pub sample_settings : ListSettings
sample_settings = record {
  moderation_enabled = false;
  subject_prefix = [];
  footer_enabled = true;
  max_message_size = 0;
  allow_attachments = true;
  max_attachment_size = 0;
  archive_max_age_days = 0;
  digest_frequency = daily;
  subscription_policy = open_policy;
  reply_to_mode = reply_to_list;
  reply_to_address = [];
  welcome_email = true;
  goodbye_email = true;
  sender_held_notice = true;
  owner_auto_disable_notice = false;
  welcome_subject = [];
  welcome_body = [];
  goodbye_subject = [];
  goodbye_body = [];
  sender_held_subject = [];
  sender_held_body = [];
  bounce_threshold = 5;
  held_expiry_days = 14;
}

-- The list as its table has it, and as a query that joins the domain returns it.
abbrev pub list_row : Text → MailingList
list_row domain = record {
  id = 1;
  list_name = codes "dev";
  domain_id = 1;
  description = [];
  instructions = [];
  list_type = discussion;
  settings = sample_settings;
  created_at = 10;
  last_digest_sent_at = none;
  domain = domain;
}

abbrev pub dev : MailingList
dev = list_row (codes "x.y")

abbrev pub alice : Subscriber
alice = record { id = 1; email = codes "a@x.y"; name = []; created_at = 10 }

abbrev pub bob : Subscriber
bob = record { id = 2; email = codes "b@x.y"; name = []; created_at = 10 }

abbrev pub subscription_of_alice : Subscription
subscription_of_alice = record {
  id = 1;
  list_id = 1;
  subscriber_id = 1;
  delivery_mode = regular;
  status = pending;
  bounce_count = 4;
  confirmed_at = none;
  created_at = 10;
}

abbrev pub subscription_of_bob : Subscription
subscription_of_bob = record {
  id = 2;
  list_id = 1;
  subscriber_id = 2;
  delivery_mode = regular;
  status = active;
  bounce_count = 0;
  confirmed_at = some 20;
  created_at = 10;
}

abbrev pub role_of : ℕ → ℕ → RoleHolder
role_of id subscriber_id = record {
  id = id;
  list_id = 1;
  subscriber_id = subscriber_id;
  created_at = 10;
}

abbrev pub held_message : HeldMessage
held_message = record {
  id = 1;
  list_id = 1;
  token = codes "h";
  sender = codes "c@x.y";
  subject = codes "s";
  body = codes "b";
  received_at = 20;
  expires_at = 900;
}

-- The token has expired long before the sample's clock.
abbrev pub token_of_alice : ConfirmationToken
token_of_alice = record {
  token = codes "t";
  list_id = 1;
  subscriber_id = 1;
  email = codes "a@x.y";
  expires_at = 15;
  created_at = 10;
}

abbrev pub queued : ℕ → Text → QueuedMessage
queued id original_sender = record {
  id = id;
  list_id = 1;
  from_addr = codes "dev@x.y";
  to_addr = codes "b@x.y";
  body = codes "m";
  envelope_sender = codes "dev@x.y";
  original_sender = original_sender;
  retries = 7;
  next_attempt = 50;
  claimed_at = none;
  created_at = 50;
}

abbrev pub table {ℓ} : {A : Type ℓ} → List A → ℕ → Table A
table rows next_id = record { rows = rows; next_id = next_id }

abbrev pub sample_db : Db
sample_db = record {
  domains = table (record { id = 1; name = codes "x.y"; description = []; created_at = 5 } ∷ []) 2;
  lists = table (list_row [] ∷ []) 2;
  subscribers = table (alice ∷ bob ∷ []) 3;
  subscriptions = table (subscription_of_alice ∷ subscription_of_bob ∷ []) 3;
  owners = table (role_of 1 2 ∷ []) 2;
  moderators = no_rows;
  designated_senders = no_rows;
  administrators = no_rows;
  held_messages = table (held_message ∷ []) 2;
  queue = table (queued 1 (codes "a@x.y") ∷ queued 2 [] ∷ []) 3;
  archive = no_rows;
  archive_fts = [];
  confirmation_tokens = table (token_of_alice ∷ []) 2;
  magic_links = no_rows;
  sessions = no_rows;
  audit = no_rows;
  web_settings = record { login_enabled = true; management_enabled = true };
}

abbrev pub token_at : ℕ → Text
token_at n = n ∷ []

-- The second statement is refused.
abbrev pub sample_world : World
sample_world = record {
  db = sample_db;
  clock = 100;
  faults = false ∷ true ∷ [];
  token_of = token_at;
  tokens_used = 0;
}

abbrev pub operator : AuditActor
operator = record { kind = AuditActorKind.cli; id = 0; email = []; detail = codes "root" }
