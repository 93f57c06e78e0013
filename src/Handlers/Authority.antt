-- ===== src/Handlers/Authority.antt =====
-- What no mail changes: who owns, moderates and administers, and how the lists are set up.
use xlistman.Prelude.{◌≡◌, refl, ◌∙◌}
use xlistman.Strings.{Text}
use xlistman.Model.{Domain, MailingList, RoleHolder, Administrator, Credential, WebSettings}
use xlistman.Effects.Tables.{Db, Table}
use xlistman.Effects.{World}
use xlistman.Effects.Keeps.{Relation, IsPreorder}
use xlistman.Env.{Env}
use xlistman.Handlers.Rules.{StoreKeeps}
use xlistman.Handlers.Frames.{store_keeps, subscriptions-Frame, log_keeps}
use xlistman.Handlers.Inbound.{process_recipient-Keeps}
use xlistman.Lmtp.Handlers.{process_recipient}

pub record Authority : Type 0 where
  pub domains : Table Domain
  pub lists : Table MailingList
  pub owners : Table RoleHolder
  pub moderators : Table RoleHolder
  pub designated_senders : Table RoleHolder
  pub administrators : Table Administrator
  pub magic_links : Table Credential
  pub sessions : Table Credential
  pub web_settings : WebSettings

abbrev pub authority_of : Db → Authority
authority_of d = record {
  domains = d.domains;
  lists = d.lists;
  owners = d.owners;
  moderators = d.moderators;
  designated_senders = d.designated_senders;
  administrators = d.administrators;
  magic_links = d.magic_links;
  sessions = d.sessions;
  web_settings = d.web_settings;
}

abbrev pub SameAuthority : Relation
SameAuthority d e = authority_of e ≡ authority_of d

instance pub same_authority : IsPreorder SameAuthority
same_authority = record { stay = λ d. refl; step = λ d e f p q. q ∙ p }

pub authority_keeps : StoreKeeps SameAuthority
authority_keeps =
    store_keeps
      (record { of_subscribers = λ t d. refl; of_held = λ t d. refl; of_tokens = λ t d. refl })
      (subscriptions-Frame (λ t d. refl))
      (log_keeps (record {
        of_queue = λ make d. refl;
        of_archive = λ make d. refl;
        of_index = λ rows d. refl;
        of_audit = λ make d. refl;
      }))

-- Whatever message comes for whatever address, and whatever statements the database refuses: the
-- domains, the lists with their settings, the owners, moderators, designated senders and
-- administrators, and the credentials and switches of the web interface stay as they were.
pub process_recipient-SameAuthority :
    (env : Env) (rcpt raw : Text) (w : World)
    → SameAuthority w.db (process_recipient env rcpt raw w).1.db
process_recipient-SameAuthority env rcpt raw w =
    (process_recipient-Keeps authority_keeps env rcpt raw).at w
