-- ===== src/Store/Lists.antt =====
-- Domains, lists and administrators.
pub mod Deletion
use mathlib.Core.List.{filter_map}
use xlistman.Prelude.{
  ℕ, ◌≡◌, Bool, true, false, ◌&&◌, ◌||◌, Option, none, some, List, [], ◌∷◌, ◌++◌, ltb, ◌==◌, keep,
  first, any, not, if◌then◌else◌,
}
use xlistman.Strings.{Text, codes, text_eq, is_empty}
use xlistman.Result.{Result, ok, err, not_found}
use xlistman.Model.{
  Domain, MailingList, ListType, ListSettings, Administrator, ArchiveEntry, default_list_settings,
}
use xlistman.Effects.Tables.{Db, Table, Indexed, select, select_all, delete, order_by}
use xlistman.Effects.{M, ◌>>=◌, ◌>>◌, pure, now, statement}
use xlistman.Store.Access.{
  domains, lists, administrators, create, create_or_ignore, find_first, find_all, update_rows,
  delete_rows,
}

-- The order of SQLite's binary collation.
unfoldable pub text_before : Text → Text → Bool
text_before [] [] = false
text_before [] (b ∷ t) = true
text_before (a ∷ s) [] = false
text_before (a ∷ s) (b ∷ t) = ltb a b || (a == b && text_before s t)

unfoldable pub create_domain : Text → Text → M Domain
create_domain name description = do
  t ← now
  create domains (λ d. text_eq d.name name)
      (λ id. record { id = id; name = name; description = description; created_at = t })

unfoldable pub get_domain : Text → M Domain
get_domain name = find_first domains (λ d. text_eq d.name name)

unfoldable pub list_domains : M (List Domain)
list_domains = do
  found ← find_all domains (λ d. true)
  pure (order_by (λ (a b : Domain). text_before a.name b.name) found)

-- The lists of a deleted domain stay, and no query that joins the domain finds them.
unfoldable pub delete_domain : Text → M Unit
delete_domain name = delete_rows domains (λ d. text_eq d.name name)

unfoldable pub create_list : Text → ℕ → Text → Text → ListType → M MailingList
create_list list_name domain_id domain_name description list_type = do
  t ← now
  let settings = record (default_list_settings list_type) {
    subject_prefix = codes "[" ++ (list_name ++ codes "]");
  }
  l ←
      create lists (λ l. text_eq l.list_name list_name && l.domain_id == domain_id)
        (λ id. record {
          id = id;
          list_name = list_name;
          domain_id = domain_id;
          description = description;
          instructions = [];
          list_type = list_type;
          settings = settings;
          created_at = t;
          last_digest_sent_at = none;
          domain = [];
        })
  pure (record l { domain = domain_name })

-- JOIN domains ON domains.id = lists.domain_id
unfoldable pub join_domain : List Domain → MailingList → Option MailingList
join_domain known l = elim (first (λ d. d.id == l.domain_id) known) [
  | none ↦ none
  | some d ↦ some (record l { domain = d.name })
]

unfoldable pub joined : List Domain → List MailingList → List MailingList
joined known [] = []
joined known (l ∷ ls) = elim (join_domain known l) [
  | none ↦ joined known ls
  | some l' ↦ l' ∷ joined known ls
]

abbrev pub joined_lists : Db → List MailingList
joined_lists d = joined d.domains.rows d.lists.rows

abbrev pub or_not_found : {A : Type 0} → Option A → Result A
or_not_found none = err not_found
or_not_found (some a) = ok a

unfoldable pub get_list : Text → Text → M MailingList
get_list list_name domain_name = statement λ d. (
  or_not_found
      (first (λ l. text_eq l.list_name list_name && text_eq l.domain domain_name) (joined_lists d)),
  d,
)

unfoldable pub get_list_by_id : ℕ → M MailingList
get_list_by_id id = statement λ d. (or_not_found (first (λ l. l.id == id) (joined_lists d)), d)

abbrev pub list_before : MailingList → MailingList → Bool
list_before a b =
    text_before a.domain b.domain
    || (text_eq a.domain b.domain && text_before a.list_name b.list_name)

unfoldable pub list_lists : Text → M (List MailingList)
list_lists domain_name = statement λ d. (
  ok (
      order_by list_before
        (keep (λ l. is_empty domain_name || text_eq l.domain domain_name) (joined_lists d))),
  d,
)

-- The body of the transaction.
unfoldable pub delete_list_rows : ℕ → Db → Db
delete_list_rows id d =
    let archived = keep (λ e. e.list_id == id) d.archive.rows in
    record d {
      archive_fts = keep (λ i. not (any (λ e. e.id == i.rowid) archived)) d.archive_fts;
      archive = delete (λ e. e.list_id == id) d.archive;
      held_messages = delete (λ m. m.list_id == id) d.held_messages;
      subscriptions = delete (λ s. s.list_id == id) d.subscriptions;
      owners = delete (λ o. o.list_id == id) d.owners;
      moderators = delete (λ o. o.list_id == id) d.moderators;
      designated_senders = delete (λ o. o.list_id == id) d.designated_senders;
      queue = delete (λ q. q.list_id == id) d.queue;
      lists = delete (λ l. l.id == id) d.lists;
    }

-- A transaction is refused as a whole, so it is one statement.
unfoldable pub delete_list : Text → Text → M Unit
delete_list list_name domain_name = statement λ d.
    elim (first (λ l. text_eq l.list_name list_name && text_eq l.domain domain_name)
      (joined_lists d)) [ none ↦ (err not_found, d) | some l ↦ (ok tt, delete_list_rows l.id d) ]

unfoldable pub update_list_type : ℕ → ListType → M Unit
update_list_type id list_type =
    update_rows lists (λ l. l.id == id) (λ l. record l { list_type = list_type })

unfoldable pub update_list_settings : ℕ → ListSettings → M Unit
update_list_settings id settings = do
  found ← find_first lists (λ l. l.id == id)
  update_rows lists (λ l. l.id == id) (λ _. record found { settings = settings })

unfoldable pub update_list_description : ℕ → Text → M Unit
update_list_description id description =
    update_rows lists (λ l. l.id == id) (λ l. record l { description = description })

unfoldable pub update_list_instructions : ℕ → Text → M Unit
update_list_instructions id instructions =
    update_rows lists (λ l. l.id == id) (λ l. record l { instructions = instructions })

unfoldable pub add_administrator : ℕ → M Unit
add_administrator subscriber_id = do
  t ← now
  create_or_ignore administrators (λ a. a.subscriber_id == subscriber_id)
      (λ id. record { id = id; subscriber_id = subscriber_id; created_at = t })

unfoldable pub remove_administrator : ℕ → M Unit
remove_administrator subscriber_id =
    delete_rows administrators (λ a. a.subscriber_id == subscriber_id)

unfoldable pub list_administrators : M (List Administrator)
list_administrators = do
  found ← find_all administrators (λ a. true)
  pure (order_by (λ (a b : Administrator). ltb a.created_at b.created_at) found)

unfoldable pub is_administrator : ℕ → M Bool
is_administrator subscriber_id =
    statement λ d. (ok (any (λ a. a.subscriber_id == subscriber_id) d.administrators.rows), d)
