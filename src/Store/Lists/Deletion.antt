-- ===== src/Store/Lists/Deletion.antt =====
-- What the deletion of a list removes, and what it leaves.
use xlistman.Prelude.{
  ℕ, ◌≡◌, refl, Bool, false, not, ◌&&◌, some, List, [], ◌∷◌, ◌==◌, any, keep, first, arith, true,
  ap, ◌∙◌, ==-sound,
}
use xlistman.Strings.{Text, text_eq}
use xlistman.Result.{ok}
use xlistman.Model.{Time, MailingList}
use xlistman.Effects.Tables.{Db, Table, Indexed, delete}
use xlistman.Effects.{healthy, statement}
use xlistman.Store.Lists.{delete_list, delete_list_rows, joined, joined_lists}

-- What is left of rows that have a list, when those of one list are deleted: none of that list, and
-- of every other list what there was.
abbrev pub OnlyWithout : {A : Type 0} → ℕ → (A → ℕ) → Table A → Table A → Type 0
OnlyWithout id list_of before after =
    (any (λ a. list_of a == id) after.rows ≡ false)
    × ((k : ℕ)
        → (k == id) ≡ false
        → keep (λ a. list_of a == k) after.rows ≡ keep (λ a. list_of a == k) before.rows)

any-delete : {A : Type 0} (p : A → Bool) (xs : List A) → any p (keep (λ a. not (p a)) xs) ≡ false
unfolding any keep
any-delete p [] = refl
any-delete p (x ∷ xs) = ground (arith, any-delete p xs)

keep-delete :
    {A : Type 0} (list_of : A → ℕ) (id k : ℕ) (xs : List A)
    → (k == id) ≡ false
    → keep (λ a. list_of a == k) (keep (λ a. not (list_of a == id)) xs)
      ≡ keep (λ a. list_of a == k) xs
unfolding keep
keep-delete list_of id k [] h = refl
keep-delete list_of id k (x ∷ xs) h = ground (arith, h, keep-delete list_of id k xs h)

delete-OnlyWithout :
    {A : Type 0} (list_of : A → ℕ) (id : ℕ) (t : Table A)
    → OnlyWithout id list_of t (delete (λ a. list_of a == id) t)
unfolding delete
delete-OnlyWithout list_of id t =
    (any-delete (λ a. list_of a == id) t.rows, λ k h. keep-delete list_of id k t.rows h)

-- The identifiers of the archived messages of a list, by which the search index has them.
abbrev pub archived_in : ℕ → Db → ℕ → Bool
archived_in id d k = any (λ e. e.id == k) (keep (λ e. e.list_id == id) d.archive.rows)

-- What is left of the search index, when the messages for which `gone` holds are taken out.
abbrev pub IndexWithout : (ℕ → Bool) → List Indexed → List Indexed → Type 0
IndexWithout gone before after =
    (any (λ i. gone i.rowid) after ≡ false)
    × ((k : ℕ) → gone k ≡ false → keep (λ i. i.rowid == k) after ≡ keep (λ i. i.rowid == k) before)

keep-index :
    (gone : ℕ → Bool) (k : ℕ) (xs : List Indexed)
    → gone k ≡ false
    → keep (λ i. i.rowid == k) (keep (λ i. not (gone i.rowid)) xs) ≡ keep (λ i. i.rowid == k) xs
unfolding keep
keep-index gone k [] h = refl
keep-index gone k (x ∷ xs) h = ground (arith, h, row_of x.rowid, keep-index gone k xs h)
  where
    row_of : (r : ℕ) → (r == k) ≡ true → gone r ≡ false
    row_of r e = ap gone (==-sound r k e) ∙ h

pub record Deleted (id : ℕ) (d e : Db) : Type 0 where
  pub lists_gone : OnlyWithout id (λ l. l.id) d.lists e.lists
  pub index_gone : IndexWithout (archived_in id d) d.archive_fts e.archive_fts
  pub archive_gone : OnlyWithout id (λ a. a.list_id) d.archive e.archive
  pub held_gone : OnlyWithout id (λ m. m.list_id) d.held_messages e.held_messages
  pub subscriptions_gone : OnlyWithout id (λ s. s.list_id) d.subscriptions e.subscriptions
  pub owners_gone : OnlyWithout id (λ r. r.list_id) d.owners e.owners
  pub moderators_gone : OnlyWithout id (λ r. r.list_id) d.moderators e.moderators
  pub senders_gone : OnlyWithout id (λ r. r.list_id) d.designated_senders e.designated_senders
  pub queue_gone : OnlyWithout id (λ q. q.list_id) d.queue e.queue
  pub tokens_stay : e.confirmation_tokens ≡ d.confirmation_tokens
  pub audit_stays : e.audit ≡ d.audit
  pub subscribers_stay : e.subscribers ≡ d.subscribers

rows-Deleted : (id : ℕ) (d : Db) → Deleted id d (delete_list_rows id d)
unfolding delete_list_rows
rows-Deleted id d = record {
  lists_gone = delete-OnlyWithout _ id d.lists;
  index_gone = (
    any-delete (λ i. archived_in id d i.rowid) d.archive_fts,
    λ k h. keep-index (archived_in id d) k d.archive_fts h,
  );
  archive_gone = delete-OnlyWithout _ id d.archive;
  held_gone = delete-OnlyWithout _ id d.held_messages;
  subscriptions_gone = delete-OnlyWithout _ id d.subscriptions;
  owners_gone = delete-OnlyWithout _ id d.owners;
  moderators_gone = delete-OnlyWithout _ id d.moderators;
  senders_gone = delete-OnlyWithout _ id d.designated_senders;
  queue_gone = delete-OnlyWithout _ id d.queue;
  tokens_stay = refl;
  audit_stays = refl;
  subscribers_stay = refl;
}

-- DeleteList, where the list is found and the database refuses nothing, succeeds and removes the
-- list with its archive and what the search index has of it, held messages, subscriptions, roles and queued messages, and nothing of
-- any other list. The subscribers and the audit trail stay, and so do the list's confirmation tokens.
pub delete_list-Deleted :
    (name domain : Text) (l : MailingList) (d : Db) (t : Time) (token_of : ℕ → Text) (n : ℕ)
    → first (λ l. text_eq l.list_name name && text_eq l.domain domain) (joined_lists d) ≡ some l
    → ((delete_list name domain (healthy d t token_of n)).0 ≡ ok tt)
      × Deleted l.id d (delete_list name domain (healthy d t token_of n)).1.db
unfolding delete_list statement first joined
delete_list-Deleted name domain l d t token_of n e = rw e (refl, rows-Deleted l.id d)
