-- ===== src/Effects/Tables.antt =====
-- The database: a table of rows for each entity, with the next value of its autoincrement key. Rows
-- stand in the order of their keys, which is the order in which they were inserted.
use xlistman.Prelude.{
  ℕ, suc, Bool, List, [], ◌∷◌, ◌++◌, none, some, keep, first, update_where, any, if◌then◌else◌, not,
}
use xlistman.Strings.{Text}
use xlistman.Result.{Result, ok, err, not_found, duplicate}
use xlistman.Model.{
  Domain, MailingList, Subscriber, Subscription, RoleHolder, Administrator, HeldMessage,
  QueuedMessage, ArchiveEntry, ConfirmationToken, Credential, WebSettings, AuditEvent,
}

pub record Table {ℓ} (A : Type ℓ) : Type ℓ where
  pub rows : List A
  pub next_id : ℕ

abbrev pub no_rows {ℓ} : {A : Type ℓ} → Table A
no_rows = record { rows = []; next_id = 1 }

-- A row of the virtual table `archive_fts`.
pub record Indexed : Type 0 where
  pub rowid : ℕ
  pub subject : Text
  pub body_text : Text

pub record Db : Type 0 where
  pub domains : Table Domain
  pub lists : Table MailingList
  pub subscribers : Table Subscriber
  pub subscriptions : Table Subscription
  pub owners : Table RoleHolder
  pub moderators : Table RoleHolder
  pub designated_senders : Table RoleHolder
  pub administrators : Table Administrator
  pub held_messages : Table HeldMessage
  pub queue : Table QueuedMessage
  pub archive : Table ArchiveEntry
  pub archive_fts : List Indexed
  pub confirmation_tokens : Table ConfirmationToken
  pub magic_links : Table Credential
  pub sessions : Table Credential
  pub audit : Table AuditEvent
  pub web_settings : WebSettings

module _ {A : Type 0} where
  -- INSERT, unless a row with the same unique key is there
  unfoldable pub insert : (A → Bool) → (ℕ → A) → Table A → Result A × Table A
  insert same make t = if any same t.rows then (err duplicate, t) else (
    ok (make t.next_id),
    record { rows = t.rows ++ make t.next_id ∷ []; next_id = suc t.next_id },
  )

  -- INSERT … ON CONFLICT DO NOTHING
  unfoldable pub insert_or_ignore : (A → Bool) → (ℕ → A) → Table A → Table A
  insert_or_ignore same make t =
      if any same t.rows
      then t
      else record { rows = t.rows ++ make t.next_id ∷ []; next_id = suc t.next_id }

  -- SELECT … LIMIT 1
  unfoldable pub select : (A → Bool) → Table A → Result A
  select p t = elim (first p t.rows) [ none ↦ err not_found | some a ↦ ok a ]

  -- SELECT
  unfoldable pub select_all : (A → Bool) → Table A → List A
  select_all p t = keep p t.rows

  -- UPDATE
  unfoldable pub update : (A → Bool) → (A → A) → Table A → Table A
  update p f t = record t { rows = update_where p f t.rows }

  -- DELETE
  unfoldable pub delete : (A → Bool) → Table A → Table A
  delete p t = record t { rows = keep (λ a. not (p a)) t.rows }

  -- SELECT … ORDER BY: a stable sort, `before` is the order
  unfoldable pub sorted_insert : (A → A → Bool) → A → List A → List A
  sorted_insert before x [] = x ∷ []
  sorted_insert before x (y ∷ ys) =
      let rest = sorted_insert before x ys in if before y x then y ∷ rest else x ∷ y ∷ ys

  unfoldable pub order_by : (A → A → Bool) → List A → List A
  order_by before [] = []
  order_by before (x ∷ xs) = sorted_insert before x (order_by before xs)
