-- ===== src/Handlers/Frames.antt =====
-- A method that writes one table keeps a relation that does not look at that table.
use xlistman.Prelude.{ℕ, Bool, false, List}
use xlistman.Strings.{Text}
use xlistman.Model.{SubscriptionStatus, DeliveryMode, AuditEvent, QueuedMessage, ArchiveEntry}
use xlistman.Effects.Tables.{Table, Db, Indexed, insert}
use xlistman.Effects.Keeps.{
  Relation, IsPreorder, Keeps, Keeps-statement, Keeps-bind, Keeps-pure, Keeps-now,
  Keeps-generate_token,
}
use xlistman.Store.Access.{
  Place, subscribers, subscriptions, held_messages, queue, archive, confirmation_tokens,
  audit_events, create, create_or_ignore, update_rows, delete_rows,
}
use xlistman.Store.Members.{
  create_subscriber, create_subscription, update_subscription_delivery, set_subscription_status,
  reenable_subscription, confirm_subscription, increment_bounce_count, delete_subscription,
}
use xlistman.Store.Held.{create_held_message, delete_held_message}
use xlistman.Store.Queue.{enqueue}
use xlistman.Store.Archive.{archive_message, index_entry}
use xlistman.Store.Auth.{create_confirmation_token, delete_confirmation_token}
use xlistman.Store.Audit.{create_audit_event}
use xlistman.Handlers.Rules.{StoreKeeps}

abbrev pub Frame : {A : Type 0} → Relation → Place A → Type 0
Frame {A} R place = (t : Table A) (d : Db) → R d (place.put t d)

module _ {R : Relation} ⦃o : IsPreorder R⦄ {A : Type 0} (place : Place A) (f : Frame R place) where
  pub create-Keeps : (same : A → Bool) (make : ℕ → A) → Keeps R (create place same make)
  unfolding create
  create-Keeps same make = Keeps-statement _ (λ d. f _ d)

  pub create_or_ignore-Keeps :
      (same : A → Bool) (make : ℕ → A) → Keeps R (create_or_ignore place same make)
  unfolding create_or_ignore
  create_or_ignore-Keeps same make = Keeps-statement _ (λ d. f _ d)

  pub update_rows-Keeps : (p : A → Bool) (g : A → A) → Keeps R (update_rows place p g)
  unfolding update_rows
  update_rows-Keeps p g = Keeps-statement _ (λ d. f _ d)

  pub delete_rows-Keeps : (p : A → Bool) → Keeps R (delete_rows place p)
  unfolding delete_rows
  delete_rows-Keeps p = Keeps-statement _ (λ d. f _ d)

-- The methods that write subscriptions.
pub record MemberKeeps (R : Relation) : Type 0 where
  pub create_keeps : (l s : ℕ) → Keeps R (create_subscription l s)
  pub delivery_keeps :
      (id : ℕ) (mode : DeliveryMode) → Keeps R (update_subscription_delivery id mode)
  pub status_keeps :
      (id : ℕ) (status : SubscriptionStatus) → Keeps R (set_subscription_status id status)
  pub reenable_keeps : (id : ℕ) → Keeps R (reenable_subscription id)
  pub confirm_keeps :
      (id : ℕ) (status : SubscriptionStatus) → Keeps R (confirm_subscription id status)
  pub increment_keeps : (id : ℕ) → Keeps R (increment_bounce_count id)
  pub delete_keeps : (l s : ℕ) → Keeps R (delete_subscription l s)

module _ {R : Relation} ⦃o : IsPreorder R⦄ where
  pub subscriptions-Frame : Frame R subscriptions → MemberKeeps R
  unfolding create_subscription update_subscription_delivery set_subscription_status
      reenable_subscription confirm_subscription increment_bounce_count delete_subscription
  subscriptions-Frame f = record {
    create_keeps = λ l s. Keeps-bind _ _ Keeps-now (λ t. create-Keeps subscriptions f _ _);
    delivery_keeps = λ id mode. update_rows-Keeps subscriptions f _ _;
    status_keeps = λ id status. update_rows-Keeps subscriptions f _ _;
    reenable_keeps = λ id. update_rows-Keeps subscriptions f _ _;
    confirm_keeps =
        λ id status. Keeps-bind _ _ Keeps-now (λ t. update_rows-Keeps subscriptions f _ _);
    increment_keeps = λ id. update_rows-Keeps subscriptions f _ _;
    delete_keeps = λ l s. delete_rows-Keeps subscriptions f _;
  }

pub record Frames (R : Relation) : Type 0 where
  pub of_subscribers : Frame R subscribers
  pub of_held : Frame R held_messages
  pub of_tokens : Frame R confirmation_tokens

-- The methods that write the tables of messages and events.
pub record LogKeeps (R : Relation) : Type 0 where
  pub enqueue_keeps :
      (l : ℕ) (from to body envelope sender : Text)
      → Keeps R (enqueue l from to body envelope sender)
  pub archive_keeps :
      (l : ℕ) (id subject from body thread text : Text)
      → Keeps R (archive_message l id subject from body thread text)
  pub audit_keeps : (event : ℕ → AuditEvent) → Keeps R (create_audit_event event)

module _ {R : Relation} ⦃o : IsPreorder R⦄ where
  index-Keeps :
      ((rows : List Indexed) (d : Db) → R d (record d { archive_fts = rows }))
      → (id : ℕ) (subject text : Text) → Keeps R (index_entry id subject text)
  unfolding index_entry
  index-Keeps f id subject text = Keeps-statement _ (λ d. f _ d)

  append-Keeps :
      {A : Type 0} (place : Place A)
      → ((make : ℕ → A) (d : Db) → R d (place.put (insert (λ _. false) make (place.get d)).1 d))
      → (make : ℕ → A) → Keeps R (create place (λ _. false) make)
  unfolding create
  append-Keeps place f make = Keeps-statement _ (λ d. f make d)

module _ {R : Relation} ⦃o : IsPreorder R⦄ (f : Frames R) (m : MemberKeeps R) (g : LogKeeps R) where
  pub store_keeps : StoreKeeps R
  unfolding create_subscriber create_held_message delete_held_message create_confirmation_token
      delete_confirmation_token
  store_keeps = record {
    create_subscriber_keeps =
        λ email. Keeps-bind _ _ Keeps-now (λ t. create-Keeps subscribers f.of_subscribers _ _);
    create_subscription_keeps = m.create_keeps;
    update_delivery_keeps = m.delivery_keeps;
    set_status_keeps = m.status_keeps;
    reenable_keeps = m.reenable_keeps;
    confirm_keeps = m.confirm_keeps;
    increment_keeps = m.increment_keeps;
    delete_subscription_keeps = m.delete_keeps;
    create_held_keeps = λ l sender subject body e.
        Keeps-bind _ _ Keeps-generate_token
          (λ token. Keeps-bind _ _ Keeps-now (λ t. create-Keeps held_messages f.of_held _ _));
    delete_held_keeps = λ id. delete_rows-Keeps held_messages f.of_held _;
    enqueue_keeps = g.enqueue_keeps;
    archive_keeps = g.archive_keeps;
    create_token_keeps = λ l s email e. Keeps-bind _ _ Keeps-generate_token λ token.
        Keeps-bind _ _ Keeps-now λ t.
          Keeps-bind _ _ (create-Keeps confirmation_tokens f.of_tokens _ _) (λ _. Keeps-pure token);
    delete_token_keeps = λ token. delete_rows-Keeps confirmation_tokens f.of_tokens _;
    audit_keeps = g.audit_keeps;
  }

-- What the rows that an INSERT puts behind the others, and the search index, must keep.
pub record LogFrames (R : Relation) : Type 0 where
  pub of_queue :
      (make : ℕ → QueuedMessage) (d : Db)
      → R d (record d { queue = (insert (λ _. false) make d.queue).1 })
  pub of_archive :
      (make : ℕ → ArchiveEntry) (d : Db)
      → R d (record d { archive = (insert (λ _. false) make d.archive).1 })
  pub of_index : (rows : List Indexed) (d : Db) → R d (record d { archive_fts = rows })
  pub of_audit :
      (make : ℕ → AuditEvent) (d : Db)
      → R d (record d { audit = (insert (λ _. false) make d.audit).1 })

module _ {R : Relation} ⦃o : IsPreorder R⦄ (f : LogFrames R) where
  pub log_keeps : LogKeeps R
  unfolding enqueue archive_message create_audit_event
  log_keeps = record {
    enqueue_keeps = λ l from to body envelope sender.
        Keeps-bind _ _ Keeps-now
          (λ t. Keeps-bind _ _ (append-Keeps queue f.of_queue _) (λ _. Keeps-pure tt));
    archive_keeps = λ l id subject from body thread text. Keeps-bind _ _ Keeps-now (λ t.
        Keeps-bind _ _ (append-Keeps archive f.of_archive _) (λ e. index-Keeps f.of_index _ _ _));
    audit_keeps =
        λ event. Keeps-bind _ _ (append-Keeps audit_events f.of_audit _) (λ _. Keeps-pure tt);
  }
