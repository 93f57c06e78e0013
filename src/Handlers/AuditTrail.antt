-- ===== src/Handlers/AuditTrail.antt =====
-- What mail only adds to: the audit trail, the archive and the outbound queue.
use xlistman.Prelude.{
  ℕ, ◌≡◌, refl, sym, false, List, [], ◌∷◌, ◌++◌, append-nil, append_assoc, any-never,
}
use xlistman.Strings.{Text}
use xlistman.Effects.Tables.{Db, Table, insert}
use xlistman.Effects.{World}
use xlistman.Effects.Keeps.{IsPreorder}
use xlistman.Env.{Env}
use xlistman.Handlers.Rules.{StoreKeeps}
use xlistman.Handlers.Frames.{store_keeps, subscriptions-Frame, log_keeps}
use xlistman.Handlers.Inbound.{process_recipient-Keeps}
use xlistman.Lmtp.Handlers.{process_recipient}

-- The rows of the one are the rows of the other, in order, and more behind them.
abbrev pub Extends : {A : Type 0} → List A → List A → Type 0
Extends {A} xs ys = (more : List A) × (ys ≡ xs ++ more)

Extends-refl : {A : Type 0} (xs : List A) → Extends xs xs
Extends-refl xs = ([], sym (append-nil xs))

Extends-trans : {A : Type 0} (xs ys zs : List A) → Extends xs ys → Extends ys zs → Extends xs zs
Extends-trans xs ys zs (m, p) (n, q) = (m ++ n, rw (q, p) (append_assoc xs m n))

insert-Extends :
    {A : Type 0} (make : ℕ → A) (t : Table A) → Extends t.rows (insert (λ _. false) make t).1.rows
unfolding insert
insert-Extends make t = (make t.next_id ∷ [], rw (any-never t.rows) refl)

pub record LogsGrow (d e : Db) : Type 0 where
  pub audit_grows : Extends d.audit.rows e.audit.rows
  pub archive_grows : Extends d.archive.rows e.archive.rows
  pub queue_grows : Extends d.queue.rows e.queue.rows

instance pub grows : IsPreorder LogsGrow
grows = record {
  stay = λ d. record {
    audit_grows = Extends-refl d.audit.rows;
    archive_grows = Extends-refl d.archive.rows;
    queue_grows = Extends-refl d.queue.rows;
  };
  step = λ d e f p q. record {
    audit_grows = Extends-trans _ _ _ p.audit_grows q.audit_grows;
    archive_grows = Extends-trans _ _ _ p.archive_grows q.archive_grows;
    queue_grows = Extends-trans _ _ _ p.queue_grows q.queue_grows;
  };
}

same_logs :
    (d e : Db) → e.audit ≡ d.audit → e.archive ≡ d.archive → e.queue ≡ d.queue → LogsGrow d e
same_logs d e p q r = record {
  audit_grows = rw p (Extends-refl d.audit.rows);
  archive_grows = rw q (Extends-refl d.archive.rows);
  queue_grows = rw r (Extends-refl d.queue.rows);
}

pub logs_keep : StoreKeeps LogsGrow
logs_keep =
    store_keeps
      (record {
        of_subscribers = λ t d. same_logs d (record d { subscribers = t }) refl refl refl;
        of_held = λ t d. same_logs d (record d { held_messages = t }) refl refl refl;
        of_tokens = λ t d. same_logs d (record d { confirmation_tokens = t }) refl refl refl;
      })
      (subscriptions-Frame (λ t d. same_logs d (record d { subscriptions = t }) refl refl refl))
      (log_keeps (record {
        of_queue = λ make d. record {
          audit_grows = Extends-refl d.audit.rows;
          archive_grows = Extends-refl d.archive.rows;
          queue_grows = insert-Extends make d.queue;
        };
        of_archive = λ make d. record {
          audit_grows = Extends-refl d.audit.rows;
          archive_grows = insert-Extends make d.archive;
          queue_grows = Extends-refl d.queue.rows;
        };
        of_index = λ rows d. same_logs d (record d { archive_fts = rows }) refl refl refl;
        of_audit = λ make d. record {
          audit_grows = insert-Extends make d.audit;
          archive_grows = Extends-refl d.archive.rows;
          queue_grows = Extends-refl d.queue.rows;
        };
      }))

-- Whatever message comes for whatever address, and whatever statements the database refuses: the
-- audit events, the archived messages and the queued messages from before are all there
-- afterwards, unchanged and in the same order.
pub process_recipient-LogsGrow :
    (env : Env) (rcpt raw : Text) (w : World)
    → LogsGrow w.db (process_recipient env rcpt raw w).1.db
process_recipient-LogsGrow env rcpt raw w = (process_recipient-Keeps logs_keep env rcpt raw).at w
