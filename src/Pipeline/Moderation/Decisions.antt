-- ===== src/Pipeline/Moderation/Decisions.antt =====
-- What the decisions on a held message leave.
use xlistman.Prelude.{
  ℕ, suc, ◌≡◌, refl, true, false, none, some, [], ◌∷◌, ◌++◌, first, ◌==◌, ltb, any, any-never,
}
use xlistman.Strings.{codes}
use xlistman.Result.{ok, err, said}
use xlistman.Model.{
  Time, MailingList, HeldMessage, AuditActor, AuditActorKind, moderation_discard, list_address,
  new_audit_event,
}
use xlistman.Strings.{Text}
use xlistman.Env.{Env}
use xlistman.Effects.Tables.{Db, select, insert, delete}
use xlistman.Effects.{healthy, statement, wrap, now, pure, raise, ◌>>=◌}
use xlistman.Store.Access.{find_first, create, delete_rows}
use xlistman.Store.Lists.{get_list_by_id, joined, joined_lists}
use xlistman.Store.Held.{get_held_message_by_id, delete_held_message}
use xlistman.Store.Audit.{create_audit_event}
use xlistman.Pipeline.Moderation.{
  record_audit, held_context, approve_held, reject_held, discard_held,
}

module _ (env : Env) (held_id : ℕ) (actor : AuditActor) (m : HeldMessage) (d : Db) (t : Time)
    (token_of : ℕ → Text) (n : ℕ) where
  -- Approving, rejecting and discarding all refuse a held message whose time has passed, and none
  -- of them changes anything: no delivery, no notice, no audit event, and the message stays. The
  -- database refuses nothing.
  pub held-expired :
      first (λ m. m.id == held_id) d.held_messages.rows ≡ some m
      → ltb m.expires_at t ≡ true
      → (approve_held env held_id actor (healthy d t token_of n)
          ≡ (err (said (codes "held message has expired")), healthy d t token_of n))
        × (reject_held env held_id actor (healthy d t token_of n)
            ≡ (err (said (codes "held message has expired")), healthy d t token_of n))
        × (discard_held env held_id actor (healthy d t token_of n)
            ≡ (err (said (codes "held message has expired")), healthy d t token_of n))
  unfolding approve_held reject_held discard_held held_context wrap now raise ◌>>=◌ statement
      find_first select get_held_message_by_id first
  held-expired e f = (rw (e, f) refl, rw (e, f) refl, rw (e, f) refl)

  -- DiscardHeld of a message whose time has not passed, on a list that is there, does two things and
  -- no other: the held message goes, and one audit event comes behind the others, which has the
  -- time, the identifier and the address of the list, the kind, identifier, email and detail of the
  -- actor, and the subject of the message as its target. The database refuses nothing.
  pub discard_held-audited :
      (l : MailingList)
      → first (λ m. m.id == held_id) d.held_messages.rows ≡ some m
      → ltb m.expires_at t ≡ false
      → first (λ l. l.id == m.list_id) (joined_lists d) ≡ some l
      → discard_held env held_id actor (healthy d t token_of n) ≡ (
        ok tt,
        healthy
            (record d {
              held_messages = delete (λ r. r.id == m.id) d.held_messages;
              audit = record {
                rows =
                    d.audit.rows
                    ++ record {
                      id = d.audit.next_id;
                      at = t;
                      list_id = some l.id;
                      list_addr = l.list_name ++ (codes "@" ++ l.domain);
                      action = moderation_discard;
                      actor_kind = actor.kind;
                      actor_id = elim actor.kind [
                        | AuditActorKind.subscriber ↦ some actor.id
                        | AuditActorKind.cli ↦ none
                      ];
                      actor_email = actor.email;
                      actor_detail = actor.detail;
                      target = m.subject;
                      detail = [];
                    }
                      ∷ [];
                next_id = suc d.audit.next_id;
              };
            })
            t
            token_of
            n,
      )
  unfolding discard_held held_context wrap now pure raise ◌>>=◌ statement find_first delete_rows
      create insert select get_held_message_by_id get_list_by_id delete_held_message
      create_audit_event record_audit first joined any delete new_audit_event list_address
  discard_held-audited l e f g = rw (e, f, g, any-never d.audit.rows) refl
