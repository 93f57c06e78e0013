-- ===== src/Store/Audit.antt =====
-- The audit trail: one method writes it, and none edits or deletes.
use xlistman.Prelude.{
  ℕ, Bool, true, false, ◌&&◌, ◌||◌, Option, none, some, List, ◌==◌, ltb, length, if◌then◌else◌,
}
use xlistman.Strings.{Text, codes, is_empty, text_eq}
use xlistman.Effects.{M, ◌>>=◌, ◌>>◌, pure}
use xlistman.Effects.Tables.{order_by}
use xlistman.Model.{AuditEvent, Action}
use xlistman.Store.Access.{audit_events, create, find_all}
use xlistman.Store.Archive.{take, drop}

-- The names as they are stored.
unfoldable pub action_text : Action → Text
action_text Action.moderation_approve = codes "moderation.approve"
action_text Action.moderation_reject = codes "moderation.reject"
action_text Action.moderation_discard = codes "moderation.discard"
action_text Action.subscription_approve = codes "subscription.approve"
action_text Action.subscription_reject = codes "subscription.reject"
action_text Action.member_add = codes "member.add"
action_text Action.member_import = codes "member.import"
action_text Action.member_remove = codes "member.remove"
action_text Action.member_reenable = codes "member.re-enable"
action_text Action.member_reset_bounces = codes "member.reset-bounces"
action_text Action.role_grant = codes "role.grant"
action_text Action.role_revoke = codes "role.revoke"
action_text Action.sender_add = codes "sender.add"
action_text Action.sender_remove = codes "sender.remove"
action_text Action.settings_update = codes "settings.update"
action_text Action.list_create = codes "list.create"
action_text Action.list_delete = codes "list.delete"
action_text Action.list_type = codes "list.type"
action_text Action.domain_create = codes "domain.create"
action_text Action.admin_designate = codes "admin.designate"
action_text Action.admin_revoke = codes "admin.revoke"

abbrev pub on_list : Option ℕ → Option ℕ → Bool
on_list none stored = true
on_list (some id) none = false
on_list (some id) (some stored) = stored == id

-- The two conditions, each if it is asked for.
abbrev pub asked_for : Option ℕ → Text → AuditEvent → Bool
asked_for list_id action e =
    on_list list_id e.list_id && (is_empty action || text_eq (action_text e.action) action)

abbrev pub newest_first : AuditEvent → AuditEvent → Bool
newest_first a b = ltb b.at a.at || (a.at == b.at && ltb b.id a.id)

abbrev pub at_most_500 : ℕ → List AuditEvent → List AuditEvent
at_most_500 limit events =
    let cut = if ltb 500 limit then 500 else limit in if ltb 0 cut then take cut events else events

-- A negative limit is treated as 0, and a negative offset is 0.
unfoldable pub list_audit_events : Option ℕ → Text → ℕ → ℕ → M (List AuditEvent)
list_audit_events list_id action limit offset = do
  events ← find_all audit_events (asked_for list_id action)
  pure (at_most_500 limit (drop offset (order_by newest_first events)))

unfoldable pub count_audit_events : Option ℕ → Text → M ℕ
count_audit_events list_id action = do
  events ← find_all audit_events (asked_for list_id action)
  pure (length events)

unfoldable pub create_audit_event : (ℕ → AuditEvent) → M Unit
create_audit_event event = do create audit_events (λ _. false) event; pure tt
