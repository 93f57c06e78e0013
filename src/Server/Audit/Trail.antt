-- ===== src/Server/Audit/Trail.antt =====
-- internal/server/audit.go: the audit trail of a list, and that of the whole server.
use xlistman.Prelude.{
  ℕ, zero, suc, not, Option, none, some, List, [], ◌∷◌, ◌++◌, map, ltb, if◌then◌else◌,
}
use xlistman.Strings.{Text, codes, is_empty}
use xlistman.Result.{Result, ok, err}
use xlistman.Effects.{M, ◌>>=◌, pure, attempt}
use xlistman.Model.{MailingList, AuditEvent, AuditActorKind}
use xlistman.Store.Audit.{action_text, list_audit_events, count_audit_events}
use xlistman.Server.Http.{
  ℤ, Request, Response, Content, Value, Row, Web, respond, json_error, method_not_allowed,
  is_method, query_int_default,
}

-- limit <= 0 || limit > 500
unfoldable pub audit_limit : ℤ → ℕ
audit_limit (ℤ.pos zero) = 500
audit_limit (ℤ.pos (suc n)) = if ltb 500 (suc n) then 500 else suc n
audit_limit (ℤ.negsuc n) = 500

abbrev pub audit_offset : ℤ → ℕ
audit_offset (ℤ.pos n) = n
audit_offset (ℤ.negsuc n) = 0

abbrev pub kind_text : AuditActorKind → Text
kind_text AuditActorKind.subscriber = codes "subscriber"
kind_text AuditActorKind.cli = codes "cli"

-- omitempty
abbrev pub unless_empty : Text → Text → Row
unless_empty name t = if is_empty t then [] else (name, Value.text t) ∷ []

unfoldable pub audit_row : AuditEvent → Row
audit_row e =
    (codes "id", Value.number e.id)
    ∷ (codes "at", Value.number e.at)
    ∷ (codes "action", Value.text (action_text e.action))
    ∷ (codes "actor_kind", Value.text (kind_text e.actor_kind))
    ∷ (codes "target", Value.text e.target)
    ∷ (codes "detail", Value.text e.detail)
    ∷ (unless_empty (codes "list_addr") e.list_addr
        ++ (unless_empty (codes "actor_email") e.actor_email
            ++ unless_empty (codes "actor_detail") e.actor_detail))

abbrev pub trail_failed : Response
trail_failed = json_error 500 (codes "failed to load audit events")

abbrev pub events_counted : ℕ → ℕ → List AuditEvent → Result ℕ → Response
events_counted limit offset events (err _) = trail_failed
events_counted limit offset events (ok total) = respond 200 (
    Content.object_with
      ((codes "total", Value.number total)
        ∷ (codes "limit", Value.number limit)
        ∷ (codes "offset", Value.number offset)
        ∷ [])
      ((codes "events", map audit_row events) ∷ []))

abbrev pub events_listed : Option ℕ → Text → ℕ → ℕ → Result (List AuditEvent) → M Response
events_listed list_id action limit offset (err _) = pure trail_failed
events_listed list_id action limit offset (ok events) = do
  total ← attempt (count_audit_events list_id action)
  pure (events_counted limit offset events total)

module _ (web : Web) where
  unfoldable pub write_audit_events : Request → Option ℕ → Text → M Response
  write_audit_events r list_id action =
      let limit = audit_limit (query_int_default web r (codes "limit") 500) in
      let offset = audit_offset (query_int_default web r (codes "offset") 0) in
      do
        events ← attempt (list_audit_events list_id action limit offset)
        events_listed list_id action limit offset events

  unfoldable pub handle_console_audit : Request → MailingList → M Response
  handle_console_audit r l =
      if not (is_method (codes "GET") r)
      then pure method_not_allowed
      else write_audit_events r (some l.id) (r.query (codes "action"))

  unfoldable pub handle_admin_audit : Request → M Response
  handle_admin_audit r =
      if not (is_method (codes "GET") r)
      then pure method_not_allowed
      else write_audit_events r none (r.query (codes "action"))
