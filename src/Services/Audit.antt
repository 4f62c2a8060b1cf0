-- ===== src/Services/Audit.antt =====
-- The audit trail, outside of a transaction: apps/api/src/common/audit/audit.service.ts. A failed
-- write is logged and swallowed.
use ai_saas_multi_tenant.Prisma.{Prisma}
use ai_saas_multi_tenant.Base.{some, if◌then◌else◌}
use ai_saas_multi_tenant.Model.Data.{RowId, AuditAction, Metadata, AuditEntry}
use ai_saas_multi_tenant.Model.Action.{Action, Call, modify}

abbrev pub audit_entry : RowId → RowId → AuditAction → RowId → Metadata → AuditEntry
audit_entry org actor action entity metadata = record {
  organization_id = org;
  actor_id = some actor;
  action = action;
  entity_id = entity;
  metadata = metadata;
}

unfoldable pub record_audit : {db : Prisma} → Call → AuditEntry → Action db (Unit {0})
record_audit {db} c entry = modify (λ w. record w {
  audit_logs = if c.audit_up then db.create entry w.audit_logs else w.audit_logs;
})
