-- ===== src/Audit.antt =====
-- insurance/services/audit.service.ts: every helper writes one row of its action. The snapshots,
-- the request's user and address and the correlation id are left out of a row.
use stellar_insured_backend.Prelude.{Option, none, some, ℕ, ◌∷◌}
use stellar_insured_backend.Database.{Tx, modify}
use stellar_insured_backend.Model.{AuditAction, AuditLog, Client, Db, Entity, Reason}

module _ {c : Client} where
  unfoldable pub create_log : AuditLog → Tx (Db c) (Unit {0})
  create_log row = modify (λ s. record s { audit_log = row ∷ s.audit_log })

  unfoldable pub log : AuditAction → Entity → ℕ → Option Reason → Tx (Db c) (Unit {0})
  unfolding create_log
  log action entity id reason =
      create_log (record { action = action; entity = entity; entity_id = id; reason = reason })

  unfoldable pub log_create : Entity → ℕ → Tx (Db c) (Unit {0})
  unfolding log
  log_create entity id = log AuditAction.create entity id none

  unfoldable pub log_update : Entity → ℕ → Tx (Db c) (Unit {0})
  unfolding log
  log_update entity id = log AuditAction.update entity id none

  unfoldable pub log_delete : Entity → ℕ → Tx (Db c) (Unit {0})
  unfolding log
  log_delete entity id = log AuditAction.delete entity id none

  unfoldable pub log_approve : Entity → ℕ → Tx (Db c) (Unit {0})
  unfolding log
  log_approve entity id = log AuditAction.approve entity id none

  unfoldable pub log_reject : Entity → ℕ → Reason → Tx (Db c) (Unit {0})
  unfolding log
  log_reject entity id reason = log AuditAction.reject entity id (some reason)

  unfoldable pub log_payout : Entity → ℕ → Tx (Db c) (Unit {0})
  unfolding log
  log_payout entity id = log AuditAction.payout entity id none

  unfoldable pub log_purchase : Entity → ℕ → Tx (Db c) (Unit {0})
  unfolding log
  log_purchase entity id = log AuditAction.purchase entity id none

  unfoldable pub log_unlock_capital : Entity → ℕ → Tx (Db c) (Unit {0})
  unfolding log
  log_unlock_capital entity id = log AuditAction.unlock_capital entity id none

  unfoldable pub log_add_capital : Entity → ℕ → Tx (Db c) (Unit {0})
  unfolding log
  log_add_capital entity id = log AuditAction.add_capital entity id none
