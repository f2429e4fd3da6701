-- ===== src/Model.antt =====
-- The rows and enums of prisma/schema.prisma that the services use, and the state of the database.
-- An id is a number that is only compared; 0 stands for the empty text. An amount is an integer
-- number of cents (Decimal(18, 2)), a date a number of milliseconds. Texts that a service builds
-- from a message are replaced by what they are built from.
use stellar_insured_backend.Prelude.{Bool, List, Option, ℕ}
use stellar_insured_backend.Prelude.Int.{ℤ}
use stellar_insured_backend.Database.{Table, Tx, err, ok}

pub data RiskType : Type 0 where
  project_failure smart_contract_exploit market_volatility : RiskType

pub data ClaimStatus : Type 0 where
  pending approved rejected paid under_review : ClaimStatus

pub data PolicyStatus : Type 0 where
  active inactive expired cancelled pending : PolicyStatus

pub data AuditAction : Type 0 where
  create update delete approve reject payout purchase add_capital unlock_capital : AuditAction
  fraud_detected oracle_verified login token_refresh token_revoke : AuditAction
  token_reuse_detected : AuditAction

-- The `entityType` of an audit row.
pub data Entity : Type 0 where
  pool policy claim contract refresh_token auth_session user : Entity

-- notification/enums/notification-type.enum.ts
pub data NotificationType : Type 0 where
  contribution milestone deadline system policy_purchased : NotificationType
  claim_created claim_approved claim_rejected claim_paid : NotificationType

-- Why a claim was rejected.
pub data Reason : Type 0 where
  policy_not_active : PolicyStatus → Reason
  exceeds_coverage oracle_failed : Reason

pub record Pool : Type 0 where
  pub capital : ℤ
  pub locked_capital : ℤ

pub record Policy : Type 0 where
  pub user_id : ℕ
  pub pool_id : ℕ
  pub risk_type : RiskType
  pub status : PolicyStatus
  pub premium : ℤ
  pub coverage_amount : ℤ
  pub end_date : Option ℕ

pub record Claim : Type 0 where
  pub policy_id : ℕ
  pub claim_amount : ℤ
  pub status : ClaimStatus
  pub payout_amount : Option ℤ
  pub created_at : ℕ

pub record Contract : Type 0 where
  pub pool_id : ℕ
  pub coverage_limit : ℤ
  pub premium_rate : ℤ

pub record Settings : Type 0 where
  pub email_enabled : Bool
  pub push_enabled : Bool
  pub notify_contributions : Bool
  pub notify_milestones : Bool
  pub notify_deadlines : Bool

pub record User : Type 0 where
  pub wallet_address : ℕ
  pub reputation_score : ℤ
  pub trust_score : ℤ
  pub email : Option ℕ
  pub push_subscription : Option ℕ
  pub settings : Option Settings

pub record AuditLog : Type 0 where
  pub action : AuditAction
  pub entity : Entity
  pub entity_id : ℕ
  pub reason : Option Reason

pub record ReputationHistory : Type 0 where
  pub user_id : ℕ
  pub score_change : ℤ

pub record Notification : Type 0 where
  pub user_id : ℕ
  pub type : NotificationType
  pub entity_id : ℕ

pub data OutboxStatus : Type 0 where
  pending sent failed : OutboxStatus

pub record EmailOutbox : Type 0 where
  pub to : ℕ
  pub type : NotificationType
  pub status : OutboxStatus
  pub attempts : ℕ

-- The delegates of the models that have ids, and what the crypto library makes of stored texts:
-- `decrypt` is none where it throws, `push_target` where a text holds no push subscription.
pub record Client : Type 1 where
  pub Pools : Type 0
  pub Policies : Type 0
  pub Claims : Type 0
  pub Contracts : Type 0
  pub Users : Type 0
  pub Outbox : Type 0
  pub pools : Table Pools Pool
  pub policies : Table Policies Policy
  pub claims : Table Claims Claim
  pub contracts : Table Contracts Contract
  pub users : Table Users User
  pub outbox : Table Outbox EmailOutbox
  pub decrypt : ℕ → Option ℕ
  pub push_target : ℕ → Option ℕ

-- The database: one table for each model, and the rows that are only ever appended, newest first.
pub record Db (c : Client) : Type 0 where
  pub pools : c.Pools
  pub policies : c.Policies
  pub claims : c.Claims
  pub contracts : c.Contracts
  pub users : c.Users
  pub outbox : c.Outbox
  pub audit_log : List AuditLog
  pub history : List ReputationHistory
  pub notifications : List Notification

-- A transaction on one table, as one on the database.
module _ {c : Client} {A : Type 0} where
  abbrev pub on_pools : Tx c.Pools A → Tx (Db c) A
  on_pools m s = elim (m s.pools) [ ok (a, t) ↦ ok (a, record s { pools = t }) | err e ↦ err e ]

  abbrev pub on_policies : Tx c.Policies A → Tx (Db c) A
  on_policies m s = elim (m s.policies) [
    | ok (a, t) ↦ ok (a, record s { policies = t })
    | err e ↦ err e
  ]

  abbrev pub on_claims : Tx c.Claims A → Tx (Db c) A
  on_claims m s = elim (m s.claims) [ ok (a, t) ↦ ok (a, record s { claims = t }) | err e ↦ err e ]

  abbrev pub on_contracts : Tx c.Contracts A → Tx (Db c) A
  on_contracts m s = elim (m s.contracts) [
    | ok (a, t) ↦ ok (a, record s { contracts = t })
    | err e ↦ err e
  ]

  abbrev pub on_users : Tx c.Users A → Tx (Db c) A
  on_users m s = elim (m s.users) [ ok (a, t) ↦ ok (a, record s { users = t }) | err e ↦ err e ]

  abbrev pub on_outbox : Tx c.Outbox A → Tx (Db c) A
  on_outbox m s = elim (m s.outbox) [ ok (a, t) ↦ ok (a, record s { outbox = t }) | err e ↦ err e ]
