-- ===== src/Insurance/Policies.antt =====
-- insurance/insurance.service.ts and pricing.service.ts over
-- common/repositories/insurance-policy.repository.ts. The notification that a purchase prepares is
-- the last part of its transaction; its dispatch after the commit is not part of the state.
pub mod Purchase
pub mod Uniqueness
pub mod Closing
pub mod Refund
use stellar_insured_backend.Prelude.{
  Bool, Option, false, if◌then◌else◌, none, not, some, true, ℕ, ◌&&◌, ◌+◌, ◌/◌, ◌==◌, ◌||◌,
}
use stellar_insured_backend.Prelude.Int.{ltb_ℤ, neg, negsuc, pos, ℤ, ◌*ℤ◌}
use stellar_insured_backend.Database.{
  Tx, bad_request, create_row, err, foreign_key_violation, gets, guard, or_throw, pure, update_row,
  ◌>>=◌, ◌>>◌,
}
use stellar_insured_backend.Model.{
  Client, Db, Entity, NotificationType, Policy, PolicyStatus, RiskType, market_volatility,
  on_policies, project_failure, smart_contract_exploit,
}
use stellar_insured_backend.Audit.{log_purchase, log_update}
use stellar_insured_backend.Notification.{Prepared, prepare_notification}
use stellar_insured_backend.Insurance.Pools.{lock_capital, unlock_capital}

-- The base rates in hundredths, so that a premium is exact in hundredths of a cent until it is stored.
abbrev pub base_rate : RiskType → ℤ
base_rate project_failure = pos 5
base_rate smart_contract_exploit = pos 8
base_rate market_volatility = pos 3

unfoldable pub calculate_premium : RiskType → ℤ → ℤ
calculate_premium risk_type coverage_amount = base_rate risk_type *ℤ coverage_amount

-- What the column Decimal(18, 2) makes of hundredths of a cent: the nearest cents, halves away from
-- zero.
abbrev pub round_cents : ℤ → ℤ
round_cents (pos n) = pos ((n + 50) / 100)
round_cents (negsuc n) = neg ((n + 51) / 100)

-- `status in [ACTIVE, PENDING]`
abbrev pub is_open : PolicyStatus → Bool
is_open PolicyStatus.active = true
is_open PolicyStatus.pending = true
is_open _ = false

-- CANCELLED or EXPIRED
abbrev pub is_closed : PolicyStatus → Bool
is_closed PolicyStatus.cancelled = true
is_closed PolicyStatus.expired = true
is_closed _ = false

-- The filter of the look for an open policy of the user in the pool.
abbrev pub is_open_for : ℕ → ℕ → Policy → Bool
is_open_for user_id pool_id p = p.user_id == user_id && p.pool_id == pool_id && is_open p.status

module _ (c : Client) where
  -- The premium of the data is in hundredths of a cent, that of the row in cents. The user and the
  -- pool are foreign keys, which deleted rows satisfy too.
  unfoldable pub create_policy : Policy → Tx (Db c) (ℕ × Policy)
  create_policy data_ s = elim (c.users.include s.users data_.user_id) [
    | none ↦ err foreign_key_violation
    | some _ ↦ elim (c.pools.include s.pools data_.pool_id) [
      | none ↦ err foreign_key_violation
      | some _ ↦
          on_policies (create_row c.policies (record data_ { premium = round_cents data_.premium }))
            s
    ]
  ]

  unfoldable pub update_policy_status : ℕ → PolicyStatus → Tx (Db c) Policy
  update_policy_status id status =
      on_policies (update_row c.policies id (λ p. record p { status = status }))

  -- The part of the purchase that runs when the user has no open policy in the pool.
  unfoldable pub purchase_new : ℕ → ℕ → RiskType → ℤ → Tx (Db c) ((ℕ × Policy) × Option Prepared)
  unfolding create_policy log_purchase calculate_premium
  purchase_new user_id pool_id risk_type coverage_amount = do
    let premium = calculate_premium risk_type coverage_amount
    lock_capital c pool_id coverage_amount
    created ← create_policy (record {
      user_id = user_id;
      pool_id = pool_id;
      risk_type = risk_type;
      status = PolicyStatus.active;
      premium = premium;
      coverage_amount = coverage_amount;
      end_date = none;
    })
    log_purchase Entity.policy created.0
    prepared ← prepare_notification c user_id NotificationType.policy_purchased created.0
    pure (created, prepared)

  unfoldable pub purchase_policy : ℕ → ℕ → RiskType → ℤ → Tx (Db c) ((ℕ × Policy) × Option Prepared)
  purchase_policy user_id pool_id risk_type coverage_amount = do
    guard (not (user_id == 0 || pool_id == 0)) bad_request
    guard (ltb_ℤ (pos 0) coverage_amount) bad_request
    existing ← gets (λ s. c.policies.find_first s.policies (is_open_for user_id pool_id))
    elim existing [
      | some found ↦ pure (found, none)
      | none ↦ purchase_new user_id pool_id risk_type coverage_amount
    ]

  -- The common body of cancelPolicy and expirePolicy, which differ in the status that they write.
  unfoldable pub close_open_policy : PolicyStatus → ℕ → Policy → Tx (Db c) Policy
  unfolding update_policy_status log_update
  close_open_policy status id policy = do
    updated ← update_policy_status id status
    unlock_capital c policy.pool_id policy.coverage_amount
    log_update Entity.policy id
    pure updated

  unfoldable pub cancel_policy : ℕ → Tx (Db c) Policy
  unfolding close_open_policy
  cancel_policy id = do
    found ← gets (λ s. c.policies.find s.policies id)
    policy ← or_throw found bad_request
    if is_closed policy.status
        then pure policy
        else close_open_policy PolicyStatus.cancelled id policy

  unfoldable pub expire_policy : ℕ → Tx (Db c) Policy
  unfolding close_open_policy
  expire_policy id = do
    found ← gets (λ s. c.policies.find s.policies id)
    policy ← or_throw found bad_request
    if is_closed policy.status
        then pure policy
        else close_open_policy PolicyStatus.expired id policy
