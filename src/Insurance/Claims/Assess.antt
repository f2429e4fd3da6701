-- ===== src/Insurance/Claims/Assess.antt =====
-- assessClaim, rejectClaim, payClaim and createClaim of insurance/claim.service.ts.
use stellar_insured_backend.Prelude.{Bool, Option, false, if◌then◌else◌, none, not, some, true, ℕ}
use stellar_insured_backend.Prelude.Int.{leb_ℤ, ℤ}
use stellar_insured_backend.Database.{Tx, bad_request, gets, not_found, or_throw, pure, ◌>>=◌, ◌>>◌}
use stellar_insured_backend.Model.{
  AuditAction, Claim, ClaimStatus, Client, Db, Entity, NotificationType, Policy, Reason,
  exceeds_coverage, oracle_failed, policy_not_active,
}
use stellar_insured_backend.Audit.{log, log_approve, log_create, log_payout, log_reject}
use stellar_insured_backend.Reputation.{
  adjust_reputation, claim_approved, claim_rejected, fraud_detected, points,
}
use stellar_insured_backend.Notification.{Prepared, prepare_notification}
use stellar_insured_backend.Insurance.Pools.{unlock_capital}
use stellar_insured_backend.Insurance.Claims.{
  Calendar, ClaimWithPolicy, create_claim_row, find_by_id_with_policy, is_active, is_paid,
  is_pending, run_fraud_detection, update_status_with_policy, verify_oracle,
}

module _ (c : Client) where
  unfoldable pub reject_claim : ℕ → Reason → Policy → Tx (Db c) (ClaimWithPolicy × Option Prepared)
  unfolding log_reject
  reject_claim id reason p = do
    updated ← update_status_with_policy c id ClaimStatus.rejected none
    unlock_capital c p.pool_id updated.claim.claim_amount
    log_reject Entity.claim id reason
    adjust_reputation c p.user_id (points claim_rejected)
    prepared ← prepare_notification c p.user_id NotificationType.claim_rejected id
    pure (updated, prepared)

  unfoldable pub approve_claim :
      ℕ → ClaimWithPolicy → Policy → Tx (Db c) (ClaimWithPolicy × Option Prepared)
  unfolding log_approve
  approve_claim id x p = do
    updated ← update_status_with_policy c id ClaimStatus.approved (some x.claim.claim_amount)
    log_approve Entity.claim id
    adjust_reputation c p.user_id (points claim_approved)
    prepared ← prepare_notification c p.user_id NotificationType.claim_approved id
    pure (updated, prepared)

  -- What a fraud suspicion records; the assessment goes on.
  unfoldable pub record_fraud : ℕ → Bool → Policy → Tx (Db c) (Unit {0})
  unfolding log
  record_fraud id false p = pure tt
  record_fraud id true p = do
    log AuditAction.fraud_detected Entity.claim id none
    adjust_reputation c p.user_id (points fraud_detected)
    pure tt

  -- The assessment of a pending claim against its policy.
  unfoldable pub assess_pending :
      Calendar → ℕ → ℕ → ClaimWithPolicy → Policy → Tx (Db c) (ClaimWithPolicy × Option Prepared)
  assess_pending calendar now id x p =
      if not (is_active p.status)
      then reject_claim id (policy_not_active p.status) p
      else if not (leb_ℤ x.claim.claim_amount p.coverage_amount)
      then reject_claim id exceeds_coverage p
      else (do
        suspected ← run_fraud_detection c calendar now x
        record_fraud id suspected p
        verified ← verify_oracle c now id
        if verified then approve_claim id x p else reject_claim id oracle_failed p)

  unfoldable pub assess_claim : Calendar → ℕ → ℕ → Tx (Db c) (ClaimWithPolicy × Option Prepared)
  unfolding find_by_id_with_policy
  assess_claim calendar now id = do
    found ← find_by_id_with_policy c id
    x ← or_throw found not_found
    p ← or_throw x.policy not_found
    if not (is_pending x.claim.status) then pure (x, none) else assess_pending calendar now id x p

  abbrev pub unlock_for : Claim → Option Policy → Tx (Db c) (Unit {0})
  unlock_for x none = pure tt
  unlock_for x (some p) = unlock_capital c p.pool_id x.claim_amount >> pure tt

  abbrev pub notify_payout : ℕ → Option Policy → Tx (Db c) (Option Prepared)
  notify_payout id none = pure none
  notify_payout id (some p) = prepare_notification c p.user_id NotificationType.claim_paid id

  -- The payment of a claim that is not PAID yet, whatever its status.
  unfoldable pub pay_unpaid : ℕ → ClaimWithPolicy → Tx (Db c) (ClaimWithPolicy × Option Prepared)
  unfolding log_payout
  pay_unpaid id x = do
    updated ← update_status_with_policy c id ClaimStatus.paid none
    unlock_for x.claim x.policy
    log_payout Entity.claim id
    prepared ← notify_payout id x.policy
    pure (updated, prepared)

  unfoldable pub pay_claim : ℕ → Tx (Db c) (ClaimWithPolicy × Option Prepared)
  unfolding find_by_id_with_policy
  pay_claim id = do
    found ← find_by_id_with_policy c id
    x ← or_throw found not_found
    if is_paid x.claim.status then pure (x, none) else pay_unpaid id x

  unfoldable pub create_claim : ℕ → ℕ → ℤ → Tx (Db c) ((ℕ × Claim) × Option Prepared)
  unfolding create_claim_row log_create
  create_claim now policy_id amount = do
    found ← gets (λ s. c.policies.find s.policies policy_id)
    p ← or_throw found bad_request
    created ← create_claim_row c (record {
      policy_id = policy_id;
      claim_amount = amount;
      status = ClaimStatus.pending;
      payout_amount = none;
      created_at = now;
    })
    log_create Entity.claim created.0
    prepared ← prepare_notification c p.user_id NotificationType.claim_created created.0
    pure (created, prepared)
