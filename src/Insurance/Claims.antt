-- ===== src/Insurance/Claims.antt =====
-- insurance/claim.service.ts over common/repositories/claim.repository.ts: submission, assessment
-- and payment. Notifications are prepared inside the transactions; their dispatch is after the commit.
pub mod Assess
pub mod Frame
pub mod Decision
pub mod Oracle
pub mod Outcome
pub mod Payment
pub mod Approval
pub mod Transition
pub mod Payout
pub mod Life
use stellar_insured_backend.Prelude.{
  Bool, Option, false, if◌then◌else◌, leb, ltb, none, not, some, true, ℕ, ◌&&◌, ◌+◌, ◌==◌, ◌||◌,
}
use stellar_insured_backend.Prelude.Int.{leb_ℤ, ltb_ℤ, pos, ℤ}
use stellar_insured_backend.Database.{Tx, create_row, err, gets, ok, pure, update_row, ◌>>=◌, ◌>>◌}
use stellar_insured_backend.Model.{
  AuditAction, Claim, ClaimStatus, Client, Db, Entity, Policy, PolicyStatus, on_claims,
}
use stellar_insured_backend.Audit.{log}

abbrev pub is_pending : ClaimStatus → Bool
is_pending ClaimStatus.pending = true
is_pending _ = false

abbrev pub is_paid : ClaimStatus → Bool
is_paid ClaimStatus.paid = true
is_paid _ = false

abbrev pub is_rejected : ClaimStatus → Bool
is_rejected ClaimStatus.rejected = true
is_rejected _ = false

abbrev pub is_active : PolicyStatus → Bool
is_active PolicyStatus.active = true
is_active _ = false

abbrev pub eq_ℤ : ℤ → ℤ → Bool
eq_ℤ a b = leb_ℤ a b && leb_ℤ b a

-- What the runtime says of dates in the server's time zone: the hour and the day of the week of an
-- instant, and the instant some days before another.
pub record Calendar : Type 0 where
  pub hours : ℕ → ℕ
  pub day : ℕ → ℕ
  pub days_before : ℕ → ℕ → ℕ

-- ClaimWithPolicy
pub record ClaimWithPolicy : Type 0 where
  pub id : ℕ
  pub claim : Claim
  pub policy : Option Policy

-- The three fraud indicators, from the two counts and the hour and day of the claim.
unfoldable pub is_fraudulent : ℕ → ℕ → ℕ → ℕ → Bool
is_fraudulent duplicates recent hour day = leb 2 (
    (if ltb 0 duplicates then 1 else 0)
    + (if leb 3 recent then 1 else 0)
    + (if ltb hour 6 || ltb 22 hour || day == 0 || day == 6 then 1 else 0))

module _ (c : Client) where
  unfoldable pub find_by_id_with_policy : ℕ → Tx (Db c) (Option ClaimWithPolicy)
  find_by_id_with_policy id s = elim (c.claims.find s.claims id) [
    | none ↦ ok (none, s)
    | some x ↦ ok (
      some (record { id = id; claim = x; policy = c.policies.include s.policies x.policy_id }),
      s,
    )
  ]

  unfoldable pub create_claim_row : Claim → Tx (Db c) (ℕ × Claim)
  create_claim_row row = on_claims (create_row c.claims row)

  -- `data: { status, ...extra }`; `extra` is a payout amount or nothing.
  abbrev pub set_status : ClaimStatus → Option ℤ → Claim → Claim
  set_status status none x = record x { status = status }
  set_status status (some amount) x = record x { status = status; payout_amount = some amount }

  unfoldable pub update_status_with_policy : ℕ → ClaimStatus → Option ℤ → Tx (Db c) ClaimWithPolicy
  update_status_with_policy id status extra = do
    updated ← on_claims (update_row c.claims id (set_status status extra))
    included ← gets (λ s. c.policies.include s.policies updated.policy_id)
    pure (record { id = id; claim = updated; policy = included })

  unfoldable pub count_duplicates : ℕ → ℤ → ℕ → ℕ → Tx (Db c) ℕ
  count_duplicates policy_id amount exclude_id since = gets λ s. c.claims.count s.claims λ id x.
      x.policy_id == policy_id
      && eq_ℤ x.claim_amount amount
      && not (is_rejected x.status)
      && not (id == exclude_id)
      && ltb since x.created_at

  unfoldable pub count_recent : ℕ → ℕ → Tx (Db c) ℕ
  count_recent policy_id since =
      gets λ s. c.claims.count s.claims λ _ x. x.policy_id == policy_id && ltb since x.created_at

  unfoldable pub run_fraud_detection : Calendar → ℕ → ClaimWithPolicy → Tx (Db c) Bool
  unfolding count_duplicates count_recent is_fraudulent
  run_fraud_detection calendar now x = do
    duplicates ←
        count_duplicates x.claim.policy_id x.claim.claim_amount x.id (calendar.days_before now 30)
    recent ← count_recent x.claim.policy_id (calendar.days_before now 90)
    pure (
        is_fraudulent duplicates recent (calendar.hours x.claim.created_at)
          (calendar.day x.claim.created_at))

  -- The conditions of verifyOracle on a claim and its policy.
  unfoldable pub oracle_accepts : ℕ → Claim → Policy → Bool
  oracle_accepts now x p =
      is_active p.status
      && not (elim p.end_date [ none ↦ false | some end ↦ ltb end now ])
      && ltb_ℤ (pos 0) x.claim_amount
      && leb_ℤ x.claim_amount p.coverage_amount

  -- The body of the `try`.
  unfoldable pub oracle_body : ℕ → ℕ → Tx (Db c) Bool
  unfolding find_by_id_with_policy oracle_accepts log
  oracle_body now id = do
    found ← find_by_id_with_policy id
    elim found [
      | none ↦ pure false
      | some x ↦ elim x.policy [
        | none ↦ pure false
        | some p ↦
            if oracle_accepts now x.claim p
            then log AuditAction.oracle_verified Entity.claim id none >> pure true
            else pure false
      ]
    ]

  unfoldable pub verify_oracle : ℕ → ℕ → Tx (Db c) Bool
  unfolding oracle_body
  verify_oracle now id s = elim (oracle_body now id s) [ ok r ↦ ok r | err _ ↦ ok (false, s) ]
