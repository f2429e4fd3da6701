-- ===== src/Insurance/Claims/Approval.antt =====
-- Submissions and assessments that succeed.
use stellar_insured_backend.Insurance.Pools.Capital.{audit_row}
use stellar_insured_backend.Insurance.Claims.Oracle.{Payable, Payable-oracle_accepts, find_of_live}
use stellar_insured_backend.Prelude.{
  Bool, ap, arith, false, if◌then◌else◌, none, refl, some, true, ℕ, ◌∙◌, ◌∷◌, ◌≡◌,
}
use stellar_insured_backend.Prelude.Int.{leb_ℤ, ℤ, ◌+ℤ◌}
use stellar_insured_backend.Database.{Returns, Returns-bind, Returns-map, ok, pure, ◌>>=◌}
use stellar_insured_backend.Model.{
  AuditAction, AuditLog, Claim, ClaimStatus, Client, Db, Entity, NotificationType, Policy, User,
  oracle_failed,
}
use stellar_insured_backend.Audit.{create_log, log, log_approve}
use stellar_insured_backend.Reputation.{
  adjust_reputation, claim_approved, clamp, fraud_detected, points,
}
use stellar_insured_backend.Reputation.Bounds.{adjust_of_live, adjusted}
use stellar_insured_backend.Notification.{prepare_notification}
use stellar_insured_backend.Insurance.Claims.{
  Calendar, ClaimWithPolicy, count_duplicates, count_recent, find_by_id_with_policy, is_active,
  is_pending, oracle_accepts, oracle_body, run_fraud_detection, set_status, verify_oracle,
}
use stellar_insured_backend.Insurance.Claims.Assess.{
  approve_claim, assess_claim, assess_pending, record_fraud, reject_claim,
}
use stellar_insured_backend.Insurance.Claims.Frame.{
  SameClaims, claim_at, prepare_notification-SameClaims,
}
use stellar_insured_backend.Insurance.Claims.Decision.{Decides, update_status_of_live, with_claim}

module _ (c : Client) where
  abbrev pub UserLive : ℕ → Db c → Type 0
  UserLive id s = (u : User) × (c.users.find s.users id ≡ some u)

  -- The claims and policies of `s`, and a user who is still live.
  abbrev pub Ready : ℕ → Db c → Db c → Type 0
  Ready id s t = SameClaims c s t × UserLive id t

  adjust_reputation-Ready :
      (id : ℕ) (delta : ℤ) (s : Db c)
      → UserLive id s
      → Returns (λ _ t. Ready id s t) (adjust_reputation c id delta s)
  adjust_reputation-Ready id delta s (u, live) =
      let after : User = record u { reputation_score = clamp (u.reputation_score +ℤ delta) } in
      let still : UserLive id (adjusted c id delta u s) =
        (after, ground (arith, c.users.find-save s.users id id after)) in
      rw (adjust_of_live c id delta u s live, Returns) ((refl, refl), still)

  record_fraud-Ready :
      (id : ℕ) (suspected : Bool) (p : Policy) (s : Db c)
      → UserLive p.user_id s
      → Returns (λ _ t. Ready p.user_id s t) (record_fraud c id suspected p s)
  unfolding record_fraud log create_log
  record_fraud-Ready id false p s live = ((refl, refl), live)
  record_fraud-Ready id true p s live =
      let row : AuditLog = record {
        action = AuditAction.fraud_detected;
        entity = Entity.claim;
        entity_id = id;
        reason = none;
      } in
      let t = record s { audit_log = row ∷ s.audit_log } in
      Returns-bind (λ _ u. Ready p.user_id t u) (λ _ u. Ready p.user_id s u)
        (adjust_reputation c p.user_id (points fraud_detected)) (λ _. pure tt) t
        (adjust_reputation-Ready p.user_id (points fraud_detected) t live) λ _ u h. h

  verify_oracle_of_accepted :
      (now id : ℕ) (x : Claim) (p : Policy) (s : Db c)
      → claim_at c s id ≡ some x
      → c.policies.include s.policies x.policy_id ≡ some p
      → oracle_accepts c now x p ≡ true
      → verify_oracle c now id s
        ≡ ok (
          true,
          record s {
            audit_log = audit_row AuditAction.oracle_verified Entity.claim id ∷ s.audit_log;
          },
        )
  unfolding verify_oracle oracle_body find_by_id_with_policy log create_log
  verify_oracle_of_accepted now id x p s live included accepts = ground arith

  approve_claim-Decides :
      (id : ℕ) (p : Policy) (w : ClaimWithPolicy) (x : Claim) (s : Db c)
      → claim_at c s id ≡ some x
      → UserLive p.user_id s
      → Returns
          (Decides c ClaimStatus.approved (some w.claim.claim_amount) id x s)
          (approve_claim c id w p s)
  unfolding approve_claim log_approve create_log
  approve_claim-Decides id p w x s live user =
      let y = set_status c ClaimStatus.approved (some w.claim.claim_amount) x in
      let v : ClaimWithPolicy = record {
        id = id;
        claim = y;
        policy = c.policies.include s.policies x.policy_id;
      } in
      let row : AuditLog = record {
        action = AuditAction.approve;
        entity = Entity.claim;
        entity_id = id;
        reason = none;
      } in
      let s₁ = with_claim c id y s in
      let t = record s₁ { audit_log = row ∷ s₁.audit_log } in
      let Goal = Decides c ClaimStatus.approved (some w.claim.claim_amount) id x s in
      let notify = prepare_notification c p.user_id NotificationType.claim_approved id in
      rw
        (
          update_status_of_live c id ClaimStatus.approved (some w.claim.claim_amount) x s live,
          ◌>>=◌,
        )
        (Returns-bind (λ _ u. Ready p.user_id t u) Goal
          (adjust_reputation c p.user_id (points claim_approved)) (λ _. notify >>= λ q. pure (v, q))
          t (adjust_reputation-Ready p.user_id (points claim_approved) t user)
          λ _ u ((a, b), _).
            Returns-bind (λ _ k. SameClaims c u k) Goal notify (λ q. pure (v, q)) u
              (prepare_notification-SameClaims c p.user_id NotificationType.claim_approved id u)
              λ q k (d, e). (refl, d ∙ a, e ∙ b))

  -- The oracle's part of the assessment of a claim that it accepts.
  verified-Decides :
      (now id : ℕ) (w : ClaimWithPolicy) (p : Policy) (s t : Db c)
      → claim_at c s id ≡ some w.claim
      → c.policies.include s.policies w.claim.policy_id ≡ some p
      → oracle_accepts c now w.claim p ≡ true
      → Ready p.user_id s t
      → Returns (Decides c ClaimStatus.approved (some w.claim.claim_amount) id w.claim s) (
          (verify_oracle c now id >>= λ verified.
          if verified then approve_claim c id w p else reject_claim c id oracle_failed p)
            t)
  verified-Decides now id w p s t live included accepts ((a, b), user) =
      let here = ap (λ l. c.claims.find l id) a ∙ live in
      let u = record t {
        audit_log = audit_row AuditAction.oracle_verified Entity.claim id ∷ t.audit_log;
      } in
      let paid = set_status c ClaimStatus.approved (some w.claim.claim_amount) w.claim in
      rw
        (
          verify_oracle_of_accepted now id w.claim p t here
              (ap (λ l. c.policies.include l w.claim.policy_id) b ∙ included) accepts,
          ◌>>=◌,
        )
        (Returns-map (Decides c ClaimStatus.approved (some w.claim.claim_amount) id w.claim u)
          (Decides c ClaimStatus.approved (some w.claim.claim_amount) id w.claim s)
          (λ r k (v, d, e). (v, d ∙ ap (λ l. c.claims.save l id paid) a, e ∙ b))
          (approve_claim c id w p u) (approve_claim-Decides id p w w.claim u here user))

  accepts-parts :
      (now : ℕ) (x : Claim) (p : Policy)
      → oracle_accepts c now x p ≡ true
      → (is_active p.status ≡ true) × (leb_ℤ x.claim_amount p.coverage_amount ≡ true)
  unfolding oracle_accepts
  accepts-parts now x p h = (ground arith, ground arith)

  run_fraud_detection-reads :
      (calendar : Calendar) (now : ℕ) (w : ClaimWithPolicy) (s : Db c)
      → (suspected : Bool) × (run_fraud_detection c calendar now w s ≡ ok (suspected, s))
  unfolding run_fraud_detection count_duplicates count_recent
  run_fraud_detection-reads calendar now w s = (_, refl)

  examined :
      (calendar : Calendar) (now id : ℕ) (w : ClaimWithPolicy) (p : Policy) (s : Db c)
      → claim_at c s id ≡ some w.claim
      → c.policies.include s.policies w.claim.policy_id ≡ some p
      → oracle_accepts c now w.claim p ≡ true
      → UserLive p.user_id s
      → Returns
          (Decides c ClaimStatus.approved (some w.claim.claim_amount) id w.claim s)
          (assess_pending c calendar now id w p s)
  unfolding assess_pending
  examined calendar now id w p s live included accepts user =
      let (active, covered) = accepts-parts now w.claim p accepts in
      let Goal = Decides c ClaimStatus.approved (some w.claim.claim_amount) id w.claim s in
      let (suspected, read) = run_fraud_detection-reads calendar now w s in
      let decide = verify_oracle c now id >>= λ verified.
      if verified then approve_claim c id w p else reject_claim c id oracle_failed p in
      rw (active, covered, ◌>>=◌, read)
        (Returns-bind (λ _ t. Ready p.user_id s t) Goal (record_fraud c id suspected p)
          (λ _. decide) s (record_fraud-Ready id suspected p s user)
          λ _ t ready. verified-Decides now id w p s t live included accepts ready)

  -- A pending claim of a live user is approved with its amount as payout, and no other claim and no
  -- policy changed, when its policy is found and is active and has not ended and the amount is
  -- positive and within the coverage, whatever the fraud indicators say.
  pub assess_claim_approves :
      (calendar : Calendar) (now id : ℕ) (x : Claim) (p : Policy) (s : Db c)
      → claim_at c s id ≡ some x
      → x.status ≡ ClaimStatus.pending
      → c.policies.include s.policies x.policy_id ≡ some p
      → Payable c now x p
      → UserLive p.user_id s
      → Returns
          (Decides c ClaimStatus.approved (some x.claim_amount) id x s)
          (assess_claim c calendar now id s)
  unfolding assess_claim
  assess_claim_approves calendar now id x p s live waiting included payable user =
      let accepts = Payable-oracle_accepts c now x p payable in
      let open_case : is_pending x.status ≡ true = rw (waiting) refl in
      rw (find_of_live c id x s live, ◌>>=◌, included, open_case)
        (examined calendar now id
          (record { id = id; claim = x; policy = c.policies.include s.policies x.policy_id }) p s
          live included accepts user)
