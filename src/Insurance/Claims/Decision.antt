-- ===== src/Insurance/Claims/Decision.antt =====
-- What a decision on a claim writes: the steps that approve, reject and verify.
use stellar_insured_backend.Insurance.Pools.{unlock_capital}
use stellar_insured_backend.Prelude.{Option, none, refl, some, ℕ, ◌∙◌, ◌∷◌, ◌≡◌}
use stellar_insured_backend.Prelude.Int.{ℤ}
use stellar_insured_backend.Database.{Ensures, Ensures-Returns, Ensures-bind, ok, pure, ◌>>=◌, ◌>>◌}
use stellar_insured_backend.Model.{
  AuditAction, AuditLog, Claim, ClaimStatus, Client, Db, Entity, NotificationType, Policy, Reason,
}
use stellar_insured_backend.Audit.{create_log, log_approve, log_reject}
use stellar_insured_backend.Reputation.{adjust_reputation, claim_approved, claim_rejected, points}
use stellar_insured_backend.Notification.{Prepared, prepare_notification}
use stellar_insured_backend.Insurance.Claims.{
  ClaimWithPolicy, set_status, update_status_with_policy,
}
use stellar_insured_backend.Insurance.Claims.Assess.{approve_claim, reject_claim}
use stellar_insured_backend.Insurance.Claims.Frame.{
  SameClaims, adjust_reputation-SameClaims, claim_at, prepare_notification-SameClaims,
  unlock_capital-SameClaims,
}

module _ (c : Client) where
  abbrev pub with_claim : ℕ → Claim → Db c → Db c
  with_claim id x s = record s { claims = c.claims.save s.claims id x }

  pub update_status_of_live :
      (id : ℕ) (status : ClaimStatus) (extra : Option ℤ) (x : Claim) (s : Db c)
      → claim_at c s id ≡ some x
      → update_status_with_policy c id status extra s
        ≡ ok (
          record {
            id = id;
            claim = set_status c status extra x;
            policy = c.policies.include s.policies (set_status c status extra x).policy_id;
          },
          with_claim id (set_status c status extra x) s,
        )
  unfolding update_status_with_policy
  update_status_of_live id status extra x s live = rw (live, ◌>>=◌)

  -- The claim was given the status, with the payout amount if there is one; no other claim and no
  -- policy changed.
  abbrev pub Decides :
      ClaimStatus → Option ℤ → ℕ → Claim → Db c → ClaimWithPolicy × Option Prepared → Db c → Type 0
  Decides status extra id x s r s' =
      (r.0.claim ≡ set_status c status extra x)
      × (s'.claims ≡ c.claims.save s.claims id (set_status c status extra x))
      × (s'.policies ≡ s.policies)

  -- The tail that approval and rejection share: an audit row, an adjustment and a notification.
  tail_lem :
      (status : ClaimStatus) (extra : Option ℤ) (id user_id : ℕ) (x : Claim) (r : ClaimWithPolicy)
      (delta : ℤ) (type : NotificationType) (row : AuditLog) (s t : Db c)
      → r.claim ≡ set_status c status extra x
      → t.claims ≡ c.claims.save s.claims id (set_status c status extra x)
      → t.policies ≡ s.policies
      → Ensures (Decides status extra id x s) (
          (create_log row
              >> (adjust_reputation c user_id delta
                  >> (prepare_notification c user_id type id >>= λ p. pure (r, p))))
            t)
  unfolding create_log
  tail_lem status extra id user_id x r delta type row s t value claims policies =
      let t₁ = record t { audit_log = row ∷ t.audit_log } in
      Ensures-bind (λ _ u. SameClaims c t₁ u) (Decides status extra id x s)
        (adjust_reputation c user_id delta)
        (λ _. prepare_notification c user_id type id >>= λ p. pure (r, p)) t₁
        (adjust_reputation-SameClaims c user_id delta t₁)
        λ _ u (a, b).
          Ensures-bind (λ _ v. SameClaims c u v) (Decides status extra id x s)
            (prepare_notification c user_id type id) (λ p. pure (r, p)) u
            (Ensures-Returns (λ _ v. SameClaims c u v) (prepare_notification c user_id type id u)
              (prepare_notification-SameClaims c user_id type id u))
            λ p v (d, e). (value, d ∙ a ∙ claims, e ∙ b ∙ policies)

  pub reject_claim_lem :
      (id : ℕ) (reason : Reason) (p : Policy) (x : Claim) (s : Db c)
      → claim_at c s id ≡ some x
      → Ensures (Decides ClaimStatus.rejected none id x s) (reject_claim c id reason p s)
  unfolding reject_claim log_reject
  reject_claim_lem id reason p x s live =
      let y = set_status c ClaimStatus.rejected none x in
      let s₁ = with_claim id y s in
      let w : ClaimWithPolicy = record {
        id = id;
        claim = y;
        policy = c.policies.include s.policies y.policy_id;
      } in
      let row : AuditLog = record {
        action = AuditAction.reject;
        entity = Entity.claim;
        entity_id = id;
        reason = some reason;
      } in
      rw (update_status_of_live id ClaimStatus.rejected none x s live, ◌>>=◌)
        (Ensures-bind (λ _ t. SameClaims c s₁ t) (Decides ClaimStatus.rejected none id x s)
          (unlock_capital c p.pool_id y.claim_amount)
          (λ _.
            create_log row
            >> (adjust_reputation c p.user_id (points claim_rejected)
                >> (prepare_notification c p.user_id NotificationType.claim_rejected id >>= λ q.
                    pure (w, q))))
          s₁ (unlock_capital-SameClaims c p.pool_id y.claim_amount s₁)
          λ _ t (a, b).
            tail_lem ClaimStatus.rejected none id p.user_id x w (points claim_rejected)
              NotificationType.claim_rejected row s t refl a b)

  pub approve_claim_lem :
      (id : ℕ) (p : Policy) (w : ClaimWithPolicy) (x : Claim) (s : Db c)
      → claim_at c s id ≡ some x
      → Ensures
          (Decides ClaimStatus.approved (some w.claim.claim_amount) id x s)
          (approve_claim c id w p s)
  unfolding approve_claim log_approve
  approve_claim_lem id p w x s live =
      rw (update_status_of_live id ClaimStatus.approved (some w.claim.claim_amount) x s live, ◌>>=◌)
        (tail_lem ClaimStatus.approved (some w.claim.claim_amount) id p.user_id x
          (record {
            id = id;
            claim = set_status c ClaimStatus.approved (some w.claim.claim_amount) x;
            policy = c.policies.include s.policies x.policy_id;
          })
          (points claim_approved) NotificationType.claim_approved
          (record {
            action = AuditAction.approve;
            entity = Entity.claim;
            entity_id = id;
            reason = none;
          })
          s (with_claim id (set_status c ClaimStatus.approved (some w.claim.claim_amount) x) s) refl
          refl refl)
