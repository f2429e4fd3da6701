-- ===== src/Insurance/Claims/Payment.antt =====
-- What payClaim and createClaim of insurance/claim.service.ts write.
use stellar_insured_backend.Prelude.{
  Option, Option-cases, false, inl, inr, none, refl, some, subst, sym, true, ℕ, ◌∙◌, ◌∷◌, ◌≡◌,
}
use stellar_insured_backend.Prelude.Int.{ℤ}
use stellar_insured_backend.Database.{
  Ensures, Ensures-Returns, Ensures-bind, Returns, Returns-bind, bad_request, err, not_found, ok,
  pure, ◌>>=◌, ◌>>◌,
}
use stellar_insured_backend.Model.{
  AuditAction, AuditLog, Claim, ClaimStatus, Client, Db, Entity, NotificationType, Policy,
}
use stellar_insured_backend.Audit.{create_log, log_create, log_payout}
use stellar_insured_backend.Notification.{Prepared, prepare_notification}
use stellar_insured_backend.Insurance.Pools.{unlock_capital}
use stellar_insured_backend.Insurance.Claims.{
  ClaimWithPolicy, create_claim_row, is_paid, set_status,
}
use stellar_insured_backend.Insurance.Claims.Assess.{
  create_claim, notify_payout, pay_claim, pay_unpaid, unlock_for,
}
use stellar_insured_backend.Insurance.Claims.Frame.{
  SameClaims, claim_at, prepare_notification-SameClaims, unlock_capital-SameClaims,
}
use stellar_insured_backend.Insurance.Claims.Decision.{Decides, update_status_of_live, with_claim}
use stellar_insured_backend.Insurance.Claims.Oracle.{find_of_live, find_of_missing}

module _ (c : Client) where
  unlock_for-SameClaims :
      (x : Claim) (o : Option Policy) (s : Db c)
      → Ensures (λ _ t. SameClaims c s t) (unlock_for c x o s)
  unlock_for-SameClaims x none s = (refl, refl)
  unlock_for-SameClaims x (some p) s =
      Ensures-bind (λ _ t. SameClaims c s t) (λ _ t. SameClaims c s t)
        (unlock_capital c p.pool_id x.claim_amount) (λ _. pure tt) s
        (unlock_capital-SameClaims c p.pool_id x.claim_amount s) λ _ t h. h

  notify_payout-SameClaims :
      (id : ℕ) (o : Option Policy) (s : Db c)
      → Ensures (λ _ t. SameClaims c s t) (notify_payout c id o s)
  notify_payout-SameClaims id none s = (refl, refl)
  notify_payout-SameClaims id (some p) s =
      Ensures-Returns (λ _ t. SameClaims c s t)
        (prepare_notification c p.user_id NotificationType.claim_paid id s)
        (prepare_notification-SameClaims c p.user_id NotificationType.claim_paid id s)

  pay_unpaid_lem :
      (id : ℕ) (w : ClaimWithPolicy) (x : Claim) (s : Db c)
      → claim_at c s id ≡ some x
      → Ensures (Decides c ClaimStatus.paid none id x s) (pay_unpaid c id w s)
  unfolding pay_unpaid log_payout create_log
  pay_unpaid_lem id w x s live =
      let y = set_status c ClaimStatus.paid none x in
      let s₁ = with_claim c id y s in
      let v : ClaimWithPolicy = record {
        id = id;
        claim = y;
        policy = c.policies.include s.policies y.policy_id;
      } in
      rw (update_status_of_live c id ClaimStatus.paid none x s live, ◌>>=◌)
        (Ensures-bind (λ _ t. SameClaims c s₁ t) (Decides c ClaimStatus.paid none id x s)
          (unlock_for c w.claim w.policy)
          (λ _. log_payout Entity.claim id >> (notify_payout c id w.policy >>= λ q. pure (v, q))) s₁
          (unlock_for-SameClaims w.claim w.policy s₁)
          λ _ t (a, b).
            let row : AuditLog = record {
              action = AuditAction.payout;
              entity = Entity.claim;
              entity_id = id;
              reason = none;
            } in
            let t₁ = record t { audit_log = row ∷ t.audit_log } in
            Ensures-bind (λ _ u. SameClaims c t₁ u) (Decides c ClaimStatus.paid none id x s)
              (notify_payout c id w.policy) (λ q. pure (v, q)) t₁
              (notify_payout-SameClaims id w.policy t₁) λ q u (d, e). (refl, d ∙ a, e ∙ b))

  pub pay_claim_lem :
      (id : ℕ) (x : Claim) (s : Db c)
      → claim_at c s id ≡ some x
      → is_paid x.status ≡ false
      → Ensures (Decides c ClaimStatus.paid none id x s) (pay_claim c id s)
  unfolding pay_claim
  pay_claim_lem id x s live unpaid =
      rw (find_of_live c id x s live, ◌>>=◌, unpaid)
        (pay_unpaid_lem id
          (record { id = id; claim = x; policy = c.policies.include s.policies x.policy_id }) x s
          live)

  pub pay_claim_of_paid :
      (id : ℕ) (x : Claim) (s : Db c)
      → claim_at c s id ≡ some x
      → is_paid x.status ≡ true
      → pay_claim c id s
        ≡ ok (
          (record { id = id; claim = x; policy = c.policies.include s.policies x.policy_id }, none),
          s,
        )
  unfolding pay_claim
  pay_claim_of_paid id x s live paid = rw (find_of_live c id x s live, ◌>>=◌, paid)

  pub pay_claim_of_missing :
      (id : ℕ) (s : Db c) → claim_at c s id ≡ none → pay_claim c id s ≡ err not_found
  unfolding pay_claim
  pay_claim_of_missing id s missing = rw (find_of_missing c id s missing, ◌>>=◌)

  -- The claim was stored as pending under a new id.
  abbrev pub Creates : ℕ → ℕ → ℤ → Db c → (ℕ × Claim) × Option Prepared → Db c → Type 0
  Creates now policy_id amount s r s' =
      (r.0.0 ≡ c.claims.fresh s.claims)
      × (r.0.1 ≡ record {
        policy_id = policy_id;
        claim_amount = amount;
        status = ClaimStatus.pending;
        payout_amount = none;
        created_at = now;
      })
      × (s'.claims ≡ c.claims.save s.claims r.0.0 r.0.1)
      × (s'.policies ≡ s.policies)

  -- What follows the look-up of the policy.
  submit_lem :
      (now policy_id : ℕ) (amount : ℤ) (p : Policy) (s : Db c)
      → Returns (Creates now policy_id amount s) (
          (create_claim_row c (record {
            policy_id = policy_id;
            claim_amount = amount;
            status = ClaimStatus.pending;
            payout_amount = none;
            created_at = now;
          })
              >>= λ created.
                  log_create Entity.claim created.0
                  >> (prepare_notification c p.user_id NotificationType.claim_created created.0
                      >>= λ q. pure (created, q)))
            s)
  unfolding create_claim_row log_create create_log
  submit_lem now policy_id amount p s =
      let id = c.claims.fresh s.claims in
      let x : Claim = record {
        policy_id = policy_id;
        claim_amount = amount;
        status = ClaimStatus.pending;
        payout_amount = none;
        created_at = now;
      } in
      let row : AuditLog = record {
        action = AuditAction.create;
        entity = Entity.claim;
        entity_id = id;
        reason = none;
      } in
      let t = record s { claims = c.claims.save s.claims id x; audit_log = row ∷ s.audit_log } in
      Returns-bind (λ _ u. SameClaims c t u) (Creates now policy_id amount s)
        (prepare_notification c p.user_id NotificationType.claim_created id)
        (λ q. pure ((id, x), q)) t
        (prepare_notification-SameClaims c p.user_id NotificationType.claim_created id t)
        λ q u (a, b). (refl, refl, a, b)

  -- A submission under a policy that is found succeeds: it stores one pending claim, with the given
  -- policy, amount and date and no payout, under a new id, and changes no other claim and no policy.
  create_claim_stores :
      (now policy_id : ℕ) (amount : ℤ) (p : Policy) (s : Db c)
      → c.policies.find s.policies policy_id ≡ some p
      → Returns (Creates now policy_id amount s) (create_claim c now policy_id amount s)
  unfolding create_claim
  create_claim_stores now policy_id amount p s found =
      rw (found, ◌>>=◌) (submit_lem now policy_id amount p s)

  create_claim_of_missing :
      (now policy_id : ℕ) (amount : ℤ) (s : Db c)
      → c.policies.find s.policies policy_id ≡ none
      → create_claim c now policy_id amount s ≡ err bad_request
  unfolding create_claim
  create_claim_of_missing now policy_id amount s missing = rw (missing, ◌>>=◌)

  pub create_claim_lem :
      (now policy_id : ℕ) (amount : ℤ) (s : Db c)
      → Ensures (Creates now policy_id amount s) (create_claim c now policy_id amount s)
  create_claim_lem now policy_id amount s =
      elim (Option-cases (c.policies.find s.policies policy_id)) [
        | inl missing ↦
            subst (Ensures (Creates now policy_id amount s))
              (sym (create_claim_of_missing now policy_id amount s missing)) tt
        | inr (p, found) ↦
            Ensures-Returns (Creates now policy_id amount s) (create_claim c now policy_id amount s)
              (create_claim_stores now policy_id amount p s found)
      ]
