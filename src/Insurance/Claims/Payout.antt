-- ===== src/Insurance/Claims/Payout.antt =====
-- What payClaim does to the pool, and what a second payment does.
use stellar_insured_backend.Notification.Rows.{
  Prepares, Prepares-SameBusiness, SameBusiness, prepare_notification_lem,
}
use stellar_insured_backend.Prelude.{
  Bool-cases, Option, Option-cases, ap, arith, false, inl, inr, none, refl, some, subst, ℕ, ◌∙◌,
  ◌∷◌, ◌≡◌,
}
use stellar_insured_backend.Prelude.Int.{pos, ◌≤ℤ◌}
use stellar_insured_backend.Database.{
  Ensures-eq_ok, Returns, Returns-bind, Returns-map, ok, ok-ne-err, ok_unique, pure, ◌>>=◌,
}
use stellar_insured_backend.Model.{
  AuditAction, Claim, ClaimStatus, Client, Db, Entity, NotificationType, Policy, Pool,
}
use stellar_insured_backend.Audit.{create_log, log_payout}
use stellar_insured_backend.Notification.{Prepared, prepare_notification}
use stellar_insured_backend.Insurance.Pools.Capital.{
  audit_row, available, pool_at, released, unlock_capital_of_live, with_pool,
}
use stellar_insured_backend.Insurance.Claims.{ClaimWithPolicy, is_paid, set_status}
use stellar_insured_backend.Insurance.Claims.Frame.{claim_at}
use stellar_insured_backend.Insurance.Claims.Decision.{Decides, update_status_of_live, with_claim}
use stellar_insured_backend.Insurance.Claims.Oracle.{find_of_live}
use stellar_insured_backend.Insurance.Claims.Payment.{
  pay_claim_lem, pay_claim_of_missing, pay_claim_of_paid,
}
use stellar_insured_backend.Insurance.Claims.Transition.{is_paid_eq}
use stellar_insured_backend.Insurance.Claims.Assess.{pay_claim, pay_unpaid}

module _ (c : Client) where
  -- A payment that returned leaves the claim paid, and a second payment returns and changes nothing.
  pay_twice :
      (id : ℕ) (r : ClaimWithPolicy × Option Prepared) (s t : Db c)
      → pay_claim c id s ≡ ok (r, t)
      → (x : Claim) × (claim_at c t id ≡ some x)
        × (x.status ≡ ClaimStatus.paid)
        × (w : ClaimWithPolicy) × (pay_claim c id t ≡ ok ((w, none), t))
  pay_twice id r s t e = elim (Option-cases (claim_at c s id)) [
    | inl missing ↦ absurd (ok-ne-err e (pay_claim_of_missing c id s missing))
    | inr (x, live) ↦ elim (Bool-cases (is_paid x.status)) [
      | inl paid ↦
          let (_, same) = ok_unique (pay_claim_of_paid c id x s live paid) e in
          let still : claim_at c t id ≡ some x = subst (λ u. claim_at c u id ≡ some x) same live in
          (
            x,
            still,
            is_paid_eq x.status paid,
            record { id = id; claim = x; policy = c.policies.include t.policies x.policy_id },
            pay_claim_of_paid c id x t still paid,
          )
      | inr unpaid ↦
          let (_, saved, _) =
            Ensures-eq_ok (Decides c ClaimStatus.paid none id x s) e
              (pay_claim_lem c id x s live unpaid) in
          let y = set_status c ClaimStatus.paid none x in
          let stored : claim_at c t id ≡ some y =
            ap (λ l. c.claims.find l id) saved
            ∙ ground (arith, c.claims.find-save s.claims id id y) in
          (
            y,
            stored,
            refl,
            record { id = id; claim = y; policy = c.policies.include t.policies x.policy_id },
            pay_claim_of_paid c id y t stored refl,
          )
    ]
  ]

  pay_unpaid_unlocks :
      (id : ℕ) (x : Claim) (p : Policy) (q : Pool) (s : Db c)
      → claim_at c s id ≡ some x
      → pool_at c s p.pool_id ≡ some q
      → pos 1 ≤ℤ x.claim_amount
      → pos 0 ≤ℤ available (released c x.claim_amount q)
      → Returns
          (λ r t.
            (claim_at c t id ≡ some (record x { status = ClaimStatus.paid }))
            × (pool_at c t p.pool_id ≡ some (released c x.claim_amount q)))
          (pay_unpaid c id (record { id = id; claim = x; policy = some p }) s)
  unfolding pay_unpaid log_payout create_log
  pay_unpaid_unlocks id x p q s live pool positive covered =
      let y = set_status c ClaimStatus.paid none x in
      let s₁ = with_claim c id y s in
      let w : ClaimWithPolicy = record {
        id = id;
        claim = y;
        policy = c.policies.include s.policies x.policy_id;
      } in
      let u = with_pool c p.pool_id (released c x.claim_amount q) AuditAction.unlock_capital s₁ in
      let u₁ = record u {
        audit_log = audit_row AuditAction.payout Entity.claim id ∷ u.audit_log;
      } in
      rw
        (
          update_status_of_live c id ClaimStatus.paid none x s live,
          ◌>>=◌,
          unlock_capital_of_live c p.pool_id x.claim_amount q s₁ pool positive covered,
        )
        (Returns-bind (λ _ v. SameBusiness c u₁ v)
          (λ r t.
            (claim_at c t id ≡ some (record x { status = ClaimStatus.paid }))
            × (pool_at c t p.pool_id ≡ some (released c x.claim_amount q)))
          (prepare_notification c p.user_id NotificationType.claim_paid id) (λ n. pure (w, n)) u₁
          (Returns-map (Prepares c p.user_id NotificationType.claim_paid id u₁)
            (λ _ v. SameBusiness c u₁ v)
            (λ n v h. Prepares-SameBusiness c p.user_id NotificationType.claim_paid id n u₁ v h)
            (prepare_notification c p.user_id NotificationType.claim_paid id u₁)
            (prepare_notification_lem c p.user_id NotificationType.claim_paid id u₁))
          λ n v same. (
            ap (λ l. c.claims.find l id) same.claims
                ∙ ground (arith, c.claims.find-save s.claims id id y),
            ap (λ l. c.pools.find l p.pool_id) same.pools
                ∙ ground (
                  arith,
                  c.pools.find-save s.pools p.pool_id p.pool_id (released c x.claim_amount q),
                ),
          ))

  -- A payment of a live claim that is not paid, a rejected one too, with a positive amount and a
  -- policy, succeeds when the policy's pool is live and its capital covers what stays locked; the
  -- claim is then paid, and the claimed amount is taken off what the pool has locked.
  pub pay_claim_unlocks :
      (id : ℕ) (x : Claim) (p : Policy) (q : Pool) (s : Db c)
      → claim_at c s id ≡ some x
      → is_paid x.status ≡ false
      → c.policies.include s.policies x.policy_id ≡ some p
      → pool_at c s p.pool_id ≡ some q
      → pos 1 ≤ℤ x.claim_amount
      → pos 0 ≤ℤ available (released c x.claim_amount q)
      → Returns
          (λ r t.
            (claim_at c t id ≡ some (record x { status = ClaimStatus.paid }))
            × (pool_at c t p.pool_id ≡ some (released c x.claim_amount q)))
          (pay_claim c id s)
  unfolding pay_claim
  pay_claim_unlocks id x p q s live unpaid included pool positive covered =
      rw (find_of_live c id x s live, ◌>>=◌, unpaid, included)
        (pay_unpaid_unlocks id x p q s live pool positive covered)
