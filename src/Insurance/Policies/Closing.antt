-- ===== src/Insurance/Policies/Closing.antt =====
-- Cancellation and expiry of a policy, and what they give back to its pool.
use stellar_insured_backend.Audit.{log_update}
use stellar_insured_backend.Insurance.Pools.{unlock_capital}
use stellar_insured_backend.Insurance.Pools.Unlock.{unlock_capital_lem}
use stellar_insured_backend.Prelude.{
  Bool-cases, Option-cases, ap, arith, false, if◌then◌else◌, inl, inr, refl, some, sym, true, ℕ,
  ◌∙◌, ◌∷◌, ◌≡◌, ◌⊎◌,
}
use stellar_insured_backend.Database.{>>=-eq-ok, ok, ok_unique, pure, ◌>>=◌, ◌>>◌}
use stellar_insured_backend.Model.{AuditAction, Client, Db, Entity, Policy, PolicyStatus, Pool}
use stellar_insured_backend.Insurance.Pools.Capital.{audit_row, pool_at, released, with_pool}
use stellar_insured_backend.Insurance.Policies.{
  cancel_policy, close_open_policy, expire_policy, is_closed,
}
use stellar_insured_backend.Insurance.Policies.Purchase.{policy_at}

module _ (c : Client) where
  abbrev pub closed : PolicyStatus → Policy → Policy
  closed status p = record p { status = status }

  -- What closing an open policy wrote: the new status, the release of its coverage, an audit row.
  abbrev pub with_closed : PolicyStatus → ℕ → Policy → Pool → Db c → Db c
  with_closed status id p q s =
      let s₁ = record s { policies = c.policies.save s.policies id (closed status p) } in
      let s₂ =
        with_pool c p.pool_id (released c p.coverage_amount q) AuditAction.unlock_capital s₁ in
      record s₂ { audit_log = audit_row AuditAction.update Entity.policy id ∷ s₂.audit_log }

  abbrev pub with_status : PolicyStatus → ℕ → Policy → Db c → Db c
  with_status status id p s = record s {
    policies = c.policies.save s.policies id (closed status p);
  }

  pub close_open_policy_of_live :
      (status : PolicyStatus) (id : ℕ) (p : Policy) (s : Db c)
      → policy_at c s id ≡ some p
      → close_open_policy c status id p s
        ≡ (unlock_capital c p.pool_id p.coverage_amount >>= λ _.
              log_update Entity.policy id >> pure (closed status p))
            (with_status status id p s)
  unfolding close_open_policy
  close_open_policy_of_live status id p s live = rw (live, ◌>>=◌)

  close_open_policy_lem :
      (status : PolicyStatus) (id : ℕ) (p r : Policy) (s s' : Db c)
      → policy_at c s id ≡ some p
      → close_open_policy c status id p s ≡ ok (r, s')
      → (r ≡ closed status p)
        × (q : Pool) × (pool_at c s p.pool_id ≡ some q)
        × (s' ≡ with_closed status id p q s)
  unfolding log_update
  close_open_policy_lem status id p r s s' live e =
      let (q, t, unlocked, rest) =
        >>=-eq-ok (unlock_capital c p.pool_id p.coverage_amount)
          (λ _. log_update Entity.policy id >> pure (closed status p)) (with_status status id p s)
          (sym (close_open_policy_of_live status id p s live) ∙ e) in
      let u =
        unlock_capital_lem c p.pool_id p.coverage_amount q (with_status status id p s) t unlocked in
      let t' = u.state in (ground arith, u.before, u.live, ground arith)

  -- How a cancellation or an expiry that returned went: the policy was closed already and nothing
  -- changed, or it was closed now.
  abbrev pub Closes : PolicyStatus → ℕ → Db c → Policy → Db c → Type 0
  Closes status id s r s' =
      ((policy_at c s id ≡ some r) × (is_closed r.status ≡ true) × (s' ≡ s))
      ⊎ ((p : Policy) × (q : Pool) × (policy_at c s id ≡ some p)
          × (is_closed p.status ≡ false)
          × (pool_at c s p.pool_id ≡ some q)
          × (r ≡ closed status p)
          × (s' ≡ with_closed status id p q s))

  closing_lem :
      (status : PolicyStatus) (id : ℕ) (p r : Policy) (s s' : Db c)
      → policy_at c s id ≡ some p
      → (if is_closed p.status then pure p else close_open_policy c status id p) s ≡ ok (r, s')
      → Closes status id s r s'
  closing_lem status id p r s s' live e = elim (Bool-cases (is_closed p.status)) [
    | inl shut ↦
        let (value, state) = ok_unique (rw shut refl) e in
        inl (live ∙ ap some value, ap (λ x. is_closed x.status) (sym value) ∙ shut, sym state)
    | inr open_ ↦
        let (value, q, pool, state) =
          close_open_policy_lem status id p r s s' live (rw open_ at e) in
        inr (p, q, live, open_, pool, value, state)
  ]

  pub cancel_policy_lem :
      (id : ℕ) (r : Policy) (s s' : Db c)
      → cancel_policy c id s ≡ ok (r, s')
      → Closes PolicyStatus.cancelled id s r s'
  unfolding cancel_policy
  cancel_policy_lem id r s s' e = elim (Option-cases (policy_at c s id)) [
    | inl missing ↦ cc
    | inr (p, live) ↦ closing_lem PolicyStatus.cancelled id p r s s' live (rw (live, ◌>>=◌) at e)
  ]

  pub expire_policy_lem :
      (id : ℕ) (r : Policy) (s s' : Db c)
      → expire_policy c id s ≡ ok (r, s')
      → Closes PolicyStatus.expired id s r s'
  unfolding expire_policy
  expire_policy_lem id r s s' e = elim (Option-cases (policy_at c s id)) [
    | inl missing ↦ cc
    | inr (p, live) ↦ closing_lem PolicyStatus.expired id p r s s' live (rw (live, ◌>>=◌) at e)
  ]

  -- A closed policy is returned as it is.
  closed_stays :
      (id : ℕ) (r : Policy) (s : Db c)
      → policy_at c s id ≡ some r
      → is_closed r.status ≡ true
      → (cancel_policy c id s ≡ ok (r, s)) × (expire_policy c id s ≡ ok (r, s))
  unfolding cancel_policy expire_policy
  closed_stays id r s live shut = (ground arith, ground arith)

  Closes-closed :
      (status : PolicyStatus) (id : ℕ) (r : Policy) (s s' : Db c)
      → is_closed status ≡ true
      → Closes status id s r s'
      → (policy_at c s' id ≡ some r) × (is_closed r.status ≡ true)
  Closes-closed status id r s s' shut (inl (live, was, same)) =
      (ap (λ t. policy_at c t id) same ∙ live, was)
  Closes-closed status id r s s' shut (inr (p, q, live, open_, pool, value, state)) = (
    ap (λ t. policy_at c t id) state
        ∙ ground (arith, c.policies.find-save s.policies id id (closed status p), value),
    ap (λ x. is_closed x.status) value ∙ shut,
  )

  -- Once a policy has been cancelled or expired, cancelling it and expiring it again both return it
  -- with that status and change nothing, so its pool is given its coverage back once.
  pub close_once :
      (id : ℕ) (r : Policy) (s s' : Db c)
      → (cancel_policy c id s ≡ ok (r, s')) ⊎ (expire_policy c id s ≡ ok (r, s'))
      → (cancel_policy c id s' ≡ ok (r, s')) × (expire_policy c id s' ≡ ok (r, s'))
  close_once id r s s' (inl e) =
      let (live, shut) =
        Closes-closed PolicyStatus.cancelled id r s s' refl (cancel_policy_lem id r s s' e) in
      closed_stays id r s' live shut
  close_once id r s s' (inr e) =
      let (live, shut) =
        Closes-closed PolicyStatus.expired id r s s' refl (expire_policy_lem id r s s' e) in
      closed_stays id r s' live shut
