-- ===== src/Insurance/Policies/Refund.antt =====
-- A purchase followed by the cancellation or the expiry of the new policy.
use stellar_insured_backend.Prelude.{
  Option, ap, arith, false, none, refl, some, subst, sym, ℕ, ◌∙◌, ◌≡◌, ◌≢◌,
}
use stellar_insured_backend.Prelude.Int.{eq_of_parts, int_laws, pos, ℤ, ◌+ℤ◌, ◌-ℤ◌, ◌≤ℤ◌}
use stellar_insured_backend.Database.{Returns, Returns-map, ok, ◌>>=◌}
use stellar_insured_backend.Model.{Client, Db, Policy, PolicyStatus, Pool, RiskType}
use stellar_insured_backend.Audit.{log_update}
use stellar_insured_backend.Notification.{Prepared}
use stellar_insured_backend.Insurance.Pools.Capital.{
  available, locked, pool_at, released, unlock_capital_of_live,
}
use stellar_insured_backend.Insurance.Policies.{
  cancel_policy, close_open_policy, is_closed, is_open_for, purchase_new, purchase_policy,
}
use stellar_insured_backend.Insurance.Policies.Purchase.{
  Bought, HasUser, new_policy, policy_at, purchase_free, purchase_new_lem,
}
use stellar_insured_backend.Insurance.Policies.Closing.{
  close_open_policy_of_live, closed, with_closed, with_status,
}

module _ (c : Client) where
  close_open_policy_succeeds :
      (status : PolicyStatus) (id : ℕ) (p : Policy) (q : Pool) (s : Db c)
      → policy_at c s id ≡ some p
      → pool_at c s p.pool_id ≡ some q
      → pos 1 ≤ℤ p.coverage_amount
      → pos 0 ≤ℤ available (released c p.coverage_amount q)
      → close_open_policy c status id p s ≡ ok (closed c status p, with_closed c status id p q s)
  unfolding log_update
  close_open_policy_succeeds status id p q s live pool positive covered =
      close_open_policy_of_live c status id p s live
      ∙ rw (
        unlock_capital_of_live c p.pool_id p.coverage_amount q (with_status c status id p s) pool
            positive covered,
        ◌>>=◌,
      )

  -- Cancelling an active policy over a live pool that stays covered succeeds and releases exactly the
  -- coverage.
  pub cancel_active :
      (id : ℕ) (p : Policy) (q : Pool) (s : Db c)
      → policy_at c s id ≡ some p
      → is_closed p.status ≡ false
      → pool_at c s p.pool_id ≡ some q
      → pos 1 ≤ℤ p.coverage_amount
      → pos 0 ≤ℤ available (released c p.coverage_amount q)
      → cancel_policy c id s
        ≡ ok (closed c PolicyStatus.cancelled p, with_closed c PolicyStatus.cancelled id p q s)
  unfolding cancel_policy
  cancel_active id p q s live open_ pool positive covered =
      rw (live, ◌>>=◌)
        (rw open_
          (close_open_policy_succeeds PolicyStatus.cancelled id p q s live pool positive covered))

  released-locked : (amount : ℤ) (p : Pool) → released c amount (locked c amount p) ≡ p
  released-locked amount p i = record p {
    locked_capital =
        eq_of_parts ((p.locked_capital +ℤ amount) -ℤ amount) p.locked_capital (omega int_laws) i;
  }

  -- The cancellation returned the policy as cancelled, and the pools are those of `s`.
  abbrev pub Refunded : Db c → Policy → Db c → Type 0
  Refunded s p s' = (p.status ≡ PolicyStatus.cancelled) × ((k : ℕ) → pool_at c s' k ≡ pool_at c s k)

  cancel-Bought :
      (user_id pool_id : ℕ) (risk_type : RiskType) (amount : ℤ) (p : Pool) (s s' : Db c)
      (r : (ℕ × Policy) × Option Prepared)
      → pool_at c s pool_id ≡ some p
      → pos 1 ≤ℤ amount
      → pos 0 ≤ℤ available p
      → Bought c user_id pool_id risk_type amount p s r s'
      → Returns (Refunded s) (cancel_policy c r.0.0 s')
  cancel-Bought user_id pool_id risk_type amount p s s' r live positive covered b =
      let row = new_policy c user_id pool_id risk_type amount in
      let id = c.policies.fresh s.policies in
      let stored : policy_at c s' id ≡ some row =
        ap (λ t. c.policies.find t id) b.policies
        ∙ ground (arith, c.policies.find-save s.policies id id row) in
      let pool : pool_at c s' pool_id ≡ some (locked c amount p) = ground (arith, b.pool pool_id) in
      let cancelled_ =
        cancel_active id row (locked c amount p) s' stored refl pool positive (omega int_laws) in
      let back = released-locked amount p in
      subst (λ i. Returns (Refunded s) (cancel_policy c i s')) (sym (ap (λ x. x.0) b.created))
        (subst (Returns (Refunded s)) (sym cancelled_) (
          refl,
          λ k. ground (
            arith,
            back,
            live,
            b.pool k,
            c.pools.find-save s'.pools pool_id k (released c amount (locked c amount p)),
          ),
        ))

  -- A user who has a row and has no open policy in a live pool whose locked capital is within its
  -- capital can buy a positive coverage in it; cancelling the new policy then succeeds, and every pool
  -- is again as it was.
  pub purchase-cancel :
      (user_id pool_id : ℕ) (risk_type : RiskType) (amount : ℤ) (p : Pool) (s : Db c)
      → user_id ≢ 0
      → pool_id ≢ 0
      → pos 1 ≤ℤ amount
      → c.policies.find_first s.policies (is_open_for user_id pool_id) ≡ none
      → pool_at c s pool_id ≡ some p
      → HasUser c s user_id
      → pos 0 ≤ℤ available p
      → Returns
          (λ r s'. Returns (Refunded s) (cancel_policy c r.0.0 s'))
          (purchase_policy c user_id pool_id risk_type amount s)
  purchase-cancel user_id pool_id risk_type amount p s u l positive free live user covered =
      subst (Returns (λ r s'. Returns (Refunded s) (cancel_policy c r.0.0 s')))
        (sym (purchase_free c user_id pool_id risk_type amount s (u, l, positive) free))
        (Returns-map (Bought c user_id pool_id risk_type amount p s)
          (λ r s'. Returns (Refunded s) (cancel_policy c r.0.0 s'))
          (λ r s' b.
            cancel-Bought user_id pool_id risk_type amount p s s' r live positive covered b)
          (purchase_new c user_id pool_id risk_type amount s)
          (purchase_new_lem c user_id pool_id risk_type amount p s live user positive))
