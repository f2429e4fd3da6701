-- ===== src/Tests/Policies.antt =====
-- Runs of the pool and policy services.
use stellar_insured_backend.Insurance.Policies.Uniqueness.{AtMostOneOpen, purchase-AtMostOneOpen}
use stellar_insured_backend.Prelude.{
  Option, arith, if◌then◌else◌, inl, none, refl, some, ℕ, ◌==◌, ◌↔◌, ◌≡◌,
}
use stellar_insured_backend.Database.{Result, Returns, ok}
use stellar_insured_backend.Model.{Db, Policy, RiskType}
use stellar_insured_backend.Notification.{Prepared, prepare_notification}
use stellar_insured_backend.Insurance.Pools.{lock_capital, unlock_capital}
use stellar_insured_backend.Insurance.Pools.Capital.{
  available, lock_capital_overcommits, locked, pool_at,
}
use stellar_insured_backend.Insurance.Policies.{
  cancel_policy, expire_policy, purchase_new, purchase_policy,
}
use stellar_insured_backend.Insurance.Policies.Purchase.{Purchased, Valid, purchase_policy_lem}
use stellar_insured_backend.Insurance.Policies.Closing.{close_once}
use stellar_insured_backend.Insurance.Policies.Refund.{Refunded, purchase-cancel}
use stellar_insured_backend.Tests.World.{
  demo, empty, held, holder, small_pool, start, state_of, value_of,
}
use stellar_insured_backend.Prelude.Int.{pos, ◌-ℤ◌, ◌≤ℤ◌}

abbrev cancelled : Db demo
cancelled = state_of (cancel_policy demo 1 start) start

abbrev cancelled_row : Policy
cancelled_row = value_of (cancel_policy demo 1 start) held

close_once_example :
    (cancel_policy demo 1 cancelled ≡ ok (cancelled_row, cancelled))
    × (expire_policy demo 1 cancelled ≡ ok (cancelled_row, cancelled))
unfolding cancel_policy expire_policy unlock_capital ◌-ℤ◌
close_once_example = close_once demo 1 cancelled_row start cancelled (inl refl)

lock_capital_overcommits_example :
    (s' : Db demo) × (lock_capital demo 1 (pos 901) start
      ≡ ok (locked demo (pos 901) small_pool, s'))
    × ((k : ℕ)
        → pool_at demo s' k
          ≡ (if 1 == k then some (locked demo (pos 901) small_pool) else pool_at demo start k))
    × ((pos 0 ≤ℤ available (locked demo (pos 901) small_pool)) ↔ (pos 901 ≤ℤ available small_pool))
lock_capital_overcommits_example =
    lock_capital_overcommits demo 1 (pos 901) small_pool start refl (omega arith)

abbrev no_policy : Policy
no_policy = record held { user_id = 0 }

-- A purchase by the user in the pool.
abbrev bought : Result (((ℕ × Policy) × Option Prepared) × Db demo)
bought = purchase_policy demo 1 1 RiskType.project_failure (pos 30) empty

abbrev bought_result : (ℕ × Policy) × Option Prepared
bought_result = value_of bought ((0, no_policy), none)

abbrev after_purchase : Db demo
after_purchase = state_of bought empty

purchase_policy_lem_example :
    Valid demo 1 1 (pos 30)
    × Purchased demo 1 1 RiskType.project_failure (pos 30) empty bought_result after_purchase
unfolding purchase_policy purchase_new lock_capital prepare_notification
purchase_policy_lem_example =
    purchase_policy_lem demo 1 1 RiskType.project_failure (pos 30) empty after_purchase
      bought_result refl

purchase-AtMostOneOpen_example : AtMostOneOpen demo after_purchase
unfolding purchase_policy purchase_new lock_capital prepare_notification
purchase-AtMostOneOpen_example =
    purchase-AtMostOneOpen demo 1 1 RiskType.project_failure (pos 30) empty after_purchase
      bought_result (λ u l k j p q a b d e. cc) refl

purchase-cancel_example :
    Returns
      (λ r s'. Returns (Refunded demo empty) (cancel_policy demo r.0.0 s'))
      (purchase_policy demo 1 1 RiskType.project_failure (pos 30) empty)
unfolding ◌-ℤ◌
purchase-cancel_example =
    purchase-cancel demo 1 1 RiskType.project_failure (pos 30) small_pool empty (λ h. cc) (λ h. cc)
      (omega arith) refl refl (holder, refl) (omega arith)
