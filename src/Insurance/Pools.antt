-- ===== src/Insurance/Pools.antt =====
-- insurance/pool.service.ts over common/repositories/insurance-pool.repository.ts.
pub mod Capital
pub mod Unlock
use stellar_insured_backend.Prelude.{Option, ℕ}
use stellar_insured_backend.Prelude.Int.{leb_ℤ, ltb_ℤ, pos, ℤ, ◌+ℤ◌, ◌-ℤ◌}
use stellar_insured_backend.Database.{
  Tx, bad_request, gets, guard, not_found, or_throw, pure, update_row, ◌>>=◌, ◌>>◌,
}
use stellar_insured_backend.Model.{Client, Db, Entity, Pool, on_pools}
use stellar_insured_backend.Audit.{log_add_capital, log_unlock_capital, log_update}

module _ (c : Client) where
  unfoldable pub find_by_id_required : ℕ → Tx (Db c) (Option Pool)
  find_by_id_required id = gets (λ s. c.pools.find s.pools id)

  unfoldable pub increment_capital : ℕ → ℤ → Tx (Db c) Pool
  increment_capital id amount =
      on_pools (update_row c.pools id (λ p. record p { capital = p.capital +ℤ amount }))

  unfoldable pub increment_locked_capital : ℕ → ℤ → Tx (Db c) Pool
  increment_locked_capital id amount =
      on_pools
        (update_row c.pools id (λ p. record p { locked_capital = p.locked_capital +ℤ amount }))

  unfoldable pub decrement_locked_capital : ℕ → ℤ → Tx (Db c) Pool
  decrement_locked_capital id amount =
      on_pools
        (update_row c.pools id (λ p. record p { locked_capital = p.locked_capital -ℤ amount }))

  unfoldable pub add_capital : ℕ → ℤ → Tx (Db c) Pool
  unfolding find_by_id_required increment_capital log_add_capital
  add_capital id amount = do
    guard (ltb_ℤ (pos 0) amount) bad_request
    or_throw (← find_by_id_required id) not_found
    updated ← increment_capital id amount
    log_add_capital Entity.pool id
    pure updated

  unfoldable pub lock_capital : ℕ → ℤ → Tx (Db c) Pool
  unfolding find_by_id_required increment_locked_capital log_update
  lock_capital id amount = do
    guard (ltb_ℤ (pos 0) amount) bad_request
    or_throw (← find_by_id_required id) not_found
    updated ← increment_locked_capital id amount
    log_update Entity.pool id
    pure updated

  unfoldable pub unlock_capital : ℕ → ℤ → Tx (Db c) Pool
  unfolding find_by_id_required decrement_locked_capital log_unlock_capital
  unlock_capital id amount = do
    guard (ltb_ℤ (pos 0) amount) bad_request
    or_throw (← find_by_id_required id) not_found
    updated ← decrement_locked_capital id amount
    guard (leb_ℤ (pos 0) (updated.capital -ℤ updated.locked_capital)) bad_request
    log_unlock_capital Entity.pool id
    pure updated
