-- ===== src/Insurance/Reinsurance.antt =====
-- insurance/reinsurance.service.ts over common/repositories/reinsurance-contract.repository.ts. A
-- row that findUnique gives through the middleware has no deletedAt; the service tests it all the same.
pub mod Release
use stellar_insured_backend.Prelude.{Option, if◌then◌else◌, is_some, none, some, ℕ}
use stellar_insured_backend.Prelude.Int.{ℤ}
use stellar_insured_backend.Database.{
  Tx, bad_request, create_row, delete_row, err, foreign_key_violation, ok, or_throw, pure, ◌>>=◌,
  ◌>>◌,
}
use stellar_insured_backend.Model.{Client, Contract, Db, Entity, on_contracts}
use stellar_insured_backend.Audit.{log_create, log_delete}
use stellar_insured_backend.Insurance.Pools.Capital.{released}

module _ (c : Client) where
  abbrev pub contract_row : ℕ → ℤ → ℤ → Contract
  contract_row pool_id coverage_limit premium_rate = record {
    pool_id = pool_id;
    coverage_limit = coverage_limit;
    premium_rate = premium_rate;
  }

  -- The contract and its deletedAt.
  unfoldable pub find_by_id_strict : ℕ → Tx (Db c) (Option (Contract × Option ℕ))
  find_by_id_strict id s = elim (c.contracts.find s.contracts id) [
    | none ↦ ok (none, s)
    | some x ↦ ok (some (x, none), s)
  ]

  unfoldable pub delete_contract : ℕ → Tx (Db c) Contract
  delete_contract id = on_contracts (delete_row c.contracts id)

  -- The create of the repository; the pool is a foreign key, which a deleted row satisfies too.
  unfoldable pub insert_contract : Contract → Tx (Db c) (ℕ × Contract)
  insert_contract row s = elim (c.pools.include s.pools row.pool_id) [
    | none ↦ err foreign_key_violation
    | some _ ↦ on_contracts (create_row c.contracts row) s
  ]

  unfoldable pub create_contract : ℕ → ℤ → ℤ → Tx (Db c) (ℕ × Contract)
  unfolding log_create insert_contract
  create_contract pool_id coverage_limit premium_rate = do
    contract ← insert_contract (contract_row pool_id coverage_limit premium_rate)
    log_create Entity.contract contract.0
    pure contract

  unfoldable pub release_contract : ℕ → Tx (Db c) Contract
  unfolding find_by_id_strict delete_contract log_delete
  release_contract id = do
    found ← find_by_id_strict id
    existing ← or_throw found bad_request
    if is_some existing.1
        then pure existing.0
        else (do released ← delete_contract id; log_delete Entity.contract id; pure released)
