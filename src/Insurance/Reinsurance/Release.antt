-- ===== src/Insurance/Reinsurance/Release.antt =====
-- The life of a reinsurance contract.
use stellar_insured_backend.Prelude.{Option, arith, none, refl, some, ℕ, ◌∷◌, ◌≡◌}
use stellar_insured_backend.Prelude.Int.{ℤ}
use stellar_insured_backend.Database.{Returns, bad_request, err, foreign_key_violation, ok, ◌>>=◌}
use stellar_insured_backend.Model.{AuditAction, Client, Contract, Db, Entity, Pool}
use stellar_insured_backend.Insurance.Pools.Capital.{audit_row}
use stellar_insured_backend.Insurance.Reinsurance.{contract_row, create_contract, release_contract}

module _ (c : Client) where
  abbrev pub contract_at : Db c → ℕ → Option Contract
  contract_at s id = c.contracts.find s.contracts id

  release_contract_of_missing :
      (id : ℕ) (s : Db c) → contract_at s id ≡ none → release_contract c id s ≡ err bad_request
  unfolding release_contract
  release_contract_of_missing id s missing = ground arith

  release_contract_of_live :
      (id : ℕ) (x : Contract) (s : Db c)
      → contract_at s id ≡ some x
      → release_contract c id s
        ≡ ok (
          x,
          record s {
            contracts = c.contracts.remove s.contracts id;
            audit_log = audit_row AuditAction.delete Entity.contract id ∷ s.audit_log;
          },
        )
  unfolding release_contract
  release_contract_of_live id x s live = ground arith

  -- A contract that a creation stored is released, and only once.
  abbrev pub Released : ℕ → ℤ → ℤ → Db c → ℕ × Contract → Db c → Type 0
  Released pool_id coverage_limit premium_rate s r t =
      (r.1 ≡ contract_row c pool_id coverage_limit premium_rate)
      × Returns
          (λ y u.
            (y ≡ r.1)
            × (contract_at u r.0 ≡ none)
            × ((k : ℕ) → contract_at u k ≡ contract_at s k)
            × (release_contract c r.0 u ≡ err bad_request))
          (release_contract c r.0 t)

  created-Released :
      (pool_id : ℕ) (coverage_limit premium_rate : ℤ) (s : Db c)
      → let id = c.contracts.fresh s.contracts in
        let x = contract_row c pool_id coverage_limit premium_rate in
        Released pool_id coverage_limit premium_rate s
          (id, x)
          (record s {
            contracts = c.contracts.save s.contracts id x;
            audit_log = audit_row AuditAction.create Entity.contract id ∷ s.audit_log;
          })
  created-Released pool_id coverage_limit premium_rate s =
      let id = c.contracts.fresh s.contracts in
      let x = contract_row c pool_id coverage_limit premium_rate in
      let t = record s {
        contracts = c.contracts.save s.contracts id x;
        audit_log = audit_row AuditAction.create Entity.contract id ∷ s.audit_log;
      } in
      let u = record t {
        contracts = c.contracts.remove t.contracts id;
        audit_log = audit_row AuditAction.delete Entity.contract id ∷ t.audit_log;
      } in
      let live : contract_at t id ≡ some x =
        ground (arith, c.contracts.find-save s.contracts id id x) in
      let gone : contract_at u id ≡ none =
        ground (arith, c.contracts.find-remove t.contracts id id) in
      (
        refl,
        rw (release_contract_of_live id x t live, Returns)
            (
              refl,
              gone,
              λ k. ground (
                arith,
                c.contracts.find-fresh s.contracts,
                c.contracts.find-remove t.contracts id k,
                c.contracts.find-save s.contracts id k x,
              ),
              release_contract_of_missing id u gone,
            ),
      )

  create_contract_of_missing :
      (pool_id : ℕ) (coverage_limit premium_rate : ℤ) (s : Db c)
      → c.pools.include s.pools pool_id ≡ none
      → create_contract c pool_id coverage_limit premium_rate s ≡ err foreign_key_violation
  unfolding create_contract
  create_contract_of_missing pool_id coverage_limit premium_rate s missing =
      rw (missing, ◌>>=◌) refl

  -- For a pool that has a row, deleted or not, the creation of a contract succeeds with a contract of
  -- the given pool, limit and rate, which is released, once: its release returns it, no contract is
  -- found under its id any more, every contract that was there before is as it was, and a second
  -- release is refused as a bad request.
  pub create-release :
      (pool_id : ℕ) (coverage_limit premium_rate : ℤ) (p : Pool) (s : Db c)
      → c.pools.include s.pools pool_id ≡ some p
      → Returns
          (Released pool_id coverage_limit premium_rate s)
          (create_contract c pool_id coverage_limit premium_rate s)
  unfolding create_contract
  create-release pool_id coverage_limit premium_rate p s there =
      rw (there, ◌>>=◌) (created-Released pool_id coverage_limit premium_rate s)
