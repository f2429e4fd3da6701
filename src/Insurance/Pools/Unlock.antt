-- ===== src/Insurance/Pools/Unlock.antt =====
-- What a successful unlock found and wrote.
use stellar_insured_backend.Prelude.{
  Bool-cases, Option-cases, arith, inl, inr, none, some, sym, ℕ, ◌≡◌, ◌⊎◌,
}
use stellar_insured_backend.Prelude.Int.{leb_ℤ, pos, ℤ, ◌≤ℤ◌}
use stellar_insured_backend.Database.{bad_request, err, not_found, ok, ok-ne-err, ok_unique}
use stellar_insured_backend.Model.{AuditAction, Client, Db, Pool}
use stellar_insured_backend.Insurance.Pools.{unlock_capital}
use stellar_insured_backend.Insurance.Pools.Capital.{
  available, pool_at, released, unlock_capital_of_live, unlock_capital_refused, with_pool,
}

module _ (c : Client) where
  unlock_capital_nonpositive :
      (id : ℕ) (amount : ℤ) (s : Db c)
      → ¬ (pos 1 ≤ℤ amount)
      → unlock_capital c id amount s ≡ err bad_request
  unfolding unlock_capital
  unlock_capital_nonpositive id amount s h = ground arith

  unlock_capital_of_missing :
      (id : ℕ) (amount : ℤ) (s : Db c)
      → pool_at c s id ≡ none
      → pos 1 ≤ℤ amount
      → unlock_capital c id amount s ≡ err not_found
  unfolding unlock_capital
  unlock_capital_of_missing id amount s h positive = ground arith

  -- The pool found, the amount positive, enough capital for what stays locked, and the new state.
  pub record Unlocked (id : ℕ) (amount : ℤ) (s : Db c) (q : Pool) (s' : Db c) : Type 0 where
    pub before : Pool
    pub live : pool_at c s id ≡ some before
    pub positive : pos 1 ≤ℤ amount
    pub covered : pos 0 ≤ℤ available (released c amount before)
    pub result : q ≡ released c amount before
    pub state : s' ≡ with_pool c id (released c amount before) AuditAction.unlock_capital s

  le_or_not : (a b : ℤ) → (a ≤ℤ b) ⊎ (¬ (a ≤ℤ b))
  le_or_not a b = elim (Bool-cases (leb_ℤ a b)) [
    | inl le ↦ inl (ground arith)
    | inr gt ↦ inr λ h. ground arith
  ]

  -- An unlock that returns found the pool, was of a positive amount, left the capital at least what
  -- stays locked, and wrote the pool with the amount taken off its locked capital, and one audit
  -- row.
  pub unlock_capital_lem :
      (id : ℕ) (amount : ℤ) (q : Pool) (s s' : Db c)
      → unlock_capital c id amount s ≡ ok (q, s')
      → Unlocked id amount s q s'
  unlock_capital_lem id amount q s s' e = elim (le_or_not (pos 1) amount) [
    | inr small ↦ absurd (ok-ne-err e (unlock_capital_nonpositive id amount s small))
    | inl positive ↦ elim (Option-cases (pool_at c s id)) [
      | inl missing ↦ absurd (ok-ne-err e (unlock_capital_of_missing id amount s missing positive))
      | inr (p, live) ↦ elim (le_or_not (pos 0) (available (released c amount p))) [
        | inr short ↦ absurd (ok-ne-err e (unlock_capital_refused c id amount p s live short))
        | inl covered ↦
            let (value, state) =
              ok_unique (unlock_capital_of_live c id amount p s live positive covered) e in
            record {
              before = p;
              live = live;
              positive = positive;
              covered = covered;
              result = sym value;
              state = sym state;
            }
      ]
    ]
  ]
