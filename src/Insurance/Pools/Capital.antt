-- ===== src/Insurance/Pools/Capital.antt =====
-- What the three operations do to a pool.
use stellar_insured_backend.Prelude.{
  Option, ap, arith, if◌then◌else◌, none, some, ℕ, ◌==◌, ◌↔◌, ◌∙◌, ◌∷◌, ◌≡◌, ◌≢◌,
}
use stellar_insured_backend.Prelude.Int.{eq_of_parts, int_laws, pos, ℤ, ◌+ℤ◌, ◌-ℤ◌, ◌≤ℤ◌}
use stellar_insured_backend.Database.{bad_request, err, ok, ok-ne-err, ◌>>=◌, ◌>>◌}
use stellar_insured_backend.Model.{AuditAction, AuditLog, Client, Db, Entity, Pool}
use stellar_insured_backend.Insurance.Pools.{add_capital, lock_capital, unlock_capital}

abbrev pub audit_row : AuditAction → Entity → ℕ → AuditLog
audit_row action entity id = record {
  action = action;
  entity = entity;
  entity_id = id;
  reason = none;
}

-- The capital of a pool that is not locked.
abbrev pub available : Pool → ℤ
available p = p.capital -ℤ p.locked_capital

module _ (c : Client) where
  -- A state in which the row of one pool is replaced and an audit row is in front.
  abbrev pub with_pool : ℕ → Pool → AuditAction → Db c → Db c
  with_pool id p action s = record s {
    pools = c.pools.save s.pools id p;
    audit_log = audit_row action Entity.pool id ∷ s.audit_log;
  }

  abbrev pub grown : ℤ → Pool → Pool
  grown amount p = record p { capital = p.capital +ℤ amount }

  abbrev pub locked : ℤ → Pool → Pool
  locked amount p = record p { locked_capital = p.locked_capital +ℤ amount }

  abbrev pub released : ℤ → Pool → Pool
  released amount p = record p { locked_capital = p.locked_capital -ℤ amount }

  pub add_capital_of_live :
      (id : ℕ) (amount : ℤ) (p : Pool) (s : Db c)
      → c.pools.find s.pools id ≡ some p
      → pos 1 ≤ℤ amount
      → add_capital c id amount s
        ≡ ok (grown amount p, with_pool id (grown amount p) AuditAction.add_capital s)
  unfolding add_capital
  add_capital_of_live id amount p s h positive = ground arith

  pub lock_capital_of_live :
      (id : ℕ) (amount : ℤ) (p : Pool) (s : Db c)
      → c.pools.find s.pools id ≡ some p
      → pos 1 ≤ℤ amount
      → lock_capital c id amount s
        ≡ ok (locked amount p, with_pool id (locked amount p) AuditAction.update s)
  unfolding lock_capital
  lock_capital_of_live id amount p s h positive = ground arith

  pub unlock_capital_of_live :
      (id : ℕ) (amount : ℤ) (p : Pool) (s : Db c)
      → c.pools.find s.pools id ≡ some p
      → pos 1 ≤ℤ amount
      → pos 0 ≤ℤ available (released amount p)
      → unlock_capital c id amount s
        ≡ ok (released amount p, with_pool id (released amount p) AuditAction.unlock_capital s)
  unfolding unlock_capital
  unlock_capital_of_live id amount p s h positive covered = ground arith

  -- The pool that a state holds under an id.
  abbrev pub pool_at : Db c → ℕ → Option Pool
  pool_at s id = c.pools.find s.pools id

  pub unlock_capital_refused :
      (id : ℕ) (amount : ℤ) (p : Pool) (s : Db c)
      → pool_at s id ≡ some p
      → ¬ (pos 0 ≤ℤ available (released amount p))
      → unlock_capital c id amount s ≡ err bad_request
  unfolding unlock_capital
  unlock_capital_refused id amount p s h short = ground arith

  -- Locking a positive amount and then unlocking it succeeds for a live pool whose locked capital is
  -- within its capital, and gives back its row and those of all other pools.
  lock-unlock :
      (id : ℕ) (amount : ℤ) (p : Pool) (s : Db c)
      → pool_at s id ≡ some p
      → pos 1 ≤ℤ amount
      → pos 0 ≤ℤ available p
      → (s' : Db c) × ((lock_capital c id amount >> unlock_capital c id amount) s ≡ ok (p, s'))
        × ((k : ℕ) → pool_at s' k ≡ pool_at s k)
  lock-unlock id amount p s h positive covered =
      let s₁ = with_pool id (locked amount p) AuditAction.update s in
      let back : released amount (locked amount p) ≡ p = λ i. record p {
        locked_capital =
            eq_of_parts ((p.locked_capital +ℤ amount) -ℤ amount) p.locked_capital (omega int_laws)
              i;
      } in
      let stored : pool_at s₁ id ≡ some (locked amount p) =
        ground (arith, c.pools.find-save s.pools id id (locked amount p)) in
      (
        with_pool id p AuditAction.unlock_capital s₁,
        rw (lock_capital_of_live id amount p s h positive, ◌>>=◌)
            (unlock_capital_of_live id amount (locked amount p) s₁ stored positive (omega int_laws)
              ∙ ap (λ q. ok (q, with_pool id q AuditAction.unlock_capital s₁)) back),
        λ k. ground (
          arith,
          h,
          c.pools.find-save s.pools id k (locked amount p),
          c.pools.find-save s₁.pools id k p,
        ),
      )

  -- Unlocking a positive amount of a live pool is refused exactly when the capital would fall short of
  -- what is still locked afterwards; a pool whose locked capital is within its capital is never refused.
  unlock_capital_refused_iff :
      (id : ℕ) (amount : ℤ) (p : Pool) (s : Db c)
      → pool_at s id ≡ some p
      → pos 1 ≤ℤ amount
      → ((unlock_capital c id amount s ≡ err bad_request)
          ↔ (¬ (pos 0 ≤ℤ available (released amount p))))
        × (pos 0 ≤ℤ available p → unlock_capital c id amount s ≢ err bad_request)
  unlock_capital_refused_iff id amount p s h positive =
      let succeeds = unlock_capital_of_live id amount p s h positive in
      let fails = unlock_capital_refused id amount p s h in
      (
        (λ e covered. ok-ne-err (succeeds covered) e, fails),
        λ covered e. ok-ne-err (succeeds (omega int_laws)) e,
      )

  -- A positive lock of a live pool always succeeds, however little capital it has: it returns and
  -- stores the pool with the amount added to what is locked and leaves the other pools as they were,
  -- and what is locked is within the capital afterwards exactly when the amount was within the capital
  -- that was available.
  pub lock_capital_overcommits :
      (id : ℕ) (amount : ℤ) (p : Pool) (s : Db c)
      → pool_at s id ≡ some p
      → pos 1 ≤ℤ amount
      → (s' : Db c) × (lock_capital c id amount s ≡ ok (locked amount p, s'))
        × ((k : ℕ) → pool_at s' k ≡ (if id == k then some (locked amount p) else pool_at s k))
        × ((pos 0 ≤ℤ available (locked amount p)) ↔ (amount ≤ℤ available p))
  lock_capital_overcommits id amount p s h positive = (
    with_pool id (locked amount p) AuditAction.update s,
    lock_capital_of_live id amount p s h positive,
    λ k. c.pools.find-save s.pools id k (locked amount p),
    (λ covered. omega int_laws, λ within. omega int_laws),
  )
