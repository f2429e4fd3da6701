-- ===== src/Insurance/Policies/Purchase.antt =====
-- What a purchase writes.
use stellar_insured_backend.Insurance.Pools.{lock_capital}
use stellar_insured_backend.Prelude.{
  Bool-cases, Option, Option-cases, ap, arith, if◌then◌else◌, inl, inr, none, not, refl, some, sym,
  ℕ, ◌&&◌, ◌==◌, ◌||◌, ◌∙◌, ◌∷◌, ◌≡◌, ◌≢◌, ◌⊎◌,
}
use stellar_insured_backend.Prelude.Int.{ltb_ℤ, pos, ℤ, ◌≤ℤ◌}
use stellar_insured_backend.Database.{
  Returns, Returns-bind, Returns-eq_ok, bad_request, err, foreign_key_violation, not_found, ok,
  ok-ne-err, ok_unique, pure, ◌>>=◌,
}
use stellar_insured_backend.Model.{
  AuditAction, Client, Db, Entity, NotificationType, Policy, PolicyStatus, Pool, RiskType, User,
}
use stellar_insured_backend.Notification.{Prepared, prepare_notification}
use stellar_insured_backend.Notification.Rows.{
  Prepares, Prepares-SameBusiness, prepare_notification_lem,
}
use stellar_insured_backend.Insurance.Pools.Capital.{
  audit_row, lock_capital_of_live, locked, pool_at, with_pool,
}
use stellar_insured_backend.Insurance.Policies.{
  calculate_premium, is_open_for, purchase_new, purchase_policy, round_cents,
}

module _ (c : Client) where
  abbrev pub policy_at : Db c → ℕ → Option Policy
  policy_at s id = c.policies.find s.policies id

  -- The row that a purchase creates.
  abbrev pub new_policy : ℕ → ℕ → RiskType → ℤ → Policy
  new_policy user_id pool_id risk_type amount = record {
    user_id = user_id;
    pool_id = pool_id;
    risk_type = risk_type;
    status = PolicyStatus.active;
    premium = round_cents (calculate_premium risk_type amount);
    coverage_amount = amount;
    end_date = none;
  }

  -- The state before the notification of a purchase is prepared.
  abbrev bought : ℕ → Pool → Policy → Db c → Db c
  bought pool_id p row s =
      let id = c.policies.fresh s.policies in
      let s₁ = with_pool c pool_id p AuditAction.update s in
      record s₁ {
        policies = c.policies.save s.policies id row;
        audit_log = audit_row AuditAction.purchase Entity.policy id ∷ s₁.audit_log;
      }

  -- A purchase by a user with no open policy in the pool, as a relation between two states.
  pub record Bought (user_id pool_id : ℕ) (risk_type : RiskType) (amount : ℤ) (p : Pool) (s : Db c)
      (r : (ℕ × Policy) × Option Prepared) (s' : Db c) : Type 0 where
    pub created : r.0 ≡ (c.policies.fresh s.policies, new_policy user_id pool_id risk_type amount)
    pub pool :
        (k : ℕ)
        → pool_at c s' k ≡ (if pool_id == k then some (locked c amount p) else pool_at c s k)
    pub policies :
        s'.policies
        ≡ c.policies.save s.policies
            (c.policies.fresh s.policies)
            (new_policy user_id pool_id risk_type amount)
    pub claims : s'.claims ≡ s.claims

  -- The user has a row, deleted or not.
  abbrev pub HasUser : Db c → ℕ → Type 0
  HasUser s user_id = (u : User) × (c.users.include s.users user_id ≡ some u)

  pub purchase_new_lem :
      (user_id pool_id : ℕ) (risk_type : RiskType) (amount : ℤ) (p : Pool) (s : Db c)
      → pool_at c s pool_id ≡ some p
      → HasUser s user_id
      → pos 1 ≤ℤ amount
      → Returns
          (Bought user_id pool_id risk_type amount p s)
          (purchase_new c user_id pool_id risk_type amount s)
  unfolding purchase_new
  purchase_new_lem user_id pool_id risk_type amount p s live (u, user) positive =
      let row = new_policy user_id pool_id risk_type amount in
      let id = c.policies.fresh s.policies in
      let s₁ = bought pool_id (locked c amount p) row s in
      let t = with_pool c pool_id (locked c amount p) AuditAction.update s in
      let pool =
        c.pools.include-find t.pools pool_id (locked c amount p)
          (ground (arith, c.pools.find-save s.pools pool_id pool_id (locked c amount p))) in
      rw (lock_capital_of_live c pool_id amount p s live positive, ◌>>=◌, user, pool)
        (Returns-bind (Prepares c user_id NotificationType.policy_purchased id s₁)
          (Bought user_id pool_id risk_type amount p s)
          (prepare_notification c user_id NotificationType.policy_purchased id)
          (λ r. pure ((id, row), r)) s₁
          (prepare_notification_lem c user_id NotificationType.policy_purchased id s₁)
          λ r t h.
            let b = Prepares-SameBusiness c user_id NotificationType.policy_purchased id r s₁ t h in
            record {
              created = refl;
              pool = λ k. rw b.pools (c.pools.find-save s.pools pool_id k (locked c amount p));
              policies = b.policies;
              claims = b.claims;
            })

  lock_capital_of_missing :
      (id : ℕ) (amount : ℤ) (s : Db c)
      → pool_at c s id ≡ none
      → pos 1 ≤ℤ amount
      → lock_capital c id amount s ≡ err not_found
  unfolding lock_capital
  lock_capital_of_missing id amount s h positive = ground arith

  -- How a successful purchase went: an open policy was found and nothing changed, or one was bought.
  abbrev pub Purchased :
      ℕ → ℕ → RiskType → ℤ → Db c → (ℕ × Policy) × Option Prepared → Db c → Type 0
  Purchased user_id pool_id risk_type amount s r s' =
      ((c.policies.find_first s.policies (is_open_for user_id pool_id) ≡ some r.0) × (s' ≡ s))
      ⊎ ((p : Pool) × (c.policies.find_first s.policies (is_open_for user_id pool_id) ≡ none)
          × (pool_at c s pool_id ≡ some p)
          × Bought user_id pool_id risk_type amount p s r s')

  abbrev pub Valid : ℕ → ℕ → ℤ → Type 0
  Valid user_id pool_id amount = (user_id ≢ 0) × (pool_id ≢ 0) × (pos 1 ≤ℤ amount)

  purchase_policy_of_Valid :
      (user_id pool_id : ℕ) (risk_type : RiskType) (amount : ℤ) (s : Db c)
      → Valid user_id pool_id amount
      → purchase_policy c user_id pool_id risk_type amount s
        ≡ (elim (c.policies.find_first s.policies (is_open_for user_id pool_id)) [
          | some found ↦ ok ((found, none), s)
          | none ↦ purchase_new c user_id pool_id risk_type amount s
        ])
  unfolding purchase_policy
  purchase_policy_of_Valid user_id pool_id risk_type amount s v = ground arith

  purchase_policy_of_invalid :
      (user_id pool_id : ℕ) (risk_type : RiskType) (amount : ℤ) (s : Db c)
      → ¬ Valid user_id pool_id amount
      → purchase_policy c user_id pool_id risk_type amount s ≡ err bad_request
  unfolding purchase_policy
  purchase_policy_of_invalid user_id pool_id risk_type amount s v = ground arith

  pub purchase_found :
      (user_id pool_id : ℕ) (risk_type : RiskType) (amount : ℤ) (s : Db c)
      → Valid user_id pool_id amount
      → (found : ℕ × Policy)
      → c.policies.find_first s.policies (is_open_for user_id pool_id) ≡ some found
      → purchase_policy c user_id pool_id risk_type amount s ≡ ok ((found, none), s)
  purchase_found user_id pool_id risk_type amount s v found e =
      rw (purchase_policy_of_Valid user_id pool_id risk_type amount s v) (rw e)

  pub purchase_free :
      (user_id pool_id : ℕ) (risk_type : RiskType) (amount : ℤ) (s : Db c)
      → Valid user_id pool_id amount
      → c.policies.find_first s.policies (is_open_for user_id pool_id) ≡ none
      → purchase_policy c user_id pool_id risk_type amount s
        ≡ purchase_new c user_id pool_id risk_type amount s
  purchase_free user_id pool_id risk_type amount s v e =
      rw (purchase_policy_of_Valid user_id pool_id risk_type amount s v) (rw e)

  purchase_new_of_missing :
      (user_id pool_id : ℕ) (risk_type : RiskType) (amount : ℤ) (s : Db c)
      → pos 1 ≤ℤ amount
      → pool_at c s pool_id ≡ none
      → purchase_new c user_id pool_id risk_type amount s ≡ err not_found
  unfolding purchase_new
  purchase_new_of_missing user_id pool_id risk_type amount s positive missing =
      rw (lock_capital_of_missing pool_id amount s missing positive, ◌>>=◌)

  purchase_new_of_no_user :
      (user_id pool_id : ℕ) (risk_type : RiskType) (amount : ℤ) (p : Pool) (s : Db c)
      → pos 1 ≤ℤ amount
      → pool_at c s pool_id ≡ some p
      → c.users.include s.users user_id ≡ none
      → purchase_new c user_id pool_id risk_type amount s ≡ err foreign_key_violation
  unfolding purchase_new
  purchase_new_of_no_user user_id pool_id risk_type amount p s positive live nobody =
      rw (lock_capital_of_live c pool_id amount p s live positive, ◌>>=◌, nobody) refl

  Valid-dec :
      (user_id pool_id : ℕ) (amount : ℤ)
      → Valid user_id pool_id amount ⊎ (¬ Valid user_id pool_id amount)
  Valid-dec user_id pool_id amount =
      elim (Bool-cases (not (user_id == 0 || pool_id == 0) && ltb_ℤ (pos 0) amount)) [
        | inl yes_ ↦ inl (ground arith)
        | inr no_ ↦ inr λ v. ground arith
      ]

  -- Every purchase that returns was of a positive amount and either found an open policy of the user
  -- in the pool and changed nothing, or found none and found the pool: then it stored one ACTIVE
  -- policy under a new id, with the amount as its coverage and the premium of its risk type, rounded
  -- to cents, added the amount to what this pool has locked, left the other pools and every claim as they were, and
  -- returned the new policy.
  pub purchase_policy_lem :
      (user_id pool_id : ℕ) (risk_type : RiskType) (amount : ℤ) (s s' : Db c)
      (r : (ℕ × Policy) × Option Prepared)
      → purchase_policy c user_id pool_id risk_type amount s ≡ ok (r, s')
      → Valid user_id pool_id amount × Purchased user_id pool_id risk_type amount s r s'
  purchase_policy_lem user_id pool_id risk_type amount s s' r e =
      elim (Valid-dec user_id pool_id amount) [
        | inr bad ↦
            absurd (ok-ne-err e (purchase_policy_of_invalid user_id pool_id risk_type amount s bad))
        | inl v ↦
            elim (Option-cases (c.policies.find_first s.policies (is_open_for user_id pool_id))) [
              | inl free ↦ elim (Option-cases (pool_at c s pool_id)) [
                | inl missing ↦ absurd (
                    ok-ne-err e (
                      purchase_free user_id pool_id risk_type amount s v free
                      ∙ purchase_new_of_missing user_id pool_id risk_type amount s v.2 missing))
                | inr (p, live) ↦ elim (Option-cases (c.users.include s.users user_id)) [
                  | inl nobody ↦ absurd (
                      ok-ne-err e (
                        purchase_free user_id pool_id risk_type amount s v free
                        ∙ purchase_new_of_no_user user_id pool_id risk_type amount p s v.2 live
                            nobody))
                  | inr user ↦ (
                    v,
                    inr (
                      p,
                      free,
                      live,
                      Returns-eq_ok (Bought user_id pool_id risk_type amount p s)
                          (sym (purchase_free user_id pool_id risk_type amount s v free) ∙ e)
                          (purchase_new_lem user_id pool_id risk_type amount p s live user v.2),
                    ),
                  )
                ]
              ]
              | inr (found, there) ↦
                  let (value, state) =
                    ok_unique (purchase_found user_id pool_id risk_type amount s v found there) e in
                  (v, inl (there ∙ ap (λ x. some (x.0)) value, sym state))
            ]
      ]
