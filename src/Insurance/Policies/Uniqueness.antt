-- ===== src/Insurance/Policies/Uniqueness.antt =====
-- A user has at most one open policy in a pool.
use stellar_insured_backend.Prelude.{
  Option, Option-cases, ap, arith, inl, inr, none, some, subst, sym, true, true-ne-false, ℕ, ◌∙◌,
  ◌≡◌,
}
use stellar_insured_backend.Prelude.Int.{pos, ℤ, ◌≤ℤ◌}
use stellar_insured_backend.Database.{ok}
use stellar_insured_backend.Model.{Client, Db, Policy, Pool, RiskType}
use stellar_insured_backend.Notification.{Prepared}
use stellar_insured_backend.Insurance.Policies.{is_open_for, purchase_policy}
use stellar_insured_backend.Insurance.Policies.Purchase.{
  Bought, Purchased, new_policy, policy_at, purchase_found, purchase_policy_lem,
}

module _ (c : Client) where
  -- At most one live policy of a user in a pool is ACTIVE or PENDING.
  abbrev pub AtMostOneOpen : Db c → Type 0
  AtMostOneOpen s =
      (user_id pool_id k j : ℕ) (p q : Policy)
      → policy_at c s k ≡ some p
      → policy_at c s j ≡ some q
      → is_open_for user_id pool_id p ≡ true
      → is_open_for user_id pool_id q ≡ true
      → k ≡ j

  is_open_for-new :
      (user_id pool_id u l : ℕ) (risk_type : RiskType) (amount : ℤ)
      → is_open_for u l (new_policy c user_id pool_id risk_type amount) ≡ true
      → (user_id ≡ u) × (pool_id ≡ l)
  is_open_for-new user_id pool_id u l risk_type amount h = ground arith

  Bought-AtMostOneOpen :
      (user_id pool_id : ℕ) (risk_type : RiskType) (amount : ℤ) (p : Pool) (s s' : Db c)
      (r : (ℕ × Policy) × Option Prepared)
      → c.policies.find_first s.policies (is_open_for user_id pool_id) ≡ none
      → AtMostOneOpen s
      → Bought c user_id pool_id risk_type amount p s r s'
      → AtMostOneOpen s'
  Bought-AtMostOneOpen user_id pool_id risk_type amount p s s' r free old b u l k j x y fx fy ox
        oy =
      let row = new_policy c user_id pool_id risk_type amount in
      let id = c.policies.fresh s.policies in
      let at = λ (i : ℕ).
        ap (λ t. c.policies.find t i) b.policies ∙ c.policies.find-save s.policies id i row in
      ground (
        arith,
        at k,
        at j,
        fx,
        fy,
        is_open_for-new user_id pool_id u l risk_type amount,
        old u l k j x y,
        c.policies.find_first_complete s.policies (is_open_for user_id pool_id) k x free,
        c.policies.find_first_complete s.policies (is_open_for user_id pool_id) j y free,
      )

  -- A purchase keeps it true that a user has at most one live ACTIVE or PENDING policy in a pool.
  pub purchase-AtMostOneOpen :
      (user_id pool_id : ℕ) (risk_type : RiskType) (amount : ℤ) (s s' : Db c)
      (r : (ℕ × Policy) × Option Prepared)
      → AtMostOneOpen s
      → purchase_policy c user_id pool_id risk_type amount s ≡ ok (r, s')
      → AtMostOneOpen s'
  purchase-AtMostOneOpen user_id pool_id risk_type amount s s' r old e =
      elim (purchase_policy_lem c user_id pool_id risk_type amount s s' r e).1 [
        | inl (there, same) ↦ subst AtMostOneOpen (sym same) old
        | inr (p, free, live, b) ↦
            Bought-AtMostOneOpen user_id pool_id risk_type amount p s s' r free old b
      ]

  is_open_for_self :
      (user_id pool_id : ℕ) (risk_type : RiskType) (amount : ℤ)
      → is_open_for user_id pool_id (new_policy c user_id pool_id risk_type amount) ≡ true
  is_open_for_self user_id pool_id risk_type amount = ground arith

  Purchased-open :
      (user_id pool_id : ℕ) (risk_type : RiskType) (amount : ℤ) (s s' : Db c)
      (r : (ℕ × Policy) × Option Prepared)
      → Purchased c user_id pool_id risk_type amount s r s'
      → (k : ℕ) × (q : Policy) × (policy_at c s' k ≡ some q)
        × (is_open_for user_id pool_id q ≡ true)
  Purchased-open user_id pool_id risk_type amount s s' r (inl (there, same)) =
      let (row, passes) =
        c.policies.find_first_sound s.policies (is_open_for user_id pool_id) r.0.0 r.0.1 there in
      (r.0.0, r.0.1, ap (λ t. policy_at c t r.0.0) same ∙ row, passes)
  Purchased-open user_id pool_id risk_type amount s s' r (inr (p, free, live, b)) =
      let row = new_policy c user_id pool_id risk_type amount in
      let id = c.policies.fresh s.policies in
      (
        id,
        row,
        ap (λ t. c.policies.find t id) b.policies
            ∙ ground (arith, c.policies.find-save s.policies id id row),
        is_open_for_self user_id pool_id risk_type amount,
      )

  find_open :
      (user_id pool_id k : ℕ) (q : Policy) (s : Db c)
      → policy_at c s k ≡ some q
      → is_open_for user_id pool_id q ≡ true
      → (found : ℕ × Policy) × (c.policies.find_first s.policies (is_open_for user_id pool_id)
          ≡ some found)
  find_open user_id pool_id k q s row passes =
      elim (Option-cases (c.policies.find_first s.policies (is_open_for user_id pool_id))) [
        | inl free ↦ absurd (
            true-ne-false (
              sym passes
              ∙ c.policies.find_first_complete s.policies (is_open_for user_id pool_id) k q free
                  row))
        | inr (found, there) ↦ (found, there)
      ]

  -- After a purchase that returned, a second valid purchase by the same user in the same pool finds an
  -- open policy of theirs there, returns it, prepares no notification and changes nothing.
  purchase_again :
      (user_id pool_id : ℕ) (risk_type risk_type' : RiskType) (amount amount' : ℤ) (s s' : Db c)
      (r : (ℕ × Policy) × Option Prepared)
      → purchase_policy c user_id pool_id risk_type amount s ≡ ok (r, s')
      → pos 1 ≤ℤ amount'
      → (found : ℕ × Policy) × (purchase_policy c user_id pool_id risk_type' amount' s'
          ≡ ok ((found, none), s'))
        × (policy_at c s' found.0 ≡ some found.1)
        × (is_open_for user_id pool_id found.1 ≡ true)
  purchase_again user_id pool_id risk_type risk_type' amount amount' s s' r e positive =
      let (v, was) = purchase_policy_lem c user_id pool_id risk_type amount s s' r e in
      let (k, q, row, passes) = Purchased-open user_id pool_id risk_type amount s s' r was in
      let (found, there) = find_open user_id pool_id k q s' row passes in
      let (stored, open_) =
        c.policies.find_first_sound s'.policies (is_open_for user_id pool_id) found.0 found.1
          there in
      (
        found,
        purchase_found c user_id pool_id risk_type' amount' s' (v.0, v.1, positive) found there,
        stored,
        open_,
      )
