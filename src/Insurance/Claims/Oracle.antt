-- ===== src/Insurance/Claims/Oracle.antt =====
-- What verifyOracle of insurance/claim.service.ts answers.
use mathlib.Core.Bool.{false}
use stellar_insured_backend.Prelude.{
  Bool, Option-cases, arith, false, inl, inr, none, refl, some, sym, true, ℕ, ◌∙◌, ◌≡◌, ◌≤◌,
}
use stellar_insured_backend.Prelude.Int.{pos, ◌≤ℤ◌}
use stellar_insured_backend.Database.{Ensures, Result, Returns, err, ok}
use stellar_insured_backend.Model.{Claim, Client, Db, Policy, PolicyStatus}
use stellar_insured_backend.Audit.{create_log, log}
use stellar_insured_backend.Insurance.Claims.{
  find_by_id_with_policy, oracle_accepts, oracle_body, verify_oracle,
}
use stellar_insured_backend.Insurance.Claims.Frame.{SameClaims, claim_at}

module _ (c : Client) where
  pub find_of_live :
      (id : ℕ) (x : Claim) (s : Db c)
      → claim_at c s id ≡ some x
      → find_by_id_with_policy c id s
        ≡ ok (
          some (record { id = id; claim = x; policy = c.policies.include s.policies x.policy_id }),
          s,
        )
  unfolding find_by_id_with_policy
  find_of_live id x s live = rw (find_by_id_with_policy, live)

  pub find_of_missing :
      (id : ℕ) (s : Db c) → claim_at c s id ≡ none → find_by_id_with_policy c id s ≡ ok (none, s)
  unfolding find_by_id_with_policy
  find_of_missing id s missing = rw (find_by_id_with_policy, missing)

  -- What the oracle answers, and the audit row it may leave.
  oracle_answers :
      (now id : ℕ) (x : Claim) (p : Policy) (s : Db c)
      → claim_at c s id ≡ some x
      → c.policies.include s.policies x.policy_id ≡ some p
      → Ensures
          (λ v s'. SameClaims c s s' × (v ≡ oracle_accepts c now x p))
          (oracle_body c now id s)
  unfolding oracle_body find_by_id_with_policy log create_log
  oracle_answers now id x p s live included = ground arith

  -- An oracle that fails answers false, in the state it was asked in.
  pub verify_oracle_lem :
      (now id : ℕ) (x : Claim) (p : Policy) (s : Db c)
      → claim_at c s id ≡ some x
      → c.policies.include s.policies x.policy_id ≡ some p
      → Returns
          (λ v s'. SameClaims c s s' × (v ≡ true → oracle_accepts c now x p ≡ true))
          (verify_oracle c now id s)
  unfolding verify_oracle
  verify_oracle_lem now id x p s live included =
      go (oracle_body c now id s) (oracle_answers now id x p s live included)
    where
      go :
          (r : Result (Bool × Db c))
          → Ensures (λ v s'. SameClaims c s s' × (v ≡ oracle_accepts c now x p)) r
          → Returns
              (λ v s'. SameClaims c s s' × (v ≡ true → oracle_accepts c now x p ≡ true))
              (elim r [ ok r ↦ ok r | err _ ↦ ok (false, s) ])
      go (ok (v, t)) (same, e) = (same, λ h. sym e ∙ h)
      go (err e) h = ((refl, refl), λ h. cc)

  -- The conditions under which the code approves.
  pub record Payable (now : ℕ) (x : Claim) (p : Policy) : Type 0 where
    pub active : p.status ≡ PolicyStatus.active
    pub positive : pos 1 ≤ℤ x.claim_amount
    pub covered : x.claim_amount ≤ℤ p.coverage_amount
    pub not_ended : (end : ℕ) → p.end_date ≡ some end → now ≤ end

  pub oracle_accepts-Payable :
      (now : ℕ) (x : Claim) (p : Policy) → oracle_accepts c now x p ≡ true → Payable now x p
  unfolding oracle_accepts
  oracle_accepts-Payable now x p h = record {
    active = ground arith;
    positive = ground arith;
    covered = ground arith;
    not_ended = λ end e. ground arith;
  }

  pub Payable-oracle_accepts :
      (now : ℕ) (x : Claim) (p : Policy) → Payable now x p → oracle_accepts c now x p ≡ true
  unfolding oracle_accepts
  Payable-oracle_accepts now x p h =
      let a = h.active in
      let b = h.positive in
      let d = h.covered in
      elim (Option-cases p.end_date) [
        | inl open_end ↦ ground arith
        | inr (end, ends) ↦ let e = h.not_ended end ends in ground arith
      ]
