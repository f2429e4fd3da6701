-- ===== src/Insurance/Claims/Outcome.antt =====
-- What an assessment that returns has decided.
use stellar_insured_backend.Insurance.Claims.Oracle.{
  Payable, find_of_live, find_of_missing, oracle_accepts-Payable, verify_oracle_lem,
}
use stellar_insured_backend.Prelude.Int.{leb_ℤ}
use stellar_insured_backend.Notification.{Prepared}
use stellar_insured_backend.Insurance.Claims.Assess.{
  approve_claim, assess_claim, assess_pending, record_fraud, reject_claim,
}
use stellar_insured_backend.Insurance.Claims.Decision.{Decides, approve_claim_lem, reject_claim_lem}
use stellar_insured_backend.Database.{
  Ensures, Ensures-Returns, Ensures-bind, Ensures-if, Ensures-map, err, not_found, or_throw, pure,
  ◌>>=◌, ◌>>◌,
}
use stellar_insured_backend.Model.{
  Claim, ClaimStatus, Client, Db, Policy, Reason, exceeds_coverage, oracle_failed,
  policy_not_active,
}
use stellar_insured_backend.Insurance.Claims.{
  Calendar, ClaimWithPolicy, count_duplicates, count_recent, is_active, is_pending, oracle_accepts,
  run_fraud_detection, set_status, verify_oracle,
}
use stellar_insured_backend.Insurance.Claims.Frame.{
  SameClaims, SameClaims-trans, claim_at, record_fraud-SameClaims,
}
use stellar_insured_backend.Prelude.{
  Bool, Option, ap, false, if◌then◌else◌, inl, inr, none, not, refl, some, true, ℕ, ◌∙◌, ◌≡◌, ◌⊎◌,
}

module _ (c : Client) where
  -- The outcome of an assessment of a pending claim `x` under policy `p`: a rejection, or an
  -- approval of a payable claim in full.
  abbrev pub Assessed :
      ℕ → ℕ → Claim → Policy → Db c → ClaimWithPolicy × Option Prepared → Db c → Type 0
  Assessed now id x p s r s' =
      Decides c ClaimStatus.rejected none id x s r s'
      ⊎ (Payable c now x p × Decides c ClaimStatus.approved (some x.claim_amount) id x s r s')

  -- A rejection of the claim, in a state with the same claims.
  rejected_lem :
      (now id : ℕ) (reason : Reason) (x : Claim) (p : Policy) (s t : Db c)
      → claim_at c s id ≡ some x
      → SameClaims c s t
      → Ensures (Assessed now id x p s) (reject_claim c id reason p t)
  rejected_lem now id reason x p s t live (a, b) =
      Ensures-map (Decides c ClaimStatus.rejected none id x t) (Assessed now id x p s)
        (λ r u (v, d, e).
          inl (
            v,
            d ∙ ap (λ l. c.claims.save l id (set_status c ClaimStatus.rejected none x)) a,
            e ∙ b,
          ))
        (reject_claim c id reason p t)
        (reject_claim_lem c id reason p x t (ap (λ l. c.claims.find l id) a ∙ live))

  approved_lem :
      (now id : ℕ) (w : ClaimWithPolicy) (p : Policy) (s t : Db c)
      → claim_at c s id ≡ some w.claim
      → SameClaims c s t
      → Payable c now w.claim p
      → Ensures (Assessed now id w.claim p s) (approve_claim c id w p t)
  approved_lem now id w p s t live (a, b) payable =
      Ensures-map (Decides c ClaimStatus.approved (some w.claim.claim_amount) id w.claim t)
        (Assessed now id w.claim p s)
        (λ r u (v, d, e).
          let paid = set_status c ClaimStatus.approved (some w.claim.claim_amount) w.claim in
          let decides : Decides c ClaimStatus.approved (some w.claim.claim_amount) id w.claim s r
              u =
            (v, d ∙ ap (λ l. c.claims.save l id paid) a, e ∙ b) in
          inr (payable, decides))
        (approve_claim c id w p t)
        (approve_claim_lem c id p w w.claim t (ap (λ l. c.claims.find l id) a ∙ live))

  -- The oracle's part: approval if it accepts.
  verified_lem :
      (now id : ℕ) (w : ClaimWithPolicy) (p : Policy) (s t : Db c)
      → claim_at c s id ≡ some w.claim
      → c.policies.include s.policies w.claim.policy_id ≡ some p
      → SameClaims c s t
      → Ensures (Assessed now id w.claim p s) (
          (verify_oracle c now id >>= λ verified.
          if verified then approve_claim c id w p else reject_claim c id oracle_failed p)
            t)
  verified_lem now id w p s t live included (a, b) =
      let Answer = λ (v : Bool) (u : Db c).
        SameClaims c t u × (v ≡ true → oracle_accepts c now w.claim p ≡ true) in
      Ensures-bind Answer (Assessed now id w.claim p s) (verify_oracle c now id)
        (λ verified. if verified then approve_claim c id w p else reject_claim c id oracle_failed p)
        t
        (Ensures-Returns Answer (verify_oracle c now id t) (
          verify_oracle_lem c now id w.claim p t (ap (λ l. c.claims.find l id) a ∙ live)
            (ap (λ l. c.policies.include l w.claim.policy_id) b ∙ included)))
        go
    where
      go :
          (v : Bool) (u : Db c)
          → SameClaims c t u × (v ≡ true → oracle_accepts c now w.claim p ≡ true)
          → Ensures
              (Assessed now id w.claim p s)
              ((if v then approve_claim c id w p else reject_claim c id oracle_failed p) u)
      go true u (same, accepts) =
          approved_lem now id w p s u live (SameClaims-trans c s t u (a, b) same)
            (oracle_accepts-Payable c now w.claim p (accepts refl))
      go false u (same, accepts) =
          rejected_lem now id oracle_failed w.claim p s u live
            (SameClaims-trans c s t u (a, b) same)

  run_fraud_detection-Same :
      (calendar : Calendar) (now : ℕ) (w : ClaimWithPolicy) (s : Db c)
      → Ensures (λ _ t. SameClaims c s t) (run_fraud_detection c calendar now w s)
  unfolding run_fraud_detection count_duplicates count_recent
  run_fraud_detection-Same calendar now w s = (refl, refl)

  assess_pending_lem :
      (calendar : Calendar) (now id : ℕ) (w : ClaimWithPolicy) (p : Policy) (s : Db c)
      → claim_at c s id ≡ some w.claim
      → c.policies.include s.policies w.claim.policy_id ≡ some p
      → Ensures (Assessed now id w.claim p s) (assess_pending c calendar now id w p s)
  unfolding assess_pending
  assess_pending_lem calendar now id w p s live included =
      let Goal = Assessed now id w.claim p s in
      let rest = λ (suspected : Bool).
        record_fraud c id suspected p
        >> (verify_oracle c now id >>= λ verified.
            if verified then approve_claim c id w p else reject_claim c id oracle_failed p) in
      let examine = run_fraud_detection c calendar now w >>= rest in
      Ensures-if Goal (not (is_active p.status)) (reject_claim c id (policy_not_active p.status) p)
        (if not (leb_ℤ w.claim.claim_amount p.coverage_amount)
          then reject_claim c id exceeds_coverage p
          else examine)
        s (rejected_lem now id (policy_not_active p.status) w.claim p s s live (refl, refl))
        (Ensures-if Goal (not (leb_ℤ w.claim.claim_amount p.coverage_amount))
          (reject_claim c id exceeds_coverage p) examine s
          (rejected_lem now id exceeds_coverage w.claim p s s live (refl, refl))
          (Ensures-bind (λ _ t. SameClaims c s t) Goal (run_fraud_detection c calendar now w) rest s
            (run_fraud_detection-Same calendar now w s)
            λ suspected t same.
              Ensures-bind (λ _ u. SameClaims c t u) Goal (record_fraud c id suspected p)
                (λ _. verify_oracle c now id >>= λ verified.
                  if verified then approve_claim c id w p else reject_claim c id oracle_failed p)
                t (record_fraud-SameClaims c id suspected p t)
                λ _ u after.
                  verified_lem now id w p s u live included (SameClaims-trans c s t u same after)))

  -- What an assessment of a live claim `x` that returns has done: nothing to a claim that is not
  -- pending, else an outcome under the policy of the claim.
  pub data Assessment (now id : ℕ) (x : Claim) (s : Db c) (r : ClaimWithPolicy × Option Prepared)
      (s' : Db c) : Type 0 where
    untouched : is_pending x.status ≡ false → s' ≡ s → r.0.claim ≡ x → Assessment now id x s r s'
    decided :
        (p : Policy)
        → is_pending x.status ≡ true
        → c.policies.include s.policies x.policy_id ≡ some p
        → Assessed now id x p s r s'
        → Assessment now id x s r s'

  -- An assessment of a live claim that returns left the database alone if the claim was not pending.
  -- Else it found the claim's policy and either rejected the claim, or approved it with its amount
  -- as payout, which it only does when the policy is active and has not ended and the amount is
  -- positive and within the coverage; no other claim and no policy changed.
  pub assess_claim_lem :
      (calendar : Calendar) (now id : ℕ) (x : Claim) (s : Db c)
      → claim_at c s id ≡ some x
      → Ensures (Assessment now id x s) (assess_claim c calendar now id s)
  unfolding assess_claim
  assess_claim_lem calendar now id x s live =
      rw (find_of_live c id x s live, ◌>>=◌)
        (included_lem (c.policies.include s.policies x.policy_id) refl)
    where
      branch_lem :
          (p : Policy) (b : Bool)
          → c.policies.include s.policies x.policy_id ≡ some p
          → is_pending x.status ≡ b
          → Ensures (Assessment now id x s) (
              (if not b
                  then pure (record { id = id; claim = x; policy = some p }, none)
                  else assess_pending c calendar now id
                      (record { id = id; claim = x; policy = some p })
                      p)
                s)
      branch_lem p false e h = untouched h refl refl
      branch_lem p true e h =
          let w : ClaimWithPolicy = record { id = id; claim = x; policy = some p } in
          Ensures-map (Assessed now id x p s) (Assessment now id x s) (λ r u d. decided p h e d)
            (assess_pending c calendar now id w p s)
            (assess_pending_lem calendar now id w p s live e)

      included_lem :
          (o : Option Policy)
          → c.policies.include s.policies x.policy_id ≡ o
          → Ensures (Assessment now id x s) (
              (or_throw o not_found >>= λ p.
              if not (is_pending x.status)
              then pure (record { id = id; claim = x; policy = o }, none)
              else assess_pending c calendar now id (record { id = id; claim = x; policy = o }) p)
                s)
      included_lem none e = tt
      included_lem (some p) e = branch_lem p (is_pending x.status) e refl

  pub assess_claim_of_missing :
      (calendar : Calendar) (now id : ℕ) (s : Db c)
      → claim_at c s id ≡ none
      → assess_claim c calendar now id s ≡ err not_found
  unfolding assess_claim
  assess_claim_of_missing calendar now id s missing = rw (find_of_missing c id s missing, ◌>>=◌)
