-- ===== src/Insurance/Claims/Life.antt =====
-- Histories of claims: what any sequence of assessments, payments and submissions makes of one.
use stellar_insured_backend.Prelude.{
  List, [], ap, inl, inr, none, refl, some, subst, sym, ℕ, ◌∙◌, ◌∷◌, ◌≡◌, ◌⊎◌,
}
use stellar_insured_backend.Model.{Claim, ClaimStatus, Client, Db}
use stellar_insured_backend.Insurance.Claims.Frame.{claim_at}
use stellar_insured_backend.Insurance.Claims.Transition.{
  Evolves, Op, Step, Steps, done, pays, run, run-Evolves, run_all, stay, then,
}

unpaid-of_paid : {b : ClaimStatus} → Step ClaimStatus.paid b → b ≡ ClaimStatus.paid
unpaid-of_paid stay = refl
unpaid-of_paid (pays h) = refl

pub Steps-of_paid :
    (a : ClaimStatus) {b : ClaimStatus} → a ≡ ClaimStatus.paid → Steps a b → b ≡ ClaimStatus.paid
Steps-of_paid a e done = e
Steps-of_paid a e (then {a = d} {b} step steps) =
    Steps-of_paid b (unpaid-of_paid (subst (λ k. Step k b) e step)) steps

-- The payout amount is the claimed amount, or there is none and the claim is not approved.
abbrev pub FairPayout : Claim → Type 0
FairPayout x =
    (x.payout_amount ≡ some x.claim_amount)
    ⊎ ((x.payout_amount ≡ none) × (x.status ≡ ClaimStatus.approved → ⊥))

module _ (c : Client) where
  -- What became of a claim `x` in a history.
  pub record Survives (x y : Claim) : Type 0 where
    pub steps : Steps x.status y.status
    pub policy_id : y.policy_id ≡ x.policy_id
    pub claim_amount : y.claim_amount ≡ x.claim_amount
    pub created_at : y.created_at ≡ x.created_at

  -- However the operations of the claim service follow one another, and whichever of them throw, a
  -- claim in the database is never lost, keeps its policy, its amount and its date, and its status
  -- moves by the steps pending to approved, pending to rejected, and anything unpaid to paid.
  pub run_all-Survives :
      (ops : List Op) (j : ℕ) (x : Claim) (s : Db c)
      → claim_at c s j ≡ some x
      → (y : Claim) × (claim_at c (run_all c ops s) j ≡ some y) × Survives x y
  unfolding run_all
  run_all-Survives [] j x s here =
      (x, here, record { steps = done; policy_id = refl; claim_amount = refl; created_at = refl })
  run_all-Survives (op ∷ ops) j x s here =
      let (y, there, e) = run-Evolves c op j x s here in
      let (z, last, h) = run_all-Survives ops j y (run c op s) there in
      (
        z,
        last,
        record {
          steps = then e.step h.steps;
          policy_id = h.policy_id ∙ e.policy_id;
          claim_amount = h.claim_amount ∙ e.claim_amount;
          created_at = h.created_at ∙ e.created_at;
        },
      )

  -- A claim that is paid is still in the database, and still paid, after any sequence of
  -- assessments, payments and submissions, whichever of them throw.
  paid_for_good :
      (ops : List Op) (j : ℕ) (x : Claim) (s : Db c)
      → claim_at c s j ≡ some x
      → x.status ≡ ClaimStatus.paid
      → (y : Claim) × (claim_at c (run_all c ops s) j ≡ some y) × (y.status ≡ ClaimStatus.paid)
  paid_for_good ops j x s here paid =
      let (y, there, h) = run_all-Survives ops j x s here in
      (y, there, Steps-of_paid x.status paid h.steps)

  Evolves-FairPayout : (x y : Claim) → Evolves c x y → FairPayout x → FairPayout y
  Evolves-FairPayout x y e h = go e.payout h
    where
      go :
          ((y.payout_amount ≡ x.payout_amount)
              × (y.status ≡ ClaimStatus.approved → x.status ≡ ClaimStatus.approved))
            ⊎ ((y.status ≡ ClaimStatus.approved) × (y.payout_amount ≡ some x.claim_amount))
          → FairPayout x
          → FairPayout y
      go (inl (p, back)) (inl q) = inl (p ∙ q ∙ ap some (sym e.claim_amount))
      go (inl (p, back)) (inr (q, unless)) = inr (p ∙ q, λ h. unless (back h))
      go (inr (a, p)) q = inl (p ∙ ap some (sym e.claim_amount))

  -- After any sequence of assessments, payments and submissions, whichever of them throw, a claim
  -- has its claimed amount as payout amount, or no payout amount and is not approved, if that held
  -- of it before, as it does of a new claim.
  pub run_all-FairPayout :
      (ops : List Op) (j : ℕ) (x : Claim) (s : Db c)
      → claim_at c s j ≡ some x
      → FairPayout x
      → (y : Claim) × (claim_at c (run_all c ops s) j ≡ some y) × FairPayout y
  unfolding run_all
  run_all-FairPayout [] j x s here fair = (x, here, fair)
  run_all-FairPayout (op ∷ ops) j x s here fair =
      let (y, there, e) = run-Evolves c op j x s here in
      run_all-FairPayout ops j y (run c op s) there (Evolves-FairPayout x y e fair)
