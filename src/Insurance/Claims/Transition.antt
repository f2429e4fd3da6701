-- ===== src/Insurance/Claims/Transition.antt =====
-- The life of a claim under insurance/claim.service.ts: the operations as steps on the statuses, and
-- histories of operations, in which an operation that throws is rolled back.
use stellar_insured_backend.Notification.{Prepared}
use stellar_insured_backend.Insurance.Claims.Decision.{Decides}
use stellar_insured_backend.Insurance.Claims.Outcome.{
  Assessment, assess_claim_lem, assess_claim_of_missing, decided, untouched,
}
use stellar_insured_backend.Insurance.Claims.Payment.{
  Creates, create_claim_lem, pay_claim_lem, pay_claim_of_missing, pay_claim_of_paid,
}
use stellar_insured_backend.Prelude.{
  Bool, List, Option, [], ap, arith, false, if◌then◌else◌, inl, inr, none, refl, some, subst, sym,
  true, ℕ, ◌==◌, ◌∙◌, ◌∷◌, ◌≡◌, ◌⊎◌,
}
use stellar_insured_backend.Prelude.Int.{ℤ}
use stellar_insured_backend.Database.{Ensures, Ensures-map, Result, err, ok}
use stellar_insured_backend.Model.{Claim, ClaimStatus, Client, Db}
use stellar_insured_backend.Insurance.Claims.{
  Calendar, ClaimWithPolicy, is_paid, is_pending, set_status,
}
use stellar_insured_backend.Insurance.Claims.Assess.{assess_claim, create_claim, pay_claim}
use stellar_insured_backend.Insurance.Claims.Frame.{claim_at}

-- The steps that the service takes between the statuses of a claim.
pub data Step : ClaimStatus → ClaimStatus → Type 0 where
  stay : {a : ClaimStatus} → Step a a
  approves : Step ClaimStatus.pending ClaimStatus.approved
  rejects : Step ClaimStatus.pending ClaimStatus.rejected
  pays : {a : ClaimStatus} → is_paid a ≡ false → Step a ClaimStatus.paid

-- Any number of steps.
pub data Steps : ClaimStatus → ClaimStatus → Type 0 where
  done : {a : ClaimStatus} → Steps a a
  then : {a b d : ClaimStatus} → Step a b → Steps b d → Steps a d

pub data Op : Type 0 where
  assess : Calendar → ℕ → ℕ → Op
  pay : ℕ → Op
  create : ℕ → ℕ → ℤ → Op

pub is_paid_eq : (a : ClaimStatus) → is_paid a ≡ true → a ≡ ClaimStatus.paid
is_paid_eq ClaimStatus.paid h = refl
is_paid_eq ClaimStatus.pending h = cc
is_paid_eq ClaimStatus.approved h = cc
is_paid_eq ClaimStatus.rejected h = cc
is_paid_eq ClaimStatus.under_review h = cc

is_pending_eq : (a : ClaimStatus) → is_pending a ≡ true → a ≡ ClaimStatus.pending
is_pending_eq ClaimStatus.pending h = refl
is_pending_eq ClaimStatus.paid h = cc
is_pending_eq ClaimStatus.approved h = cc
is_pending_eq ClaimStatus.rejected h = cc
is_pending_eq ClaimStatus.under_review h = cc

module _ (c : Client) where
  -- The state that the operation leaves: that before it, if it throws.
  unfoldable pub run : Op → Db c → Db c
  run (assess calendar now id) s = elim (assess_claim c calendar now id s) [
    | ok (_, s') ↦ s'
    | err _ ↦ s
  ]
  run (pay id) s = elim (pay_claim c id s) [ ok (_, s') ↦ s' | err _ ↦ s ]
  run (create now policy_id amount) s = elim (create_claim c now policy_id amount s) [
    | ok (_, s') ↦ s'
    | err _ ↦ s
  ]

  unfoldable pub run_all : List Op → Db c → Db c
  run_all [] s = s
  run_all (op ∷ ops) s = run_all ops (run op s)

  -- What may become of a claim `x` in one operation: its terms stay, its status takes a step, and
  -- its payout amount stays unless it is approved, which makes it the claimed amount.
  pub record Evolves (x y : Claim) : Type 0 where
    pub step : Step x.status y.status
    pub policy_id : y.policy_id ≡ x.policy_id
    pub claim_amount : y.claim_amount ≡ x.claim_amount
    pub created_at : y.created_at ≡ x.created_at
    pub payout :
        ((y.payout_amount ≡ x.payout_amount)
          × (y.status ≡ ClaimStatus.approved → x.status ≡ ClaimStatus.approved))
        ⊎ ((y.status ≡ ClaimStatus.approved) × (y.payout_amount ≡ some x.claim_amount))

  abbrev pub After : ℕ → Claim → Db c → Type 0
  After j x s = (y : Claim) × (claim_at c s j ≡ some y) × Evolves x y

  stays : (x : Claim) → Evolves x x
  stays x = record {
    step = stay;
    policy_id = refl;
    claim_amount = refl;
    created_at = refl;
    payout = inl (refl, λ h. h);
  }

  -- A decision on claim `id` seen from claim `j`.
  decides-After :
      (status : ClaimStatus) (extra : Option ℤ) (id j : ℕ) (x z : Claim) (s t : Db c)
      → t.claims ≡ c.claims.save s.claims id (set_status c status extra x)
      → claim_at c s id ≡ some x
      → claim_at c s j ≡ some z
      → Evolves x (set_status c status extra x)
      → After j z t
  decides-After status extra id j x z s t e live here evolves = go (id == j) refl
    where
      saved :
          claim_at c t j ≡ (if id == j then some (set_status c status extra x) else claim_at c s j)
      saved =
          ap (λ l. c.claims.find l j) e
          ∙ c.claims.find-save s.claims id j (set_status c status extra x)

      go : (b : Bool) → (id == j) ≡ b → After j z t
      go true h =
          let same : x ≡ z = ground arith in
          (
            set_status c status extra x,
            rw (saved, h),
            subst (λ w. Evolves w (set_status c status extra x)) same evolves,
          )
      go false h = (z, rw (saved, h) here, stays z)

  same-After :
      (j : ℕ) (z : Claim) (s t : Db c) → t.claims ≡ s.claims → claim_at c s j ≡ some z → After j z t
  same-After j z s t e here = (z, ap (λ l. c.claims.find l j) e ∙ here, stays z)

  Assessment-After :
      (now id j : ℕ) (x z : Claim) (s : Db c) (r : ClaimWithPolicy × Option Prepared) (t : Db c)
      → claim_at c s id ≡ some x
      → claim_at c s j ≡ some z
      → Assessment c now id x s r t
      → After j z t
  Assessment-After now id j x z s r t live here (untouched _ e _) =
      same-After j z s t (ap (λ u. u.claims) e) here
  Assessment-After now id j x z s r t live here (decided p pending _ (inl (_, e, _))) =
      decides-After ClaimStatus.rejected none id j x z s t e live here (record {
        step =
            subst (λ a. Step a ClaimStatus.rejected) (sym (is_pending_eq x.status pending)) rejects;
        policy_id = refl;
        claim_amount = refl;
        created_at = refl;
        payout = inl (refl, λ h. cc);
      })
  Assessment-After now id j x z s r t live here (decided p pending _ (inr (_, (_, e, _)))) =
      decides-After ClaimStatus.approved (some x.claim_amount) id j x z s t e live here (record {
        step =
            subst (λ a. Step a ClaimStatus.approved) (sym (is_pending_eq x.status pending))
              approves;
        policy_id = refl;
        claim_amount = refl;
        created_at = refl;
        payout = inr (refl, refl);
      })

  -- A rolled-back operation changes nothing.
  settle :
      {A : Type 0} (j : ℕ) (z : Claim) (s : Db c) (m : Result (A × Db c))
      → claim_at c s j ≡ some z
      → Ensures (λ _ t. After j z t) m
      → After j z (elim m [ ok (_, t) ↦ t | err _ ↦ s ])
  settle j z s (ok (_, t)) here h = h
  settle j z s (err e) here h = (z, here, stays z)

  pub run-Evolves :
      (op : Op) (j : ℕ) (z : Claim) (s : Db c) → claim_at c s j ≡ some z → After j z (run op s)
  unfolding run
  run-Evolves (assess calendar now id) j z s here =
      settle j z s (assess_claim c calendar now id s) here (go (claim_at c s id) refl)
    where
      go :
          (o : Option Claim)
          → claim_at c s id ≡ o
          → Ensures (λ _ t. After j z t) (assess_claim c calendar now id s)
      go none e = rw (assess_claim_of_missing c calendar now id s e) tt
      go (some x) e =
          Ensures-map (Assessment c now id x s) (λ _ t. After j z t)
            (λ r t h. Assessment-After now id j x z s r t e here h)
            (assess_claim c calendar now id s) (assess_claim_lem c calendar now id x s e)
  run-Evolves (pay id) j z s here = settle j z s (pay_claim c id s) here (go (claim_at c s id) refl)
    where
      pay_lem :
          (x : Claim) (b : Bool)
          → claim_at c s id ≡ some x
          → is_paid x.status ≡ b
          → Ensures (λ _ t. After j z t) (pay_claim c id s)
      pay_lem x true e paid = rw (pay_claim_of_paid c id x s e paid) (z, here, stays z)
      pay_lem x false e unpaid =
          Ensures-map (Decides c ClaimStatus.paid none id x s) (λ _ t. After j z t)
            (λ r t (_, f, _). decides-After ClaimStatus.paid none id j x z s t f e here (record {
              step = pays unpaid;
              policy_id = refl;
              claim_amount = refl;
              created_at = refl;
              payout = inl (refl, λ h. cc);
            }))
            (pay_claim c id s) (pay_claim_lem c id x s e unpaid)

      go :
          (o : Option Claim) → claim_at c s id ≡ o → Ensures (λ _ t. After j z t) (pay_claim c id s)
      go none e = rw (pay_claim_of_missing c id s e) tt
      go (some x) e = pay_lem x (is_paid x.status) e refl
  run-Evolves (create now policy_id amount) j z s here =
      settle j z s (create_claim c now policy_id amount s) here (
        Ensures-map (Creates c now policy_id amount s) (λ _ t. After j z t)
          (λ r t (a, _, e, _). (z, kept r t a e, stays z)) (create_claim c now policy_id amount s)
          (create_claim_lem c now policy_id amount s))
    where
      kept :
          (r : (ℕ × Claim) × Option Prepared) (t : Db c)
          → r.0.0 ≡ c.claims.fresh s.claims
          → t.claims ≡ c.claims.save s.claims r.0.0 r.0.1
          → claim_at c t j ≡ some z
      kept r t a e =
          ap (λ l. c.claims.find l j) e
          ∙ ground (arith, c.claims.find-fresh s.claims, c.claims.find-save s.claims r.0.0 j r.0.1)
