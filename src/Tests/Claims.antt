-- ===== src/Tests/Claims.antt =====
-- Runs of the claim and reinsurance services.
use stellar_insured_backend.Insurance.Claims.Decision.{Decides}
use stellar_insured_backend.Insurance.Claims.Approval.{assess_claim_approves}
use stellar_insured_backend.Prelude.{
  List, Option, [], arith, inr, none, refl, some, ◌*◌, ◌-◌, ◌∷◌, ◌≡◌,
}
use stellar_insured_backend.Database.{Ensures, Result, Returns}
use stellar_insured_backend.Model.{Claim, ClaimStatus, Db}
use stellar_insured_backend.Notification.{Prepared}
use stellar_insured_backend.Insurance.Pools.Capital.{pool_at, released}
use stellar_insured_backend.Insurance.Reinsurance.{create_contract}
use stellar_insured_backend.Insurance.Claims.{Calendar, ClaimWithPolicy}
use stellar_insured_backend.Insurance.Claims.Assess.{assess_claim, pay_claim}
use stellar_insured_backend.Insurance.Claims.Frame.{claim_at}
use stellar_insured_backend.Insurance.Claims.Outcome.{Assessment, assess_claim_lem}
use stellar_insured_backend.Insurance.Claims.Transition.{Op, assess, create, pay, run_all}
use stellar_insured_backend.Insurance.Claims.Payout.{pay_claim_unlocks}
use stellar_insured_backend.Insurance.Claims.Life.{
  FairPayout, Survives, run_all-FairPayout, run_all-Survives,
}
use stellar_insured_backend.Insurance.Reinsurance.Release.{Released, create-release}
use stellar_insured_backend.Tests.World.{claimed, demo, held, holder, small_pool, start}
use stellar_insured_backend.Prelude.Int.{pos, ◌-ℤ◌}

-- Noon on a weekday.
abbrev calendar : Calendar
calendar = record { hours = λ t. 12; day = λ t. 3; days_before = λ t d. t - d * 100 }

abbrev history : List Op
history = assess calendar 1000 1 ∷ pay 1 ∷ create 1001 1 (pos 9) ∷ pay 4 ∷ []

run_all-Survives_example :
    (y : Claim) × (claim_at demo (run_all demo history start) 1 ≡ some y)
    × Survives demo (claimed ClaimStatus.pending) y
run_all-Survives_example = run_all-Survives demo history 1 (claimed ClaimStatus.pending) start refl

run_all-FairPayout_example :
    (y : Claim) × (claim_at demo (run_all demo history start) 1 ≡ some y) × FairPayout y
run_all-FairPayout_example =
    run_all-FairPayout demo history 1 (claimed ClaimStatus.pending) start refl (inr (refl, λ h. cc))

assess_claim_lem_example :
    Ensures
      (Assessment demo 1000 1 (claimed ClaimStatus.pending) start)
      (assess_claim demo calendar 1000 1 start)
assess_claim_lem_example =
    assess_claim_lem demo calendar 1000 1 (claimed ClaimStatus.pending) start refl

assess_claim_approves_example :
    Returns
      (Decides demo ClaimStatus.approved (some (pos 40)) 1 (claimed ClaimStatus.pending) start)
      (assess_claim demo calendar 1000 1 start)
assess_claim_approves_example =
    assess_claim_approves demo calendar 1000 1 (claimed ClaimStatus.pending) held start refl refl
      refl
      (record {
        active = refl;
        positive = omega arith;
        covered = omega arith;
        not_ended = λ end e. cc;
      })
      (holder, refl)

abbrev payment : Result ((ClaimWithPolicy × Option Prepared) × Db demo)
payment = pay_claim demo 2 start

abbrev some_claim : ClaimWithPolicy
some_claim = record { id = 0; claim = claimed ClaimStatus.pending; policy = none }

-- Claim 2 was rejected.
pay_claim_unlocks_example :
    Returns
      (λ r t.
        (claim_at demo t 2 ≡ some (claimed ClaimStatus.paid))
        × (pool_at demo t 1 ≡ some (released demo (pos 40) small_pool)))
      (pay_claim demo 2 start)
unfolding ◌-ℤ◌
pay_claim_unlocks_example =
    pay_claim_unlocks demo 2 (claimed ClaimStatus.rejected) held small_pool start refl refl refl
      refl (omega arith) (omega arith)

create-release_example :
    Returns
      (Released demo 1 (pos 100) (pos 2) start)
      (create_contract demo 1 (pos 100) (pos 2) start)
create-release_example = create-release demo 1 (pos 100) (pos 2) small_pool start refl
