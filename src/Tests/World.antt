-- ===== src/Tests/World.antt =====
-- A client whose tables are lists, and a small database of one pool, one user, one policy and three
-- claims.
use stellar_insured_backend.Prelude.{[], none, some, true, ◌∷◌}
use stellar_insured_backend.Prelude.Int.{pos}
use stellar_insured_backend.Database.{Result, err, ok}
use stellar_insured_backend.Model.{
  Claim, ClaimStatus, Client, Contract, Db, EmailOutbox, Policy, PolicyStatus, Pool, RiskType, User,
}
use stellar_insured_backend.Database.Memory.{Rows, memory}

abbrev pub demo : Client
demo = record {
  Pools = Rows Pool;
  Policies = Rows Policy;
  Claims = Rows Claim;
  Contracts = Rows Contract;
  Users = Rows User;
  Outbox = Rows EmailOutbox;
  pools = memory Pool;
  policies = memory Policy;
  claims = memory Claim;
  contracts = memory Contract;
  users = memory User;
  outbox = memory EmailOutbox;
  decrypt = λ x. some x;
  push_target = λ x. some x;
}

abbrev pub small_pool : Pool
small_pool = record { capital = pos 1000; locked_capital = pos 100 }

abbrev pub held : Policy
held = record {
  user_id = 1;
  pool_id = 1;
  risk_type = RiskType.project_failure;
  status = PolicyStatus.active;
  premium = pos 500;
  coverage_amount = pos 100;
  end_date = none;
}

abbrev pub claimed : ClaimStatus → Claim
claimed status = record {
  policy_id = 1;
  claim_amount = pos 40;
  status = status;
  payout_amount = none;
  created_at = 7;
}

abbrev pub holder : User
holder = record {
  wallet_address = 9;
  reputation_score = pos 50;
  trust_score = pos 500;
  email = some 3;
  push_subscription = none;
  settings = none;
}

abbrev pub start : Db demo
start = record {
  pools = (1, true, small_pool) ∷ [];
  policies = (1, true, held) ∷ [];
  claims =
      (1, true, claimed ClaimStatus.pending)
      ∷ (2, true, claimed ClaimStatus.rejected)
      ∷ (3, true, claimed ClaimStatus.paid)
      ∷ [];
  contracts = [];
  users = (1, true, holder) ∷ [];
  outbox = [];
  audit_log = [];
  history = [];
  notifications = [];
}

abbrev pub empty : Db demo
empty = record start { policies = []; claims = [] }

-- What a run returned, or the given value, and the state after it.
module _ {S A : Type 0} where
  abbrev pub value_of : Result (A × S) → A → A
  value_of (ok (a, _)) d = a
  value_of (err _) d = d

  abbrev pub state_of : Result (A × S) → S → S
  state_of (ok (_, s)) d = s
  state_of (err _) d = d
