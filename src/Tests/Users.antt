-- ===== src/Tests/Users.antt =====
-- The deletion of a user with an open policy: user/user.service.ts.
use stellar_insured_backend.Prelude.{refl, true, ℕ, Bool, ◌≡◌}
use stellar_insured_backend.Database.{bad_request, err}
use stellar_insured_backend.Database.Bulk.{find-remove_many, remove_many}
use stellar_insured_backend.Insurance.Policies.{cancel_policy, expire_policy}
use stellar_insured_backend.Users.{Cascade, delete}
use stellar_insured_backend.Users.Deletion.{delete_strands_coverage}
use stellar_insured_backend.Tests.World.{demo, held, holder, start}

abbrev cascade : Cascade demo
cascade = record {
  remove_policies = remove_many;
  remove_claims = remove_many;
  find-remove_policies = find-remove_many;
  find-remove_claims = find-remove_many;
}

abbrev any_id : ℕ → Bool
any_id id = true

delete_strands_coverage_example :
    ((delete demo cascade any_id 1 start).1.pools ≡ start.pools)
    × (cancel_policy demo 1 (delete demo cascade any_id 1 start).1 ≡ err bad_request)
    × (expire_policy demo 1 (delete demo cascade any_id 1 start).1 ≡ err bad_request)
delete_strands_coverage_example =
    delete_strands_coverage demo cascade any_id 1 1 holder held start refl refl refl refl
