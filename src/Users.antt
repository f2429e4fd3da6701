-- ===== src/Users.antt =====
-- user/user.service.ts: the deletion of a user with what belongs to it, and
-- common/repositories/user.repository.ts. The test of the form of an id is an argument, on the number
-- that stands for the id; the settings of a user stay in its row, and a row is not decrypted.
pub mod Deletion
use stellar_insured_backend.Prelude.{
  Bool, List, Option, [], false, if◌then◌else◌, none, not, some, true, ℕ, ◌==◌, ◌∷◌, ◌≡◌,
}
use stellar_insured_backend.Database.{Tx, bad_request, delete_row, err, modify, not_found, ok}
use stellar_insured_backend.Service.{Io, pure, throw, transaction, ◌>>=◌, ◌>>◌}
use stellar_insured_backend.Model.{Claim, Client, Db, Entity, Notification, Policy, User, on_users}
use stellar_insured_backend.Audit.{log_delete}

-- updateMany with a deletedAt on the policies and on the claims, as the client documents it.
pub record Cascade (c : Client) : Type 0 where
  pub remove_policies : c.Policies → (Policy → Bool) → c.Policies
  pub remove_claims : c.Claims → (Claim → Bool) → c.Claims
  pub find-remove_policies :
      (t : c.Policies) (p : Policy → Bool) (k : ℕ)
      → c.policies.find (remove_policies t p) k
        ≡ elim (c.policies.find t k) [ none ↦ none | some r ↦ if p r then none else some r ]
  pub find-remove_claims :
      (t : c.Claims) (p : Claim → Bool) (k : ℕ)
      → c.claims.find (remove_claims t p) k
        ≡ elim (c.claims.find t k) [ none ↦ none | some r ↦ if p r then none else some r ]

abbrev pub without_user : ℕ → List Notification → List Notification
without_user id [] = []
without_user id (n ∷ ns) =
    let rest = without_user id ns in if n.user_id == id then rest else n ∷ rest

module _ (c : Client) (cascade : Cascade c) (is_valid_id : ℕ → Bool) where
  -- `where: { policy: { userId: id } }`, a relation that shows deleted policies.
  abbrev pub is_of_user : Db c → ℕ → Claim → Bool
  is_of_user s id x = elim (c.policies.include s.policies x.policy_id) [
    | none ↦ false
    | some p ↦ p.user_id == id
  ]

  -- The writes after the update of the user.
  abbrev pub remove_rows : ℕ → Db c → Db c
  remove_rows id s = record s {
    notifications = without_user id s.notifications;
    policies = cascade.remove_policies s.policies (λ p. p.user_id == id);
    claims = cascade.remove_claims s.claims (is_of_user s id);
  }

  unfoldable pub cascade_soft_delete : ℕ → Tx (Db c) User
  cascade_soft_delete id s = elim (on_users (delete_row c.users id) s) [
    | ok (user, t) ↦ ok (user, remove_rows id t)
    | err e ↦ err e
  ]

  unfoldable pub find_by_id : ℕ → Io (Db c) User
  find_by_id id s =
      if is_valid_id id
      then elim (c.users.find s.users id) [ none ↦ (err not_found, s) | some u ↦ (ok u, s) ]
      else (err bad_request, s)

  unfoldable pub delete : ℕ → Io (Db c) User
  unfolding find_by_id cascade_soft_delete log_delete
  delete id = do
    find_by_id id
    user ← transaction (cascade_soft_delete id)
    transaction (log_delete Entity.user id)
    pure user
