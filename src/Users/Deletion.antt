-- ===== src/Users/Deletion.antt =====
-- What the deletion of a user leaves: user/user.service.ts.
use stellar_insured_backend.Prelude.{
  ==_iff, ◌∷◌, Bool, if◌then◌else◌, none, refl, some, true, ℕ, ◌==◌, ◌≡◌, ◌∙◌, ap,
}
use stellar_insured_backend.Database.{Result, Tx, bad_request, err, ok}
use stellar_insured_backend.Model.{AuditAction, Entity, Client, Db, Policy, User}
use stellar_insured_backend.Audit.{create_log, log, log_delete}
use stellar_insured_backend.Service.{Io, bind-ok, pure, transaction, ◌>>=◌, ◌>>◌}
use stellar_insured_backend.Insurance.Policies.{cancel_policy, expire_policy}
use stellar_insured_backend.Users.{
  Cascade, cascade_soft_delete, delete, find_by_id, is_of_user, remove_rows,
}

transaction-ok :
    {S A : Type 0} (m : Tx S A) (s t : S) (a : A) → m s ≡ ok (a, t) → transaction m s ≡ (ok a, t)
transaction-ok {S} {A} m s t a = ap (λ (r : Result (A × S)). (elim r as (λ _. Result A × S) [
  | ok (b, u) ↦ (ok b, u)
  | err e ↦ (err e, s)
]))

module _ (c : Client) (cascade : Cascade c) (is_valid_id : ℕ → Bool) where
  abbrev without : ℕ → Db c → Db c
  without id s = record s { users = c.users.remove s.users id }

  abbrev logged : ℕ → Db c → Db c
  logged id s = record s {
    audit_log =
        record { action = AuditAction.delete; entity = Entity.user; entity_id = id; reason = none }
        ∷ s.audit_log;
  }

  found :
      (id : ℕ) (u : User) (s : Db c)
      → is_valid_id id ≡ true
      → c.users.find s.users id ≡ some u
      → find_by_id c cascade is_valid_id id s ≡ (ok u, s)
  unfolding find_by_id
  found id u s valid live = rw (valid, live) refl

  cascaded :
      (id : ℕ) (u : User) (s : Db c)
      → c.users.find s.users id ≡ some u
      → cascade_soft_delete c cascade is_valid_id id s
        ≡ ok (u, remove_rows c cascade is_valid_id id (without id s))
  unfolding cascade_soft_delete
  cascaded id u s live = rw (live, cascade_soft_delete) refl

  delete_state :
      (id : ℕ) (u : User) (s : Db c)
      → is_valid_id id ≡ true
      → c.users.find s.users id ≡ some u
      → delete c cascade is_valid_id id s
        ≡ (ok u, logged id (remove_rows c cascade is_valid_id id (without id s)))
  unfolding delete log_delete log create_log
  delete_state id u s valid live =
      let t : Db c = remove_rows c cascade is_valid_id id (without id s) in
      let rest : User → Io (Db c) User =
        λ user. transaction (log_delete Entity.user id) >> pure user in
      bind-ok (find_by_id c cascade is_valid_id id)
        (λ _. transaction (cascade_soft_delete c cascade is_valid_id id) >>= rest) s s u
        (found id u s valid live)
      ∙ bind-ok (transaction (cascade_soft_delete c cascade is_valid_id id)) rest s t u (
          transaction-ok (cascade_soft_delete c cascade is_valid_id id) s t u
            (cascaded id u s live))

  -- The deletion of a live user succeeds and hides the user and exactly its policies and the claims on
  -- them.
  pub delete_lem :
      (id : ℕ) (u : User) (s : Db c)
      → is_valid_id id ≡ true
      → c.users.find s.users id ≡ some u
      → let t = (delete c cascade is_valid_id id s).1 in
        ((delete c cascade is_valid_id id s).0 ≡ ok u)
        × (c.users.find t.users id ≡ none)
        × ((k : ℕ)
            → c.policies.find t.policies k ≡ elim (c.policies.find s.policies k) [
              | none ↦ none
              | some p ↦ if p.user_id == id then none else some p
            ])
        × ((k : ℕ)
            → c.claims.find t.claims k ≡ elim (c.claims.find s.claims k) [
              | none ↦ none
              | some x ↦ if is_of_user c cascade is_valid_id s id x then none else some x
            ])
        × (t.pools ≡ s.pools)
  delete_lem id u s valid live = rw (delete_state id u s valid live) (
    refl,
    c.users.find-remove s.users id id ∙ rw ((==_iff id id).1 refl) refl,
    cascade.find-remove_policies s.policies (λ p. p.user_id == id),
    cascade.find-remove_claims s.claims (is_of_user c cascade is_valid_id s id),
    refl,
  )

  -- The deletion of a user leaves every pool as it was, while the live policies of the user, open ones
  -- as well, can no longer be cancelled nor expire: their coverage stays locked.
  pub delete_strands_coverage :
      (id k : ℕ) (u : User) (p : Policy) (s : Db c)
      → is_valid_id id ≡ true
      → c.users.find s.users id ≡ some u
      → c.policies.find s.policies k ≡ some p
      → (p.user_id == id) ≡ true
      → let t = (delete c cascade is_valid_id id s).1 in
        (t.pools ≡ s.pools)
        × (cancel_policy c k t ≡ err bad_request)
        × (expire_policy c k t ≡ err bad_request)
  unfolding cancel_policy expire_policy
  delete_strands_coverage id k u p s valid live policy own =
      let gone : c.policies.find (cascade.remove_policies s.policies (λ q. q.user_id == id)) k
          ≡ none =
        cascade.find-remove_policies s.policies (λ q. q.user_id == id) k ∙ rw (policy, own) refl in
      rw (delete_state id u s valid live) (refl, rw gone refl, rw gone refl)
