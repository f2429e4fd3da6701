-- ===== src/SoftDelete/Requests.antt =====
-- What the middleware makes of the queries that the repositories and the service send.
use stellar_insured_backend.Prelude.{false, none, refl, some, true, ℕ, ◌≡◌}
use stellar_insured_backend.SoftDelete.{
  Action, ModelName, Payload, Where, create_soft_delete_middleware, delete, delete_many, is_delete,
  is_null, is_read, is_restore, is_soft_delete_model, is_update, no_args, update, update_many,
}
use stellar_insured_backend.SoftDelete.Engine.{Plain, query, write}

module _ {R : Type 0} (m : ModelName) (listed : is_soft_delete_model m ≡ true) (now : ℕ) where
  pub forward_read :
      (a : Action) (w : Where R)
      → is_read a ≡ true
      → Plain w
      → create_soft_delete_middleware true now (query m a w)
        ≡ query m a (record w { deleted_at = some is_null })
  unfolding create_soft_delete_middleware
  forward_read a w reads (p, q) = rw (listed, reads, p) refl

  pub forward_read_all :
      (a : Action) (w : Where R)
      → is_read a ≡ true
      → create_soft_delete_middleware true now
          (query m a (record w { include_deleted = some true }))
        ≡ query m a (record w { include_deleted = none })
  unfolding create_soft_delete_middleware
  forward_read_all a w reads = rw (listed, reads) refl

  pub forward_update :
      (w : Where R) (d : Payload (R → R)) (a : Action)
      → is_update a ≡ true
      → is_restore (some d) ≡ false
      → create_soft_delete_middleware true now (write m a w d)
        ≡ write m a (record w { deleted_at = some is_null }) d
  unfolding create_soft_delete_middleware
  forward_update w d update h r = rw (listed, r) refl
  forward_update w d update_many h r = rw (listed, r) refl
  forward_update w d _ h r = cc

  pub forward_restore :
      (w : Where R) (d : Payload (R → R)) (a : Action)
      → is_update a ≡ true
      → is_restore (some d) ≡ true
      → create_soft_delete_middleware true now (write m a w d) ≡ write m a w d
  unfolding create_soft_delete_middleware
  forward_restore w d update h r = rw (listed, r) refl
  forward_restore w d update_many h r = rw (listed, r) refl
  forward_restore w d _ h r = cc

  pub forward_delete :
      (w : Where R)
      → Plain w
      → create_soft_delete_middleware true now (query m delete w)
        ≡ write m Action.update
            (record w { deleted_at = some is_null })
            (record { body = λ r. r; deleted_at = some (some now) })
  unfolding create_soft_delete_middleware
  forward_delete w (p, q) = rw (listed, q) refl

  -- A hard delete: by hardDelete at the top level.
  pub forward_hard_delete :
      (w : Where R) (a : Action)
      → is_delete a ≡ true
      → w.hard_delete ≡ none
      → create_soft_delete_middleware true now (record {
        model = m;
        action = a;
        args = some (record no_args { filter = some w; hard_delete = some true });
      })
        ≡ query m a w
  unfolding create_soft_delete_middleware
  forward_hard_delete w delete h q = rw (listed, q) refl
  forward_hard_delete w delete_many h q = rw (listed, q) refl
  forward_hard_delete w _ h q = cc
