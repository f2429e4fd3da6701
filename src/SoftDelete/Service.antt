-- ===== src/SoftDelete/Service.antt =====
-- Repositories and the service on a soft-deletable model: common/repositories/base.repository.ts,
-- soft-delete.repository.ts and prisma.soft-delete.service.ts. Each call is made through the
-- middleware, at the time `now`.
use stellar_insured_backend.Prelude.{
  Bool, List, Option, [], false, if◌then◌else◌, is_some, none, some, true, ℕ, ◌==◌, ◌∷◌,
}
use stellar_insured_backend.Database.{Tx, err, not_found, ok, or_throw, pure, ◌>>=◌, ◌>>◌}
use stellar_insured_backend.SoftDelete.{
  Action, ModelName, Params, Payload, Where, create_soft_delete_middleware, delete, delete_many,
  find_many, find_unique, no_args, no_where, not_null, not_null_before, update_many,
}
use stellar_insured_backend.SoftDelete.Engine.{
  Answer, Engine, Stored, counted, many, one, query, write,
}

pub data PurgeReason : Type 0 where
  not_provided : PurgeReason
  provided : ℕ → PurgeReason
  retention : ℕ → PurgeReason

-- The audit row of a hard delete; no id stands for the text 'bulk'.
pub record PurgeAudit : Type 0 where
  pub entity_type : ModelName
  pub entity_id : Option ℕ
  pub count : Option ℕ
  pub reason : PurgeReason

module _ {R : Type 0} where
  abbrev pub first_row : Answer R → Option (Stored R)
  first_row (one (some (k, s))) = some s
  first_row _ = none

  abbrev pub all_rows : Answer R → List (ℕ × Stored R)
  all_rows (many rows) = rows
  all_rows _ = []

  abbrev pub number_of : Answer R → ℕ
  number_of (counted n) = n
  number_of _ = 0

  abbrev pub by_id : ℕ → Where R
  by_id k = record no_where { id = some k }

  abbrev pub stamp : Option ℕ → Payload (R → R)
  stamp d = record { body = λ r. r; deleted_at = some d }

module _ {T R : Type 0} (e : Engine T R) (m : ModelName) (now : ℕ) where
  -- PrismaService registers the middleware with excludeDeleted.
  unfoldable pub through : Params R → Tx T (Answer R)
  unfolding create_soft_delete_middleware
  through p = e.next (create_soft_delete_middleware true now p)

  -- The base repository.
  unfoldable pub find_by_id : ℕ → Tx T (Option (Stored R))
  find_by_id k = do answer ← through (query m find_unique (by_id k)); pure (first_row answer)

  unfoldable pub find_many_rows : Where R → Tx T (List (ℕ × Stored R))
  find_many_rows w = do answer ← through (query m find_many w); pure (all_rows answer)

  unfoldable pub count_rows : Where R → Tx T ℕ
  count_rows w = do answer ← through (query m Action.count w); pure (number_of answer)

  unfoldable pub update_by_id : ℕ → Payload (R → R) → Tx T (Option (Stored R))
  update_by_id k data_ = do
    answer ← through (write m Action.update (by_id k) data_)
    pure (first_row answer)

  unfoldable pub delete_by_id : ℕ → Tx T (Option (Stored R))
  delete_by_id k = do answer ← through (query m delete (by_id k)); pure (first_row answer)

  unfoldable pub find_by_id_or_fail : ℕ → Tx T (Stored R)
  find_by_id_or_fail k = do record' ← find_by_id k; or_throw record' not_found

  -- The soft-delete repository.
  unfoldable pub soft_delete : ℕ → Tx T (Option (Stored R))
  soft_delete k = do
    answer ← through (write m Action.update (by_id k) (stamp (some now)))
    pure (first_row answer)

  unfoldable pub restore : ℕ → Tx T (Option (Stored R))
  restore k = do
    results ← through (
        write m update_many (record no_where { id = some k; deleted_at = some not_null })
          (stamp none))
    if number_of results == 0 then find_by_id k else find_by_id k

  unfoldable pub soft_delete_many : Where R → Tx T ℕ
  soft_delete_many w = do
    result ← through (write m update_many w (stamp (some now)))
    pure (number_of result)

  -- The service. `loses` tells which audit writes fail.
  module _ (loses : PurgeAudit → Bool) where
    abbrev pub on_rows : {A : Type 0} → Tx T A → Tx (T × List PurgeAudit) A
    on_rows f (t, log) = elim (f t) [ ok (a, t') ↦ ok (a, (t', log)) | err x ↦ err x ]

    unfoldable pub record_purge_audit :
        Where R → PurgeReason → Option ℕ → Tx (T × List PurgeAudit) (Unit {0})
    record_purge_audit w reason n (t, log) =
        let row : PurgeAudit = record {
          entity_type = m;
          entity_id = w.id;
          count = n;
          reason = reason;
        } in
        ok (tt, (t, if loses row then log else row ∷ log))

    unfoldable pub hard_delete :
        Where R → PurgeReason → Tx (T × List PurgeAudit) (Option (Stored R))
    unfolding record_purge_audit
    hard_delete w reason = do
      answer ← on_rows (
          through (record {
            model = m;
            action = delete;
            args = some (record no_args { filter = some w; hard_delete = some true });
          }))
      record_purge_audit w reason none
      pure (first_row answer)

    unfoldable pub hard_delete_many : Where R → PurgeReason → Tx (T × List PurgeAudit) ℕ
    unfolding record_purge_audit
    hard_delete_many w reason = do
      answer ← on_rows (
          through (record {
            model = m;
            action = delete_many;
            args = some (record no_args { filter = some w; hard_delete = some true });
          }))
      record_purge_audit w reason (some (number_of answer))
      pure (number_of answer)

    unfoldable pub permanently_delete_expired : ℕ → Tx (T × List PurgeAudit) ℕ
    unfolding hard_delete_many
    permanently_delete_expired deleted_before =
        hard_delete_many (record no_where { deleted_at = some (not_null_before deleted_before) })
          (retention deleted_before)

  unfoldable pub restore_record : Where R → Tx T (Option (Stored R))
  restore_record w = do
    answer ← through (write m Action.update w (stamp none))
    pure (first_row answer)

  unfoldable pub restore_many : Where R → Tx T ℕ
  restore_many w = do answer ← through (write m update_many w (stamp none)); pure (number_of answer)

  unfoldable pub find_including_deleted : Where R → Tx T (Option (Stored R))
  find_including_deleted w = do
    answer ← through (query m find_unique (record w { include_deleted = some true }))
    pure (first_row answer)

  unfoldable pub find_many_including_deleted : Where R → Tx T (List (ℕ × Stored R))
  find_many_including_deleted w = do
    answer ← through (query m find_many (record w { include_deleted = some true }))
    pure (all_rows answer)

  -- Of the options, `where` and includeDeleted are given; the order, the page and the columns are none
  -- of the middleware's concern and are left out.
  unfoldable pub find_many_deleted : Option Bool → Where R → Tx T (List (ℕ × Stored R))
  find_many_deleted include_deleted w = do
    answer ← through (record {
      model = m;
      action = find_many;
      args = some (record no_args {
        filter = some (record w { deleted_at = some not_null });
        include_deleted = include_deleted;
      });
    })
    pure (all_rows answer)

  unfoldable pub count_deleted : Where R → Tx T ℕ
  count_deleted w = do
    answer ← through (query m Action.count (record w { deleted_at = some not_null }))
    pure (number_of answer)

  unfoldable pub is_deleted : Where R → Tx T Bool
  is_deleted w = do
    answer ← through (query m find_unique (record w { include_deleted = some true }))
    pure (elim (first_row answer) [ none ↦ false | some s ↦ is_some s.deleted_at ])
