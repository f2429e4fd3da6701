-- ===== src/SoftDelete/Purge.antt =====
-- Hard deletes: hardDelete and permanentlyDeleteExpired of prisma.soft-delete.service.ts.
use stellar_insured_backend.Database.{err, ok, record_not_found, ◌>>=◌}
use stellar_insured_backend.SoftDelete.{
  Action, ModelName, Where, delete, delete_many, find_unique, is_soft_delete_model, no_where,
  not_null_before,
}
use stellar_insured_backend.SoftDelete.Engine.{Engine, Stored, reject, select}
use stellar_insured_backend.SoftDelete.Requests.{
  forward_hard_delete, forward_read_all, forward_restore,
}
use stellar_insured_backend.SoftDelete.Service.{
  PurgeAudit, PurgeReason, by_id, find_including_deleted, hard_delete, on_rows,
  permanently_delete_expired, restore_record, retention, stamp, through,
}
use stellar_insured_backend.Prelude.{
  ==_iff, Bool, List, Option, arith, false, if◌then◌else◌, ltb, none, refl, some, true, ℕ, ◌∙◌, ◌∷◌,
  ◌≡◌, ◌≢◌,
}

module _ {R : Type 0} where
  -- Deleted before the limit.
  abbrev expired : ℕ → Stored R → Bool
  expired limit s = elim s.deleted_at [ none ↦ false | some d ↦ ltb d limit ]

  abbrev pub without_expired : ℕ → Option (Stored R) → Option (Stored R)
  without_expired limit none = none
  without_expired limit (some s) = if expired limit s then none else some s

  abbrev expired_where : ℕ → Where R
  expired_where limit = record no_where { deleted_at = some (not_null_before limit) }

  reject_expired :
      (limit k : ℕ) (o : Option (Stored R))
      → reject (expired_where limit) k o ≡ without_expired limit o
  reject_expired limit k none = refl
  reject_expired limit k (some s) = ground arith

  select-by_id : (k : ℕ) (s : Stored R) → select (by_id k) k (some s) ≡ some s
  select-by_id k s = ground (arith, ==_iff k k)

-- A best-effort audit write.
abbrev pub logged : (PurgeAudit → Bool) → PurgeAudit → List PurgeAudit → List PurgeAudit
logged loses row log = if loses row then log else row ∷ log

module _ {T R : Type 0} (e : Engine T R) (m : ModelName) (listed : is_soft_delete_model m ≡ true)
    (loses : PurgeAudit → Bool) where
  -- permanentlyDeleteExpired succeeds whether or not its audit row is written: afterwards no row that
  -- was soft-deleted before the limit is left, every other row, live or deleted, is as it was, and
  -- the one audit row, with the number of purged rows that the client counted and the limit, is added
  -- unless its write fails.
  permanently_delete_expired_lem :
      (now limit : ℕ) (t : T) (log : List PurgeAudit)
      → (n : ℕ) × (t' : T) × (permanently_delete_expired e m now loses limit (t, log)
          ≡ ok (
            n,
            (
              t',
              logged loses
                  (record {
                    entity_type = m;
                    entity_id = none;
                    count = some n;
                    reason = retention limit;
                  })
                  log,
            ),
          ))
        × ((k : ℕ) → e.read t' k ≡ without_expired limit (e.read t k))
  unfolding permanently_delete_expired through
  permanently_delete_expired_lem now limit t log =
      let (n, t', runs, reads) = e.next-delete_many m (expired_where limit) t (refl, refl) in
      (
        n,
        t',
        rw
            (
              forward_hard_delete m listed now (expired_where limit) delete_many refl refl,
              runs,
              on_rows,
              ◌>>=◌,
            )
            refl,
        λ k. reads k ∙ reject_expired limit k (e.read t k),
      )

  -- hardDelete of a stored record, live or soft-deleted, returns it and removes it for good: later
  -- neither the read that includes deleted rows nor a restore finds it, the other rows are as they
  -- were, and the audit row, with its id and the reason, is added unless its write fails.
  hard_delete_gone :
      (now later k : ℕ) (reason : PurgeReason) (s : Stored R) (t : T) (log : List PurgeAudit)
      → e.read t k ≡ some s
      → (t' : T) × (hard_delete e m now loses (by_id k) reason (t, log)
          ≡ ok (
            some s,
            (
              t',
              logged loses
                  (record { entity_type = m; entity_id = some k; count = none; reason = reason })
                  log,
            ),
          ))
        × (find_including_deleted e m later (by_id k) t' ≡ ok (none, t'))
        × (restore_record e m later (by_id k) t' ≡ err record_not_found)
        × ((j : ℕ) → k ≢ j → e.read t' j ≡ e.read t j)
  unfolding hard_delete find_including_deleted restore_record through
  hard_delete_gone now later k reason s t log stored =
      let found : select (by_id k) k (e.read t k) ≡ some s = rw stored (select-by_id k s) in
      let (t', runs, reads) = e.next-delete m (by_id k) k s t (refl, refl) refl found in
      let gone : e.read t' k ≡ none = reads k ∙ ground (arith, ==_iff k k) in
      let missing : select (by_id k) k (e.read t' k) ≡ none = rw gone refl in
      (
        t',
        rw (forward_hard_delete m listed now (by_id k) delete refl refl, runs, on_rows, ◌>>=◌) refl,
        rw
            (
              forward_read_all m listed later find_unique (by_id k) refl,
              e.next-find_unique m (by_id k) k t' (refl, refl) refl,
              missing,
              ◌>>=◌,
            )
            refl,
        rw
            (
              forward_restore m listed later (by_id k) (stamp none) Action.update refl refl,
              e.next-update_missing m (by_id k) (stamp none) k t' (refl, refl) refl missing,
              ◌>>=◌,
            )
            refl,
        λ j ne. reads j ∙ ground (arith, ==_iff k j),
      )
