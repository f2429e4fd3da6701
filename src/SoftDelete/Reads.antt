-- ===== src/SoftDelete/Reads.antt =====
-- The queries that name deletedAt themselves: findManyDeleted, countDeleted and upsert.
use mathlib.Core.Option
use stellar_insured_backend.SoftDelete.Requests.{forward_read}
use stellar_insured_backend.Database.{ok, ◌>>=◌}
use stellar_insured_backend.SoftDelete.{
  Action, Args, ModelName, Payload, Where, create_soft_delete_middleware, find_many, is_null,
  is_soft_delete_model, no_args, not_null, start_live, upsert, upsert_args,
}
use stellar_insured_backend.SoftDelete.Engine.{
  Engine, Plain, Stored, apply_payload, id_passes, lookup, query, select,
}
use stellar_insured_backend.SoftDelete.Service.{count_deleted, find_many_deleted, through}
use stellar_insured_backend.Prelude.{
  List, Option, ap, arith, is_some, length, none, refl, some, sym, true, ℕ, ◌↔◌, ◌∙◌, ◌≡◌,
}

module _ {R : Type 0} where
  abbrev live_where : Where R → Where R
  live_where w = record w { deleted_at = some is_null }

  abbrev pub IsLiveMatch : Where R → ℕ → Option (Stored R) → Stored R → Type 0
  IsLiveMatch w k o s =
      (o ≡ some s) × (s.deleted_at ≡ none) × (id_passes w.id k ≡ true) × (w.fields s.row ≡ true)

  select_sound :
      (w : Where R) (k : ℕ) (o : Option (Stored R)) (s : Stored R)
      → select (live_where w) k o ≡ some s
      → IsLiveMatch w k o s
  select_sound w k none s h = cc
  select_sound w k (some x) s h = ground arith

  abbrev pub IsDeletedMatch : Where R → ℕ → Option (Stored R) → Stored R → Type 0
  IsDeletedMatch w k o s =
      (o ≡ some s)
      × (is_some s.deleted_at ≡ true)
      × (id_passes w.id k ≡ true)
      × (w.fields s.row ≡ true)

  select_deleted :
      (w : Where R) (k : ℕ) (o : Option (Stored R)) (s : Stored R)
      → (select (record w { deleted_at = some not_null }) k o ≡ some s) ↔ IsDeletedMatch w k o s
  select_deleted w k none s = (λ h. cc, λ h. cc)
  select_deleted w k (some x) s = (λ h. ground arith, λ h. ground arith)

  select_complete :
      (w : Where R) (k : ℕ) (o : Option (Stored R)) (s : Stored R)
      → IsLiveMatch w k o s
      → select (live_where w) k o ≡ some s
  select_complete w k none s h = cc
  select_complete w k (some x) s h = ground arith

  start_live_lem :
      (u : Payload (R → R))
      → u.deleted_at ≡ none
      → start_live u ≡ record u { deleted_at = some none }
  start_live_lem u absent = rw (absent, start_live) refl

  -- The middleware leaves the filter of an upsert as it is and writes deletedAt null where the update
  -- payload says nothing of it, so that an upsert of a soft-deleted row makes it live again.
  upsert_revives :
      (m : ModelName) (now : ℕ) (args : Args R) (u : Payload (R → R)) (s : Stored R)
      → is_soft_delete_model m ≡ true
      → args.update ≡ some u
      → u.deleted_at ≡ none
      → (after : Args R) × (create_soft_delete_middleware true now
            (record { model = m; action = upsert; args = some args })
          ≡ record { model = m; action = upsert; args = some after })
        × (after.filter ≡ args.filter)
        × ((q : Payload (R → R)) × (after.update ≡ some q)
            × (apply_payload q s ≡ record { deleted_at = none; row = u.body s.row }))
  unfolding create_soft_delete_middleware
  upsert_revives m now args u s listed e absent = (
    upsert_args args,
    rw listed refl,
    refl,
    (
      record u { deleted_at = some none },
      ap (Option.map start_live) e ∙ ap some (start_live_lem u absent),
      refl,
    ),
  )

module _ {T R : Type 0} (e : Engine T R) (m : ModelName)
    (listed : is_soft_delete_model m ≡ true) where
  live_rows :
      (now : ℕ) (w : Where R) (t : T)
      → Plain w
      → (rows : List (ℕ × Stored R)) × (find_many_deleted e m now none w t ≡ ok (rows, t))
        × (count_deleted e m now w t ≡ ok (length rows, t))
        × ((k : ℕ) (s : Stored R) → (lookup rows k ≡ some s) ↔ IsLiveMatch w k (e.read t k) s)
  unfolding find_many_deleted count_deleted through
  live_rows now w t plain =
      let (rows, finds, counts, shows) =
        e.next-find_many m (record w { deleted_at = some is_null }) t plain in
      (
        rows,
        rw
            (
              forward_read m listed now find_many (record w { deleted_at = some not_null }) refl
                  plain,
              finds,
              ◌>>=◌,
            )
            refl,
        rw
            (
              forward_read m listed now Action.count (record w { deleted_at = some not_null }) refl
                  plain,
              counts,
              ◌>>=◌,
            )
            refl,
        λ k s. (
          λ h. select_sound w k (e.read t k) s (sym (shows k) ∙ h),
          λ h. shows k ∙ select_complete w k (e.read t k) s h,
        ),
      )

  -- With includeDeleted the middleware only takes the flags off.
  forward_deleted :
      (now : ℕ) (w : Where R)
      → Plain w
      → create_soft_delete_middleware true now (record {
        model = m;
        action = find_many;
        args = some (record no_args {
          filter = some (record w { deleted_at = some not_null });
          include_deleted = some true;
        });
      })
        ≡ query m find_many (record w { deleted_at = some not_null; include_deleted = none })
  unfolding create_soft_delete_middleware
  forward_deleted now w (p, q) = rw (listed, p) refl

  deleted_rows :
      (now : ℕ) (w : Where R) (t : T)
      → Plain w
      → (rows : List (ℕ × Stored R)) × (find_many_deleted e m now (some true) w t ≡ ok (rows, t))
        × ((k : ℕ) (s : Stored R) → (lookup rows k ≡ some s) ↔ IsDeletedMatch w k (e.read t k) s)
  unfolding find_many_deleted through
  deleted_rows now w t plain =
      let w' : Where R = record w { deleted_at = some not_null; include_deleted = none } in
      let (rows, finds, counts, shows) = e.next-find_many m w' t (refl, plain.1) in
      (
        rows,
        rw (forward_deleted now w plain, finds, ◌>>=◌) refl,
        λ k s. (
          λ h. (select_deleted w k (e.read t k) s).0 (sym (shows k) ∙ h),
          λ h. shows k ∙ (select_deleted w k (e.read t k) s).1 h,
        ),
      )

  -- On a model of the list and with a filter that has no flag of the middleware, findManyDeleted
  -- without the option includeDeleted and countDeleted never see a deleted row: the middleware puts
  -- `deletedAt: null` in place of their `{ not: null }`, so that they return and count exactly the live
  -- rows that meet the rest of the filter. With includeDeleted true, findManyDeleted returns exactly the
  -- deleted rows that meet it. None of the calls changes anything.
  pub find_many_deleted_live :
      (now : ℕ) (w : Where R) (t : T)
      → Plain w
      → ((rows : List (ℕ × Stored R)) × (find_many_deleted e m now none w t ≡ ok (rows, t))
          × (count_deleted e m now w t ≡ ok (length rows, t))
          × ((k : ℕ) (s : Stored R) → (lookup rows k ≡ some s) ↔ IsLiveMatch w k (e.read t k) s))
        × ((rows : List (ℕ × Stored R)) × (find_many_deleted e m now (some true) w t ≡ ok (rows, t))
            × ((k : ℕ) (s : Stored R)
                → (lookup rows k ≡ some s) ↔ IsDeletedMatch w k (e.read t k) s))
  find_many_deleted_live now w t plain = (live_rows now w t plain, deleted_rows now w t plain)
