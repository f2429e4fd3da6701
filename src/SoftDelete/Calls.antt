-- ===== src/SoftDelete/Calls.antt =====
-- A soft-deletable model refines an archive, a map from ids to rows that are live or not: the calls
-- of the repositories and the service on one record.
use mathlib.Core.Option
use stellar_insured_backend.SoftDelete.Requests.{
  forward_delete, forward_read, forward_restore, forward_update,
}
use stellar_insured_backend.Prelude.{
  ==_iff, Bool, Bool-cases, Option, Option-cases, ap, arith, false, inl, inr, none, refl, some, sym,
  true, ℕ, ◌==◌, ◌∙◌, ◌≡◌, ◌⊎◌,
}
use stellar_insured_backend.Database.{err, ok, record_not_found, ◌>>=◌}
use stellar_insured_backend.SoftDelete.{
  Action, ModelName, Payload, Where, find_unique, is_null, is_restore, is_soft_delete_model,
}
use stellar_insured_backend.SoftDelete.Engine.{Engine, Stored, apply_payload, one, select, write}
use stellar_insured_backend.SoftDelete.Archive.{
  Agrees, Archive, Shows, find, live, mark_deleted, put, remove, restore_one, row_of, run, step,
  update_with, view, write_any, write_live,
}
use stellar_insured_backend.SoftDelete.Service.{
  by_id, delete_by_id, find_by_id, first_row, restore_record, soft_delete, stamp, through,
  update_by_id,
}

module _ {R : Type 0} where
  abbrev live_id : ℕ → Where R
  live_id k = record (by_id k) { deleted_at = some is_null }

  pub live-select :
      (k : ℕ) (o : Option (Stored R))
      → Option.map (λ s. s.row) (select (live_id k) k o) ≡ live (view o)
  live-select k none = refl
  live-select k (some s) = ground (arith, ==_iff k k)

  select_live :
      (k : ℕ) (o : Option (Stored R)) (s : Stored R)
      → select (live_id k) k o ≡ some s
      → (o ≡ some s) × (s.deleted_at ≡ none)
  select_live k none s h = cc
  select_live k (some x) s h = ground (arith, ==_iff k k)

  pub first_found :
      (k : ℕ) (o : Option (Stored R)) → first_row (one (Option.map (λ s. (k, s)) o)) ≡ o
  first_found k none = refl
  first_found k (some s) = refl

  abbrev Stamps : Payload (R → R) → Bool → (R → R) → Type 0
  Stamps d is_live f =
      (s : Stored R)
      → s.deleted_at ≡ none
      → view (some (apply_payload d s)) ≡ some (is_live, f s.row)

module _ {T R : Type 0} (e : Engine T R) (m : ModelName) where
  live_write :
      (d : Payload (R → R)) (is_live : Bool) (f : R → R) (k : ℕ) (t : T) (a : Archive R)
      → Stamps d is_live f
      → Shows e m t a
      → ((e.next (write m Action.update (live_id k) d) t ≡ err record_not_found)
          × (write_live a k is_live f ≡ err record_not_found))
        ⊎ ((s : Stored R) × (t' : T) × (e.next (write m Action.update (live_id k) d) t
              ≡ ok (one (some (k, s)), t'))
            × (write_live a k is_live f ≡ ok (some s.row, put a k is_live s.row))
            × Shows e m t' (put a k is_live s.row))
  live_write d is_live f k t a stamps h =
      let here : Option.map (λ s. s.row) (select (live_id k) k (e.read t k)) ≡ live (a k) =
        live-select k (e.read t k) ∙ ap live (h k) in
      elim (Option-cases (select (live_id k) k (e.read t k))) [
        | inl missing ↦
            let absent : live (a k) ≡ none = sym here ∙ ap (Option.map (λ s. s.row)) missing in
            inl (
              e.next-update_missing m (live_id k) d k t (refl, refl) refl missing,
              rw (absent, write_live),
            )
        | inr (s, found) ↦
            let (t', runs, reads) = e.next-update m (live_id k) d k s t (refl, refl) refl found in
            let present : live (a k) ≡ some s.row = sym here ∙ ap (Option.map (λ s. s.row)) found in
            let stamped = stamps s (select_live k (e.read t k) s found).1 in
            let body : d.body s.row ≡ f s.row = cc in
            inr (
              apply_payload d s,
              t',
              runs,
              rw (present, write_live, body),
              λ j. elim (Bool-cases (k == j)) [
                | inl same ↦ rw (reads j, same) (stamped ∙ ap (λ x. some (is_live, x)) (sym body))
                | inr other ↦ rw (reads j, other) (h j)
              ],
            )
      ]

module _ {T R : Type 0} (e : Engine T R) (m : ModelName) (listed : is_soft_delete_model m ≡ true)
    (now : ℕ) where
  pub find-Agrees :
      (k : ℕ) (t : T) (a : Archive R)
      → Shows e m t a
      → Agrees e m (run e m now (find k) t) (step (find k) a)
  unfolding find_by_id through
  find-Agrees k t a h =
      rw
        (
          forward_read m listed now find_unique (by_id k) refl (refl, refl),
          e.next-find_unique m (live_id k) k t (refl, refl) refl,
          ◌>>=◌,
          first_found k (select (live_id k) k (e.read t k)),
        )
        (live-select k (e.read t k) ∙ ap live (h k), h)

  write-Agrees :
      (d : Payload (R → R)) (is_live : Bool) (f : R → R) (k : ℕ) (t : T) (a : Archive R)
      → is_restore (some d) ≡ false
      → Stamps d is_live f
      → Shows e m t a
      → Agrees e m (row_of e m (update_by_id e m now k d) t) (write_live a k is_live f)
  unfolding update_by_id through
  write-Agrees d is_live f k t a kept stamps h =
      let sent = forward_update m listed now (by_id k) d Action.update refl kept in
      elim (live_write e m d is_live f k t a stamps h) [
        | inl (p, q) ↦ rw (sent, p, q, ◌>>=◌) refl
        | inr (s, t', p, q, shows) ↦ rw (sent, p, q, ◌>>=◌) (refl, shows)
      ]

  -- A payload with deletedAt null reaches the deleted rows too.
  revive_write :
      (f : R → R) (k : ℕ) (t : T) (a : Archive R)
      → Shows e m t a
      → Agrees e m
          (row_of e m (update_by_id e m now k (record { body = f; deleted_at = some none })) t)
          (write_any a k f)
  unfolding update_by_id through
  revive_write f k t a h =
      let d : Payload (R → R) = record { body = f; deleted_at = some none } in
      let sent = forward_restore m listed now (by_id k) d Action.update refl refl in
      elim (Option-cases (e.read t k)) [
        | inl missing ↦
            let absent : a k ≡ none = sym (h k) ∙ ap view missing in
            let hidden : select (by_id k) k (e.read t k) ≡ none = rw missing refl in
            rw
              (
                sent,
                e.next-update_missing m (by_id k) d k t (refl, refl) refl hidden,
                ◌>>=◌,
                absent,
                write_any,
              )
              refl
        | inr (s, found) ↦
            let there : a k ≡ view (some s) = sym (h k) ∙ ap view found in
            let shown : select (by_id k) k (e.read t k) ≡ some s =
              rw found (ground (arith, ==_iff k k)) in
            let (t', runs, reads) = e.next-update m (by_id k) d k s t (refl, refl) refl shown in
            rw (sent, runs, ◌>>=◌, there, write_any)
              (
                refl,
                λ j. elim (Bool-cases (k == j)) [
                  | inl same ↦ rw (reads j, same) refl
                  | inr other ↦ rw (reads j, other) (h j)
                ],
              )
      ]

  pub update-Agrees :
      (k : ℕ) (f : R → R) (d : Option (Option ℕ)) (t : T) (a : Archive R)
      → Shows e m t a
      → Agrees e m (run e m now (update_with k f d) t) (step (update_with k f d) a)
  update-Agrees k f none t a h =
      write-Agrees (record { body = f; deleted_at = none }) true f k t a refl (λ s l. rw l refl) h
  update-Agrees k f (some none) t a h = revive_write f k t a h
  update-Agrees k f (some (some date)) t a h =
      write-Agrees (record { body = f; deleted_at = some (some date) }) false f k t a refl
        (λ s l. refl) h

  pub restore_one-Agrees :
      (k : ℕ) (t : T) (a : Archive R)
      → Shows e m t a
      → Agrees e m (run e m now (restore_one k) t) (step (restore_one k) a)
  unfolding restore_record update_by_id through
  restore_one-Agrees k t a h = revive_write (λ r. r) k t a h

  pub soft_delete-Agrees :
      (k : ℕ) (t : T) (a : Archive R)
      → Shows e m t a
      → Agrees e m (run e m now (mark_deleted k) t) (step (mark_deleted k) a)
  unfolding soft_delete update_by_id through
  soft_delete-Agrees k t a h =
      write-Agrees (stamp (some now)) false (λ r. r) k t a refl (λ s l. refl) h

  pub delete-Agrees :
      (k : ℕ) (t : T) (a : Archive R)
      → Shows e m t a
      → Agrees e m (run e m now (remove k) t) (step (remove k) a)
  unfolding delete_by_id through
  delete-Agrees k t a h =
      elim (live_write e m (stamp (some now)) false (λ r. r) k t a (λ s l. refl) h) [
        | inl (p, q) ↦ rw (forward_delete m listed now (by_id k) (refl, refl), p, q, ◌>>=◌) refl
        | inr (s, t', p, q, shows) ↦
            rw (forward_delete m listed now (by_id k) (refl, refl), p, q, ◌>>=◌) (refl, shows)
      ]
