-- ===== src/SoftDelete/Refinement.antt =====
-- A soft-deletable model under the middleware refines the archive: common/repositories and
-- prisma.soft-delete.service.ts.
use mathlib.Core.Option
use stellar_insured_backend.Database.{Result, Tx, err, ok, ◌>>=◌}
use stellar_insured_backend.SoftDelete.{
  ModelName, Where, find_unique, is_soft_delete_model, no_where, not_null, update_many,
}
use stellar_insured_backend.SoftDelete.Engine.{Engine, Stored, change, select}
use stellar_insured_backend.SoftDelete.Requests.{forward_read_all, forward_restore}
use stellar_insured_backend.SoftDelete.Service.{
  by_id, find_by_id, find_including_deleted, restore, stamp, through,
}
use stellar_insured_backend.SoftDelete.Archive.{
  Agrees, Archive, Op, Shows, bring_back, find, find_deleted_too, live, mark_deleted, put, remove,
  restore_one, row_of, run, run_all, step, step_all, update_with, view,
}
use stellar_insured_backend.SoftDelete.Calls.{
  delete-Agrees, find-Agrees, first_found, restore_one-Agrees, soft_delete-Agrees, update-Agrees,
}
use stellar_insured_backend.Prelude.{
  ==_iff, Bool, Bool-cases, List, Option, Option-cases, [], ap, arith, false, if◌then◌else◌, inl,
  inr, none, refl, some, subst, sym, true, ℕ, ◌==◌, ◌∙◌, ◌∷◌, ◌≡◌,
}

module _ {R : Type 0} where
  abbrev deleted_id : ℕ → Where R
  deleted_id k = record no_where { id = some k; deleted_at = some not_null }

  abbrev revived : Option (Bool × R) → Option (Bool × R)
  revived none = none
  revived (some (is_live, r)) = some (true, r)

  view-change :
      (k j : ℕ) (o : Option (Stored R))
      → view (change (deleted_id k) (stamp none) j o)
        ≡ (if k == j then revived (view o) else view o)
  view-change k j none = ground arith
  view-change k j (some s) = ground arith

  all-select :
      (k : ℕ) (o : Option (Stored R))
      → Option.map (λ s. s.row) (select (by_id k) k o) ≡ Option.map (λ x. x.1) (view o)
  all-select k none = refl
  all-select k (some s) = ground (arith, ==_iff k k)

  bring_back_lem :
      (k : ℕ) (a : Archive R) (b : Archive R)
      → ((j : ℕ) → b j ≡ (if k == j then revived (a j) else a j))
      → (x : Option R) × (c : Archive R) × (step (bring_back k) a ≡ ok (x, c))
        × (live (b k) ≡ x)
        × ((j : ℕ) → b j ≡ c j)
  bring_back_lem k a b h =
      let same : k == k ≡ true = ground (arith, ==_iff k k) in
      let back : b k ≡ revived (a k) = h k ∙ rw same refl in
      elim (Option-cases (a k)) [
        | inl missing ↦ (
          none,
          a,
          rw (missing, step) refl,
          rw (back, missing) refl,
          λ j. elim (Bool-cases (k == j)) [
            | inl e ↦ h j ∙ rw (e, ← (==_iff k j).0 e, missing) refl
            | inr ne ↦ h j ∙ rw ne refl
          ],
        )
        | inr ((is_live, r), found) ↦ (
          some r,
          put a k true r,
          rw (found, step) refl,
          rw (back, found) refl,
          λ j. elim (Bool-cases (k == j)) [
            | inl e ↦ h j ∙ rw (e, ← (==_iff k j).0 e, found) refl
            | inr ne ↦ h j ∙ rw ne refl
          ],
        )
      ]

if_same : {A : Type 0} (b : Bool) (x : A) → (if b then x else x) ≡ x
if_same true x = refl
if_same false x = refl

module _ {T R : Type 0} (e : Engine T R) (m : ModelName) where
  Agrees-transfer :
      (r : Result (Option R × T)) (x : Option R) (b c : Archive R)
      → Agrees e m r (ok (x, b))
      → ((j : ℕ) → b j ≡ c j)
      → Agrees e m r (ok (x, c))
  Agrees-transfer (ok (y, t)) x b c (p, shows) same = (p, λ j. shows j ∙ same j)
  Agrees-transfer (err f) x b c h same = h

module _ {T R : Type 0} (e : Engine T R) (m : ModelName) (listed : is_soft_delete_model m ≡ true)
    (now : ℕ) where
  find_including-Agrees :
      (k : ℕ) (t : T) (a : Archive R)
      → Shows e m t a
      → Agrees e m (run e m now (find_deleted_too k) t) (step (find_deleted_too k) a)
  unfolding find_including_deleted through
  find_including-Agrees k t a h =
      rw
        (
          forward_read_all m listed now find_unique (by_id k) refl,
          e.next-find_unique m (by_id k) k t (refl, refl) refl,
          ◌>>=◌,
          first_found k (select (by_id k) k (e.read t k)),
        )
        (all-select k (e.read t k) ∙ ap (Option.map (λ x. x.1)) (h k), h)

  restore-Agrees :
      (k : ℕ) (t : T) (a : Archive R)
      → Shows e m t a
      → Agrees e m (run e m now (bring_back k) t) (step (bring_back k) a)
  unfolding restore through
  restore-Agrees k t a h =
      let (n, t', runs, reads) = e.next-update_many m (deleted_id k) (stamp none) t (refl, refl) in
      let (x, c, spec, lives, same) =
        bring_back_lem k a (λ j. view (e.read t' j))
          (λ j. ap view (reads j) ∙ view-change k j (e.read t j) ∙ rw (h j) refl) in
      rw
        (
          forward_restore m listed now (deleted_id k) (stamp none) update_many refl refl,
          runs,
          ◌>>=◌,
          if_same (n == 0) (find_by_id e m now k),
        )
        (subst (Agrees e m (row_of e m (find_by_id e m now k) t')) (sym spec) (
          Agrees-transfer e m _ x (λ j. view (e.read t' j)) c
            (subst (λ y. Agrees e m (run e m now (find k) t') (ok (y, λ j. view (e.read t' j))))
              lives (find-Agrees e m listed now k t' (λ j. view (e.read t' j)) (λ j. refl)))
            same))

module _ {T R : Type 0} (e : Engine T R) (m : ModelName)
    (listed : is_soft_delete_model m ≡ true) where
  run-Agrees :
      (now : ℕ) (op : Op R) (t : T) (a : Archive R)
      → Shows e m t a
      → Agrees e m (run e m now op t) (step op a)
  run-Agrees now (find k) t a h = find-Agrees e m listed now k t a h
  run-Agrees now (find_deleted_too k) t a h = find_including-Agrees e m listed now k t a h
  run-Agrees now (update_with k f d) t a h = update-Agrees e m listed now k f d t a h
  run-Agrees now (restore_one k) t a h = restore_one-Agrees e m listed now k t a h
  run-Agrees now (remove k) t a h = delete-Agrees e m listed now k t a h
  run-Agrees now (mark_deleted k) t a h = soft_delete-Agrees e m listed now k t a h
  run-Agrees now (bring_back k) t a h = restore-Agrees e m listed now k t a h

  Agrees-bind :
      {A B : Type 0} (f : Result (A × T)) (g : Result (A × Archive R)) (k : A → Tx T B)
      (l : A → Tx (Archive R) B)
      → Agrees e m f g
      → ((x : A) (t : T) (a : Archive R) → Shows e m t a → Agrees e m (k x t) (l x a))
      → Agrees e m
          (elim f [ ok (x, t) ↦ k x t | err y ↦ err y ])
          (elim g [ ok (x, a) ↦ l x a | err y ↦ err y ])
  Agrees-bind (ok (x, t)) (ok (y, a)) k l (p, h) both =
      subst (λ z. Agrees e m (k x t) (l z a)) p (both x t a h)
  Agrees-bind (ok (x, t)) (err f) k l h both = elim h [ ]
  Agrees-bind (err f) (ok (y, a)) k l h both = elim h [ ]
  Agrees-bind (err f) (err g) k l h both = h

  -- However calls by id of findById, update, delete, softDelete and restore of a repository and of
  -- findIncludingDeleted and restore of the service follow one another, on a model of the list: where
  -- the table shows an archive of live and deleted rows, the calls give the answers and the errors of
  -- the archive, and afterwards the table shows what the archive became. In the archive these calls
  -- keep a deleted row; only findIncludingDeleted finds it; delete, softDelete and an update fail on
  -- it with P2025, save for an update whose data say deletedAt null, which changes it and makes it
  -- live, as both restores do with the row as it was; no call touches another row.
  pub run_all-Agrees :
      (ops : List (ℕ × Op R)) (t : T) (a : Archive R)
      → Shows e m t a
      → Agrees e m (run_all e m ops t) (step_all ops a)
  run_all-Agrees [] t a h = (refl, h)
  run_all-Agrees ((now, op) ∷ ops) t a h =
      Agrees-bind (run e m now op t) (step op a) _ _ (run-Agrees now op t a h) (λ x t' a' h'.
        Agrees-bind (run_all e m ops t') (step_all ops a') _ _ (run_all-Agrees ops t' a' h')
          (λ xs t'' a'' h''. (refl, h'')))
