-- ===== src/SoftDelete/Archive.antt =====
-- The specification of a soft-deletable model, an archive of rows that are live or not, and the calls
-- of the repositories and the service that it is about.
use mathlib.Core.Option
use stellar_insured_backend.Prelude.{
  Bool, List, Option, [], false, if◌then◌else◌, is_some, none, not, some, true, ℕ, ◌==◌, ◌∷◌, ◌≡◌,
}
use stellar_insured_backend.Database.{Result, Tx, err, ok, pure, record_not_found, ◌>>=◌}
use stellar_insured_backend.SoftDelete.{ModelName}
use stellar_insured_backend.SoftDelete.Engine.{Engine, Stored}
use stellar_insured_backend.SoftDelete.Service.{
  by_id, delete_by_id, find_by_id, find_including_deleted, restore, restore_record, soft_delete,
  update_by_id,
}

pub data Op (R : Type 0) : Type 0 where
  find : ℕ → Op R
  find_deleted_too : ℕ → Op R
  update_with : ℕ → (R → R) → Option (Option ℕ) → Op R
  restore_one : ℕ → Op R
  remove : ℕ → Op R
  mark_deleted : ℕ → Op R
  bring_back : ℕ → Op R

-- The specification: an archive, where the date of a deletion is forgotten.
abbrev pub Archive : Type 0 → Type 0
Archive R = ℕ → Option (Bool × R)

module _ {R : Type 0} where
  abbrev pub live : Option (Bool × R) → Option R
  live none = none
  live (some (is_live, r)) = if is_live then some r else none

  abbrev pub put : Archive R → ℕ → Bool → R → Archive R
  put a k is_live r j = if k == j then some (is_live, r) else a j

  -- A row that is written, or P2025 where there is no live one.
  abbrev pub write_live : Archive R → ℕ → Bool → (R → R) → Result (Option R × Archive R)
  write_live a k is_live f = elim (live (a k)) [
    | none ↦ err record_not_found
    | some r ↦ ok (some (f r), put a k is_live (f r))
  ]

  -- A row that is written and made live, deleted or not, or P2025 where there is none.
  abbrev pub write_any : Archive R → ℕ → (R → R) → Result (Option R × Archive R)
  write_any a k f = elim (a k) [
    | none ↦ err record_not_found
    | some (is_live, r) ↦ ok (some (f r), put a k true (f r))
  ]

  abbrev pub step : Op R → Archive R → Result (Option R × Archive R)
  step (find k) a = ok (live (a k), a)
  step (find_deleted_too k) a = ok (Option.map (λ x. x.1) (a k), a)
  step (update_with k f none) a = write_live a k true f
  step (update_with k f (some none)) a = write_any a k f
  step (update_with k f (some (some date))) a = write_live a k false f
  step (restore_one k) a = write_any a k (λ r. r)
  step (remove k) a = write_live a k false (λ r. r)
  step (mark_deleted k) a = write_live a k false (λ r. r)
  step (bring_back k) a = elim (a k) [
    | none ↦ ok (none, a)
    | some (is_live, r) ↦ ok (some r, put a k true r)
  ]

  abbrev pub view : Option (Stored R) → Option (Bool × R)
  view none = none
  view (some s) = some (not (is_some s.deleted_at), s.row)

module _ {T R : Type 0} (e : Engine T R) (m : ModelName) where
  abbrev pub row_of : Tx T (Option (Stored R)) → Tx T (Option R)
  row_of f = do answer ← f; pure (Option.map (λ s. s.row) answer)

  abbrev pub run : ℕ → Op R → Tx T (Option R)
  run now (find k) = row_of (find_by_id e m now k)
  run now (find_deleted_too k) = row_of (find_including_deleted e m now (by_id k))
  run now (update_with k f d) =
      row_of (update_by_id e m now k (record { body = f; deleted_at = d }))
  run now (restore_one k) = row_of (restore_record e m now (by_id k))
  run now (remove k) = row_of (delete_by_id e m now k)
  run now (mark_deleted k) = row_of (soft_delete e m now k)
  run now (bring_back k) = row_of (restore e m now k)

  -- The table shows the archive.
  abbrev pub Shows : T → Archive R → Type 0
  Shows t a = (k : ℕ) → view (e.read t k) ≡ a k

  -- Both ended with the same answer, the table showing the archive, or with the same error.
  abbrev pub Agrees : {A : Type 0} → Result (A × T) → Result (A × Archive R) → Type 0
  Agrees (ok (x, t)) (ok (y, a)) = (x ≡ y) × Shows t a
  Agrees (err x) (err y) = x ≡ y
  Agrees _ _ = ⊥

  -- Calls one after another, each at its time; an error stops them.
  abbrev pub run_all : List (ℕ × Op R) → Tx T (List (Option R))
  run_all [] = pure []
  run_all ((now, op) ∷ ops) = do x ← run now op; xs ← run_all ops; pure (x ∷ xs)

abbrev pub step_all : {R : Type 0} → List (ℕ × Op R) → Tx (Archive R) (List (Option R))
step_all [] = pure []
step_all ((now, op) ∷ ops) = do x ← step op; xs ← step_all ops; pure (x ∷ xs)
