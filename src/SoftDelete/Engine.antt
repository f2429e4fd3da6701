-- ===== src/SoftDelete/Engine.antt =====
-- What the soft-delete layer relies on in the client behind the middleware: how a forwarded query
-- reads and changes the stored rows of one model.
use mathlib.Core.Option
use stellar_insured_backend.Prelude.{
  Bool, List, Option, [], false, if◌then◌else◌, is_some, length, ltb, none, not, some, true, ℕ,
  ◌&&◌, ◌==◌, ◌∷◌, ◌≡◌,
}
use stellar_insured_backend.Database.{Tx, err, ok, record_not_found}
use stellar_insured_backend.SoftDelete.{
  Action, DateFilter, ModelName, Params, Payload, Where, delete, delete_many, find_many,
  find_unique, is_null, no_args, not_null, not_null_before, update_many,
}

pub record Stored (R : Type 0) : Type 0 where
  pub deleted_at : Option ℕ
  pub row : R

pub data Answer (R : Type 0) : Type 0 where
  one : Option (ℕ × Stored R) → Answer R
  many : List (ℕ × Stored R) → Answer R
  counted : ℕ → Answer R

abbrev pub date_passes : Option DateFilter → Option ℕ → Bool
date_passes none d = true
date_passes (some is_null) d = not (is_some d)
date_passes (some not_null) d = is_some d
date_passes (some (not_null_before limit)) none = false
date_passes (some (not_null_before limit)) (some d) = ltb d limit

abbrev pub id_passes : Option ℕ → ℕ → Bool
id_passes none k = true
id_passes (some i) k = i == k

module _ {R : Type 0} where
  abbrev pub selects : Where R → ℕ → Stored R → Bool
  selects w k s = id_passes w.id k && w.fields s.row && date_passes w.deleted_at s.deleted_at

  -- The stored row, where the filter selects it, and where it does not.
  abbrev pub select : Where R → ℕ → Option (Stored R) → Option (Stored R)
  select w k none = none
  select w k (some s) = if selects w k s then some s else none

  abbrev pub reject : Where R → ℕ → Option (Stored R) → Option (Stored R)
  reject w k none = none
  reject w k (some s) = if selects w k s then none else some s

  abbrev pub apply_payload : Payload (R → R) → Stored R → Stored R
  apply_payload d s = record {
    deleted_at = elim d.deleted_at [ none ↦ s.deleted_at | some t ↦ t ];
    row = d.body s.row;
  }

  abbrev pub change : Where R → Payload (R → R) → ℕ → Option (Stored R) → Option (Stored R)
  change w d k none = none
  change w d k (some s) = if selects w k s then some (apply_payload d s) else some s

  abbrev pub lookup : List (ℕ × Stored R) → ℕ → Option (Stored R)
  lookup [] k = none
  lookup ((j, s) ∷ rows) k = if j == k then some s else lookup rows k

  -- A filter without the flags of the middleware, which the client does not know.
  abbrev pub Plain : Where R → Type 0
  Plain w = (w.include_deleted ≡ none) × (w.hard_delete ≡ none)

  abbrev pub query : ModelName → Action → Where R → Params R
  query m a w = record { model = m; action = a; args = some (record no_args { filter = some w }) }

  abbrev pub write : ModelName → Action → Where R → Payload (R → R) → Params R
  write m a w d = record {
    model = m;
    action = a;
    args = some (record no_args { filter = some w; payload = some d });
  }

pub record Engine (T R : Type 0) : Type 0 where
  pub read : T → ℕ → Option (Stored R)
  pub next : Params R → Tx T (Answer R)
  pub next-find_unique :
      (m : ModelName) (w : Where R) (k : ℕ) (t : T)
      → Plain w
      → w.id ≡ some k
      → next (query m find_unique w) t
        ≡ ok (one (Option.map (λ s. (k, s)) (select w k (read t k))), t)
  pub next-find_many :
      (m : ModelName) (w : Where R) (t : T)
      → Plain w
      → (rows : List (ℕ × Stored R)) × (next (query m find_many w) t ≡ ok (many rows, t))
        × (next (query m Action.count w) t ≡ ok (counted (length rows), t))
        × ((k : ℕ) → lookup rows k ≡ select w k (read t k))
  pub next-update :
      (m : ModelName) (w : Where R) (d : Payload (R → R)) (k : ℕ) (s : Stored R) (t : T)
      → Plain w
      → w.id ≡ some k
      → select w k (read t k) ≡ some s
      → (t' : T) × (next (write m Action.update w d) t ≡ ok (one (some (k, apply_payload d s)), t'))
        × ((j : ℕ) → read t' j ≡ (if k == j then some (apply_payload d s) else read t j))
  pub next-update_missing :
      (m : ModelName) (w : Where R) (d : Payload (R → R)) (k : ℕ) (t : T)
      → Plain w
      → w.id ≡ some k
      → select w k (read t k) ≡ none
      → next (write m Action.update w d) t ≡ err record_not_found
  pub next-update_many :
      (m : ModelName) (w : Where R) (d : Payload (R → R)) (t : T)
      → Plain w
      → (n : ℕ) × (t' : T) × (next (write m update_many w d) t ≡ ok (counted n, t'))
        × ((j : ℕ) → read t' j ≡ change w d j (read t j))
  pub next-delete :
      (m : ModelName) (w : Where R) (k : ℕ) (s : Stored R) (t : T)
      → Plain w
      → w.id ≡ some k
      → select w k (read t k) ≡ some s
      → (t' : T) × (next (query m delete w) t ≡ ok (one (some (k, s)), t'))
        × ((j : ℕ) → read t' j ≡ (if k == j then none else read t j))
  pub next-delete_missing :
      (m : ModelName) (w : Where R) (k : ℕ) (t : T)
      → Plain w
      → w.id ≡ some k
      → select w k (read t k) ≡ none
      → next (query m delete w) t ≡ err record_not_found
  pub next-delete_many :
      (m : ModelName) (w : Where R) (t : T)
      → Plain w
      → (n : ℕ) × (t' : T) × (next (query m delete_many w) t ≡ ok (counted n, t'))
        × ((j : ℕ) → read t' j ≡ reject w j (read t j))
