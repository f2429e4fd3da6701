-- ===== src/SoftDelete/Store.antt =====
-- A list of rows as the client behind the middleware, which shows that what is assumed of it can be met.
use mathlib.Core.Option
use stellar_insured_backend.Database.{Tx, err, failure, ok, record_not_found}
use stellar_insured_backend.SoftDelete.{
  Action, ModelName, Params, Payload, Where, delete, delete_many, find_many, find_unique,
  update_many,
}
use stellar_insured_backend.SoftDelete.Engine.{
  Answer, Engine, Stored, apply_payload, change, counted, lookup, many, one, query, reject, select,
  selects, write,
}
use stellar_insured_backend.Prelude.{
  ==_iff, Bool-cases, List, Option, [], ap, arith, if◌then◌else◌, inl, inr, length, none, refl,
  some, ℕ, ◌==◌, ◌∙◌, ◌∷◌, ◌≡◌,
}

abbrev pub Entries : Type 0 → Type 0
Entries R = List (ℕ × Stored R)

module _ {R : Type 0} where
  abbrev put_entry : Entries R → ℕ → Stored R → Entries R
  put_entry [] k s = (k, s) ∷ []
  put_entry ((j, x) ∷ t) k s = if j == k then (k, s) ∷ t else (j, x) ∷ put_entry t k s

  abbrev drop_entry : Entries R → ℕ → Entries R
  drop_entry [] k = []
  drop_entry ((j, x) ∷ t) k = if j == k then drop_entry t k else (j, x) ∷ drop_entry t k

  abbrev change_entries : Where R → Payload (R → R) → Entries R → Entries R
  change_entries w d [] = []
  change_entries w d ((j, s) ∷ t) =
      (j, if selects w j s then apply_payload d s else s) ∷ change_entries w d t

  -- The listed ids with the rows that a function gives them.
  abbrev gather : (ℕ → Option (Stored R)) → Entries R → Entries R
  gather g [] = []
  gather g ((j, x) ∷ t) = elim (g j) [ none ↦ gather g t | some s ↦ (j, s) ∷ gather g t ]

  pub lookup-put :
      (t : Entries R) (k j : ℕ) (s : Stored R)
      → lookup (put_entry t k s) j ≡ (if k == j then some s else lookup t j)
  lookup-put [] k j s = refl
  lookup-put ((i, x) ∷ t) k j s = ground (arith, lookup-put t k j s)

  pub lookup-drop :
      (t : Entries R) (k j : ℕ) → lookup (drop_entry t k) j ≡ (if k == j then none else lookup t j)
  lookup-drop [] k j = ground arith
  lookup-drop ((i, x) ∷ t) k j = ground (arith, lookup-drop t k j)

  pub lookup-change :
      (w : Where R) (d : Payload (R → R)) (t : Entries R) (j : ℕ)
      → lookup (change_entries w d t) j ≡ change w d j (lookup t j)
  lookup-change w d [] j = refl
  lookup-change w d ((i, x) ∷ t) j = elim (Bool-cases (i == j)) [
    | inl e ↦ rw (e, (==_iff i j).0 e) (ground arith)
    | inr ne ↦ rw ne (lookup-change w d t j)
  ]

  abbrev known : Option (Stored R) → Option (Stored R) → Option (Stored R)
  known none o = none
  known (some x) o = o

  pub lookup-gather :
      (g : ℕ → Option (Stored R)) (t : Entries R) (k : ℕ)
      → lookup (gather g t) k ≡ known (lookup t k) (g k)
  lookup-gather g [] k = refl
  lookup-gather g ((j, x) ∷ t) k = ground (arith, lookup-gather g t k, ==_iff j k)

  pub known-select :
      (w : Where R) (k : ℕ) (o : Option (Stored R)) → known o (select w k o) ≡ select w k o
  known-select w k none = refl
  known-select w k (some s) = refl

  pub known-reject :
      (w : Where R) (k : ℕ) (o : Option (Stored R)) → known o (reject w k o) ≡ reject w k o
  known-reject w k none = refl
  known-reject w k (some s) = refl

  abbrev picked : Where R → Entries R → Entries R
  picked w t = gather (λ j. select w j (lookup t j)) t

  abbrev kept : Where R → Entries R → Entries R
  kept w t = gather (λ j. reject w j (lookup t j)) t

  -- One row by its id.
  abbrev one_by : Option ℕ → Where R → Entries R → Option (ℕ × Stored R)
  one_by none w t = none
  one_by (some k) w t = Option.map (λ s. (k, s)) (select w k (lookup t k))

  abbrev selected : Where R → Entries R → Option (ℕ × Stored R)
  selected w t = one_by w.id w t

  abbrev answer : Action → Where R → Option (Payload (R → R)) → Tx (Entries R) (Answer R)
  answer find_unique w d t = ok (one (selected w t), t)
  answer find_many w d t = ok (many (picked w t), t)
  answer Action.count w d t = ok (counted (length (picked w t)), t)
  answer Action.update w (some d) t = elim (selected w t) [
    | none ↦ err record_not_found
    | some (k, s) ↦ ok (one (some (k, apply_payload d s)), put_entry t k (apply_payload d s))
  ]
  answer update_many w (some d) t = ok (counted (length (picked w t)), change_entries w d t)
  answer delete w d t = elim (selected w t) [
    | none ↦ err record_not_found
    | some (k, s) ↦ ok (one (some (k, s)), drop_entry t k)
  ]
  answer delete_many w d t = ok (counted (length (picked w t)), kept w t)
  answer _ w d t = err failure

  abbrev next : Params R → Tx (Entries R) (Answer R)
  next p t = elim p.args [
    | none ↦ err failure
    | some args ↦ elim args.filter [
      | none ↦ err failure
      | some w ↦ answer p.action w args.payload t
    ]
  ]

  selected_lem :
      (w : Where R) (k : ℕ) (t : Entries R)
      → w.id ≡ some k
      → selected w t ≡ Option.map (λ s. (k, s)) (select w k (lookup t k))
  selected_lem w k t i = ap (λ o. one_by o w t) i

  pub next-find_unique :
      (m : ModelName) (w : Where R) (k : ℕ) (t : Entries R)
      → w.id ≡ some k
      → next (query m find_unique w) t
        ≡ ok (one (Option.map (λ s. (k, s)) (select w k (lookup t k))), t)
  next-find_unique m w k t i = ap (λ o. ok (one o, t)) (selected_lem w k t i)

  pub next-update :
      (m : ModelName) (w : Where R) (d : Payload (R → R)) (k : ℕ) (s : Stored R) (t : Entries R)
      → w.id ≡ some k
      → select w k (lookup t k) ≡ some s
      → next (write m Action.update w d) t
        ≡ ok (one (some (k, apply_payload d s)), put_entry t k (apply_payload d s))
  next-update m w d k s t i h =
      let e : selected w t ≡ some (k, s) = selected_lem w k t i ∙ ap (Option.map (λ s. (k, s))) h in
      rw (e, answer) refl

  pub next-update_missing :
      (m : ModelName) (w : Where R) (d : Payload (R → R)) (k : ℕ) (t : Entries R)
      → w.id ≡ some k
      → select w k (lookup t k) ≡ none
      → next (write m Action.update w d) t ≡ err record_not_found
  next-update_missing m w d k t i h =
      let e : selected w t ≡ none = selected_lem w k t i ∙ ap (Option.map (λ s. (k, s))) h in
      rw (e, answer) refl

  pub next-delete :
      (m : ModelName) (w : Where R) (k : ℕ) (s : Stored R) (t : Entries R)
      → w.id ≡ some k
      → select w k (lookup t k) ≡ some s
      → next (query m delete w) t ≡ ok (one (some (k, s)), drop_entry t k)
  next-delete m w k s t i h =
      let e : selected w t ≡ some (k, s) = selected_lem w k t i ∙ ap (Option.map (λ s. (k, s))) h in
      rw (e, answer) refl

  pub next-delete_missing :
      (m : ModelName) (w : Where R) (k : ℕ) (t : Entries R)
      → w.id ≡ some k
      → select w k (lookup t k) ≡ none
      → next (query m delete w) t ≡ err record_not_found
  next-delete_missing m w k t i h =
      let e : selected w t ≡ none = selected_lem w k t i ∙ ap (Option.map (λ s. (k, s))) h in
      rw (e, answer) refl

abbrev pub list_engine : (R : Type 0) → Engine (Entries R) R
list_engine R = record {
  read = lookup;
  next = next;
  next-find_unique = λ m w k t p i. next-find_unique m w k t i;
  next-find_many =
      λ m w t p. (picked w t, refl, refl, λ k. lookup-gather _ t k ∙ known-select w k (lookup t k));
  next-update = λ m w d k s t p i h.
      (put_entry t k (apply_payload d s), next-update m w d k s t i h, λ j. lookup-put t k j _);
  next-update_missing = λ m w d k t p i h. next-update_missing m w d k t i h;
  next-update_many =
      λ m w d t p. (length (picked w t), change_entries w d t, refl, λ j. lookup-change w d t j);
  next-delete =
      λ m w k s t p i h. (drop_entry t k, next-delete m w k s t i h, λ j. lookup-drop t k j);
  next-delete_missing = λ m w k t p i h. next-delete_missing m w k t i h;
  next-delete_many = λ m w t p. (
    length (picked w t),
    kept w t,
    refl,
    λ j. lookup-gather _ t j ∙ known-reject w j (lookup t j),
  );
}
